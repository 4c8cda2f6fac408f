-- ===== src/Cowfs/Tests.antt =====
-- Runs of the copy-on-write file system over a base of two files. The overlay is a map of files.
use wanix.Base.{
  Bytes, codes, ◌≡◌, refl, Bool, true, false, Option, none, some, [], ◌∷◌, bytes_eq, Map, lookup,
  put, delete, eq_bytes, ◌↔◌, is_empty, if◌then◌else◌,
}
use wanix.Errors.{bare, not_exist, Result, ok, err}
use wanix.Paths.{clean}
use wanix.Contexts.{background}
use wanix.Actions.{Action, ◌>>=◌, ◌>>◌}
use wanix.Cowfs.{Layers, Fs, resolve_terminal, resolve_path, max_hops}
use wanix.Cowfs.Changes.{rename, remove, mkdir}
use wanix.Cowfs.Views.{stat_context, readlink, open_name_read, create, open_file}
use wanix.Cowfs.Chains.{IsEnd, resolve_terminal_iff}
use wanix.Cowfs.Removal.{remove-unseen}
use wanix.Listings.{overlay_entries}
use wanix.Listings.Order.{named}
use wanix.Cowfs.Views.{hides}
use wanix.Paths.{join}
use wanix.Cowfs.Listed.{listing, remove-unlisted}
use wanix.Listings.{Dir}
use wanix.Cowfs.Records.{Entry, gone, became}
use wanix.Cowfs.Views.{load_content}
use wanix.Base.{has_prefix, trim_space, split_on, List}
use wanix.Cowfs.Renamed.{rename-links}

abbrev Files : Type 0
Files = Map Bytes Bytes

abbrev found : Option Bytes → Result Bytes
found none = err (bare not_exist)
found (some content) = ok content

abbrev stored : Bytes → Bytes → Option Bytes → Action Files (Unit {0})
stored old new none s = (err (bare not_exist), s)
stored old new (some content) s = (ok tt, put new content (delete old s))

abbrev beneath : Files
beneath = (codes "a", codes "alpha") ∷ (codes "b", codes "beta") ∷ []

abbrev opened : Bytes → Bool → Option Bytes → Action Files Bytes
opened path make (some content) s = (ok content, s)
opened path true none s = (ok [], put path [] s)
opened path false none s = (err (bare not_exist), s)

-- Files only: no directories, links or times.
abbrev layers : Layers Files Bytes Bytes
layers = record {
  is_dir = λ info. false;
  base_stat = λ path. found (lookup path beneath);
  base_lstat = λ path. found (lookup path beneath);
  base_readlink = λ path. err (bare not_exist);
  base_entries = λ path. err (bare not_exist);
  base_open = λ path. found (lookup path beneath);
  base_open_file = λ path flag perm. found (lookup path beneath);
  stat = λ path s. found (lookup path s);
  lstat = λ path s. found (lookup path s);
  readlink = λ path s. err (bare not_exist);
  entries = λ path s. err (bare not_exist);
  open_read = λ path s. found (lookup path s);
  open_file = λ path flag perm s. opened path flag.create (lookup path s) s;
  mkdir = λ path perm s. (ok tt, s);
  mkdir_all = λ path perm s. (ok tt, s);
  remove = λ path s. (ok tt, delete path s);
  rename = λ old new s. stored old new (lookup old s) s;
  symlink = λ old new s. (ok tt, s);
  chtimes = λ path atime mtime s. (ok tt, s);
  chmod = λ path mode s. (ok tt, s);
  chown = λ path uid gid s. (ok tt, s);
  write_file = λ path content perm s. (ok tt, put path content s);
  copy_up = λ old new s. stored [] new (lookup old beneath) s;
  sha1_hex = λ name. name;
}

abbrev fresh : Fs Files
fresh = record { overlay = []; tombstones = []; renames = []; whiteout_dir = [] }

abbrev after : Action (Fs Files) (Unit {0}) → Fs Files → Fs Files
after act u = (act u).1

-- One file is moved twice, and then moved back.
abbrev moved_once : Fs Files
moved_once = record {
  overlay = (codes "c", codes "alpha") ∷ [];
  tombstones = (codes "a", tt) ∷ [];
  renames = (codes "a", codes "c") ∷ [];
  whiteout_dir = [];
}

abbrev moved_twice : Fs Files
moved_twice = record {
  overlay = (codes "d", codes "alpha") ∷ [];
  tombstones = (codes "a", tt) ∷ [];
  renames = (codes "a", codes "d") ∷ [];
  whiteout_dir = [];
}

abbrev moved_back : Fs Files
moved_back = record {
  overlay = (codes "a", codes "alpha") ∷ [];
  tombstones = [];
  renames = (codes "a", codes "a") ∷ [];
  whiteout_dir = [];
}

abbrev copied_b : Fs Files
copied_b = record {
  overlay = (codes "b", codes "beta") ∷ [];
  tombstones = [];
  renames = (codes "b", codes "b") ∷ [];
  whiteout_dir = [];
}

abbrev without_b : Fs Files
without_b = record {
  overlay = [];
  tombstones = (codes "b", tt) ∷ [];
  renames = [];
  whiteout_dir = [];
}

rename_once : rename layers (codes "a") (codes "c") fresh ≡ (ok tt, moved_once)
unfolding rename ◌>>=◌ ◌>>◌
rename_once = refl

rename_twice : rename layers (codes "c") (codes "d") moved_once ≡ (ok tt, moved_twice)
unfolding rename ◌>>=◌ ◌>>◌
rename_twice = refl

rename_back : rename layers (codes "c") (codes "a") moved_once ≡ (ok tt, moved_back)
unfolding rename ◌>>=◌ ◌>>◌
rename_back = refl

remove_base : remove layers (codes "b") fresh ≡ (ok tt, without_b)
unfolding remove ◌>>=◌ ◌>>◌
remove_base = refl

rename_onto_itself : rename layers (codes "b") (codes "b") fresh ≡ (ok tt, copied_b)
unfolding rename ◌>>=◌ ◌>>◌
rename_onto_itself = refl

-- The directory of a file that is made in place of a moved one: it is the moved one.
create_moved :
    open_name_read layers (codes "c") (create layers (codes "a") moved_once).1
    ≡ open_name_read layers (codes "c") moved_once
unfolding create open_name_read ◌>>=◌ ◌>>◌
create_moved = refl

-- A file that was deleted from the base, and is opened to be made: it has the deleted content.
create_deleted :
    (open_file layers
      (codes "b")
      (record {
        wronly = false;
        rdwr = true;
        append = false;
        create = true;
        trunc = false;
        excl = false;
      })
      420
      without_b).0
    ≡ ok (codes "beta")
unfolding open_file ◌>>=◌ ◌>>◌ put
create_deleted = refl

-- A directory that is made in place of a moved file: the moved file is still found.
mkdir_moved : (mkdir layers (codes "a") 493 moved_once).0 ≡ ok tt
unfolding mkdir ◌>>=◌ ◌>>◌ lookup
mkdir_moved = refl

mkdir_moved_hidden :
    resolve_path (codes "a") (mkdir layers (codes "a") 493 moved_once).1 ≡ ok (codes "c")
unfolding mkdir resolve_path ◌>>=◌ ◌>>◌
mkdir_moved_hidden = refl

abbrev chain : Map Bytes Bytes
chain = (codes "a", codes "b") ∷ (codes "b", codes "c") ∷ []

resolve_terminal_iff_example :
    (resolve_terminal (codes "a") chain ≡ ok (codes "c"))
    ↔ IsEnd chain max_hops (codes "a") (codes "c")
resolve_terminal_iff_example = resolve_terminal_iff chain (codes "a") (codes "c")

remove-unseen_example :
    (stat_context layers (background {F = Bytes}) (codes "b") without_b ≡ err (bare not_exist))
    × (readlink layers (codes "b") without_b ≡ err (bare not_exist))
    × (open_name_read layers (codes "b") without_b ≡ err (bare not_exist))
unfolding remove clean lookup
remove-unseen_example = remove-unseen layers background (codes "b") fresh without_b refl remove_base

-- `x` leads to "c" by way of `a`.
abbrev chained : Fs Files
chained = record moved_once { renames = (codes "x", codes "a") ∷ (codes "a", codes "c") ∷ [] }

abbrev chained_on : Fs Files
chained_on = record moved_twice { renames = (codes "x", codes "a") ∷ (codes "a", codes "d") ∷ [] }

rename_chained : rename layers (codes "c") (codes "d") chained ≡ (ok tt, chained_on)
unfolding rename ◌>>=◌ ◌>>◌
rename_chained = refl

rename-links_example :
    (resolve_path (clean (codes "d")) chained_on ≡ ok (clean (codes "d")))
    × (resolve_path (codes "x") chained_on ≡ ok (clean (codes "d")))
unfolding clean lookup eq_bytes resolve_path
rename-links_example =
    rename-links layers (codes "c") (codes "d") (codes "c") (codes "x") chained chained_on refl refl
      refl refl refl refl rename_chained

abbrev entry_name : Bytes → Bytes
entry_name e = e

-- The base with its root, a directory of the two files.
abbrev at_root : Bytes → Result Bytes
at_root path = if eq_bytes path (codes ".") then ok [] else found (lookup path beneath)

abbrev rooted : Layers Files Bytes Bytes
rooted = record layers { is_dir = is_empty; base_lstat = at_root; base_open = at_root }

abbrev root_contents : Bytes → Dir Bytes
root_contents h = if is_empty h then some (ok (codes "b" ∷ codes "a" ∷ [])) else none

remove_rooted : remove rooted (codes "b") fresh ≡ (ok tt, without_b)
unfolding remove ◌>>=◌ ◌>>◌
remove_rooted = refl

remove-unlisted_example : named entry_name (codes "b") (codes "a" ∷ []) ≡ []
unfolding clean lookup eq_bytes join hides overlay_entries remove open_name_read listing ◌>>=◌
remove-unlisted_example =
    remove-unlisted rooted entry_name root_contents (codes "b") (codes ".") (codes ".") (codes "b")
      fresh without_b [] none (codes "a" ∷ []) refl remove_rooted refl refl refl refl

abbrev books : List Entry
books = gone (codes "b") ∷ became (codes "a") (codes "c") ∷ []

-- Of a name with a space, the record of a move is read as its first two words.
load_spaced :
    (load_content (codes ".wh") (codes ".wh/renames/2") (codes "a b c") fresh).1.renames
    ≡ (codes "a", codes "b") ∷ []
unfolding load_content has_prefix join clean trim_space split_on put
load_spaced = refl

abbrev read_file : Bytes → Files → Result Bytes
read_file path s = found (lookup path s)

abbrev recording : Fs Files
recording = record fresh { whiteout_dir = codes ".wh" }
