-- ===== src/Httpfs/Tests.antt =====
-- A concrete server for fs/httpfs, runs, and the theorems at it. The state of the server is a
-- version, which each change makes new; every node has the version as its information, and the
-- directory `d` lists the file `f`.
use wanix.Base.{
  Option, false, ℕ, suc, ◌≡◌, ◌≢◌, refl, Bytes, true, false, none, some, List, [], ◌∷◌, arith,
  codes, if◌then◌else◌, bytes_eq, eq_bytes, Map, lookup, put, delete, inl, trim_prefix, has_prefix,
}
use wanix.Errors.{Error, Result, ok, err, bare, not_exist, panicked}
use wanix.Paths.{dot, dir, join, base}
use wanix.Nodes as Nodes
use wanix.Httpfs.{
  Node, DirEntry, CacheEntry, Cacher, node_entry, error_entry, normalize_path, name_of, path_of,
  forget,
}
use wanix.Httpfs.Fetch.{Server, has_part}
use wanix.Httpfs.Reads.{stat_context}
use wanix.Httpfs.Handle.{Handle, Upload, write, close}
use wanix.Httpfs.Writing.{Alike, write-Alike}
use wanix.Httpfs.Forgetting.{Forgets, forget-Forgets}
use wanix.Httpfs.Complete.{forget-children}
use wanix.Httpfs.Crashes.{stat_context-panics}
use wanix.Httpfs.Fresh.{Change, writing, perform, siblings, IsOf, perform-IsOf}

abbrev d : Bytes
d = codes "d"

abbrev f : Bytes
f = codes "d/f"

abbrev file_at : ℕ → Node ℕ
file_at n = record { path = f; info = n; is_dir = false; entries = []; content = [] }

abbrev in_d : DirEntry
in_d = record { path = codes "/d/f"; is_dir = false }

abbrev dir_at : ℕ → Node ℕ
dir_at n = record { path = d; info = n; is_dir = true; entries = in_d ∷ []; content = [] }

abbrev found : Bytes → ℕ → Result (Node ℕ)
found path n =
    if eq_bytes path d
    then ok (dir_at n)
    else if eq_bytes path f
    then ok (file_at n)
    else err (bare not_exist)

abbrev changed : ℕ → Result (Unit {0}) × ℕ
changed n = (ok tt, suc n)

abbrev server : Server ℕ ℕ
server = record {
  get = λ path n. (found path n, n);
  stat = λ path n. (found path n, n);
  list_dir = λ path n. ((dir_at n ∷ file_at n ∷ [], none), n);
  readlink = λ path n. (err (bare not_exist), n);
  write_file = λ path bytes perm mod_time. changed;
  create = λ path bytes mode n. (ok (file_at n), suc n);
  symlink = λ old new. changed;
  rename = λ old new. changed;
  mkdir = λ path perm. changed;
  remove = λ path. changed;
  chmod = λ path mode. changed;
  chown = λ path uid gid. changed;
  chtimes = λ path atime mtime. changed;
  patch = λ path tar. changed;
}

abbrev with_cache : Map Bytes (CacheEntry ℕ) → Cacher ℕ ℕ
with_cache m = record { cache = m; ttl = 10; state = 1; spawned = [] }

abbrev both : Map Bytes (CacheEntry ℕ)
both = (d, node_entry 0 10 (dir_at 1)) ∷ (f, node_entry 0 10 (file_at 1)) ∷ []

-- The directory is deleted from the cache with the file in it.
forgets_both : forget 3 true d both ≡ some []
unfolding forget lookup delete eq_bytes normalize_path trim_prefix has_prefix join name_of path_of
    base node_entry
forgets_both = refl

-- A missing file is cached as missing; then a file under it cannot be asked for.
caches_missing :
    (stat_context server 0 0 1 (codes "x") (with_cache [])).1.cache
    ≡ (codes "x", error_entry 0 10 (bare not_exist)) ∷ []
unfolding stat_context lookup put eq_bytes normalize_path trim_prefix has_prefix has_part base
    error_entry dir
caches_missing = refl

forget-Forgets_example : Forgets d both (forget 3 true d both)
forget-Forgets_example = forget-Forgets 3 true d both (omega arith)

abbrev empty : Map Bytes (CacheEntry ℕ)
empty = []

forget-children_example :
    lookup (normalize_path (join (normalize_path d) (name_of in_d.path))) empty ≡ none
unfolding forget lookup delete eq_bytes normalize_path trim_prefix has_prefix join name_of path_of
    base node_entry
forget-children_example =
    forget-children 3 d both [] (node_entry 0 10 (dir_at 1)) (dir_at 1) in_d (omega arith) refl refl
      refl refl (inl refl)

abbrev without_x : Cacher ℕ ℕ
without_x = with_cache ((codes "x", error_entry 0 10 (bare not_exist)) ∷ [])

stat_context-panics_example :
    stat_context server 3 3 1 (codes "x/y") without_x ≡ (panicked, without_x)
unfolding lookup eq_bytes normalize_path trim_prefix has_prefix has_part dir error_entry
stat_context-panics_example =
    stat_context-panics server 3 3 0 (codes "x/y") without_x 0 (bare not_exist) refl refl
      (omega arith) refl not_root
  where
    not_root : codes "x/y" ≢ dot
    not_root e = ground (arith, e)

abbrev rewrites : Change
rewrites = writing f [] 420 0

perform-IsOf_example : IsOf (siblings server f 2) (node_entry 5 10 (file_at 2))
unfolding perform forget lookup put delete eq_bytes normalize_path trim_prefix has_prefix has_part
    dir path_of
perform-IsOf_example =
    perform-IsOf server 3 5 rewrites (with_cache both) (node_entry 5 10 (file_at 2)) (omega arith)
      refl refl

-- The time that the server has goes back to it, although the file was written to later.
abbrev a_handle : Handle
a_handle = record {
  path = f;
  content = [];
  size = 0;
  mode = 420;
  mod_time = 1;
  position = 0;
  is_dir = false;
  is_closed = false;
  is_dirty = false;
}

-- The state is the times that were sent.
abbrev upload : Upload (List ℕ)
upload = record {
  stat = λ path w. (ok (420, 1), w);
  write_file = λ path bytes mode mod_time w. (ok tt, mod_time ∷ w);
}

abbrev closed_after : Option ((ℕ × Option Error) × Handle) → List ℕ
closed_after none = []
closed_after (some (r, h)) = (close upload h []).1.1

sends_old_time : closed_after (write 9 (codes "ab") a_handle) ≡ 1 ∷ []
unfolding close write
sends_old_time = refl

-- A node with four bytes, open at its third.
abbrev at_third : Handle
at_third = record a_handle { content = codes "abcd"; position = 2 }

abbrev file_at_third : Nodes.NodeFile
file_at_third = record {
  bytes = codes "abcd";
  dirty = false;
  offset = 2;
  closed = false;
  mod_time = 0;
}

write-Alike_example :
    let r = Nodes.write 1000 f none (codes "xyz") 9 file_at_third in
    (h' : Handle) × (write 9 (codes "xyz") at_third ≡ some (r.0, h')) × Alike h' r.1
write-Alike_example =
    write-Alike 1000 9 f (codes "xyz") at_third file_at_third (omega arith) (omega arith)
      (refl, refl, refl)
