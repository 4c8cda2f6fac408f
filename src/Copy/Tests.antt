-- ===== src/Copy/Tests.antt =====
-- Concrete file systems for fs/copy.go, runs, and the theorems at them. A state is a map from paths
-- to files; the source is the part under `a`, which no write changes, with one level below it.
use wanix.Base.{
  ℕ, ◌≡◌, ◌≢◌, refl, Bytes, true, false, none, some, List, [], ◌∷◌, codes, if◌then◌else◌, bytes_eq,
  eq_bytes, Map, lookup, put, delete,
}
use wanix.Errors.{Error, Result, ok, err, bare, not_exist, other}
use wanix.Actions.{Action}
use wanix.Paths.{join}
use wanix.Backends.{regular_file, directory, Info, Entry, FileSystem}
use wanix.Copy.{copy_fs, copy_new_fs, copy_file, copy_all}
use wanix.Copy.Laws.{copy_file-blind}
use wanix.Copy.Total.{Each, IsStill, IsWithin, copy_fs-total}

-- What the copies have written: the path, and the mode that it was given last.
abbrev pub World : Type 0
World = Map Bytes ℕ

abbrev pub missing : Error
missing = bare not_exist

abbrev a_file : Info
a_file = record { kind = regular_file; perm = 420; mod_time = 5 }

abbrev a_dir : Info
a_dir = record { kind = directory; perm = 0; mod_time = 5 }

-- A directory `a` with the file `b` in it.
abbrev info_of : Bytes → Result Info
info_of path =
    if eq_bytes path (codes "a")
    then ok a_dir
    else if eq_bytes path (codes "a/b")
    then ok a_file
    else err missing

abbrev entries_of : Bytes → Result (List Entry)
entries_of path =
    if eq_bytes path (codes "a")
    then ok (record { name = codes "b"; info = ok a_file } ∷ [])
    else err missing

abbrev noted : Bytes → ℕ → Action World (Unit {0})
noted path mode w = (ok tt, put path mode w)

abbrev target_info : Bytes → World → Result Info
target_info path w = elim (lookup path w) [
  | none ↦ err missing
  | some mode ↦ ok (record { kind = regular_file; perm = mode; mod_time = 5 })
]

abbrev file_system : (Bytes → World → Result Info) → FileSystem World Bytes
file_system found = record {
  stat = found;
  lstat = found;
  read_dir = λ path w. entries_of path;
  readlink = λ path w. err missing;
  open_read = λ path w. ok path;
  open_file = λ path flag perm w. (ok path, put path perm w);
  create = λ path w. (ok path, put path 420 w);
  mkdir = noted;
  mkdir_all = noted;
  remove = λ path w. (ok tt, delete path w);
  rename = λ old new w. (ok tt, w);
  symlink = λ old new. noted new 511;
  chmod = noted;
  chown = λ path uid gid w. (ok tt, w);
  chtimes = λ path atime mtime w. (ok tt, w);
  file_stat = λ h w. ok a_file;
  is_writer = λ h. true;
  file_read_all = λ h w. ok [];
  file_write = λ h p w. ((1, none), w);
  file_write_at = λ h p off w. ((1, none), w);
  file_close = λ h w. (ok tt, w);
}

abbrev source : FileSystem World Bytes
source = file_system (λ path w. info_of path)

abbrev target : FileSystem World Bytes
target = file_system target_info

-- Copying that fails, with nothing written, and copying that works.
abbrev broken : Bytes → Bytes → Action World (Unit {0})
broken d s w = (err (bare (other 7)), w)

abbrev working : Bytes → Bytes → Action World (Unit {0})
working d s w = (ok tt, w)

-- A directory without permissions comes out with two of its owner's: they are not put back.
copies_tree :
    copy_fs working source target 2 (codes "a") (codes "c") []
    ≡ some (ok tt, (codes "c", 320) ∷ (codes "c/b", 420) ∷ [])
unfolding copy_fs put join lookup
copies_tree = refl

-- The copying of the contents fails, and the result does not say so.
copies_nothing :
    copy_file broken source target (codes "a/b") (codes "c") 420 [] ≡ (ok tt, (codes "c", 420) ∷ [])
unfolding copy_file put eq_bytes
copies_nothing = refl

-- A destination that is as new is left alone.
skips_file :
    copy_new_fs working source target 2 (codes "a/b") (codes "c") ((codes "c", 1) ∷ [])
    ≡ some (ok tt, (codes "c", 1) ∷ [])
unfolding copy_new_fs lookup eq_bytes
skips_file = refl

copies_missing : copy_all working source 1 (codes "x") (codes "y") [] ≡ some (err missing, [])
unfolding copy_all eq_bytes
copies_missing = refl

copy_file-blind_example :
    copy_file broken source target (codes "a/b") (codes "c") 420 []
    ≡ copy_file working source target (codes "a/b") (codes "c") 420 []
copy_file-blind_example =
    copy_file-blind source target broken working (λ d s w. refl) (codes "a/b") (codes "c") 420 []

source-IsStill : IsStill working source target info_of entries_of
source-IsStill = record { lstat = λ path w. refl; read_dir = λ path w. refl }

tree-IsWithin : IsWithin working source target info_of entries_of 2 (codes "a")
unfolding IsWithin join eq_bytes
tree-IsWithin info h dir es e = rw (← only) (not_deep, tt)
  where
    only : (record { name = codes "b"; info = ok a_file } ∷ []) ≡ es
    only = cc

    kinds : (i : Info) → ok a_file ≡ ok i → ¬ (i.kind ≡ directory)
    kinds i p q = cc

    not_deep :
        (i : Info)
        → ok a_file ≡ ok i
        → i.kind ≡ directory
        → (xs : List Entry) → entries_of (codes "a/b") ≡ ok xs
        → Each (λ name. true ≡ false) xs
    not_deep i p q xs r = absurd (kinds i p q)

copy_fs-total_example : copy_fs working source target 2 (codes "a") (codes "c") [] ≢ none
copy_fs-total_example =
    copy_fs-total working source target info_of entries_of source-IsStill 2 (codes "a") (codes "c")
      [] tree-IsWithin
