-- ===== src/Syncfs/Distinct.antt =====
-- fs/syncfs/syncfs.go: no operation records a path twice.
use wanix.Base.{
  ◌≡◌, refl, Bytes, Bool, true, false, not, ◌&&◌, ◌||◌, Option, none, some, List, [], ◌∷◌, bytes_eq,
  Map, lookup, Bool-cases, inl, inr, IsDistinct, put-IsDistinct, delete-IsDistinct,
}
use wanix.Errors.{Result, ok, err}
use wanix.Backends.{FileSystem}
use wanix.Syncfs.{
  Syncfs, File, Outcome, record_change, changed, then_return, then_changed, create, open_file,
  creates, mkdir, remove, chmod, chown, chtimes, symlink, rename_file, write, write_at, close,
  after_create, after_open, after_rename, then_both, holds, clean_name, run,
}
use wanix.Syncfs.Tracking.{
  Op, creating, removing, opening, making_dir, changing_mode, changing_owner, changing_times,
  linking, renaming, writing, writing_at, closing, perform, perform_all,
}

abbrev pub DistinctOn : Option (Map Bytes Bool) → Type 0
DistinctOn none = Unit {0}
DistinctOn (some m) = IsDistinct m

record_change-IsDistinct :
    (name : Bytes) (b : Bool) (m : Map Bytes Bool)
    → IsDistinct m
    → IsDistinct (record_change name b m)
unfolding record_change
record_change-IsDistinct name b m d = elim (Bool-cases (holds (lookup name m) && not b)) [
  | inl e ↦ rw e (delete-IsDistinct name m d)
  | inr e ↦ rw e (put-IsDistinct name b m d)
]

module _ {W : Type 0} where
  -- The changes that an outcome leaves.
  abbrev Left : {A : Type 0} → Outcome A × Syncfs W → Type 0
  Left r = DistinctOn r.1.changes

  then_return-Distinct :
      {A : Type 0} (name : Bytes) (b : Bool) (r : Result A) (s : Syncfs W)
      → DistinctOn s.changes
      → Left (then_return name b r s)
  unfolding then_return
  then_return-Distinct name b r s d = go s.changes refl d
    where
      go :
          (o : Option (Map Bytes Bool))
          → s.changes ≡ o
          → DistinctOn o
          → Left (then_return name b r s)
      go none e h = rw (then_return, changed, e) (rw e tt)
      go (some m) e h = rw (then_return, changed, e) (record_change-IsDistinct name b m h)

  then_changed-Distinct :
      (name : Bytes) (b : Bool) (r : Result (Unit {0})) (s : Syncfs W)
      → DistinctOn s.changes
      → Left (then_changed name b (r, s))
  unfolding then_changed
  then_changed-Distinct name b (ok u) s d = then_return-Distinct name b (ok tt) s d
  then_changed-Distinct name b (err e) s d = d

module _ {W H : Type 0} (local : FileSystem W H) where
  after_create-Distinct :
      (name : Bytes) (r : Result H) (s : Syncfs W)
      → DistinctOn s.changes
      → Left (after_create local name (r, s))
  unfolding after_create
  after_create-Distinct name (ok h) s d = then_return-Distinct name true _ s d
  after_create-Distinct name (err e) s d = then_return-Distinct name true _ s d

  after_open-Distinct :
      (name : Bytes) (created : Bool) (r : Result H) (s : Syncfs W)
      → DistinctOn s.changes
      → Left (after_open local name created (r, s))
  unfolding after_open
  after_open-Distinct name true (ok h) s d = then_return-Distinct name true _ s d
  after_open-Distinct name false (ok h) s d = d
  after_open-Distinct name true (err e) s d = d
  after_open-Distinct name false (err e) s d = d

  after_rename-Distinct :
      (old new : Bytes) (r : Result (Unit {0})) (s : Syncfs W)
      → DistinctOn s.changes
      → Left (after_rename local old new (r, s))
  unfolding after_rename
  after_rename-Distinct old new (err e) s d = d
  after_rename-Distinct old new (ok u) s d = go s.changes refl d
    where
      go :
          (o : Option (Map Bytes Bool))
          → s.changes ≡ o
          → DistinctOn o
          → Left (after_rename local old new (ok tt, s))
      go none e h = rw (changed, then_both, e) tt
      go (some m) e h =
          rw (changed, e, then_both)
            (then_return-Distinct old false (ok tt)
              (record s {
                changes = some (record_change new true m);
                armed = s.armed || not (holds (lookup new m) && false);
              })
              (record_change-IsDistinct new true m h))

  close-Distinct : (f : File H) (s : Syncfs W) → DistinctOn s.changes → Left (close local f s)
  unfolding close
  close-Distinct f s d = elim (Bool-cases (f.modified && not f.is_dir)) [
    | inl dirty ↦ rw dirty (then_return-Distinct f.path true _ _ d)
    | inr clean ↦ rw clean d
  ]

  perform-Distinct :
      (op : Op H) (s : Syncfs W) → DistinctOn s.changes → DistinctOn (perform local op s).changes
  unfolding perform create open_file mkdir remove chmod chown chtimes symlink rename_file write
      write_at
  perform-Distinct (creating name) s d =
      after_create-Distinct (clean_name name) _ (run (local.create (clean_name name)) s).1 d
  perform-Distinct (removing name) s d =
      then_changed-Distinct (clean_name name) false (run (local.remove (clean_name name)) s).0
        (run (local.remove (clean_name name)) s).1 d
  perform-Distinct (opening name flag perm) s d =
      after_open-Distinct (clean_name name) (creates local flag) _
        (run (local.open_file (clean_name name) flag perm) s).1 d
  perform-Distinct (making_dir name perm) s d =
      then_changed-Distinct (clean_name name) true (run (local.mkdir (clean_name name) perm) s).0
        (run (local.mkdir (clean_name name) perm) s).1 d
  perform-Distinct (changing_mode name mode) s d =
      then_changed-Distinct (clean_name name) true (run (local.chmod (clean_name name) mode) s).0
        (run (local.chmod (clean_name name) mode) s).1 d
  perform-Distinct (changing_owner name uid gid) s d =
      then_changed-Distinct (clean_name name) true (run (local.chown (clean_name name) uid gid) s).0
        (run (local.chown (clean_name name) uid gid) s).1 d
  perform-Distinct (changing_times name atime mtime) s d =
      then_changed-Distinct (clean_name name) true
        (run (local.chtimes (clean_name name) atime mtime) s).0
        (run (local.chtimes (clean_name name) atime mtime) s).1 d
  perform-Distinct (linking old new) s d =
      then_changed-Distinct (clean_name new) true
        (run (local.symlink (clean_name old) (clean_name new)) s).0
        (run (local.symlink (clean_name old) (clean_name new)) s).1 d
  perform-Distinct (renaming old new) s d =
      after_rename-Distinct (clean_name old) (clean_name new) _
        (run (local.rename (clean_name old) (clean_name new)) s).1 d
  perform-Distinct (writing f b) s d = d
  perform-Distinct (writing_at f b off) s d = d
  perform-Distinct (closing f) s d = close-Distinct f s d

  pub perform_all-Distinct :
      (ops : List (Op H)) (s : Syncfs W)
      → DistinctOn s.changes
      → DistinctOn (perform_all local ops s).changes
  unfolding perform_all
  perform_all-Distinct [] s d = d
  perform_all-Distinct (op ∷ ops) s d =
      perform_all-Distinct ops (perform local op s) (perform-Distinct op s d)
