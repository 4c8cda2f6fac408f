-- ===== src/Syncfs.antt =====
-- fs/syncfs/syncfs.go: a file system that applies every operation to a local one, records what has
-- changed, and reconciles it with a remote one. Here are the operations and the record of changes;
-- `Sync` is in the modules Scan, Push, Pull and Run.
-- A method runs between two syncs (`wait` and the locks), so it is one step. The timer that starts a
-- sync is a flag, logging is left out, and the two file systems share the state `W`.
pub mod Scan
pub mod Push
pub mod Pull
pub mod Run
pub mod Agreement
pub mod Tracking
pub mod Distinct
pub mod Decisions
pub mod FirstSync
pub mod Removed
pub mod Archive
pub mod Acceptance
pub mod Workers
pub mod Tests
use wanix.Base.{
  ℕ, ◌/◌, ◌%◌, ◌≡◌, Bytes, Bool, true, false, not, ◌&&◌, ◌||◌, Option, none, some, List, [], ◌∷◌,
  if◌then◌else◌, ltb, eq_nat, bytes_eq, ◌==◌, is_empty, Map, lookup, put, delete, trim_prefix,
}
pub use wanix.Errors.{Outcome, returned, panicked, hangs}
use wanix.Errors.{Error, Result, ok, err}
use wanix.Actions.{Action}
use wanix.Paths.{slash, dot, clean}
use wanix.Backends.{Info, Kind, is_dir, Entry, FileSystem}

-- `changes` is a map from a path to whether it exists now, `none` for the nil map before the first
-- sync. `armed` is whether the timer that starts the next sync has been set.
pub record Syncfs (W : Type 0) : Type 0 where
  pub world : W
  pub changes : Option (Map Bytes Bool)
  pub armed : Bool

-- `syncFile`: an open file with the path that it was opened by.
pub record File (H : Type 0) : Type 0 where
  pub handle : H
  pub path : Bytes
  pub modified : Bool
  pub is_dir : Bool

abbrev pub or_dot : Bytes → Bytes
or_dot [] = dot
or_dot (c ∷ s) = c ∷ s

-- `sfs.clean`
unfoldable pub clean_name : Bytes → Bytes
unfolding clean trim_prefix
clean_name path = or_dot (trim_prefix (clean path) (slash ∷ []))

abbrev pub holds : Option Bool → Bool
holds none = false
holds (some b) = b

-- What `changed` makes of the map.
unfoldable pub record_change : Bytes → Bool → Map Bytes Bool → Map Bytes Bool
unfolding lookup put delete
record_change name exists m =
    if holds (lookup name m) && not exists then delete name m else put name exists m

module _ {W : Type 0} where
  unfoldable pub new : W → Syncfs W
  new w = record { world = w; changes = none; armed = false }

  -- An entry that is deleted returns before the timer is set; a nil map cannot be assigned to.
  unfoldable pub changed : Bytes → Bool → Syncfs W → Option (Syncfs W)
  unfolding record_change
  changed name exists s = elim (s.changes) [
    | none ↦ none
    | some m ↦ some (record s {
      changes = some (record_change name exists m);
      armed = s.armed || not (holds (lookup name m) && not exists);
    })
  ]

  -- `changed` and then the return of a result.
  unfoldable pub then_return :
      {A : Type 0} → Bytes → Bool → Result A → Syncfs W → Outcome A × Syncfs W
  unfolding changed
  then_return name exists r s = elim (changed name exists s) [
    | none ↦ (panicked, s)
    | some s' ↦ (returned r, s')
  ]

  abbrev pub run : {A : Type 0} → Action W A → Syncfs W → Result A × Syncfs W
  run act s = let (r, w) = act s.world in (r, record s { world = w })

  -- `if err != nil { return err }`, `changed` and `return nil`.
  unfoldable pub then_changed :
      Bytes → Bool → Result (Unit {0}) × Syncfs W → Outcome (Unit {0}) × Syncfs W
  unfolding then_return
  then_changed name exists (err e, s) = (returned (err e), s)
  then_changed name exists (ok u, s) = then_return name exists (ok tt) s

module _ {W H : Type 0} (local : FileSystem W H) where
  unfoldable pub open_context : Bytes → Syncfs W → Result H
  open_context name s = local.open_read (clean_name name) s.world

  unfoldable pub stat_context : Bytes → Syncfs W → Result Info
  stat_context name s = local.stat (clean_name name) s.world

  unfoldable pub read_dir : Bytes → Syncfs W → Result (List Entry)
  read_dir name s = local.read_dir (clean_name name) s.world

  -- The name is not cleaned.
  unfoldable pub readlink : Bytes → Syncfs W → Result Bytes
  readlink name s = local.readlink name s.world

  unfoldable pub new_sync_file : H → Bytes → Syncfs W → Result (File H)
  new_sync_file h path s = elim (local.file_stat h s.world) [
    | err e ↦ err e
    | ok info ↦
        ok (record {
          handle = h;
          path = clean_name path;
          modified = false;
          is_dir = is_dir info.kind;
        })
  ]

  -- `changed` is deferred here, before the file is created, so it is called on every return.
  unfoldable pub after_create : Bytes → Result H × Syncfs W → Outcome (File H) × Syncfs W
  unfolding new_sync_file then_return
  after_create name (err e, s) = then_return name true (err e) s
  after_create name (ok h, s) = then_return name true (new_sync_file h name s) s

  unfoldable pub create : Bytes → Syncfs W → Outcome (File H) × Syncfs W
  unfolding after_create
  create name s = after_create (clean_name name) (run (local.create (clean_name name)) s)

  -- flag&os.O_CREATE != 0
  abbrev pub creates : ℕ → Bool
  creates flag = eq_nat (flag / 64 % 2) 1

  unfoldable pub after_open : Bytes → Bool → Result H × Syncfs W → Outcome (File H) × Syncfs W
  unfolding new_sync_file then_return
  after_open name created (err e, s) = (returned (err e), s)
  after_open name false (ok h, s) = (returned (new_sync_file h name s), s)
  after_open name true (ok h, s) = then_return name true (new_sync_file h name s) s

  unfoldable pub open_file : Bytes → ℕ → ℕ → Syncfs W → Outcome (File H) × Syncfs W
  unfolding after_open
  open_file name flag perm s =
      after_open (clean_name name) (creates flag)
        (run (local.open_file (clean_name name) flag perm) s)

  unfoldable pub mkdir : Bytes → ℕ → Syncfs W → Outcome (Unit {0}) × Syncfs W
  unfolding then_changed
  mkdir name perm s =
      then_changed (clean_name name) true (run (local.mkdir (clean_name name) perm) s)

  unfoldable pub remove : Bytes → Syncfs W → Outcome (Unit {0}) × Syncfs W
  unfolding then_changed
  remove name s = then_changed (clean_name name) false (run (local.remove (clean_name name)) s)

  unfoldable pub chmod : Bytes → ℕ → Syncfs W → Outcome (Unit {0}) × Syncfs W
  unfolding then_changed
  chmod name mode s =
      then_changed (clean_name name) true (run (local.chmod (clean_name name) mode) s)

  unfoldable pub chown : Bytes → ℕ → ℕ → Syncfs W → Outcome (Unit {0}) × Syncfs W
  unfolding then_changed
  chown name uid gid s =
      then_changed (clean_name name) true (run (local.chown (clean_name name) uid gid) s)

  unfoldable pub chtimes : Bytes → ℕ → ℕ → Syncfs W → Outcome (Unit {0}) × Syncfs W
  unfolding then_changed
  chtimes name atime mtime s =
      then_changed (clean_name name) true (run (local.chtimes (clean_name name) atime mtime) s)

  -- The target of the link is cleaned too.
  unfoldable pub symlink : Bytes → Bytes → Syncfs W → Outcome (Unit {0}) × Syncfs W
  unfolding then_changed
  symlink old new s =
      then_changed (clean_name new) true (run (local.symlink (clean_name old) (clean_name new)) s)

  -- Two changes, one after the other.
  unfoldable pub then_both :
      Bytes → Bytes → Option (Syncfs W) → Syncfs W → Outcome (Unit {0}) × Syncfs W
  unfolding then_return
  then_both old new none s = (panicked, s)
  then_both old new (some s') s = then_return old false (ok tt) s'

  unfoldable pub after_rename :
      Bytes → Bytes → Result (Unit {0}) × Syncfs W → Outcome (Unit {0}) × Syncfs W
  unfolding changed then_both
  after_rename old new (err e, s) = (returned (err e), s)
  after_rename old new (ok u, s) = then_both old new (changed new true s) s

  -- The part of `Rename` for what is not a directory.
  unfoldable pub rename_file : Bytes → Bytes → Syncfs W → Outcome (Unit {0}) × Syncfs W
  unfolding after_rename
  rename_file old new s = after_rename old new (run (local.rename old new) s)

  abbrev was_written : ℕ × Option Error → Bool
  was_written (n, none) = ltb 0 n
  was_written (n, some e) = false

  -- `Write` and `WriteAt`, given what the file's own method came to.
  unfoldable pub note_write :
      (ℕ × Option Error) × W → File H → Syncfs W → (ℕ × Option Error) × (File H × Syncfs W)
  note_write (r, w) f s =
      (r, (record f { modified = f.modified || was_written r }, record s { world = w }))

  unfoldable pub write : Bytes → File H → Syncfs W → (ℕ × Option Error) × (File H × Syncfs W)
  unfolding note_write
  write p f s = note_write (local.file_write f.handle p s.world) f s

  unfoldable pub write_at : Bytes → ℕ → File H → Syncfs W → (ℕ × Option Error) × (File H × Syncfs W)
  unfolding note_write
  write_at p off f s = note_write (local.file_write_at f.handle p off s.world) f s

  unfoldable pub close : File H → Syncfs W → Outcome (Unit {0}) × Syncfs W
  unfolding then_return
  close f s = go (run (local.file_close f.handle) s)
    where
      go : Result (Unit {0}) × Syncfs W → Outcome (Unit {0}) × Syncfs W
      go (r, s') =
          if f.modified && not f.is_dir then then_return f.path true r s' else (returned r, s')
