-- ===== src/Syncfs/Run.antt =====
-- fs/syncfs/syncfs.go: `Sync`, and `Rename`, which calls it for a directory.
-- The push and the pull run beside each other in the source. Here one of them comes first, and which
-- one is an argument.
use wanix.Base.{ℕ, Bytes, Bool, true, false, Option, none, some, List, [], if◌then◌else◌, Map}
use wanix.Errors.{Result, ok, err}
use wanix.Actions.{Action}
use wanix.Backends.{Info, is_dir, FileSystem}
use wanix.Copy.{copy_fs}
use wanix.Syncfs.{Syncfs, Outcome, returned, panicked, hangs, clean_name, rename_file, run}
use wanix.Syncfs.Scan.{Index, Visit, Pulls, scan_remote, scan_local}
use wanix.Syncfs.Push.{Member, push}
use wanix.Syncfs.Pull.{pull}

-- What `Sync` calls that is not its own: the two file systems, the walk over the local one, the
-- index and the patches of the remote, and the packages io and tar. `fuel` is that of `CopyFS`.
pub record Parts (W H T : Type 0) : Type 0 where
  pub local : FileSystem W H
  pub remote : FileSystem W H
  pub walk_local : W → List Visit
  pub index : W → Result Index
  pub patch : List (Member T) → Action W (Unit {0})
  pub io_copy : H → H → Action W (Unit {0})
  pub file_info_header : Info → Result T
  pub write_header : Bytes → Option T → Bytes → Result (Unit {0})
  pub write_body : T → Bytes → Result (Unit {0})
  pub fuel : ℕ
  pub push_first : Bool

-- The error of the pull goes before that of the push.
abbrev pub joined : Outcome (Unit {0}) → Result (Unit {0}) → Outcome (Unit {0})
joined (returned (ok u)) pushed = returned pushed
joined (returned (err e)) pushed = returned (err e)
joined panicked pushed = panicked
joined hangs pushed = hangs

module _ {W H T : Type 0} (p : Parts W H T) where
  unfoldable pub push_changes : Map Bytes Bool → Syncfs W → Result (Unit {0}) × Syncfs W
  unfolding push
  push_changes m s = push p.file_info_header p.write_header p.write_body p.local p.patch m s

  unfoldable pub pull_changes : Index → Pulls → Syncfs W → Outcome (Unit {0}) × Syncfs W
  unfolding pull copy_fs
  pull_changes index ps s =
      let (r, w) =
        pull p.local index (λ path. copy_fs p.io_copy p.remote p.local p.fuel path path) ps
          s.world in
      (r, record s { world = w })

  -- The push first, or the pull first.
  unfoldable pub sync_in_order :
      Bool → Index → Pulls → Map Bytes Bool → Syncfs W → Outcome (Unit {0}) × Syncfs W
  unfolding push_changes pull_changes
  sync_in_order true index ps m s =
      let (pushed, s1) = push_changes m s in
      let (pulled, s2) = pull_changes index ps s1 in (joined pulled pushed, s2)
  sync_in_order false index ps m s =
      let (pulled, s1) = pull_changes index ps s in
      let (pushed, s2) = push_changes m s1 in (joined pulled pushed, s2)

  -- What follows the scans.
  unfoldable pub sync_step :
      Index
      → Result Pulls
      → Result (Unit {0})
      → Map Bytes Bool
      → Syncfs W
      → Outcome (Unit {0}) × Syncfs W
  unfolding sync_in_order
  sync_step index (err e) pushable m s = (returned (err e), s)
  sync_step index (ok ps) (err e) m s = (returned (err e), s)
  sync_step index (ok ps) (ok u) m s = sync_in_order p.push_first index ps m s

  -- `changes` after the scans: those of the map, or those found if there was no map.
  unfoldable pub scan_changes : Index → Syncfs W → Result (Unit {0}) × Map Bytes Bool
  unfolding scan_local
  scan_changes index s = elim (s.changes) [
    | none ↦ scan_local index.lstat (p.walk_local s.world) []
    | some m ↦ (ok tt, m)
  ]

  -- Both scans run to their end; the error of the pull's goes first.
  unfoldable pub sync_with : Index → Syncfs W → Outcome (Unit {0}) × Syncfs W
  unfolding scan_remote scan_changes sync_step
  sync_with index s =
      let (pushable, m) = scan_changes index s in
      sync_step index (scan_remote s.changes (λ path. p.local.lstat path s.world) index.walk)
        pushable m (record s { changes = some m })

  unfoldable pub sync : Syncfs W → Outcome (Unit {0}) × Syncfs W
  unfolding sync_with
  sync s = elim (p.index s.world) [ err e ↦ (returned (err e), s) | ok index ↦ sync_with index s ]

  -- The next step, unless the last one failed, panicked or never ended.
  abbrev and_then :
      Outcome (Unit {0}) × Syncfs W
      → (Syncfs W → Outcome (Unit {0}) × Syncfs W)
      → Outcome (Unit {0}) × Syncfs W
  and_then (returned (ok u), s) next = next s
  and_then (returned (err e), s) next = (returned (err e), s)
  and_then (panicked, s) next = (panicked, s)
  and_then (hangs, s) next = (hangs, s)

  abbrev returning : Result (Unit {0}) × Syncfs W → Outcome (Unit {0}) × Syncfs W
  returning (r, s) = (returned r, s)

  -- The part of `Rename` for a directory.
  unfoldable pub rename_dir : Bytes → Bytes → Syncfs W → Outcome (Unit {0}) × Syncfs W
  unfolding sync
  rename_dir old new s = and_then (sync s) (λ s1.
      and_then (returning (run (p.remote.rename old new) s1))
        (λ s2. and_then (returning (run (p.local.rename old new) s2)) sync))

  unfoldable pub rename : Bytes → Bytes → Syncfs W → Outcome (Unit {0}) × Syncfs W
  unfolding rename_file rename_dir
  rename old new s = elim (p.local.lstat (clean_name old) s.world) [
    | err e ↦ (returned (err e), s)
    | ok info ↦
        if is_dir info.kind
        then rename_dir (clean_name old) (clean_name new) s
        else rename_file p.local (clean_name old) (clean_name new) s
  ]
