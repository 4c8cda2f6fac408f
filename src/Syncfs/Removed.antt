-- ===== src/Syncfs/Removed.antt =====
-- fs/syncfs/syncfs.go: a file that is removed here, at the next scan of the remote.
use wanix.Base.{
  ◌≡◌, ◌≢◌, refl, Bytes, Bool, true, false, not, ◌&&◌, ◌||◌, Option, none, some, List, [], ◌∷◌,
  arith, map, Map, lookup, bytes_eq, ◌==◌, eq_iff, eq_bytes_iff, eq_refl, Bool-cases, inl, inr,
}
use wanix.Errors.{Error, Result, ok, err, is_not_exist}
use wanix.Paths.{dot}
use wanix.Backends.{Info, FileSystem}
use wanix.Syncfs.{
  Syncfs, clean_name, holds, record_change, changed, then_return, then_changed, remove,
}
use wanix.Syncfs.Scan.{Visit, Pulls, is_tombstoned, should_pull, visit_remote, visited, scan_remote}
use wanix.Syncfs.Decisions.{contains, contains-add_pull}
use wanix.Syncfs.Agreement.{lookup-record_change}

-- Whether the path is among what a scan found.
abbrev among : Bytes → Pulls → Bool
among p ps = contains p ps.dirs || contains p ps.files

module _ (changes : Option (Map Bytes Bool)) (local_lstat : Bytes → Result Info) where
  -- A visit finds the path or passes it over.
  abbrev Finds : Bool → Option Info → Type 0
  Finds b none = b ≡ false
  Finds b (some i) = b ≡ true

  -- A path that is missing locally is found unless it is recorded as gone.
  visit_remote-missing :
      (v : Visit) (e : Error) (o : Option Info)
      → v.path ≢ dot
      → local_lstat v.path ≡ err e
      → is_not_exist e ≡ true
      → visit_remote changes local_lstat v ≡ ok o
      → Finds (not (is_tombstoned changes v.path)) o
  unfolding visit_remote should_pull
  visit_remote-missing v e none not_root missing not_there h =
      ground (arith, h, missing, not_there, not_root, eq_bytes_iff v.path dot)
  visit_remote-missing v e (some i) not_root missing not_there h =
      ground (arith, h, missing, not_there, not_root, eq_bytes_iff v.path dot)

  visited-among :
      (p path : Bytes) (o : Result (Option Info)) (rest : Result Pulls) (ps : Pulls)
      (listed due : Bool)
      → visited path o rest ≡ ok ps
      → (path ≡ p → (a : Option Info) → o ≡ ok a → Finds due a)
      → ((qs : Pulls) → rest ≡ ok qs → among p qs ≡ (listed && due))
      → among p ps ≡ ((path == p || listed) && due)
  visited-among p path (err e) rest ps listed due h find more = cc
  visited-among p path (ok o) (err e) ps listed due h find more = cc
  visited-among p path (ok none) (ok qs) ps listed due h find more = elim (Bool-cases (path == p)) [
    | inl same ↦ ground (arith, h, more qs refl, find ((eq_iff path p).0 same) none refl)
    | inr other ↦ ground (arith, h, more qs refl, other)
  ]
  visited-among p path (ok (some r)) (ok qs) ps listed due h find more =
      elim (Bool-cases (path == p)) [
        | inl same ↦ ground (
          arith,
          h,
          contains-add_pull changes local_lstat p path r qs,
          find ((eq_iff path p).0 same) (some r) refl,
          same,
        )
        | inr other ↦
            ground
              (arith, h, contains-add_pull changes local_lstat p path r qs, more qs refl, other)
      ]

  -- Of a path that is missing locally, a scan finds what the index lists and is not recorded as
  -- gone.
  pub scan_remote-missing :
      (p : Bytes) (e : Error) (vs : List Visit) (ps : Pulls)
      → p ≢ dot
      → local_lstat p ≡ err e
      → is_not_exist e ≡ true
      → scan_remote changes local_lstat vs ≡ ok ps
      → among p ps ≡ (contains p (map (λ v. v.path) vs) && not (is_tombstoned changes p))
  unfolding scan_remote contains
  scan_remote-missing p e [] ps not_root missing not_there h = ground (arith, h)
  scan_remote-missing p e (v ∷ vs) ps not_root missing not_there h =
      visited-among p v.path (visit_remote changes local_lstat v)
        (scan_remote changes local_lstat vs) ps (contains p (map (λ v. v.path) vs))
        (not (is_tombstoned changes p)) h
        (λ same o found.
          rw (← same)
            (visit_remote-missing v e o (rw same not_root) (rw same missing) not_there found))
        (λ qs. scan_remote-missing p e vs qs not_root missing not_there)

module _ {W H : Type 0} (local : FileSystem W H) where
  after_remove :
      (name : Bytes) (s : Syncfs W) (w : W) (m : Map Bytes Bool)
      → s.changes ≡ some m
      → local.remove (clean_name name) s.world ≡ (ok tt, w)
      → ((remove local name s).1.changes ≡ some (record_change (clean_name name) false m))
        × ((remove local name s).1.world ≡ w)
  unfolding remove then_changed then_return changed
  after_remove name s w m some_m removed = (
    rw (remove, removed, then_return, changed, some_m) refl,
    rw (remove, removed, then_return, changed, some_m) refl,
  )

  is_tombstoned-record_change :
      (p : Bytes) (m : Map Bytes Bool)
      → is_tombstoned (some (record_change p false m)) p ≡ not (holds (lookup p m))
  unfolding is_tombstoned
  is_tombstoned-record_change p m = ground (arith, lookup-record_change p p false m, eq_refl p)

  -- After a Remove that succeeded, of a path other than the root that is then missing locally, a
  -- next scan of the remote that succeeds finds it to pull if, and only if, the index lists it and
  -- a change of it was recorded as there to push.
  pub remove-found :
      (name : Bytes) (s : Syncfs W) (w : W) (m : Map Bytes Bool) (vs : List Visit) (ps : Pulls)
      (e : Error)
      → s.changes ≡ some m
      → local.remove (clean_name name) s.world ≡ (ok tt, w)
      → local.lstat (clean_name name) w ≡ err e
      → is_not_exist e ≡ true
      → clean_name name ≢ dot
      → scan_remote
          (remove local name s).1.changes
          (λ path. local.lstat path (remove local name s).1.world)
          vs
        ≡ ok ps
      → (contains (clean_name name) ps.dirs || contains (clean_name name) ps.files)
        ≡ (contains (clean_name name) (map (λ v. v.path) vs) && holds (lookup (clean_name name) m))
  remove-found name s w m vs ps e some_m removed missing not_there not_root scanned =
      let p = clean_name name in
      let (changes_are, world_is) = after_remove name s w m some_m removed in
      let found =
        scan_remote-missing (some (record_change p false m)) (λ path. local.lstat path w) p e vs ps
          not_root missing not_there (rw (changes_are, world_is) at scanned) in
      ground (arith, found, is_tombstoned-record_change p m)
