-- ===== src/Syncfs/Acceptance.antt =====
-- fs/syncfs/syncfs.go: when `Sync` forgets the changes.
use wanix.Base.{
  ◌≡◌, refl, Bytes, Bool, true, false, some, List, [], ◌∷◌, map, ◌⊎◌, inl, inr, Map, keys, bytes_eq,
}
use wanix.Errors.{Result, ok, err, Result-cases}
use wanix.Syncfs.{Syncfs}
use wanix.Syncfs.Scan.{Index, Pulls, scan_remote}
use wanix.Syncfs.Push.{Member, name, is_deletion, Packed, send, push}
use wanix.Syncfs.Run.{
  Parts, push_changes, pull_changes, sync_in_order, sync_step, scan_changes, sync_with, sync,
}
use wanix.Syncfs.Archive.{gone, pack-keys}

module _ {W H T : Type 0} (p : Parts W H T) where
  -- The remote has taken an archive with a member for each of the changes.
  pub record Accepted (m : Map Bytes Bool) : Type 0 where
    pub members : List (Member T)
    pub world : W
    pub taken : (p.patch members world).0 ≡ ok tt
    pub names : map name members ≡ keys m
    pub deletions : map is_deletion members ≡ gone m

  -- The changes are as before, or there are none and the remote has all of these.
  abbrev pub Kept : Map Bytes Bool → Syncfs W → Type 0
  Kept m s = (s.changes ≡ some m) ⊎ ((s.changes ≡ some []) × Accepted m)

  send-Kept :
      (m : Map Bytes Bool) (s : Syncfs W) (made : Packed T H)
      → s.changes ≡ some m
      → ((xs : List (Member T))
          → made.0 ≡ ok xs
          → (map name xs ≡ keys m) × (map is_deletion xs ≡ gone m))
      → Kept m (send p.file_info_header p.write_header p.write_body p.local p.patch made s).1
  unfolding send
  send-Kept m s (err e, hs) h fits = inl h
  send-Kept m s (ok xs, hs) h fits = elim (Result-cases (p.patch xs s.world).0) [
    | inl (u, e) ↦
        let (names, kinds) = fits xs refl in
        rw e (
          inr (
            refl,
            record { members = xs; world = s.world; taken = e; names = names; deletions = kinds },
          ))
    | inr (failure, e) ↦ rw e (inl h)
  ]

  push_changes-Kept :
      (m : Map Bytes Bool) (s : Syncfs W) → s.changes ≡ some m → Kept m (push_changes p m s).1
  unfolding push_changes push
  push_changes-Kept [] s h = inl h
  push_changes-Kept (x ∷ m) s h =
      send-Kept (x ∷ m) s _ h
        (pack-keys p.file_info_header p.write_header p.write_body p.local (x ∷ m) s.world)

  pull_changes-same :
      (index : Index) (ps : Pulls) (s : Syncfs W)
      → (pull_changes p index ps s).1.changes ≡ s.changes
  unfolding pull_changes
  pull_changes-same index ps s = refl

  sync_in_order-Kept :
      (first : Bool) (index : Index) (ps : Pulls) (m : Map Bytes Bool) (s : Syncfs W)
      → s.changes ≡ some m
      → Kept m (sync_in_order p first index ps m s).1
  unfolding sync_in_order pull_changes
  sync_in_order-Kept true index ps m s h = push_changes-Kept m s h
  sync_in_order-Kept false index ps m s h = push_changes-Kept m (pull_changes p index ps s).1 h

  sync_step-Kept :
      (index : Index) (pulls : Result Pulls) (pushable : Result (Unit {0})) (m : Map Bytes Bool)
      (s : Syncfs W)
      → s.changes ≡ some m
      → Kept m (sync_step p index pulls pushable m s).1
  unfolding sync_step
  sync_step-Kept index (err e) pushable m s h = inl h
  sync_step-Kept index (ok ps) (err e) m s h = inl h
  sync_step-Kept index (ok ps) (ok u) m s h = sync_in_order-Kept p.push_first index ps m s h

  -- However a Sync ends that began with recorded changes: the changes are recorded still, or none
  -- is and the remote has accepted an archive whose members are the paths of those changes, in
  -- their order, with a deletion for each path that is gone and an entry for each that is there.
  pub sync-Kept : (m : Map Bytes Bool) (s : Syncfs W) → s.changes ≡ some m → Kept m (sync p s).1
  unfolding sync sync_with
  sync-Kept m s h = elim (Result-cases (p.index s.world)) [
    | inr (failure, e) ↦ rw (sync, e) (inl h)
    | inl (index, e) ↦
        rw (sync, e, sync_with, scan_changes, h)
          (sync_step-Kept index
            (scan_remote (some m) (λ path. p.local.lstat path s.world) index.walk) (ok tt) m
            (record s { changes = some m }) refl)
  ]
