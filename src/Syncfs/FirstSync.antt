-- ===== src/Syncfs/FirstSync.antt =====
-- fs/syncfs/syncfs.go: the first sync, which scans both sides.
use wanix.Base.{
  ◌≡◌, refl, ◌∙◌, Bytes, Bool, true, false, ◌||◌, none, some, List, [], ◌∷◌, arith, ◌⊎◌, inl, inr,
  Map, lookup, put, lookup-put, Bool-cases, bytes_eq, eq_iff, ltb, ◌==◌,
}
use wanix.Errors.{Result, ok, err, is_not_exist, Result-cases}
use wanix.Backends.{Info, unix}
use wanix.Syncfs.Scan.{Visit, Pulls, scan_remote, should_push, visit_local, scan_local}
use wanix.Syncfs.Decisions.{contains, due_paths, is_due, scan_remote-due}

-- A walk gives of each file what `Lstat` gives of it.
abbrev pub IsCoherent : (Bytes → Result Info) → List Visit → Type 0
IsCoherent lstat [] = Unit {0}
IsCoherent lstat (v ∷ vs) = ((i : Info) → v.info ≡ ok i → lstat v.path ≡ ok i) × IsCoherent lstat vs

abbrev pub is_ahead : Result Info → Result Info → Bool
is_ahead (err e) r = false
is_ahead (ok l) (err e) = is_not_exist e
is_ahead (ok l) (ok r) = ltb (unix r.mod_time) (unix l.mod_time)

module _ (local_lstat remote_lstat : Bytes → Result Info) where
  visit_local-is_ahead :
      (v : Visit)
      → ((i : Info) → v.info ≡ ok i → local_lstat v.path ≡ ok i)
      → visit_local remote_lstat v ≡ ok true
      → is_ahead (local_lstat v.path) (remote_lstat v.path) ≡ true
  unfolding visit_local should_push
  visit_local-is_ahead v coherent h = grind (arith, h, coherent)

  -- What the scan marks is newer here than there, or is not there.
  scan_local-is_ahead :
      (vs : List Visit) (m : Map Bytes Bool) (p : Bytes) (b : Bool)
      → IsCoherent local_lstat vs
      → lookup p (scan_local remote_lstat vs m).1 ≡ some b
      → (lookup p m ≡ some b) ⊎ (is_ahead (local_lstat p) (remote_lstat p) ≡ true)
  unfolding scan_local
  scan_local-is_ahead [] m p b coherent h = inl h
  scan_local-is_ahead (v ∷ vs) m p b (here, rest) h =
      elim (Result-cases (visit_local remote_lstat v)) [
        | inr (failure, e) ↦ inl (rw (scan_local, e) at h)
        | inl (true, e) ↦
            elim (scan_local-is_ahead vs (put v.path true m) p b rest (rw (scan_local, e) at h)) [
              | inr ahead ↦ inr ahead
              | inl put_here ↦ elim (Bool-cases (v.path == p)) [
                | inl same ↦ inr (rw ((eq_iff v.path p).0 same) at (visit_local-is_ahead v here e))
                | inr other ↦ inl (ground (arith, put_here, other, lookup-put v.path p true m))
              ]
            ]
        | inl (false, e) ↦ scan_local-is_ahead vs m p b rest (rw (scan_local, e) at h)
      ]

  not_due :
      (v : Visit)
      → ((i : Info) → v.info ≡ ok i → remote_lstat v.path ≡ ok i)
      → is_ahead (local_lstat v.path) (remote_lstat v.path) ≡ true
      → is_due none local_lstat v ≡ false
  not_due v coherent h = grind (arith, h, coherent)

  due_paths-is_ahead :
      (vs : List Visit) (p : Bytes)
      → IsCoherent remote_lstat vs
      → is_ahead (local_lstat p) (remote_lstat p) ≡ true
      → contains p (due_paths none local_lstat vs) ≡ false
  unfolding contains due_paths
  due_paths-is_ahead [] p coherent h = refl
  due_paths-is_ahead (v ∷ vs) p (here, rest) h = elim (Bool-cases (v.path == p)) [
    | inl same ↦
        let path = (eq_iff v.path p).0 same in
        rw (not_due v here (rw path h)) (due_paths-is_ahead vs p rest h)
    | inr other ↦ ground (arith, other, due_paths-is_ahead vs p rest h)
  ]

  -- In the first sync, where each walk gives of a file what Lstat gives of it, no path that the
  -- scan of the local file system marks is one that the scan of the index finds to pull.
  pub first_scans-disjoint :
      (locals remotes : List Visit) (ps : Pulls) (p : Bytes) (b : Bool)
      → IsCoherent local_lstat locals
      → IsCoherent remote_lstat remotes
      → scan_remote none local_lstat remotes ≡ ok ps
      → lookup p (scan_local remote_lstat locals []).1 ≡ some b
      → (contains p ps.dirs || contains p ps.files) ≡ false
  unfolding lookup
  first_scans-disjoint locals remotes ps p b lc rc h marked =
      elim (scan_local-is_ahead locals [] p b lc marked) [
        | inl empty ↦ absurd (ground (arith, empty))
        | inr ahead ↦
            scan_remote-due none local_lstat remotes ps p h ∙ due_paths-is_ahead remotes p rc ahead
      ]
