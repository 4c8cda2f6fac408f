-- ===== src/Syncfs/Decisions.antt =====
-- fs/syncfs/syncfs.go: what the scans of `Sync` decide to push and to pull.
use wanix.Base.{
  ◌+◌, ◌≡◌, refl, Bytes, Bool, true, false, not, ◌&&◌, ◌||◌, Option, none, some, List, [], ◌∷◌,
  arith, if◌then◌else◌, Map, bytes_eq, eq_bytes, leb, ◌==◌,
}
use wanix.Errors.{Result, ok, err, is_not_exist}
use wanix.Paths.{dot}
use wanix.Backends.{Info, unix}
use wanix.Syncfs.Scan.{
  Visit, Pulls, is_newer, should_pull, is_tombstoned, visit_remote, visited, scan_remote, add_pull,
}

unfoldable pub contains : Bytes → List Bytes → Bool
contains p [] = false
contains p (q ∷ qs) = q == p || contains p qs

-- The file is missing here, or older than that of the remote by two seconds.
abbrev pub is_missing_or_older : Result Info → Result Info → Bool
is_missing_or_older (err e) local_info = false
is_missing_or_older (ok rinfo) (err e) = is_not_exist e
is_missing_or_older (ok rinfo) (ok linfo) = leb (unix linfo.mod_time + 2) (unix rinfo.mod_time)

module _ (changes : Option (Map Bytes Bool)) (local_lstat : Bytes → Result Info) where
  abbrev pub is_due : Visit → Bool
  is_due v =
      not (eq_bytes v.path dot)
      && (not (is_tombstoned changes v.path) && is_missing_or_older v.info (local_lstat v.path))

  -- The paths that should be pulled.
  unfoldable pub due_paths : List Visit → List Bytes
  due_paths [] = []
  due_paths (v ∷ vs) = let rest = due_paths vs in if is_due v then v.path ∷ rest else rest

  abbrev Marks : Option Info → Bool → Type 0
  Marks none due = due ≡ false
  Marks (some r) due = due ≡ true

  -- The two tests in the code are one.
  should_pull-missing_or_older :
      (r : Info) (l : Result Info) (b : Bool)
      → should_pull r l ≡ ok b
      → is_missing_or_older (ok r) l ≡ b
  unfolding should_pull is_newer
  should_pull-missing_or_older r (ok l) b h = ground (arith, h)
  should_pull-missing_or_older r (err e) b h = ground (arith, h)

  visit_remote-Marks :
      (v : Visit) (o : Option Info) → visit_remote changes local_lstat v ≡ ok o → Marks o (is_due v)
  unfolding visit_remote
  visit_remote-Marks v none h = grind (arith, h, should_pull-missing_or_older)
  visit_remote-Marks v (some r) h = grind (arith, h, should_pull-missing_or_older)

  pub contains-add_pull :
      (p q : Bytes) (r : Info) (ps : Pulls)
      → (contains p (add_pull q r ps).dirs || contains p (add_pull q r ps).files)
        ≡ (q == p || (contains p ps.dirs || contains p ps.files))
  unfolding contains
  contains-add_pull p q r ps = ground arith

  visited-Marks :
      (p path : Bytes) (o : Result (Option Info)) (rest : Result Pulls) (ps : Pulls) (due : Bool)
      (ys : List Bytes)
      → visited path o rest ≡ ok ps
      → ((a : Option Info) → o ≡ ok a → Marks a due)
      → ((qs : Pulls) → rest ≡ ok qs → (contains p qs.dirs || contains p qs.files) ≡ contains p ys)
      → (contains p ps.dirs || contains p ps.files) ≡ contains p (if due then path ∷ ys else ys)
  unfolding contains
  visited-Marks p path (err e) rest ps due ys h mark more = cc
  visited-Marks p path (ok o) (err e) ps due ys h mark more = cc
  visited-Marks p path (ok none) (ok qs) ps due ys h mark more =
      rw (mark none refl) (grind (arith, h, more qs refl))
  visited-Marks p path (ok (some r)) (ok qs) ps due ys h mark more =
      rw (mark (some r) refl) (grind (arith, h, more qs refl, contains-add_pull p path r qs))

  -- A scan of the index that succeeds finds, as directories or files to pull, the paths other than
  -- the root that are not recorded as gone and whose file is missing locally or older than that of
  -- the remote by two seconds at least, and no others.
  pub scan_remote-due :
      (vs : List Visit) (ps : Pulls) (p : Bytes)
      → scan_remote changes local_lstat vs ≡ ok ps
      → (contains p ps.dirs || contains p ps.files) ≡ contains p (due_paths vs)
  unfolding scan_remote due_paths contains
  scan_remote-due [] ps p h = grind (arith, h)
  scan_remote-due (v ∷ vs) ps p h =
      visited-Marks p v.path (visit_remote changes local_lstat v)
        (scan_remote changes local_lstat vs) ps (is_due v) (due_paths vs) h (visit_remote-Marks v)
        (λ qs. scan_remote-due vs qs p)
