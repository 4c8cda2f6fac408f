-- ===== src/Syncfs/Archive.antt =====
-- fs/syncfs/syncfs.go: the archive that `Sync` makes of the recorded changes.
use wanix.Base.{
  ◌≡◌, refl, Bytes, Bool, true, false, not, Option, none, some, List, [], ◌∷◌, arith, map, Map,
  lookup, keys, inl, inr, bytes_eq, eq_iff, eq_refl, IsDistinct, some-injective,
}
use wanix.Errors.{Result, ok, err, succeeded, Result-cases}
use wanix.Backends.{Info, FileSystem}
use wanix.Syncfs.{Syncfs}
use wanix.Syncfs.Push.{
  Member, name, is_deletion, Packed, one, pack_body, pack_rest, pack_headed, pack_info, pack_change,
  pack,
}
use wanix.Syncfs.Agreement.{has, AgreesOn}
use wanix.Syncfs.Tracking.{Op, perform_all, AllSound, perform_all-Agrees}
use wanix.Syncfs.Distinct.{DistinctOn, perform_all-Distinct}

abbrev pub gone : Map Bytes Bool → List Bool
gone [] = []
gone ((path, exists) ∷ m) = not exists ∷ gone m

module _ {W H T : Type 0} (file_info_header : Info → Result T)
    (write_header : Bytes → Option T → Bytes → Result (Unit {0}))
    (write_body : T → Bytes → Result (Unit {0})) (local : FileSystem W H) where
  -- A member is of the path that it was made for, and is a deletion if the path is gone.
  abbrev Fits : Bytes → Bool → Result (Member T) → Type 0
  Fits path exists r = (x : Member T) → r ≡ ok x → (name x ≡ path) × (is_deletion x ≡ not exists)

  pack_body-Fits :
      (path : Bytes) (t : T) (link : Bytes) (h : H) (w : W)
      → Fits path true (pack_body file_info_header write_header write_body local path t link h w)
  unfolding pack_body
  pack_body-Fits path t link h w x e = ground arith

  pack_rest-Fits :
      (path : Bytes) (info : Info) (t : T) (link : Bytes) (w : W)
      → Fits path true
          (pack_rest file_info_header write_header write_body local path info t link w).0
  unfolding pack_rest
  pack_rest-Fits path info t link w x e = ground (arith, pack_body-Fits path t link)

  pack_change-Fits :
      (path : Bytes) (exists : Bool) (w : W)
      → Fits path exists
          (pack_change file_info_header write_header write_body local path exists w).0
  unfolding pack_change pack_info pack_headed
  pack_change-Fits path true w x e = ground (arith, pack_rest-Fits path)
  pack_change-Fits path false w x e = ground arith

  abbrev made : Map Bytes Bool → W → Packed T H
  made m w = pack file_info_header write_header write_body local m w

  -- One more member.
  cons_made :
      (r : Result (Member T) × Option H) (rest : Packed T H) (path : Bytes) (exists : Bool)
      (m : Map Bytes Bool) (xs : List (Member T))
      → (one r.0 r.1 rest).0 ≡ ok xs
      → Fits path exists r.0
      → ((ys : List (Member T))
          → rest.0 ≡ ok ys
          → (map name ys ≡ keys m) × (map is_deletion ys ≡ gone m))
      → (map name xs ≡ path ∷ keys m) × (map is_deletion xs ≡ not exists ∷ gone m)
  cons_made (err e, none) rest path exists m xs h fits more = cc
  cons_made (err e, some f) rest path exists m xs h fits more = cc
  cons_made (ok x, none) (err e, hs) path exists m xs h fits more = cc
  cons_made (ok x, some f) (err e, hs) path exists m xs h fits more = cc
  cons_made (ok x, none) (ok ys, hs) path exists m [] h fits more = cc
  cons_made (ok x, some f) (ok ys, hs) path exists m [] h fits more = cc
  cons_made (ok x, none) (ok ys, hs) path exists m (z ∷ zs) h fits more =
      grind (arith, h, fits x refl, more ys refl)
  cons_made (ok x, some f) (ok ys, hs) path exists m (z ∷ zs) h fits more =
      grind (arith, h, fits x refl, more ys refl)

  -- The members are the paths of the changes, in their order, and the deletions are those of the
  -- paths that are gone.
  pub pack-keys :
      (m : Map Bytes Bool) (w : W) (xs : List (Member T))
      → (made m w).0 ≡ ok xs
      → (map name xs ≡ keys m) × (map is_deletion xs ≡ gone m)
  unfolding pack keys
  pack-keys [] w [] h = (refl, refl)
  pack-keys [] w (x ∷ xs) h = cc
  pack-keys ((path, exists) ∷ m) w xs h =
      cons_made (pack_change file_info_header write_header write_body local path exists w)
        (made m w) path exists m xs h (pack_change-Fits path exists w) (pack-keys m w)

  -- What can be read of the local file system can be put into an archive.
  abbrev pub CanPack : W → Type 0
  CanPack w =
      ((path : Bytes) (info : Info)
        → local.lstat path w ≡ ok info
        → succeeded (pack_info file_info_header write_header write_body local path info w).0 ≡ true)
      × ((path : Bytes) → succeeded (write_header path none []) ≡ true)

  one-succeeded :
      (r : Result (Member T) × Option H) (rest : Packed T H)
      → succeeded r.0 ≡ true
      → succeeded rest.0 ≡ true
      → succeeded (one r.0 r.1 rest).0 ≡ true
  one-succeeded (ok x, none) (ok ys, hs) p q = refl
  one-succeeded (ok x, some f) (ok ys, hs) p q = refl
  one-succeeded (ok x, o) (err e, hs) p q = cc
  one-succeeded (err e, o) rest p q = cc

  pack_change-total :
      (path : Bytes) (exists : Bool) (w : W)
      → has local path w ≡ exists
      → CanPack w
      → succeeded (pack_change file_info_header write_header write_body local path exists w).0
        ≡ true
  unfolding pack_change
  pack_change-total path true w there (files, deletions) =
      elim (Result-cases (local.lstat path w)) [
        | inl (info, e) ↦ rw (pack_change, e) (files path info e)
        | inr (failure, e) ↦ absurd (ground (arith, e, there))
      ]
  pack_change-total path false w there (files, deletions) = ground (arith, deletions path)

  -- No file that is looked up is missing, so that there is an archive of all the changes.
  pub pack-total :
      (m : Map Bytes Bool) (w : W)
      → IsDistinct m
      → AgreesOn local (some m) w
      → CanPack w
      → succeeded (made m w).0 ≡ true
  unfolding pack lookup
  pack-total [] w d agrees can = refl
  pack-total ((path, exists) ∷ m) w (fresh, d) agrees can =
      one-succeeded (pack_change file_info_header write_header write_body local path exists w)
        (made m w)
        (pack_change-total path exists w (agrees path exists (rw (eq_refl path) refl)) can)
        (pack-total m w d (λ p b h. agrees p b (ground (arith, h, fresh, eq_iff path p))) can)

  -- Of a map, that it is the one there.
  at_changes :
      (o : Option (Map Bytes Bool)) (m : Map Bytes Bool) (w : W)
      → o ≡ some m
      → DistinctOn o
      → AgreesOn local o w
      → IsDistinct m × AgreesOn local (some m) w
  at_changes none m w h d agrees = cc
  at_changes (some n) m w h d agrees =
      let same = some-injective n m h in (rw same at d, rw same at agrees)

  -- After operations that began with no recorded change, each of which made and removed in the
  -- local file system what it says and nothing else, where no creation failed and no file that was
  -- written and closed had lost its name, and where each file can be put into an archive, the
  -- archive of the changes is made; its members are their paths, in their order, and the deletions
  -- are those of the paths that are gone.
  pub perform_all-pack :
      (ops : List (Op H)) (s : Syncfs W) (m : Map Bytes Bool)
      → s.changes ≡ some []
      → AllSound local ops s
      → (perform_all local ops s).changes ≡ some m
      → CanPack (perform_all local ops s).world
      → (xs : List (Member T)) × ((made m (perform_all local ops s).world).0 ≡ ok xs)
        × (map name xs ≡ keys m)
        × (map is_deletion xs ≡ gone m)
  unfolding lookup
  perform_all-pack ops s m fresh sound after can =
      let (d, agrees) =
        at_changes (perform_all local ops s).changes m (perform_all local ops s).world after
          (perform_all-Distinct local ops s (rw fresh tt))
          (perform_all-Agrees local ops s sound (rw fresh none_recorded)) in
      packed (pack-total m (perform_all local ops s).world d agrees can)
    where
      none_recorded : AgreesOn local (some []) s.world
      none_recorded p b h = cc

      packed :
          succeeded (made m (perform_all local ops s).world).0 ≡ true
          → (xs : List (Member T)) × ((made m (perform_all local ops s).world).0 ≡ ok xs)
            × (map name xs ≡ keys m)
            × (map is_deletion xs ≡ gone m)
      packed h = elim (Result-cases (made m (perform_all local ops s).world).0) [
        | inl (xs, e) ↦
            let (names, kinds) = pack-keys m (perform_all local ops s).world xs e in
            (xs, e, names, kinds)
        | inr (failure, e) ↦ absurd (ground (arith, e, h))
      ]
