-- ===== src/Syncfs/Agreement.antt =====
-- fs/syncfs/syncfs.go: the record of changes against the local file system. Each operation, with
-- the file system under it assumed to make and remove what it says it does.
use wanix.Base.{
  ◌≡◌, refl, ◌∙◌, Bytes, Bool, true, false, not, ◌&&◌, Option, none, some, arith, if◌then◌else◌,
  bytes_eq, ◌==◌, eq_iff, eq_refl, Map, lookup, lookup-put, lookup-delete, Bool-cases, inl, inr,
}
use wanix.Errors.{Error, Result, ok, err, succeeded}
use wanix.Backends.{FileSystem}
use wanix.Syncfs.{Syncfs, record_change, changed, then_return, then_changed, holds}

-- The other paths are as before, and a path that was there and is gone now has no entry.
pub lookup-record_change :
    (name p : Bytes) (b : Bool) (m : Map Bytes Bool)
    → lookup p (record_change name b m)
      ≡ (if name == p then (if holds (lookup p m) && not b then none else some b) else lookup p m)
unfolding record_change
lookup-record_change name p b m = elim (Bool-cases (name == p)) [
  | inl e ↦
      let path = (eq_iff name p).0 e in
      rw path (ground (arith, eq_refl p, lookup-delete p p m, lookup-put p p b m))
  | inr e ↦ ground (arith, e, lookup-delete name p m, lookup-put name p b m)
]

module _ {W H : Type 0} (local : FileSystem W H) where
  -- There is a file at the path.
  abbrev pub has : Bytes → W → Bool
  has p w = succeeded (local.lstat p w)

  -- A call that succeeds leaves a file at the name, or none; all else, and a call that fails, leaves
  -- the other paths as they are.
  pub record Sets {A : Type 0} (name : Bytes) (b : Bool) (w : W) (r : Result A × W) : Type 0 where
    pub done : (a : A) → r.0 ≡ ok a → (p : Bytes) → has p r.1 ≡ (if name == p then b else has p w)
    pub failed : (e : Error) → r.0 ≡ err e → (p : Bytes) → has p r.1 ≡ has p w

  abbrev pub AsBefore : W → W → Type 0
  AsBefore w w' = (p : Bytes) → has p w' ≡ has p w

  -- A file that is moved is at the new name and not at the old one, and all else is as before.
  pub record Moves (old new : Bytes) (w : W) (r : Result (Unit {0}) × W) : Type 0 where
    pub moved :
        r.0 ≡ ok tt
        → (p : Bytes) → has p r.1 ≡ (if new == p then true else if old == p then false else has p w)
    pub unmoved : (e : Error) → r.0 ≡ err e → AsBefore w r.1

  -- What is recorded of a path is so.
  abbrev pub AgreesOn : Option (Map Bytes Bool) → W → Type 0
  AgreesOn none w = Unit {0}
  AgreesOn (some m) w = (p : Bytes) (b : Bool) → lookup p m ≡ some b → has p w ≡ b

  -- A file system on which the record tells the truth.
  abbrev pub Agrees : Syncfs W → Type 0
  Agrees s = AgreesOn s.changes s.world

  -- The new entry is true, and what else there is of the paths has not changed.
  pub record_change-AgreesOn :
      (name : Bytes) (b : Bool) (m : Map Bytes Bool) (w w' : W)
      → AgreesOn (some m) w
      → ((p : Bytes) → has p w' ≡ (if name == p then b else has p w))
      → AgreesOn (some (record_change name b m)) w'
  record_change-AgreesOn name b m w w' agrees set p c h =
      ground (arith, set p, lookup-record_change name p b m, h, agrees p c)

  pub AgreesOn-same :
      (changes : Option (Map Bytes Bool)) (w w' : W)
      → AgreesOn changes w
      → ((p : Bytes) → has p w' ≡ has p w)
      → AgreesOn changes w'
  AgreesOn-same none w w' agrees same = tt
  AgreesOn-same (some m) w w' agrees same = λ p b h. same p ∙ agrees p b h

  pub then_return-Agrees :
      {A : Type 0} (name : Bytes) (b : Bool) (r : Result A) (s : Syncfs W) (w : W)
      → AgreesOn s.changes w
      → ((p : Bytes) → has p s.world ≡ (if name == p then b else has p w))
      → Agrees (then_return name b r s).1
  unfolding then_return changed
  then_return-Agrees name b r s w agrees set = go s.changes refl agrees
    where
      go :
          (o : Option (Map Bytes Bool))
          → s.changes ≡ o
          → AgreesOn o w
          → Agrees (then_return name b r s).1
      go none e h = rw (then_return, changed, e) (rw e tt)
      go (some m) e h =
          rw (then_return, changed, e) (record_change-AgreesOn name b m w s.world h set)

  pub then_changed-Agrees :
      (name : Bytes) (b : Bool) (s : Syncfs W) (r : Result (Unit {0}) × W)
      → Agrees s
      → Sets name b s.world r
      → Agrees (then_changed name b (r.0, record s { world = r.1 })).1
  unfolding then_changed
  then_changed-Agrees name b s (ok u, w) agrees sets =
      then_return-Agrees name b (ok tt) (record s { world = w }) s.world agrees (sets.done u refl)
  then_changed-Agrees name b s (err e, w) agrees sets =
      AgreesOn-same s.changes s.world w agrees (sets.failed e refl)

  -- Two entries at once, as of a file that is renamed.
  pub renamed-AgreesOn :
      (old new : Bytes) (m : Map Bytes Bool) (w w' : W)
      → AgreesOn (some m) w
      → ((p : Bytes) → has p w' ≡ (if new == p then true else if old == p then false else has p w))
      → AgreesOn (some (record_change old false (record_change new true m))) w'
  renamed-AgreesOn old new m w w' agrees set p c h = ground (
    arith,
    h,
    set p,
    lookup-record_change old p false (record_change new true m),
    lookup-record_change new p true m,
    agrees p c,
  )
