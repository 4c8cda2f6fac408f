-- ===== src/Listings/Layered.antt =====
-- The other methods of OverlayFile of fs/fskit/overlayfile.go: what is asked of the file in the
-- overlay, and how the file in the base is kept at the same place. `F` is the state of an open
-- file, and what package fs calls of one is the record `Calls`.
use wanix.Base.{
  ℕ, ◌+◌, Bytes, ℤ, pos, Bool, true, false, Option, none, some, [], length, if◌then◌else◌,
}
use wanix.Errors.{Error, Errno, bare, invalid, eof, Result, err}

-- A count or a position, and an error where there was one: Go gives both.
abbrev pub Counted : Type 0
Counted = ℕ × Option Error

abbrev pub Taken : Type 0
Taken = Bytes × Option Error

pub data Whence : Type 0 where
  from_start from_current from_end : Whence

pub record Calls (F Info : Type 0) : Type 0 where
  pub stat : F → Result Info
  pub close : F → Option Error × F
  pub read : ℕ → F → Taken × F
  pub read_at : ℕ → ℕ → F → Taken × F
  pub seek : ℤ → Whence → F → Counted × F
  pub write : Bytes → F → Counted × F
  pub write_at : Bytes → ℕ → F → Counted × F
  pub sync : F → Option Error × F

pub record Both (F : Type 0) : Type 0 where
  pub base : Option F
  pub overlay : Option F

abbrev is_eof_errno : Errno → Bool
is_eof_errno eof = true
is_eof_errno _ = false

-- `err == nil || err == io.EOF`
abbrev pub none_or_eof : Option Error → Bool
none_or_eof none = true
none_or_eof (some (bare e)) = is_eof_errno e
none_or_eof (some _) = false

abbrev pub is_nil : Option Error → Bool
is_nil none = true
is_nil (some e) = false

abbrev pub first_of : Option Error → Option Error → Option Error
first_of none e = e
first_of (some d) e = some d

module _ {F Info : Type 0} (c : Calls F Info) where
  unfoldable pub stat : Both F → Result Info
  stat f = elim f.overlay [
    | some o ↦ c.stat o
    | none ↦ elim f.base [ some b ↦ c.stat b | none ↦ err (bare invalid) ]
  ]

  abbrev closed : Option F → Option F
  closed none = none
  closed (some b) = some (c.close b).1

  -- The base is closed first, and its error passed over.
  unfoldable pub close : Both F → Option Error × Both F
  close f = elim f.overlay [
    | some o ↦ ((c.close o).0, record { base = closed f.base; overlay = some (c.close o).1 })
    | none ↦ (some (bare invalid), record { base = closed f.base; overlay = none })
  ]

  -- What is done to the base after the overlay: its error and its state.
  abbrev Follow : Type 0
  Follow = Option F → Option Error × Option F

  abbrev followed : (F → Counted × F) → Follow
  followed act none = (none, none)
  followed act (some b) = ((act b).0.1, some (act b).1)

  abbrev pub read_both : Option F → Taken × F → Taken × Both F
  read_both b ((bs, e), o) =
      if none_or_eof e
      then (let (failure, after) = followed (c.seek (pos (length bs)) from_current) b in
          ((bs, first_of failure e), record { base = after; overlay = some o }))
      else ((bs, e), record { base = b; overlay = some o })

  abbrev base_only : {A : Type 0} → A → (F → A × F) → Option F → A × Both F
  base_only failed act none = (failed, record { base = none; overlay = none })
  base_only failed act (some b) = ((act b).0, record { base = some (act b).1; overlay = none })

  unfoldable pub read : ℕ → Both F → Taken × Both F
  read n f = elim f.overlay [
    | some o ↦ read_both f.base (c.read n o)
    | none ↦ base_only ([], some (bare invalid)) (c.read n) f.base
  ]

  -- The error of the overlay gives way to that of the base.
  abbrev replaced :
      {A : Type 0}
      → (A × Option Error)
      → F
      → Option F
      → (F → Counted × F)
      → (A × Option Error) × Both F
  replaced (a, e) o none act = ((a, e), record { base = none; overlay = some o })
  replaced (a, e) o (some b) act =
      ((a, (act b).0.1), record { base = some (act b).1; overlay = some o })

  abbrev kept : {A : Type 0} → (A × Option Error) → F → Option F → (A × Option Error) × Both F
  kept r o b = (r, record { base = b; overlay = some o })

  abbrev read_at_both : ℕ → Option F → Taken × F → Taken × Both F
  read_at_both at b (r, o) =
      if none_or_eof r.1
      then replaced r o b (c.seek (pos (at + length r.0)) from_start)
      else kept r o b

  unfoldable pub read_at : ℕ → ℕ → Both F → Taken × Both F
  read_at n at f = elim f.overlay [
    | some o ↦ read_at_both at f.base (c.read_at n at o)
    | none ↦ base_only ([], some (bare invalid)) (c.read_at n at) f.base
  ]

  abbrev seek_both : ℤ → Whence → Option F → Counted × F → Counted × Both F
  seek_both z w b (r, o) = if none_or_eof r.1 then replaced r o b (c.seek z w) else kept r o b

  unfoldable pub seek : ℤ → Whence → Both F → Counted × Both F
  seek z w f = elim f.overlay [
    | some o ↦ seek_both z w f.base (c.seek z w o)
    | none ↦ base_only (0, some (bare invalid)) (c.seek z w) f.base
  ]

  abbrev pub write_both : (F → Counted × F) → Option F → Counted × F → Counted × Both F
  write_both act b (r, o) = if is_nil r.1 then replaced r o b act else kept r o b

  unfoldable pub write : Bytes → Both F → Counted × Both F
  write s f = elim f.overlay [
    | some o ↦ write_both (c.write s) f.base (c.write s o)
    | none ↦ base_only (0, some (bare invalid)) (c.write s) f.base
  ]

  unfoldable pub write_at : Bytes → ℕ → Both F → Counted × Both F
  write_at s at f = elim f.overlay [
    | some o ↦ write_both (c.write_at s at) f.base (c.write_at s at o)
    | none ↦ base_only (0, some (bare invalid)) (c.write_at s at) f.base
  ]

  abbrev synced : Option Error → F → Option F → Option Error × Both F
  synced none o (some b) = ((c.sync b).0, record { base = some (c.sync b).1; overlay = some o })
  synced e o b = (e, record { base = b; overlay = some o })

  unfoldable pub sync : Both F → Option Error × Both F
  sync f = elim f.overlay [
    | some o ↦ synced (c.sync o).0 (c.sync o).1 f.base
    | none ↦ base_only (some (bare invalid)) c.sync f.base
  ]
