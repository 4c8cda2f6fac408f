-- ===== src/Listings/InStep.antt =====
-- The two files of an OverlayFile of fs/fskit/overlayfile.go are kept at the same place.
use wanix.Base.{
  ℕ, ◌+◌, ◌≡◌, refl, sym, ◌∙◌, Bytes, pos, Option, none, some, length, arith, Bool-cases, inl, inr,
}
use wanix.Errors.{Error}
use wanix.Listings.Layered.{
  Calls, Both, from_current, none_or_eof, is_nil, read, write, read_both, write_both, first_of,
}

-- The offset of an open file, and what package io says of it: a Read moves it behind what was read,
-- a Seek from the current place by as much as it is asked, and a Write behind what was written.
pub record Places {F Info : Type 0} (c : Calls F Info) : Type 0 where
  pub offset : F → ℕ
  pub read_moves : (n : ℕ) (f : F) → offset (c.read n f).1 ≡ offset f + length (c.read n f).0.0
  pub seek_moves :
      (n : ℕ) (f : F)
      → (c.seek (pos n) from_current f).0.1 ≡ none
      → offset (c.seek (pos n) from_current f).1 ≡ offset f + n
  pub write_moves :
      (s : Bytes) (f : F) → (c.write s f).0.1 ≡ none → offset (c.write s f).1 ≡ offset f + length s

pub data Call : Type 0 where
  reading : ℕ → Call
  writing : Bytes → Call

module _ {F Info : Type 0} (c : Calls F Info) (places : Places c) where
  abbrev Level : Option F → Option F → Type 0
  Level (some b) (some o) = places.offset b ≡ places.offset o
  Level _ _ = Unit {0}

  abbrev pub InStep : Both F → Type 0
  InStep f = Level f.base f.overlay

  unfoldable pub perform : Call → Both F → Option Error × Both F
  unfolding read write
  perform (reading n) f = ((read c n f).0.1, (read c n f).1)
  perform (writing s) f = ((write c s f).0.1, (write c s f).1)

  first_of-none : (d e : Option Error) → first_of d e ≡ none → (d ≡ none) × (e ≡ none)
  first_of-none none e h = (refl, h)
  first_of-none (some d) e h = cc

  -- What the two files are after a Read of the overlay that gave so many bytes.
  read_both-InStep :
      (b : F) (bs : Bytes) (e : Option Error) (o : F)
      → places.offset o ≡ places.offset b + length bs
      → (read_both c (some b) ((bs, e), o)).0.1 ≡ none
      → InStep (read_both c (some b) ((bs, e), o)).1
  read_both-InStep b bs e o moved fine = elim (Bool-cases (none_or_eof e)) [
    | inl passed ↦
        let both =
          first_of-none (c.seek (pos (length bs)) from_current b).0.1 e (rw passed at fine) in
        rw passed (places.seek_moves (length bs) b both.0 ∙ sym moved)
    | inr failed ↦ absurd (ground (arith, failed, fine))
  ]

  write_both-InStep :
      (s : Bytes) (b : F) (n : ℕ) (e : Option Error) (o : F)
      → (e ≡ none → places.offset o ≡ places.offset b + length s)
      → (write_both c (c.write s) (some b) ((n, e), o)).0.1 ≡ none
      → InStep (write_both c (c.write s) (some b) ((n, e), o)).1
  write_both-InStep s b n none o moved fine = places.write_moves s b fine ∙ sym (moved refl)
  write_both-InStep s b n (some d) o moved fine = cc

  layers-InStep :
      (call : Call) (b o : Option F)
      → Level b o
      → (perform call (record { base = b; overlay = o })).0 ≡ none
      → InStep (perform call (record { base = b; overlay = o })).1
  unfolding perform
  layers-InStep (reading n) none none h fine = tt
  layers-InStep (writing s) none none h fine = tt
  layers-InStep (reading n) (some b) none h fine = tt
  layers-InStep (writing s) (some b) none h fine = tt
  layers-InStep (reading n) (some b) (some o) h fine =
      read_both-InStep b _ _ (c.read n o).1 (rw h (places.read_moves n o)) fine
  layers-InStep (writing s) (some b) (some o) h fine =
      write_both-InStep s b _ _ (c.write s o).1 (λ e. rw h (places.write_moves s o e)) fine
  layers-InStep (reading n) none (some o) h fine =
      elim (Bool-cases (none_or_eof (c.read n o).0.1)) [
        | inl passed ↦ rw passed tt
        | inr failed ↦ rw failed tt
      ]
  layers-InStep (writing s) none (some o) h fine = elim (Bool-cases (is_nil (c.write s o).0.1)) [
    | inl passed ↦ rw passed tt
    | inr failed ↦ rw failed tt
  ]

  -- A Read or a Write of an OverlayFile that reports no error keeps its two files at the same
  -- offset, where both are files whose Read, Seek and Write move the offset as package io says.
  pub perform-InStep :
      (call : Call) (f : Both F) → InStep f → (perform call f).0 ≡ none → InStep (perform call f).1
  perform-InStep call f h fine = layers-InStep call f.base f.overlay h fine
