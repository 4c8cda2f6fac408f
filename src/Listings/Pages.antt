-- ===== src/Listings/Pages.antt =====
-- DirIter.ReadDir of fs/fskit/diriter.go: the pieces that an iterator gives.
use wanix.Base.{
  ℕ, zero, suc, ◌+◌, ◌-◌, ◌≤◌, ◌<◌, ◌≡◌, refl, sym, ap, ◌∙◌, Option, none, some, List, [], ◌∷◌,
  ◌++◌, arith, if◌then◌else◌, ltb, length, drop, take, drop-length, take-append-drop, drop-drop,
  Bool-cases, inl, inr,
}
use wanix.Errors.{Error, bare, eof, Result, ok, err}
use wanix.Actions.{Action}
use wanix.Listings.{DirIter, elements, read_dir}

page-then_rest :
    {E : Type 0} (cursor end : ℕ) (es : List E)
    → cursor ≤ end
    → take (end - cursor) (drop cursor es) ++ drop end es ≡ drop cursor es
page-then_rest cursor end es h =
    let apart : end ≡ cursor + (end - cursor) = omega (arith, h) in
    let joined : drop end es ≡ drop (end - cursor) (drop cursor es) =
      ap (λ n. drop n es) apart ∙ drop-drop cursor (end - cursor) es in
    rw joined (take-append-drop (end - cursor) (drop cursor es))

module _ {E S : Type 0} (fn : Action S (Option (List E))) where
  -- A client that calls `ReadDir(n)` until it fails: what it was given, how it ended, and the
  -- iterator after that.
  pub record Reading : Type 0 where
    pub given : List E
    pub ended : Option Error
    pub after : DirIter E S

  abbrev gave : List E → Reading → Reading
  gave es r = record r { given = es ++ r.given }

  abbrev continue : (DirIter E S → Reading) → Result (List E) × DirIter E S → Reading
  continue next (ok es, it) = gave es (next it)
  continue next (err e, it) = record { given = []; ended = some e; after = it }

  pub pieces : ℕ → ℕ → DirIter E S → Reading
  pieces zero n it = record { given = []; ended = none; after = it }
  pieces (suc rounds) n it = continue (pieces rounds n) (read_dir fn n it)

  abbrev Done : List E → S → Reading → Type 0
  Done es s r =
      (r.given ≡ es)
      × (r.ended ≡ some (bare eof))
      × (r.after ≡ record { entries = none; cursor = r.after.cursor; source = s })

  rest_of_pieces :
      (rounds n cursor : ℕ) (es : List E) (s : S)
      → length es - cursor < rounds
      → Done
          (drop cursor es)
          s
          (pieces rounds (suc n) (record { entries = some es; cursor = cursor; source = s }))
  unfolding pieces read_dir
  rest_of_pieces zero n cursor es s h = absurd (omega arith)
  rest_of_pieces (suc rounds) n cursor es s h = elim (Bool-cases (ltb cursor (length es))) [
    | inl left ↦
        let end : ℕ = if ltb (length es) (cursor + suc n) then length es else cursor + suc n in
        let r = rest_of_pieces rounds n end es s (ground arith) in
        rw left (rw r.0 (page-then_rest cursor end es (ground arith)), r.1, r.2)
    | inr over ↦ rw over (sym (drop-length cursor es (ground arith)), refl, refl)
  ]

  -- The pieces that a fresh DirIter gives, of any positive size, put together, are the entries
  -- that its function reads, and the end is reported after them, once there are more rounds than
  -- entries; the iterator is then as a fresh one, so that a further ReadDir reads the directory
  -- anew.
  pub pieces_lem :
      (rounds n : ℕ) (it : DirIter E S) (o : Option (List E)) (s : S)
      → it.entries ≡ none
      → fn it.source ≡ (ok o, s)
      → length (elements o) < rounds
      → ((pieces rounds (suc n) it).given ≡ elements o)
        × ((pieces rounds (suc n) it).ended ≡ some (bare eof))
        × ((pieces rounds (suc n) it).after.entries ≡ none)
        × ((pieces rounds (suc n) it).after.source ≡ s)
  unfolding pieces read_dir
  pieces_lem zero n it o s fresh reads h = absurd (omega arith)
  pieces_lem (suc rounds) n it none s fresh reads h = rw (fresh, reads) (refl, refl, refl, refl)
  pieces_lem (suc rounds) n it (some []) s fresh reads h =
      rw (fresh, reads) (refl, refl, refl, refl)
  pieces_lem (suc rounds) n it (some (e ∷ es)) s fresh reads h =
      let r = rest_of_pieces (suc rounds) n 0 (e ∷ es) s (omega (arith, h)) in
      rw (fresh, reads) (r.0, r.1, ap (λ i. i.entries) r.2, ap (λ i. i.source) r.2)
