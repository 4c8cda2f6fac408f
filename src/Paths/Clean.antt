-- ===== src/Paths/Clean.antt =====
-- Laws of path.Clean, path.Join and the splitting into elements.
use wanix.Base.{
  ℕ, Bytes, ◌≡◌, ◌≢◌, refl, sym, ap, Bool, true, false, List, [], ◌∷◌, ◌++◌, arith, eq_bytes,
  eq_nat, eq_bytes_iff, eq_nat_iff, has_prefix, append-nil, append_assoc, Bool-cases, inl, inr,
}
use mathlib.Core.List.{reverse, reverse-cons, reverse-reverse}
use wanix.Paths.{
  split, join_elems, is_elem, all_elems, valid_path, clean_elem, clean_elems, or_dot, clean, dot,
  slash, onto_first,
}

split-ne-nil : (s : Bytes) → split s ≢ []
unfolding split
split-ne-nil [] = ground arith
split-ne-nil (c ∷ s) = elim (Bool-cases (eq_nat c slash)) [
  | inl e ↦ rw e (ground arith)
  | inr e ↦ rw e (go (split s))
]
  where
    go : (xs : List Bytes) → onto_first c xs ≢ []
    go [] = ground arith
    go (x ∷ xs) = ground arith

join_elems-nil_cons : (xs : List Bytes) → xs ≢ [] → join_elems ([] ∷ xs) ≡ slash ∷ join_elems xs
unfolding join_elems
join_elems-nil_cons [] h = absurd (h refl)
join_elems-nil_cons (x ∷ xs) h = refl

join_elems-onto_first : (c : ℕ) (xs : List Bytes) → join_elems (onto_first c xs) ≡ c ∷ join_elems xs
unfolding join_elems
join_elems-onto_first c [] = refl
join_elems-onto_first c (x ∷ []) = refl
join_elems-onto_first c (x ∷ y ∷ xs) = refl

-- Splitting at the slashes loses nothing.
pub join_elems-split : (s : Bytes) → join_elems (split s) ≡ s
unfolding split
join_elems-split [] = unfold join_elems in refl
join_elems-split (c ∷ s) = elim (Bool-cases (eq_nat c slash)) [
  | inl e ↦
      rw (e, join_elems-nil_cons (split s) (split-ne-nil s), join_elems-split s)
        (ap (λ d. d ∷ s) (sym ((eq_nat_iff c slash).0 e)))
  | inr e ↦ rw (e, join_elems-onto_first, join_elems-split s)
]

is_elem-clean_elem :
    (rooted : Bool) (kept : List Bytes) (x : Bytes)
    → is_elem x ≡ true
    → clean_elem rooted kept x ≡ x ∷ kept
unfolding clean_elem is_elem
is_elem-clean_elem rooted kept x h = ground arith

pub all_elems-clean_elems :
    (rooted : Bool) (kept xs : List Bytes)
    → all_elems xs ≡ true
    → clean_elems rooted kept xs ≡ reverse xs ++ kept
unfolding clean_elems all_elems
all_elems-clean_elems rooted kept [] h = refl
all_elems-clean_elems rooted kept (x ∷ xs) h =
    rw (is_elem-clean_elem rooted kept x (ground arith), reverse-cons, append_assoc)
      (all_elems-clean_elems rooted (x ∷ kept) xs (ground arith))

-- The elements of a path with a leading slash begin with an empty one.
pub all_elems-not_rooted :
    (p : Bytes) → all_elems (split p) ≡ true → has_prefix p (slash ∷ []) ≡ false
unfolding all_elems split has_prefix is_elem
all_elems-not_rooted [] h = ground arith
all_elems-not_rooted (c ∷ s) h = ground arith

pub or_dot-ne_nil : (p : Bytes) → p ≢ [] → or_dot p ≡ p
or_dot-ne_nil [] h = absurd (h refl)
or_dot-ne_nil (c ∷ s) h = refl

pub all_elems-ne_nil : (p : Bytes) → all_elems (split p) ≡ true → p ≢ []
unfolding all_elems split is_elem
all_elems-ne_nil [] h = cc
all_elems-ne_nil (c ∷ s) h = ground arith

clean-all_elems : (p : Bytes) → all_elems (split p) ≡ true → clean p ≡ p
unfolding clean
clean-all_elems p h =
    rw (all_elems-not_rooted p h, all_elems-clean_elems false [] (split p) h, append-nil)
      (rw (reverse-reverse, join_elems-split) (or_dot-ne_nil p (all_elems-ne_nil p h)))

-- A valid path is already clean.
pub clean-valid_path : (p : Bytes) → valid_path p ≡ true → clean p ≡ p
unfolding valid_path
clean-valid_path p h = elim (Bool-cases (eq_bytes p dot)) [
  | inl e ↦ rw ((eq_bytes_iff p dot).0 e) clean-dot
  | inr e ↦ clean-all_elems p (ground arith)
]
  where
    clean-dot : clean dot ≡ dot
    clean-dot = unfold clean in refl
