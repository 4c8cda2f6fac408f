-- ===== src/Paths/Join.antt =====
-- path.Join of valid names: what package path makes of them.
use wanix.Base.{
  ℕ, Bytes, ◌≡◌, ◌≢◌, refl, ap, ◌∙◌, true, false, List, [], ◌∷◌, ◌++◌, arith, eq_nat, Bool-cases,
  inl, inr, append-nil, has_prefix,
}
use wanix.Paths.{slash, dot, clean_elems, onto_first, split, all_elems, clean, join}
use mathlib.Core.List.{reverse-reverse}
use wanix.Paths.Clean.{
  or_dot-ne_nil, join_elems-split, all_elems-clean_elems, all_elems-not_rooted, clean-valid_path,
  all_elems-ne_nil,
}
use wanix.Paths.Dir.{clean_elems-append, all_elems-valid_path}

onto_first-append :
    (c : ℕ) (xs ys : List Bytes) → xs ≢ [] → onto_first c (xs ++ ys) ≡ onto_first c xs ++ ys
onto_first-append c [] ys h = absurd (h refl)
onto_first-append c (x ∷ xs) ys h = refl

split-ne_nil : (s : Bytes) → split s ≢ []
unfolding split
split-ne_nil [] h = cc
split-ne_nil (c ∷ s) h = elim (Bool-cases (eq_nat c slash)) [
  | inl e ↦ ground arith
  | inr e ↦ ground (arith, onto_ne c (split s))
]
  where
    onto_ne : (c : ℕ) (xs : List Bytes) → onto_first c xs ≢ []
    onto_ne c [] k = cc
    onto_ne c (x ∷ xs) k = cc

split-append : (s t : Bytes) → split (s ++ (slash ∷ t)) ≡ split s ++ split t
unfolding split
split-append [] t = refl
split-append (c ∷ s) t = elim (Bool-cases (eq_nat c slash)) [
  | inl e ↦ rw (e, split-append s t)
  | inr e ↦ rw (e, split-append s t) (onto_first-append c (split s) (split t) (split-ne_nil s))
]

all_elems-append :
    (xs ys : List Bytes) → all_elems xs ≡ true → all_elems ys ≡ true → all_elems (xs ++ ys) ≡ true
unfolding all_elems
all_elems-append [] ys h k = k
all_elems-append (x ∷ xs) ys h k = ground (arith, all_elems-append xs ys)

-- Two names of proper elements are joined by a slash, and make a name of proper elements.
pub all_elems-join :
    (d n : Bytes)
    → all_elems (split d) ≡ true
    → all_elems (split n) ≡ true
    → all_elems (split (d ++ (slash ∷ n))) ≡ true
all_elems-join d n h k = rw (split-append d n) (all_elems-append (split d) (split n) h k)

pub join-all_elems :
    (d n : Bytes)
    → all_elems (split d) ≡ true
    → all_elems (split n) ≡ true
    → join d n ≡ d ++ (slash ∷ n)
unfolding join
join-all_elems [] n h k = absurd (all_elems-ne_nil [] h refl)
join-all_elems (a ∷ d) [] h k = absurd (all_elems-ne_nil [] k refl)
join-all_elems (a ∷ d) (b ∷ n) h k =
    clean-valid_path ((a ∷ d) ++ (slash ∷ b ∷ n))
      (all_elems-valid_path ((a ∷ d) ++ (slash ∷ b ∷ n)) (all_elems-join (a ∷ d) (b ∷ n) h k))

split-append_dot : (d : Bytes) → split (d ++ (slash ∷ dot)) ≡ split d ++ dot ∷ []
split-append_dot d = split-append d dot ∙ ap (λ xs. split d ++ xs) (unfold split in refl)

-- Joining the root changes nothing.
pub join-dot : (d : Bytes) → all_elems (split d) ≡ true → join d dot ≡ d
unfolding join
join-dot [] h = absurd (all_elems-ne_nil [] h refl)
join-dot (a ∷ d) h =
    let not_rooted : has_prefix ((a ∷ d) ++ (slash ∷ dot)) (slash ∷ []) ≡ false =
      unfold has_prefix in all_elems-not_rooted (a ∷ d) h in
    unfold clean in
    rw
      (
        not_rooted,
        split-append_dot (a ∷ d),
        clean_elems-append false [] (split (a ∷ d)) (dot ∷ []),
        all_elems-clean_elems false [] (split (a ∷ d)) h,
        append-nil,
      )
      (unfold clean_elems in
        rw (reverse-reverse, join_elems-split) (or_dot-ne_nil (a ∷ d) (all_elems-ne_nil (a ∷ d) h)))
