-- ===== src/Paths/Dir.antt =====
-- path.Dir of a valid path: it drops the last element, is valid again, and is shorter.
use wanix.Base.{
  ℕ, ◌<◌, Bytes, ◌≡◌, ◌⊎◌, refl, ap, ◌∙◌, Bool, true, false, not, ◌&&◌, List, [], ◌∷◌, ◌++◌, arith,
  eq_bytes, eq_nat, eq_bytes_iff, has_prefix, append-nil, Bool-cases, inl, inr, contains_byte,
  length, length-append,
}
use mathlib.Core.List.{reverse-reverse}
use wanix.Paths.{
  split, join_elems, is_elem, all_elems, valid_path, clean_elem, clean_elems, or_dot, clean, dot,
  slash, onto_first, without_last, dir,
}
use wanix.Paths.Clean.{join_elems-split, all_elems-clean_elems, or_dot-ne_nil, all_elems-ne_nil}

no_slashes : List Bytes → Bool
unfolding contains_byte
no_slashes [] = true
no_slashes (x ∷ xs) = not (contains_byte slash x) && no_slashes xs

no_slashes-onto_first :
    (c : ℕ) (xs : List Bytes)
    → eq_nat c slash ≡ false
    → no_slashes xs ≡ true
    → no_slashes (onto_first c xs) ≡ true
unfolding no_slashes
no_slashes-onto_first c [] h k = ground arith
no_slashes-onto_first c (x ∷ xs) h k = ground arith

no_slashes-nil_cons : (xs : List Bytes) → no_slashes ([] ∷ xs) ≡ no_slashes xs
unfolding no_slashes
no_slashes-nil_cons xs = refl

no_slashes-split : (s : Bytes) → no_slashes (split s) ≡ true
unfolding split
no_slashes-split [] = unfold no_slashes in refl
no_slashes-split (c ∷ s) = elim (Bool-cases (eq_nat c slash)) [
  | inl e ↦ rw (e, no_slashes-nil_cons) (no_slashes-split s)
  | inr e ↦ rw e (no_slashes-onto_first c (split s) e (no_slashes-split s))
]

split-append_slash :
    (x r : Bytes) → contains_byte slash x ≡ false → split (x ++ (slash ∷ r)) ≡ x ∷ split r
unfolding split contains_byte
split-append_slash [] r h = refl
split-append_slash (c ∷ x) r h = ground (arith, split-append_slash x r)

split-no_slash : (x : Bytes) → contains_byte slash x ≡ false → split x ≡ x ∷ []
unfolding split contains_byte
split-no_slash [] h = refl
split-no_slash (c ∷ x) h = ground (arith, split-no_slash x)

-- All but the last of a list.
unfoldable pub init : List Bytes → List Bytes
init [] = []
init (x ∷ []) = []
init (x ∷ y ∷ xs) = x ∷ init (y ∷ xs)

split-without_last :
    (xs : List Bytes) → no_slashes xs ≡ true → split (without_last xs) ≡ init xs ++ ([] ∷ [])
unfolding init
split-without_last [] h = unfold split in refl
split-without_last (x ∷ []) h = unfold split in refl
split-without_last (x ∷ y ∷ xs) h = rw (
  split-append_slash x (without_last (y ∷ xs)) (unfold no_slashes in ground arith),
  split-without_last (y ∷ xs) (tail_no_slashes x (y ∷ xs) h),
)
  where
    tail_no_slashes :
        (x : Bytes) (xs : List Bytes) → no_slashes (x ∷ xs) ≡ true → no_slashes xs ≡ true
    tail_no_slashes x xs h = unfold no_slashes in ground arith

split-join_elems :
    (x : Bytes) (xs : List Bytes)
    → no_slashes (x ∷ xs) ≡ true
    → split (join_elems (x ∷ xs)) ≡ x ∷ xs
unfolding no_slashes join_elems
split-join_elems x [] h = split-no_slash x (ground arith)
split-join_elems x (y ∷ xs) h = rw (
  split-append_slash x (join_elems (y ∷ xs)) (ground arith),
  split-join_elems y xs (ground arith),
)

all_elems-init : (xs : List Bytes) → all_elems xs ≡ true → all_elems (init xs) ≡ true
unfolding all_elems init
all_elems-init [] h = refl
all_elems-init (x ∷ []) h = refl
all_elems-init (x ∷ y ∷ xs) h = ground (arith, all_elems-init (y ∷ xs))

no_slashes-init : (xs : List Bytes) → no_slashes xs ≡ true → no_slashes (init xs) ≡ true
unfolding no_slashes init
no_slashes-init [] h = refl
no_slashes-init (x ∷ []) h = refl
no_slashes-init (x ∷ y ∷ xs) h = ground (arith, no_slashes-init (y ∷ xs))

pub clean_elems-append :
    (r : Bool) (kept xs ys : List Bytes)
    → clean_elems r kept (xs ++ ys) ≡ clean_elems r (clean_elems r kept xs) ys
unfolding clean_elems
clean_elems-append r kept [] ys = refl
clean_elems-append r kept (x ∷ xs) ys = clean_elems-append r (clean_elem r kept x) xs ys

without_last-not_rooted :
    (xs : List Bytes)
    → all_elems xs ≡ true
    → no_slashes xs ≡ true
    → has_prefix (without_last xs) (slash ∷ []) ≡ false
unfolding has_prefix all_elems no_slashes is_elem contains_byte
without_last-not_rooted [] h k = refl
without_last-not_rooted (x ∷ []) h k = refl
without_last-not_rooted ([] ∷ y ∷ xs) h k = ground arith
without_last-not_rooted ((c ∷ x) ∷ y ∷ xs) h k = ground arith

-- The directory of a path whose elements are all proper: the elements but the last.
pub dir_lem :
    (p : Bytes) → all_elems (split p) ≡ true → dir p ≡ or_dot (join_elems (init (split p)))
unfolding dir clean
dir_lem p h =
    rw
      (
        without_last-not_rooted (split p) h (no_slashes-split p),
        split-without_last (split p) (no_slashes-split p),
        clean_elems-append false [] (init (split p)) ([] ∷ []),
        all_elems-clean_elems false [] (init (split p)) (all_elems-init (split p) h),
        append-nil,
      )
      (unfold clean_elems in rw reverse-reverse)

pub valid_path-cases : (p : Bytes) → valid_path p ≡ true → (p ≡ dot) ⊎ (all_elems (split p) ≡ true)
unfolding valid_path
valid_path-cases p h = elim (Bool-cases (eq_bytes p dot)) [
  | inl e ↦ inl ((eq_bytes_iff p dot).0 e)
  | inr e ↦ inr (ground arith)
]

pub all_elems-valid_path : (p : Bytes) → all_elems (split p) ≡ true → valid_path p ≡ true
unfolding valid_path
all_elems-valid_path p h = ground arith

length-join_elems-init :
    (x y : Bytes) (xs : List Bytes)
    → length (join_elems (init (x ∷ y ∷ xs))) < length (join_elems (x ∷ y ∷ xs))
unfolding join_elems init
length-join_elems-init x y [] = omega (arith, length-append x (slash ∷ y))
length-join_elems-init x y (z ∷ xs) = omega (
  arith,
  length-append x (slash ∷ join_elems (y ∷ z ∷ xs)),
  length-append x (slash ∷ join_elems (init (y ∷ z ∷ xs))),
  length-join_elems-init y z xs,
)

valid_path-join_elems :
    (xs : List Bytes)
    → all_elems xs ≡ true
    → no_slashes xs ≡ true
    → valid_path (or_dot (join_elems xs)) ≡ true
valid_path-join_elems [] h k = unfold join_elems valid_path in refl
valid_path-join_elems (x ∷ xs) h k =
    let s : split (join_elems (x ∷ xs)) ≡ x ∷ xs = split-join_elems x xs k in
    let proper : all_elems (split (join_elems (x ∷ xs))) ≡ true = rw s h in
    rw (or_dot-ne_nil (join_elems (x ∷ xs)) (all_elems-ne_nil (join_elems (x ∷ xs)) proper))
      (all_elems-valid_path (join_elems (x ∷ xs)) proper)

-- The directory of a path of proper elements is valid.
pub dir-valid_path : (p : Bytes) → valid_path p ≡ true → valid_path (dir p) ≡ true
dir-valid_path p h = elim (valid_path-cases p h) [
  | inl e ↦ rw e (unfold valid_path dir in refl)
  | inr e ↦ rw (dir_lem p e) (
      valid_path-join_elems (init (split p)) (all_elems-init (split p) e)
        (no_slashes-init (split p) (no_slashes-split p)))
]

length-or_dot-init :
    (xs : List Bytes)
    → (or_dot (join_elems (init xs)) ≡ dot)
      ⊎ (length (join_elems (init xs)) < length (join_elems xs))
length-or_dot-init [] = inl (unfold join_elems init in refl)
length-or_dot-init (x ∷ []) = inl (unfold join_elems init in refl)
length-or_dot-init (x ∷ y ∷ xs) = inr (length-join_elems-init x y xs)

length-or_dot : (p : Bytes) → (or_dot p ≡ dot) ⊎ (or_dot p ≡ p)
length-or_dot [] = inl refl
length-or_dot (c ∷ p) = inr refl

-- Going up shortens a valid path, until the root is reached.
pub length-dir : (p : Bytes) → valid_path p ≡ true → (dir p ≡ dot) ⊎ (length (dir p) < length p)
length-dir p h = elim (valid_path-cases p h) [
  | inl e ↦ inl (rw e (unfold dir in refl))
  | inr e ↦ elim (length-or_dot-init (split p)) [
    | inl root ↦ inl (dir_lem p e ∙ root)
    | inr less ↦ elim (length-or_dot (join_elems (init (split p)))) [
      | inl root ↦ inl (dir_lem p e ∙ root)
      | inr same ↦ inr (
          rw (dir_lem p e ∙ same)
            (omega (arith, less, ap (λ (q : Bytes). length q) (join_elems-split p))))
    ]
  ]
]
