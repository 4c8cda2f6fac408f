-- ===== src/Listings/Order.antt =====
-- The sorting of entries by their names (sort.Slice in fs/fskit).
use wanix.Base.{
  Bytes, ◌≡◌, refl, true, false, List, [], ◌∷◌, arith, if◌then◌else◌, ◌==◌, bytes_eq, eq_iff,
  is_before, Bool-cases, inl, inr,
}
use wanix.Listings.{insert_entry, sort_entries}

is_before_asym : (s t : Bytes) → is_before s t ≡ true → is_before t s ≡ false
unfolding is_before
is_before_asym [] [] h = refl
is_before_asym [] (b ∷ t) h = refl
is_before_asym (a ∷ s) [] h = cc
is_before_asym (a ∷ s) (b ∷ t) h = ground (arith, is_before_asym s t)

is_before_irrefl : (s : Bytes) → is_before s s ≡ false
unfolding is_before
is_before_irrefl [] = refl
is_before_irrefl (a ∷ s) = ground (arith, is_before_irrefl s)

module _ {E : Type 0} (name : E → Bytes) where
  -- No entry is before the one in front of it.
  abbrev pub IsFirst : E → List E → Type 0
  IsFirst e [] = Unit {0}
  IsFirst e (x ∷ xs) = is_before (name x) (name e) ≡ false

  abbrev pub IsSorted : List E → Type 0
  IsSorted [] = Unit {0}
  IsSorted (e ∷ es) = IsFirst e es × IsSorted es

  -- The entries of one name, in their order.
  abbrev pub named : Bytes → List E → List E
  named k [] = []
  named k (e ∷ es) = let rest = named k es in if name e == k then e ∷ rest else rest

  insert_entry-IsFirst :
      (x e : E) (xs : List E)
      → is_before (name e) (name x) ≡ false
      → IsFirst x xs
      → IsFirst x (insert_entry name e xs)
  unfolding insert_entry
  insert_entry-IsFirst x e [] h k = h
  insert_entry-IsFirst x e (y ∷ ys) h k = elim (Bool-cases (is_before (name y) (name e))) [
    | inl before ↦ rw before k
    | inr behind ↦ rw behind h
  ]

  insert_entry-IsSorted : (e : E) (xs : List E) → IsSorted xs → IsSorted (insert_entry name e xs)
  unfolding insert_entry
  insert_entry-IsSorted e [] h = (tt, tt)
  insert_entry-IsSorted e (x ∷ xs) h = elim (Bool-cases (is_before (name x) (name e))) [
    | inl before ↦ rw before (
      insert_entry-IsFirst x e xs (is_before_asym (name x) (name e) before) h.0,
      insert_entry-IsSorted e xs h.1,
    )
    | inr behind ↦ rw behind (behind, h)
  ]

  pub sort_entries-IsSorted : (es : List E) → IsSorted (sort_entries name es)
  unfolding sort_entries
  sort_entries-IsSorted [] = tt
  sort_entries-IsSorted (e ∷ es) =
      insert_entry-IsSorted e (sort_entries name es) (sort_entries-IsSorted es)

  named-insert_entry :
      (k : Bytes) (e : E) (xs : List E) → named k (insert_entry name e xs) ≡ named k (e ∷ xs)
  unfolding insert_entry
  named-insert_entry k e [] = refl
  named-insert_entry k e (x ∷ xs) =
      ground
        (arith, named-insert_entry k e xs, eq_iff (name x) k, eq_iff (name e) k, is_before_irrefl k)

  -- Sorting keeps the entries of each name, and their order.
  pub named-sort_entries : (k : Bytes) (es : List E) → named k (sort_entries name es) ≡ named k es
  unfolding sort_entries
  named-sort_entries k [] = refl
  named-sort_entries k (e ∷ es) =
      ground (arith, named-insert_entry k e (sort_entries name es), named-sort_entries k es)
