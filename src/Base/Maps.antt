-- ===== src/Base/Maps.antt =====
-- Go maps as association lists. A lookup sees the first binding of a key; `put` keeps one binding.
-- Ranging over a Go map visits the bindings in some order: here, in the order of the list.
use mathlib.Core.Path.{◌≡◌, refl, sym}
use mathlib.Core.Bool.{Bool, true, false}
use mathlib.Core.List.{List, [], ◌∷◌}
use mathlib.Core.Logic.{inl, inr}
use mathlib.Core.Option.{Option, none, some}
use native.Mathlib.Omega.{arith}
use wanix.Base.Tests.{if◌then◌else◌, Eq, ◌==◌, eq_iff, Bool-cases}

abbrev pub Map {ℓ κ} : Type ℓ → Type κ → Type (ℓ ⊔ κ)
Map K V = List (K × V)

module _ {ℓ κ} {K : Type ℓ} {V : Type κ} ⦃e : Eq K⦄ where
  unfoldable pub lookup : K → Map K V → Option V
  lookup k [] = none
  lookup k ((j, v) ∷ m) = if j == k then some v else lookup k m

  unfoldable pub put : K → V → Map K V → Map K V
  put k v [] = (k, v) ∷ []
  put k v ((j, w) ∷ m) = if j == k then (k, v) ∷ m else (j, w) ∷ put k v m

  unfoldable pub delete : K → Map K V → Map K V
  delete k [] = []
  delete k ((j, v) ∷ m) = let rest = delete k m in if j == k then rest else (j, v) ∷ rest

  -- `for key := range m { if p(key) { delete(m, key) } }`
  unfoldable pub delete_if : (K → Bool) → Map K V → Map K V
  delete_if p [] = []
  delete_if p ((j, v) ∷ m) = let rest = delete_if p m in if p j then rest else (j, v) ∷ rest

  unfoldable pub has_key : K → Map K V → Bool
  has_key k [] = false
  has_key k ((j, v) ∷ m) = if j == k then true else has_key k m

  unfoldable pub keys : Map K V → List K
  keys [] = []
  keys ((j, v) ∷ m) = j ∷ keys m

  pub lookup-put :
      (k j : K) (v : V) (m : Map K V)
      → lookup j (put k v m) ≡ (if k == j then some v else lookup j m)
  unfolding lookup put
  lookup-put k j v [] = refl
  lookup-put k j v ((i, w) ∷ m) =
      ground (arith, eq_iff k j, eq_iff i k, eq_iff i j, lookup-put k j v m)

  pub lookup-delete :
      (k j : K) (m : Map K V) → lookup j (delete k m) ≡ (if k == j then none else lookup j m)
  unfolding lookup delete
  lookup-delete k j [] = ground arith
  lookup-delete k j ((i, w) ∷ m) =
      ground (arith, eq_iff k j, eq_iff i k, eq_iff i j, lookup-delete k j m)

  pub lookup-delete_if :
      (p : K → Bool) (j : K) (m : Map K V)
      → lookup j (delete_if p m) ≡ (if p j then none else lookup j m)
  unfolding lookup delete_if
  lookup-delete_if p j [] = ground arith
  lookup-delete_if p j ((i, w) ∷ m) = elim (Bool-cases (i == j)) [
    | inl same ↦ let path = (eq_iff i j).0 same in ground (arith, path, lookup-delete_if p j m)
    | inr other ↦ ground (arith, lookup-delete_if p j m)
  ]

  pub ruleset map_laws = (lookup-put, lookup-delete, lookup-delete_if)

-- No key has two bindings.
module _ {ℓ κ} {K : Type ℓ} {V : Type κ} ⦃e : Eq K⦄ where
  abbrev pub IsDistinct : Map K V → Type κ
  IsDistinct [] = Unit
  IsDistinct ((k, v) ∷ m) = (lookup k m ≡ none) × IsDistinct m

  pub put-IsDistinct : (k : K) (v : V) (m : Map K V) → IsDistinct m → IsDistinct (put k v m)
  unfolding lookup put
  put-IsDistinct k v [] d = (refl, tt)
  put-IsDistinct k v ((j, w) ∷ m) (fresh, d) = elim (Bool-cases (j == k)) [
    | inl same ↦ let path = (eq_iff j k).0 same in rw same (rw (sym path) fresh, d)
    | inr other ↦
        rw other (
          ground (arith, fresh, eq_iff k j, eq_iff j k, lookup-put k j v m),
          put-IsDistinct k v m d,
        )
  ]

  pub delete-IsDistinct : (k : K) (m : Map K V) → IsDistinct m → IsDistinct (delete k m)
  unfolding delete
  delete-IsDistinct k [] d = tt
  delete-IsDistinct k ((j, w) ∷ m) (fresh, d) = elim (Bool-cases (j == k)) [
    | inl same ↦ rw same (delete-IsDistinct k m d)
    | inr other ↦ rw other (ground (arith, fresh, lookup-delete k j m), delete-IsDistinct k m d)
  ]
