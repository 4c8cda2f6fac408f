-- ===== src/Base/Text.antt =====
-- Go strings and byte slices as lists of numbers, with the operations of package strings that the
-- modelled code calls.
use Prim.Native.Nat.{ℕ}
use Prim.Native.Char.{code}
use Prim.Native.String.{String}
use mathlib.Core.Path.{◌≡◌, refl}
use mathlib.Core.Logic.{◌↔◌}
use mathlib.Core.Bool.{Bool, true, false, ◌&&◌}
use mathlib.Core.List.{List, [], ◌∷◌, ◌++◌}
use native.Mathlib.Omega.{arith}
use wanix.Base.Tests.{eq_nat, if◌then◌else◌, Eq}
use wanix.Base.Lists.{length, drop, drop-append_length}

abbrev pub Bytes : Type 0
Bytes = List ℕ

abbrev pub codes : String → Bytes
codes String.[] = []
codes (String.◌∷◌ c s) = code c ∷ codes s

unfoldable pub eq_bytes : Bytes → Bytes → Bool
eq_bytes [] [] = true
eq_bytes (a ∷ xs) (b ∷ ys) = eq_nat a b && eq_bytes xs ys
eq_bytes _ _ = false

pub eq_bytes_iff : (a b : Bytes) → (eq_bytes a b ≡ true) ↔ (a ≡ b)
unfolding eq_bytes
eq_bytes_iff [] [] = (λ _. refl, λ _. refl)
eq_bytes_iff [] (b ∷ ys) = ground arith
eq_bytes_iff (a ∷ xs) [] = ground arith
eq_bytes_iff (a ∷ xs) (b ∷ ys) = ground (arith, eq_bytes_iff xs ys)

instance abbrev pub bytes_eq : Eq Bytes
bytes_eq = record { same = eq_bytes; same_iff = eq_bytes_iff }

-- strings.HasPrefix
unfoldable pub has_prefix : Bytes → Bytes → Bool
has_prefix s [] = true
has_prefix [] (b ∷ p) = false
has_prefix (a ∷ s) (b ∷ p) = eq_nat a b && has_prefix s p

-- strings.TrimPrefix
unfoldable pub trim_prefix : Bytes → Bytes → Bytes
unfolding has_prefix
trim_prefix s p = if has_prefix s p then drop (length p) s else s

-- strings.Contains for a single byte
unfoldable pub contains_byte : ℕ → Bytes → Bool
contains_byte c [] = false
contains_byte c (b ∷ s) = let rest = contains_byte c s in if eq_nat b c then true else rest

pub has_prefix-append : (p s : Bytes) → has_prefix (p ++ s) p ≡ true
unfolding has_prefix
has_prefix-append [] s = refl
has_prefix-append (b ∷ p) s = ground (arith, has_prefix-append p s)

pub has_prefix-append_right : (s t p : Bytes) → has_prefix s p ≡ true → has_prefix (s ++ t) p ≡ true
unfolding has_prefix
has_prefix-append_right s t [] h = ground arith
has_prefix-append_right [] t (b ∷ p) h = cc
has_prefix-append_right (a ∷ s) t (b ∷ p) h = ground (arith, has_prefix-append_right s t p)

-- Having a prefix is being that prefix followed by the rest.
pub has_prefix-split : (s p : Bytes) → has_prefix s p ≡ true → p ++ drop (length p) s ≡ s
unfolding has_prefix
has_prefix-split s [] h = refl
has_prefix-split [] (b ∷ p) h = ground arith
has_prefix-split (a ∷ s) (b ∷ p) h = ground (arith, has_prefix-split s p)

pub trim_prefix-append : (p s : Bytes) → trim_prefix (p ++ s) p ≡ s
unfolding trim_prefix
trim_prefix-append p s = rw has_prefix-append (drop-append_length p s)

-- Appending on the right of a common prefix keeps texts apart.
pub append_left_cancel : (p s t : Bytes) → p ++ s ≡ p ++ t → s ≡ t
append_left_cancel [] s t h = h
append_left_cancel (a ∷ p) s t h = append_left_cancel p s t (ground arith)
