-- ===== src/Base/Strings.antt =====
-- More of package strings, and the order of strings.
use Prim.Native.Nat.{ℕ}
use mathlib.Core.Bool.{Bool, true, false, ◌&&◌, ◌||◌}
use mathlib.Core.List.{List, [], ◌∷◌, reverse}
use wanix.Base.Tests.{eq_nat, ltb, leb, if◌then◌else◌}
use wanix.Base.Text.{Bytes}

-- unicode.IsSpace
abbrev pub is_space : ℕ → Bool
is_space c =
    (leb 9 c && leb c 13)
    || eq_nat c 32
    || eq_nat c 133
    || eq_nat c 160
    || eq_nat c 5760
    || (leb 8192 c && leb c 8202)
    || eq_nat c 8232
    || eq_nat c 8233
    || eq_nat c 8239
    || eq_nat c 8287
    || eq_nat c 12288

unfoldable pub trim_space_left : Bytes → Bytes
trim_space_left [] = []
trim_space_left (c ∷ s) = let rest = trim_space_left s in if is_space c then rest else c ∷ s

-- strings.TrimSpace
unfoldable pub trim_space : Bytes → Bytes
unfolding trim_space_left
trim_space s = reverse (trim_space_left (reverse (trim_space_left s)))

abbrev onto_head : ℕ → List Bytes → List Bytes
onto_head c [] = (c ∷ []) ∷ []
onto_head c (x ∷ xs) = (c ∷ x) ∷ xs

-- strings.Split at a single character
unfoldable pub split_on : ℕ → Bytes → List Bytes
split_on c [] = [] ∷ []
split_on c (b ∷ s) = let rest = split_on c s in if eq_nat b c then [] ∷ rest else onto_head b rest

-- The order of strings, by their characters.
unfoldable pub is_before : Bytes → Bytes → Bool
is_before s [] = false
is_before [] (b ∷ t) = true
is_before (a ∷ s) (b ∷ t) = ltb a b || (eq_nat a b && is_before s t)

unfoldable pub insert_string : Bytes → List Bytes → List Bytes
unfolding is_before
insert_string s [] = s ∷ []
insert_string s (t ∷ ts) =
    let rest = insert_string s ts in if is_before t s then t ∷ rest else s ∷ t ∷ ts

-- sort.Strings
unfoldable pub sort_strings : List Bytes → List Bytes
unfolding insert_string
sort_strings [] = []
sort_strings (s ∷ ss) = insert_string s (sort_strings ss)
