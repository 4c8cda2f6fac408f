-- ===== src/Paths.antt =====
-- Slash-separated paths: `fs.ValidPath` (io/fs) and the functions of package path that the file
-- systems call. A name is the list of its code points, so it is always valid UTF-8.
pub mod Clean
pub mod Dir
pub mod Join
use wanix.Base.{
  ℕ, Bytes, codes, ◌≡◌, refl, ap, Bool, true, false, not, ◌&&◌, ◌||◌, List, [], ◌∷◌, ◌++◌, arith,
  if◌then◌else◌, ◌==◌, bytes_eq, eq_bytes, eq_nat, eq_bytes_iff, eq_nat_iff, has_prefix, is_empty,
  Bool-cases, inl, inr,
}
use mathlib.Core.List.{reverse}

abbrev pub slash : ℕ
slash = b'/'

abbrev pub dot : Bytes
dot = b'.' ∷ []

abbrev pub dot_dot : Bytes
dot_dot = b'.' ∷ b'.' ∷ []

abbrev pub onto_first : ℕ → List Bytes → List Bytes
onto_first c [] = (c ∷ []) ∷ []
onto_first c (x ∷ xs) = (c ∷ x) ∷ xs

-- The elements between the slashes.
unfoldable pub split : Bytes → List Bytes
split [] = [] ∷ []
split (c ∷ s) = let rest = split s in if eq_nat c slash then [] ∷ rest else onto_first c rest

unfoldable pub join_elems : List Bytes → Bytes
join_elems [] = []
join_elems (x ∷ []) = x
join_elems (x ∷ y ∷ xs) = x ++ (slash ∷ join_elems (y ∷ xs))

unfoldable pub is_elem : Bytes → Bool
unfolding eq_bytes
is_elem x = not (is_empty x || eq_bytes x dot || eq_bytes x dot_dot)

unfoldable pub all_elems : List Bytes → Bool
all_elems [] = true
all_elems (x ∷ xs) = is_elem x && all_elems xs

-- fs.ValidPath
unfoldable pub valid_path : Bytes → Bool
unfolding all_elems is_elem split eq_bytes
valid_path name = eq_bytes name dot || all_elems (split name)

-- What path.Clean does with one more element, over the elements kept so far, the last one first.
unfoldable pub clean_elem : Bool → List Bytes → Bytes → List Bytes
unfolding eq_bytes
clean_elem rooted kept x =
    if is_empty x || eq_bytes x dot
    then kept
    else if eq_bytes x dot_dot
    then up rooted kept
    else x ∷ kept
  where
    up : Bool → List Bytes → List Bytes
    up true [] = []
    up false [] = dot_dot ∷ []
    up r (y ∷ ys) = if eq_bytes y dot_dot then dot_dot ∷ y ∷ ys else ys

unfoldable pub clean_elems : Bool → List Bytes → List Bytes → List Bytes
unfolding clean_elem
clean_elems rooted kept [] = kept
clean_elems rooted kept (x ∷ xs) = clean_elems rooted (clean_elem rooted kept x) xs

abbrev pub or_dot : Bytes → Bytes
or_dot [] = dot
or_dot (c ∷ s) = c ∷ s

-- path.Clean
unfoldable pub clean : Bytes → Bytes
unfolding clean_elems join_elems split has_prefix
clean p =
    let rooted = has_prefix p (slash ∷ []) in
    let body = join_elems (reverse (clean_elems rooted [] (split p))) in
    if rooted then slash ∷ body else or_dot body

-- All but the last element, each with its slash.
abbrev pub without_last : List Bytes → Bytes
without_last [] = []
without_last (x ∷ []) = []
without_last (x ∷ y ∷ xs) = x ++ (slash ∷ without_last (y ∷ xs))

-- path.Dir, and filepath.Dir on a system whose separator is the slash
unfoldable pub dir : Bytes → Bytes
unfolding clean
dir p = clean (without_last (split p))

abbrev pub last_elem : List Bytes → Bytes
last_elem [] = []
last_elem (x ∷ []) = x
last_elem (x ∷ y ∷ xs) = last_elem (y ∷ xs)

abbrev pub last_nonempty : List Bytes → Bytes → Bytes
last_nonempty [] best = best
last_nonempty (x ∷ xs) best = last_nonempty xs (if is_empty x then best else x)

-- path.Base
unfoldable pub base : Bytes → Bytes
unfolding split
base [] = dot
base (c ∷ s) =
    let last = last_nonempty (split (c ∷ s)) [] in if is_empty last then slash ∷ [] else last

-- path.Join of two elements
unfoldable pub join : Bytes → Bytes → Bytes
unfolding clean
join [] [] = []
join [] (b ∷ t) = clean (b ∷ t)
join (a ∷ s) [] = clean (a ∷ s)
join (a ∷ s) (b ∷ t) = clean ((a ∷ s) ++ (slash ∷ b ∷ t))

clean_examples :
    (clean (codes "a//b/./c/..") ≡ codes "a/b")
    × (clean (codes "/../x") ≡ codes "/x")
    × (clean (codes "../..//y/") ≡ codes "../../y")
    × (clean (codes "a/..") ≡ codes ".")
unfolding clean
clean_examples = (refl, refl, refl, refl)

dir_examples :
    (dir (codes "a/b/c") ≡ codes "a/b")
    × (dir (codes "a") ≡ codes ".")
    × (dir (codes "/a") ≡ codes "/")
    × (base (codes "a/b/") ≡ codes "b")
    × (base (codes "//") ≡ codes "/")
    × (join (codes "a/b") (codes ".") ≡ codes "a/b")
unfolding dir base join
dir_examples = (refl, refl, refl, refl, refl, refl)

valid_path_examples :
    (valid_path (codes "a/b") ≡ true)
    × (valid_path (codes "a//b") ≡ false)
    × (valid_path (codes "/a") ≡ false)
    × (valid_path (codes ".") ≡ true)
    × (valid_path (codes "./a") ≡ false)
    × (valid_path [] ≡ false)
unfolding valid_path
valid_path_examples = (refl, refl, refl, refl, refl, refl)
