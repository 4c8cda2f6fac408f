-- ===== src/Subdir/Names.antt =====
-- The names of fs/sub.go: fullName and shorten, and the errors that go through fixErr.
use wanix.Base.{
  ℕ, suc, ◌+◌, Bytes, ◌≡◌, ◌⊎◌, inl, inr, refl, true, false, some, [], ◌∷◌, ◌++◌, arith, bytes_eq,
  eq_bytes, eq_refl, leb, length, drop, get_elem?, length-append, take-append_length, has_prefix,
  has_prefix-append, append_assoc, String, Bool-cases,
}
use wanix.Errors.{Errno, path_error, ok, err}
use wanix.Paths.{slash, split, all_elems, valid_path, join}
use wanix.Paths.Clean.{all_elems-ne_nil}
use wanix.Paths.Dir.{valid_path-cases}
use wanix.Paths.Join.{join-dot, join-all_elems}
use wanix.Contexts.{Ctx}
use wanix.Subdir.{Whole, full_name, shorten, fix_err, stat_context}

-- The name of a directory other than the root.
abbrev pub IsSubdir : Bytes → Type 0
IsSubdir d = all_elems (split d) ≡ true

get_elem?-append_length : (d t : Bytes) (c : ℕ) → get_elem? (d ++ (c ∷ t)) (length d) ≡ some c
get_elem?-append_length [] t c = refl
get_elem?-append_length (a ∷ d) t c = get_elem?-append_length d t c

drop-append_more : (d t : Bytes) (c : ℕ) → drop (length d + 1) (d ++ (c ∷ t)) ≡ t
drop-append_more [] t c = refl
drop-append_more (a ∷ d) t c =
    let e : length (a ∷ d) + 1 ≡ suc (length d + 1) = omega arith in rw e (drop-append_more d t c)

append-longer : (d t : Bytes) → eq_bytes (d ++ (slash ∷ t)) d ≡ false
unfolding eq_bytes
append-longer [] t = refl
append-longer (a ∷ d) t = ground (arith, append-longer d t)

shorten-append : (d : Bytes) (c : ℕ) (n : Bytes) → shorten d (d ++ (slash ∷ c ∷ n)) ≡ some (c ∷ n)
unfolding shorten
shorten-append d c n =
    let long : leb (length d + 2) (length (d ++ (slash ∷ c ∷ n))) ≡ true =
      ground (arith, length-append d (slash ∷ c ∷ n)) in
    rw (
      append-longer d (c ∷ n),
      long,
      get_elem?-append_length d (c ∷ n) slash,
      take-append_length d (slash ∷ c ∷ n),
      eq_refl d,
      drop-append_more d (c ∷ n) slash,
    )

-- For a directory other than the root, shorten takes back what fullName adds: the whole name of a
-- name that it takes is made that name again.
pub shorten-full_name :
    (op : String) (d name full : Bytes)
    → IsSubdir d
    → full_name op d name ≡ ok full
    → shorten d full ≡ some name
unfolding full_name
shorten-full_name op d name full h done = elim (Bool-cases (valid_path name)) [
  | inr bad ↦ absurd (ground arith)
  | inl good ↦
      let e : full ≡ join d name = ground arith in
      rw e (elim (valid_path-cases name good) [
        | inl root ↦ rw (root, join-dot d h) (unfold shorten in rw (eq_refl d))
        | inr below ↦ rw (join-all_elems d name h below) (nonempty name below)
      ])
]
  where
    nonempty :
        (name : Bytes) → all_elems (split name) ≡ true → shorten d (d ++ (slash ∷ name)) ≡ some name
    nonempty [] k = absurd (all_elems-ne_nil [] k refl)
    nonempty (c ∷ n) k = shorten-append d c n

-- For a directory other than the root, the whole name of a name that fullName takes is the
-- directory or is below it.
pub full_name-below :
    (op : String) (d name full : Bytes)
    → IsSubdir d
    → full_name op d name ≡ ok full
    → (full ≡ d) ⊎ (has_prefix full (d ++ (slash ∷ [])) ≡ true)
unfolding full_name
full_name-below op d name full h done = elim (Bool-cases (valid_path name)) [
  | inr bad ↦ absurd (ground arith)
  | inl good ↦
      let e : full ≡ join d name = ground arith in
      elim (valid_path-cases name good) [
        | inl root ↦ inl (rw (e, root) (join-dot d h))
        | inr below ↦ inr (rw (e, join-all_elems d name h below) (prefix name))
      ]
]
  where
    prefix : (name : Bytes) → has_prefix (d ++ (slash ∷ name)) (d ++ (slash ∷ [])) ≡ true
    prefix name =
        let e : d ++ (slash ∷ name) ≡ (d ++ (slash ∷ [])) ++ name = rw append_assoc in
        rw e (has_prefix-append (d ++ (slash ∷ [])) name)

-- An error of StatContext at the whole name, from the file system, is reported at the name that
-- was asked for; for a directory other than the root and a name that fullName takes.
pub stat_context-error :
    {F S Info H : Type 0} (w : Whole F S Info H) (d name full : Bytes) (ctx : Ctx F) (s : S)
    (op : String) (e : Errno)
    → IsSubdir d
    → full_name "stat" d name ≡ ok full
    → (w.stat ctx full s).0 ≡ err (path_error op full e)
    → (stat_context w d ctx name s).0 ≡ err (path_error op name e)
unfolding stat_context
stat_context-error w d name full ctx s op e h named failed =
    rw (named, failed) (unfold fix_err in rw (shorten-full_name "stat" d name full h named))
