-- ===== src/Vfs/Lookup.antt =====
-- Which binding a name is resolved through (ResolveFS of fs/vfs/vfs.go, MatchPaths of
-- fs/fskit/misc.go).
use wanix.Base.{
  ℕ, ◌≤◌, Bytes, ◌≡◌, refl, sym, ap, ◌∙◌, Bool, true, false, ◌&&◌, ◌||◌, none, some, List, [], ◌∷◌,
  ◌++◌, arith, bytes_eq, eq_bytes, eq_bytes_iff, eq_refl, lookup, has_prefix, trim_prefix-append,
  keys, leb, length, keep_if, Bool-cases, inl, inr,
}
use wanix.Errors.{Result, ok}
use wanix.Paths.{dot, join}
use wanix.Contexts.{Ctx}
use wanix.Vfs.{Files, BindTarget, Ns, bound}
use wanix.Vfs.Resolve.{
  insert_by_length, sort_by_length, match_paths, Resolved, elsewhere, resolve_under, resolve_first,
  resolve_fs, relative_name, trim_slashes, ask, stats, stat_all, ask_all, first_with,
}

-- The path is in the list.
unfoldable pub mem : Bytes → List Bytes → Bool
mem p [] = false
mem p (q ∷ qs) = eq_bytes p q || mem p qs

-- No path of the list is longer than `n`.
AtMost : ℕ → List Bytes → Type 0
AtMost n [] = Unit {0}
AtMost n (q ∷ qs) = (length q ≤ n) × AtMost n qs

-- Each path is at least as long as those that follow it.
IsFalling : List Bytes → Type 0
IsFalling [] = Unit {0}
IsFalling (q ∷ qs) = AtMost (length q) qs × IsFalling qs

AtMost-insert :
    (n : ℕ) (p : Bytes) (qs : List Bytes)
    → length p ≤ n
    → AtMost n qs
    → AtMost n (insert_by_length p qs)
unfolding AtMost insert_by_length
AtMost-insert n p [] h k = (h, tt)
AtMost-insert n p (q ∷ qs) h k = elim (Bool-cases (leb (length q) (length p))) [
  | inl e ↦ rw e (h, k)
  | inr e ↦ rw e (k.0, AtMost-insert n p qs h k.1)
]

AtMost-weaken : (m n : ℕ) (qs : List Bytes) → m ≤ n → AtMost m qs → AtMost n qs
unfolding AtMost
AtMost-weaken m n [] h k = tt
AtMost-weaken m n (q ∷ qs) h k = (omega arith, AtMost-weaken m n qs h k.1)

IsFalling-insert : (p : Bytes) (qs : List Bytes) → IsFalling qs → IsFalling (insert_by_length p qs)
unfolding IsFalling insert_by_length
IsFalling-insert p [] h = (unfold AtMost in tt, tt)
IsFalling-insert p (q ∷ qs) h = elim (Bool-cases (leb (length q) (length p))) [
  | inl e ↦ rw e (
      let le : length q ≤ length p = ground arith in
      (pair le (AtMost-weaken (length q) (length p) qs le h.0), h))
  | inr e ↦ rw e (AtMost-insert (length q) p qs (ground arith) h.0, IsFalling-insert p qs h.1)
]
  where
    pair : length q ≤ length p → AtMost (length p) qs → AtMost (length p) (q ∷ qs)
    pair le k = unfold AtMost in (le, k)

IsFalling-sort : (ps : List Bytes) → IsFalling (sort_by_length ps)
unfolding sort_by_length
IsFalling-sort [] = unfold IsFalling in tt
IsFalling-sort (p ∷ ps) = IsFalling-insert p (sort_by_length ps) (IsFalling-sort ps)

module _ (keeps : Bytes → Bool) where
  AtMost-keep_if : (n : ℕ) (qs : List Bytes) → AtMost n qs → AtMost n (keep_if keeps qs)
  unfolding AtMost
  AtMost-keep_if n [] h = tt
  AtMost-keep_if n (q ∷ qs) h = elim (Bool-cases (keeps q)) [
    | inl e ↦ rw e (h.0, AtMost-keep_if n qs h.1)
    | inr e ↦ rw e (AtMost-keep_if n qs h.1)
  ]

  IsFalling-keep_if : (qs : List Bytes) → IsFalling qs → IsFalling (keep_if keeps qs)
  unfolding IsFalling
  IsFalling-keep_if [] h = tt
  IsFalling-keep_if (q ∷ qs) h = elim (Bool-cases (keeps q)) [
    | inl e ↦ rw e (AtMost-keep_if (length q) qs h.0, IsFalling-keep_if qs h.1)
    | inr e ↦ rw e (IsFalling-keep_if qs h.1)
  ]

  mem-keep_if : (p : Bytes) (qs : List Bytes) → mem p (keep_if keeps qs) ≡ (mem p qs && keeps p)
  unfolding mem
  mem-keep_if p [] = refl
  mem-keep_if p (q ∷ qs) = elim (Bool-cases (eq_bytes p q)) [
    | inl same ↦ let e : p ≡ q = (eq_bytes_iff p q).0 same in ground (arith, e, mem-keep_if p qs)
    | inr other ↦ ground (arith, mem-keep_if p qs)
  ]

mem-insert :
    (p q : Bytes) (qs : List Bytes) → mem p (insert_by_length q qs) ≡ (eq_bytes p q || mem p qs)
unfolding mem insert_by_length
mem-insert p q [] = refl
mem-insert p q (x ∷ qs) = ground (arith, mem-insert p q qs)

mem-sort : (p : Bytes) (ps : List Bytes) → mem p (sort_by_length ps) ≡ mem p ps
unfolding mem sort_by_length
mem-sort p [] = refl
mem-sort p (q ∷ ps) = ground (arith, mem-insert p q (sort_by_length ps), mem-sort p ps)

-- MatchPaths gives the paths that are a prefix of the name, and ".", and no others.
pub mem-match_paths :
    (paths : List Bytes) (name p : Bytes)
    → mem p (match_paths paths name) ≡ (mem p paths && (has_prefix name p || eq_bytes p dot))
unfolding match_paths
mem-match_paths paths name p =
    mem-keep_if (λ path. has_prefix name path || eq_bytes path dot) p (sort_by_length paths)
    ∙ ap (λ t. t && (has_prefix name p || eq_bytes p dot)) (mem-sort p paths)

match_paths-IsFalling : (paths : List Bytes) (name : Bytes) → IsFalling (match_paths paths name)
unfolding match_paths
match_paths-IsFalling paths name = IsFalling-keep_if _ _ (IsFalling-sort paths)

mem-AtMost : (n : ℕ) (p : Bytes) (qs : List Bytes) → AtMost n qs → mem p qs ≡ true → length p ≤ n
unfolding AtMost mem
mem-AtMost n p [] h k = absurd (ground arith)
mem-AtMost n p (q ∷ qs) h k = elim (Bool-cases (eq_bytes p q)) [
  | inl same ↦ let e : p ≡ q = (eq_bytes_iff p q).0 same in rw e (h.0)
  | inr other ↦ mem-AtMost n p qs h.1 (ground (arith, other, k))
]

-- The path is bound and is a prefix of the name, or is ".".
abbrev pub IsMatch : {F Info : Type 0} → Bytes → Ns F Info → Bytes → Type 0
IsMatch name ns q = (mem q (keys ns.bindings) && (has_prefix name q || eq_bytes q dot)) ≡ true

module _ {F Info : Type 0} (b : Files F Info) (ctx : Ctx F) (name : Bytes) (ns : Ns F Info) where
  resolve_first-longest :
      (p : Bytes) (r : Result (Resolved F)) (qs : List Bytes)
      → IsFalling qs
      → mem p qs ≡ true
      → resolve_under b ctx p name (bound p ns) ≡ some r
      → ((q : Bytes)
          → mem q qs ≡ true
          → length p ≤ length q
          → eq_bytes p q ≡ false
          → resolve_under b ctx q name (bound q ns) ≡ none)
      → resolve_first b ctx qs name ns ≡ r
  unfolding resolve_first
  resolve_first-longest p r [] f m h others = absurd (unfold mem in ground arith)
  resolve_first-longest p r (q ∷ qs) f m h others = elim (Bool-cases (eq_bytes p q)) [
    | inl same ↦
        let e : p ≡ q = (eq_bytes_iff p q).0 same in
        let here : resolve_under b ctx q name (bound q ns) ≡ some r = rw (← e) h in
        rw (resolve_first, here) refl
    | inr other ↦
        let later : mem p qs ≡ true = unfold mem in ground (arith, other, m) in
        let fall : AtMost (length q) qs × IsFalling qs = unfold IsFalling in f in
        rw
          (
            resolve_first,
            others q (unfold mem in rw (eq_refl q)) (mem-AtMost (length q) p qs fall.0 later) other,
          )
          (resolve_first-longest p r qs fall.1 later h
            (λ x k. others x (unfold mem in ground (arith, k))))
  ]

  -- A name that is not bound itself is resolved as the longest of the matching bindings that
  -- answers says: a binding that answers settles the name, if the other matching bindings at least
  -- as long do not answer.
  pub resolve_fs-longest :
      (p : Bytes) (r : Result (Resolved F))
      → lookup name ns.bindings ≡ none
      → IsMatch name ns p
      → resolve_under b ctx p name (bound p ns) ≡ some r
      → ((q : Bytes)
          → IsMatch name ns q
          → length p ≤ length q
          → eq_bytes p q ≡ false
          → resolve_under b ctx q name (bound q ns) ≡ none)
      → resolve_fs b ctx name ns ≡ r
  unfolding resolve_fs
  resolve_fs-longest p r free m h others = rw free (
      resolve_first-longest p r (match_paths (keys ns.bindings) name)
        (match_paths-IsFalling (keys ns.bindings) name)
        (mem-match_paths (keys ns.bindings) name p ∙ m) h
        (λ q k. others q (sym (mem-match_paths (keys ns.bindings) name q) ∙ k)))

-- A target whose file system has no resolver is left to the stats.
ask-no_resolver :
    {F Info : Type 0} (b : Files F Info) (ctx : Ctx F) (relative : Bytes) (ref : BindTarget F Info)
    → b.resolver ref.fs ≡ none
    → ask b ctx relative ref ≡ stats
unfolding ask
ask-no_resolver b ctx relative ref h = rw (ask, h) refl

first_with-found :
    {F Info : Type 0} (b : Files F Info) (ctx : Ctx F) (check : F → Bytes → Result Info)
    (relative : Bytes) (ref : BindTarget F Info) (refs : List (BindTarget F Info)) (info : Info)
    → check ref.fs (join ref.path relative) ≡ ok info
    → first_with b ctx check relative (ref ∷ refs)
      ≡ some (elsewhere ref.fs (join ref.path relative))
unfolding first_with
first_with-found b ctx check relative ref refs info h = rw (first_with, h) refl

relative_name-append : (p rest : Bytes) → relative_name p (p ++ rest) ≡ trim_slashes rest
unfolding relative_name
relative_name-append p rest = rw (trim_prefix-append p rest) refl

stat_all-found :
    {F Info : Type 0} (b : Files F Info) (ctx : Ctx F) (relative : Bytes)
    (refs : List (BindTarget F Info)) (r : Resolved F)
    → first_with b ctx (b.lstat ctx) relative refs ≡ some r
    → stat_all b ctx relative (inr refs) ≡ some (ok r)
stat_all-found b ctx relative refs r h = ground arith

-- A path that is bound to one target also answers for the names that only start with its letters,
-- slash or not: the rest of the name is looked up at the target without the slashes around it.
-- This is for a name that is not bound itself, a target whose file system has no resolver and
-- finds the rest, and no answer of another matching binding at least as long.
pub resolve_fs-no_boundary :
    {F Info : Type 0} (b : Files F Info) (ctx : Ctx F) (ns : Ns F Info) (p rest : Bytes)
    (ref : BindTarget F Info) (info : Info)
    → lookup (p ++ rest) ns.bindings ≡ none
    → IsMatch (p ++ rest) ns p
    → bound p ns ≡ ref ∷ []
    → b.resolver ref.fs ≡ none
    → b.lstat ctx ref.fs (join ref.path (trim_slashes rest)) ≡ ok info
    → ((q : Bytes)
        → IsMatch (p ++ rest) ns q
        → length p ≤ length q
        → eq_bytes p q ≡ false
        → resolve_under b ctx q (p ++ rest) (bound q ns) ≡ none)
    → resolve_fs b ctx (p ++ rest) ns ≡ ok (elsewhere ref.fs (join ref.path (trim_slashes rest)))
unfolding resolve_under ask_all
resolve_fs-no_boundary b ctx ns p rest ref info free m one no_resolver found others =
    resolve_fs-longest b ctx (p ++ rest) ns p _ free m (rw one under_ok) others
  where
    under_ok :
        resolve_under b ctx p (p ++ rest) (ref ∷ [])
        ≡ some (ok (elsewhere ref.fs (join ref.path (trim_slashes rest))))
    under_ok =
        rw (relative_name-append p rest, ask-no_resolver b ctx (trim_slashes rest) ref no_resolver)
          (stat_all-found b ctx (trim_slashes rest) (ref ∷ []) _
            (first_with-found b ctx (b.lstat ctx) (trim_slashes rest) ref [] info found))
