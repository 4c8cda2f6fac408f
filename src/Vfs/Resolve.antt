-- ===== src/Vfs/Resolve.antt =====
-- ResolveFS of fs/vfs/vfs.go, with MatchPaths of fs/fskit/misc.go.
use wanix.Base.{
  Bytes, codes, Bool, not, ◌||◌, Option, none, some, List, [], ◌∷◌, if◌then◌else◌, ◌==◌, bytes_eq,
  eq_bytes, has_prefix, trim_prefix, keys, leb, length, eq_nat, keep_if, ◌⊎◌, inl, inr, lookup,
}
use mathlib.Core.List.{reverse}
use wanix.Errors.{Result, ok, err, is_not_exist}
use wanix.Paths.{dot, dir, join, slash}
use wanix.Contexts.{Ctx, is_read_only, op}
use wanix.Vfs.{Files, BindTarget, Ns, bound}

-- sort.Slice by falling length. Paths of one length keep their order, which sort.Slice may change;
-- of the paths that `MatchPaths` keeps, only "." and another path can have the same length.
unfoldable pub insert_by_length : Bytes → List Bytes → List Bytes
insert_by_length p [] = p ∷ []
insert_by_length p (q ∷ qs) =
    if leb (length q) (length p) then p ∷ q ∷ qs else q ∷ insert_by_length p qs

unfoldable pub sort_by_length : List Bytes → List Bytes
unfolding insert_by_length
sort_by_length [] = []
sort_by_length (p ∷ ps) = insert_by_length p (sort_by_length ps)

unfoldable pub match_paths : List Bytes → Bytes → List Bytes
unfolding sort_by_length has_prefix eq_bytes
match_paths paths name =
    keep_if (λ path. has_prefix name path || eq_bytes path dot) (sort_by_length paths)

unfoldable pub trim_left : Bytes → Bytes
trim_left [] = []
trim_left (c ∷ s) = let rest = trim_left s in if eq_nat c slash then rest else c ∷ s

-- strings.Trim(s, "/")
unfoldable pub trim_slashes : Bytes → Bytes
unfolding trim_left
trim_slashes s = reverse (trim_left (reverse (trim_left s)))

-- The file system that a name is resolved to, with the name in it: the namespace itself, or another.
pub data Resolved (F : Type 0) : Type 0 where
  itself : Bytes → Resolved F
  elsewhere : F → Bytes → Resolved F

unfoldable pub creating_ops : Bytes → Bool
unfolding eq_bytes
creating_ops o = o == codes "create" || o == codes "mkdir" || o == codes "symlink"

-- The name below a binding, as it is looked up at the target.
unfoldable pub relative_name : Bytes → Bytes → Bytes
unfolding trim_slashes trim_prefix
relative_name bind_path name = trim_slashes (trim_prefix name bind_path)

module _ {F Info : Type 0} (b : Files F Info) (ctx : Ctx F) where
  -- The first target that can be written to.
  unfoldable pub first_writable : List (BindTarget F Info) → Option (Resolved F)
  first_writable [] = none
  first_writable (ref ∷ refs) =
      if b.is_create_fs ref.fs then some (elsewhere ref.fs ref.path) else first_writable refs

  abbrev or_itself : Bytes → Option (Resolved F) → Resolved F
  or_itself name none = itself name
  or_itself name (some r) = r

  -- What a name that is bound itself is resolved to.
  unfoldable pub resolve_direct : Bytes → List (BindTarget F Info) → Resolved F
  unfolding is_read_only first_writable
  resolve_direct name (ref ∷ []) = elsewhere ref.fs ref.path
  resolve_direct name refs =
      if is_read_only ctx then itself name else or_itself name (first_writable refs)

  -- What the resolver of one target says: an end of the whole search, or whether to stat later.
  pub data Answer : Type 0 where
    ends : Result (Resolved F) → Answer
    skips : Answer
    stats : Answer

  unfoldable pub ask : Bytes → BindTarget F Info → Answer
  unfolding eq_bytes
  ask relative ref =
      let full = join ref.path relative in
      elim (b.resolver ref.fs) [
        | none ↦ stats
        | some resolve_fs ↦ elim (resolve_fs ctx full) [
          | err e ↦ if is_not_exist e then skips else ends (err e)
          | ok (rfsys, rname) ↦
              if not (eq_bytes rname full) || not (b.same rfsys ref.fs)
              then ends (ok (elsewhere rfsys rname))
              else stats
        ]
      ]

  -- The first loop over the targets: an end, or the targets to stat.
  abbrev asked :
      Answer
      → BindTarget F Info
      → Result (Resolved F) ⊎ List (BindTarget F Info)
      → Result (Resolved F) ⊎ List (BindTarget F Info)
  asked (ends r) ref rest = inl r
  asked skips ref rest = rest
  asked stats ref (inl r) = inl r
  asked stats ref (inr refs) = inr (ref ∷ refs)

  unfoldable pub ask_all :
      Bytes → List (BindTarget F Info) → Result (Resolved F) ⊎ List (BindTarget F Info)
  unfolding ask
  ask_all relative [] = inr []
  ask_all relative (ref ∷ refs) = asked (ask relative ref) ref (ask_all relative refs)

  -- The first target where a stat of the path that `at` makes of its full name succeeds.
  unfoldable pub first_with :
      (F → Bytes → Result Info) → Bytes → List (BindTarget F Info) → Option (Resolved F)
  first_with check relative [] = none
  first_with check relative (ref ∷ refs) =
      let full = join ref.path relative in
      elim (check ref.fs full) [
        | ok info ↦ some (elsewhere ref.fs full)
        | err e ↦ first_with check relative refs
      ]

  abbrev or_parent : Bytes → List (BindTarget F Info) → Option (Resolved F) → Option (Resolved F)
  or_parent relative refs (some r) = some r
  or_parent relative refs none =
      if creating_ops (op ctx)
      then first_with (λ fsys full. b.stat ctx fsys (dir full)) relative refs
      else none

  abbrev pub stat_all :
      Bytes → Result (Resolved F) ⊎ List (BindTarget F Info) → Option (Result (Resolved F))
  stat_all relative (inl r) = some r
  stat_all relative (inr refs) =
      elim (or_parent relative refs (first_with (b.lstat ctx) relative refs)) [
        | none ↦ none
        | some r ↦ some (ok r)
      ]

  -- One round of the loop over the matching bindings.
  unfoldable pub resolve_under :
      Bytes → Bytes → List (BindTarget F Info) → Option (Result (Resolved F))
  unfolding ask_all first_with relative_name creating_ops op
  resolve_under bind_path name refs =
      let relative = relative_name bind_path name in stat_all relative (ask_all relative refs)

  unfoldable pub resolve_first : List Bytes → Bytes → Ns F Info → Result (Resolved F)
  unfolding resolve_under bound
  resolve_first [] name ns = ok (itself name)
  resolve_first (p ∷ ps) name ns = elim (resolve_under p name (bound p ns)) [
    | none ↦ resolve_first ps name ns
    | some r ↦ r
  ]

  abbrev resolve_bound : Bytes → Ns F Info → Option (List (BindTarget F Info)) → Result (Resolved F)
  resolve_bound name ns (some refs) = ok (resolve_direct name refs)
  resolve_bound name ns none = resolve_first (match_paths (keys ns.bindings) name) name ns

  unfoldable pub resolve_fs : Bytes → Ns F Info → Result (Resolved F)
  unfolding resolve_direct resolve_first match_paths keys lookup
  resolve_fs name ns = resolve_bound name ns (lookup name ns.bindings)
