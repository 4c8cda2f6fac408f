-- ===== src/Vfs/Open.antt =====
-- OpenContext of fs/vfs/vfs.go: the file that a name is bound to, or a directory made of all the
-- bindings at the name, above it and below it.
use wanix.Base.{
  Bytes, codes, Bool, true, false, not, ◌&&◌, Option, none, some, List, [], ◌∷◌, ◌++◌, map,
  if◌then◌else◌, ◌==◌, bytes_eq, eq_bytes, eq_nat, has_prefix, is_empty, length, drop, Map, put,
  delete, keys,
}
use wanix.Errors.{path_error, not_exist, Result, ok, err}
use wanix.Paths.{dot, join, slash, valid_path}
use wanix.Contexts.{Ctx, with_origin}
use wanix.Listings.{dir_file_entries, sort_entries}
use wanix.Vfs.{BindTarget, Ns, bound}
use wanix.Vfs.Resolve.{match_paths, relative_name}

-- What OpenContext calls of other file systems. `E` is a directory entry and `H` an open file.
pub record Opens (F Info E H : Type 0) : Type 0 where
  pub is_dir : Info → Bool
  pub stat : Ctx F → F → Bytes → Result Info
  -- fs.ReadDirContext, and then Info of each entry
  pub read_dir : Ctx F → F → Bytes → Result (List E)
  pub open_at : Ctx F → F → Bytes → Result H
  -- fskit.RawNode of an information and a name
  pub raw_entry : Info → Bytes → E
  -- fskit.Entry of a name and fs.ModeDir|0755
  pub dir_entry : Bytes → E
  pub name_of : E → Bytes

pub data Opened (E H : Type 0) : Type 0 where
  file : H → Opened E H
  directory : List E → Opened E H

-- The directory entries so far, and whether a directory was found.
pub record Found (E : Type 0) : Type 0 where
  pub entries : List E
  pub found_dir : Bool

-- A walk over the bindings goes on, or ends with a result.
pub data Walk (E H : Type 0) : Type 0 where
  goes : Found E → Walk E H
  ends : Result (Opened E H) → Walk E H

-- The part of a path before its first slash.
unfoldable pub first_part : Bytes → Option Bytes
first_part [] = none
first_part (c ∷ s) = let rest = first_part s in if eq_nat c slash then some [] else onto rest
  where
    onto : Option Bytes → Option Bytes
    onto none = none
    onto (some p) = some (c ∷ p)

-- The path of a binding below a name, as it is seen from there.
unfoldable pub below : Bytes → Bytes → Option Bytes
unfolding eq_bytes has_prefix
below name fname =
    if name == dot
    then some fname
    else if has_prefix fname (name ++ codes "/")
    then some (drop (length (name ++ codes "/")) fname)
    else none

module _ {F Info E H : Type 0} (o : Opens F Info E H) (ctx : Ctx F) where
  abbrev pub add_dir : Result (List E) → Found E → Walk E H
  add_dir (err e) found = ends (err e)
  add_dir (ok es) found = goes (record { entries = found.entries ++ es; found_dir = true })

  abbrev pub add_file : Result H → Found E → Walk E H
  add_file (ok f) found = ends (ok (file f))
  add_file (err e) found = goes found

  abbrev pub then_walk : Walk E H → (Found E → Walk E H) → Walk E H
  then_walk (ends r) next = ends r
  then_walk (goes found) next = next found

  abbrev pub visit : BindTarget F Info → Found E → Walk E H
  visit ref found =
      if o.is_dir ref.fi
      then add_dir (o.read_dir ctx ref.fs ref.path) found
      else add_file (o.open_at ctx ref.fs ref.path) found

  unfoldable pub visit_direct : List (BindTarget F Info) → Found E → Walk E H
  visit_direct [] found = goes found
  visit_direct (ref ∷ refs) found = then_walk (visit ref found) (visit_direct refs)

  abbrev pub visit_stat : F → Bytes → Result Info → Found E → Walk E H
  visit_stat fsys path (err e) found = goes found
  visit_stat fsys path (ok info) found =
      if o.is_dir info
      then add_dir (o.read_dir ctx fsys path) found
      else add_file (o.open_at ctx fsys path) found

  unfoldable pub visit_under : Bytes → List (BindTarget F Info) → Found E → Walk E H
  unfolding join
  visit_under relative [] found = goes found
  visit_under relative (ref ∷ refs) found =
      let path = join ref.path relative in
      then_walk (visit_stat ref.fs path (o.stat ctx ref.fs path) found) (visit_under relative refs)

  unfoldable pub visit_paths : List Bytes → Bytes → Ns F Info → Found E → Walk E H
  unfolding visit_under relative_name bound
  visit_paths [] name ns found = goes found
  visit_paths (p ∷ ps) name ns found =
      then_walk (visit_under (relative_name p name) (bound p ns) found) (visit_paths ps name ns)

  abbrev raw_entries : Bytes → List (BindTarget F Info) → List E
  raw_entries fname [] = []
  raw_entries fname (ref ∷ refs) = o.raw_entry ref.fi fname ∷ raw_entries fname refs

  -- The entry of a binding right below the name; the root is not below itself.
  abbrev leaf_entries : Bytes → List (BindTarget F Info) → Option Bytes → List E
  leaf_entries fname refs none = if fname == dot then [] else raw_entries fname refs
  leaf_entries fname refs (some k) = []

  abbrev child_entries : Bytes → List (BindTarget F Info) → Option Bytes → List E
  child_entries fname refs none = []
  child_entries fname refs (some felem) = leaf_entries fname refs (first_part felem)

  unfoldable pub bound_entries : Bytes → Map Bytes (List (BindTarget F Info)) → List E
  unfolding below first_part
  bound_entries name [] = []
  bound_entries name ((fname, refs) ∷ b) =
      child_entries fname refs (below name fname) ++ bound_entries name b

abbrev pub needed : Option Bytes → Map Bytes Bool → Map Bytes Bool
needed none m = m
needed (some k) m = put k true m

abbrev pub part_below : Option Bytes → Option Bytes
part_below none = none
part_below (some felem) = first_part felem

-- The directories that stand above a binding further below.
unfoldable pub parents : {T : Type 0} → Bytes → Map Bytes T → Map Bytes Bool → Map Bytes Bool
unfolding below first_part put
parents name [] m = m
parents name ((fname, refs) ∷ b) m = parents name b (needed (part_below (below name fname)) m)

module _ {F Info E H : Type 0} (o : Opens F Info E H) (ctx : Ctx F) where
  unfoldable pub without_listed : List E → Map Bytes Bool → Map Bytes Bool
  unfolding delete
  without_listed [] m = m
  without_listed (e ∷ es) m = without_listed es (delete (o.name_of e) m)

  -- All entries of the directory: those found, those bound, and the parents that are not among them.
  unfoldable pub all_entries : Bytes → List E → Ns F Info → List E
  unfolding bound_entries parents without_listed keys
  all_entries name entries ns =
      let listed = entries ++ bound_entries o ctx name ns.bindings in
      listed ++ map o.dir_entry (keys (without_listed listed (parents name ns.bindings [])))

  -- The name does not exist if nothing was found at it, and nothing is bound below it.
  unfoldable pub synthesized : Bytes → Ns F Info → Walk E H → Result (Opened E H)
  unfolding all_entries sort_entries dir_file_entries eq_bytes
  synthesized name ns (ends r) = r
  synthesized name ns (goes found) =
      let all = all_entries name found.entries ns in
      if not (name == dot) && is_empty all && not found.found_dir
      then err (path_error "open" name not_exist)
      else ok (directory (dir_file_entries o.name_of (sort_entries o.name_of all)))

-- The namespace itself is the origin of a request that has none.
unfoldable pub open_context :
    {F Info E H : Type 0} → Opens F Info E H → F → Ctx F → Bytes → Ns F Info → Result (Opened E H)
unfolding visit_direct visit_paths synthesized match_paths with_origin valid_path keys bound
open_context {E = E} o self ctx name ns =
    if valid_path name
    then (let ctx = with_origin self name (codes "open") ctx in
        let start : Found E = record { entries = []; found_dir = false } in
        synthesized o ctx name ns (
          then_walk o ctx (visit_direct o ctx (bound name ns) start)
            (visit_paths o ctx (match_paths (keys ns.bindings) name) name ns)))
    else err (path_error "open" name not_exist)
