-- ===== src/Listings.antt =====
-- Directories that are listed in order of name: fs/fskit/diriter.go, dirfile.go, overlayfile.go and
-- uniondir.go. An entry is of any type with a name. A slice is a list; where the code tells nil from an
-- empty slice, it is an Option.
pub mod Order
pub mod Merge
pub mod Duplicates
pub mod Layered
pub mod InStep
pub mod Pages
pub mod Tests
use wanix.Base.{
  ℕ, zero, suc, ◌+◌, ◌-◌, Bytes, codes, Bool, true, false, not, ◌&&◌, Option, none, some, List, [],
  ◌∷◌, if◌then◌else◌, ltb, length, drop, take, eq_nat, ◌==◌, bytes_eq, is_empty, keep_if,
  has_prefix, is_before, Map, lookup, put, has_key,
}
use wanix.Errors.{Error, bare, invalid, eof, Result, ok, err}
use wanix.Actions.{Action}

-- What ReadDir(-1) of a file gives, none if it is not a directory.
abbrev pub Dir : Type 0 → Type 0
Dir E = Option (Result (List E))

abbrev is_index : ℕ → Option ℕ → Bool
is_index i none = false
is_index i (some j) = eq_nat j i

module _ {E : Type 0} (name : E → Bytes) where
  unfoldable pub insert_entry : E → List E → List E
  unfolding is_before
  insert_entry e [] = e ∷ []
  insert_entry e (x ∷ xs) =
      let rest = insert_entry e xs in if is_before (name x) (name e) then x ∷ rest else e ∷ x ∷ xs

  -- sort.Slice by the names
  unfoldable pub sort_entries : List E → List E
  unfolding insert_entry
  sort_entries [] = []
  sort_entries (e ∷ es) = insert_entry e (sort_entries es)

  -- `for _, entry := range ents { entryMap[entry.Name()] = entry }`
  unfoldable pub add_entries : List E → Map Bytes E → Map Bytes E
  unfolding put
  add_entries [] m = m
  add_entries (e ∷ es) m = add_entries es (put (name e) e m)

  unfoldable pub shown : (Bytes → Bool) → Map Bytes E → List E
  shown hide [] = []
  shown hide ((k, e) ∷ m) = let rest = shown hide m in if hide (name e) then rest else e ∷ rest

  abbrev pub with_dir : Dir E → Map Bytes E → Result (Map Bytes E)
  with_dir none m = ok m
  with_dir (some (err e)) m = err e
  with_dir (some (ok es)) m = ok (add_entries es m)

  abbrev then_dir : Result (Map Bytes E) → Dir E → Result (Map Bytes E)
  then_dir (err e) d = err e
  then_dir (ok m) d = with_dir d m

  abbrev sorted_shown : (Bytes → Bool) → Result (Map Bytes E) → Result (List E)
  sorted_shown hide (err e) = err e
  sorted_shown hide (ok m) = ok (sort_entries (shown hide m))

  -- The entries of an OverlayFile: what its iterator reads from the two directories.
  unfoldable pub overlay_entries : (Bytes → Bool) → Dir E → Dir E → Result (List E)
  unfolding add_entries shown sort_entries
  overlay_entries hide base overlay = sorted_shown hide (then_dir (with_dir base []) overlay)

  -- A file that is no directory, or cannot be read, is passed over.
  abbrev union_add : Dir E → Map Bytes E → Map Bytes E
  union_add (some (ok es)) m = add_entries es m
  union_add _ m = m

  unfoldable pub union_map : List (Dir E) → Map Bytes E → Map Bytes E
  unfolding add_entries
  union_map [] m = m
  union_map (d ∷ ds) m = union_map ds (union_add d m)

  unfoldable pub last_index : ℕ → List E → Map Bytes ℕ → Map Bytes ℕ
  unfolding put
  last_index i [] m = m
  last_index i (e ∷ es) m = last_index (i + 1) es (put (name e) i m)

  -- The walk from the end: what is kept, and the names that were seen.
  abbrev keep_last : Map Bytes ℕ → ℕ → E → List E × Map Bytes Bool → List E × Map Bytes Bool
  keep_last last i e (result, seen) =
      if is_index i (lookup (name e) last) && not (has_key (name e) seen)
      then (e ∷ result, put (name e) true seen)
      else (result, seen)

  unfoldable pub walk_back : Map Bytes ℕ → ℕ → List E → List E × Map Bytes Bool
  unfolding lookup put has_key
  walk_back last i [] = ([], [])
  walk_back last i (e ∷ es) = keep_last last i e (walk_back last (i + 1) es)

  unfoldable pub remove_duplicates_and_sort : List E → List E
  unfolding last_index walk_back sort_entries
  remove_duplicates_and_sort entries =
      sort_entries (walk_back (last_index 0 entries []) 0 entries).0

  -- The listing of a DirFile, without the names that start with #.
  unfoldable pub dir_file_entries : List E → List E
  unfolding remove_duplicates_and_sort has_prefix
  dir_file_entries entries =
      remove_duplicates_and_sort (keep_if (λ e. not (has_prefix (name e) (codes "#"))) entries)

  unfoldable pub union_dir : List (Dir E) → List E
  unfolding dir_file_entries union_map shown sort_entries
  union_dir dirs = dir_file_entries (sort_entries (shown (λ k. false) (union_map dirs [])))

-- A slice of entries, where nil is none, and its elements.
abbrev pub elements : {E : Type 0} → Option (List E) → List E
elements none = []
elements (some es) = es

-- An iterator over the entries that a function reads from a state.
pub record DirIter (E S : Type 0) : Type 0 where
  pub entries : Option (List E)
  pub cursor : ℕ
  pub source : S

module _ {E S : Type 0} (fn : Action S (Option (List E))) where
  abbrev after_eof : DirIter E S → DirIter E S
  after_eof it = record it { entries = none }

  -- A count that is not positive is 0.
  abbrev pub page : ℕ → List E → Action (DirIter E S) (List E)
  page zero es it = (ok (drop it.cursor es), record it { cursor = length es })
  page (suc n) es it =
      if ltb it.cursor (length es)
      then (let end : ℕ =
            if ltb (length es) (it.cursor + suc n) then length es else it.cursor + suc n in
          (ok (take (end - it.cursor) (drop it.cursor es)), record it { cursor = end }))
      else (err (bare eof), after_eof it)

  abbrev pub filled : ℕ → DirIter E S → Result (Option (List E)) × S → Result (List E) × DirIter E S
  filled n it (err e, s) = (err e, record it { source = s })
  filled n it (ok o, s) = page n (elements o) (record { entries = o; cursor = 0; source = s })

  unfoldable pub read_dir : ℕ → Action (DirIter E S) (List E)
  read_dir n it = elim it.entries [ none ↦ filled n it (fn it.source) | some es ↦ page n es it ]
