-- ===== src/Memfs.antt =====
-- fs/memfs/memfs.go: the file system in memory, a map from names to nodes.
-- The map holds the nodes themselves: that an open file, or a node that was passed to SetNode,
-- shares a node with the map is left out here (fs/fskit/node.go has the files). The locks and the
-- logger are left out; each method is one step. Lookups do not follow symbolic links, as those
-- of the methods below do not.
pub mod Changes
pub mod Frame
pub mod Methods
pub mod Rename
pub mod Results
pub mod Tests
use wanix.Base.{
  ℕ, zero, suc, ◌+◌, ◌-◌, ◌*◌, ◌/◌, ◌%◌, ◌^◌, Bytes, codes, Bool, true, false, not, ◌&&◌, ◌||◌,
  Option, none, some, List, [], ◌∷◌, ◌++◌, map, if◌then◌else◌, ◌==◌, bytes_eq, eq_bytes, eq_nat,
  has_prefix, contains_byte, length, drop, keep_if, count_if, is_empty, Map, lookup, put, keys, ℤ,
  pos,
}
use wanix.Errors.{Error, path_error, bare, not_exist, invalid, Result, ok, err, is_not_exist}
use wanix.Paths.{slash, dot, valid_path, clean}
use wanix.Nodes.{Node, Attr, a_path, a_mode, raw_node, mode_dir, is_dir}

pub record Fs : Type 0 where
  pub nodes : Map Bytes Node

-- Whether `p` stands directly in the directory `d`, and whether it stands below it at all.
unfoldable pub below : Bytes → Bytes → Bool
unfolding eq_bytes has_prefix
below d p = if d == dot then not (p == dot) else has_prefix p (d ++ (slash ∷ []))

-- The name of `p` from the directory on.
unfoldable pub from_dir : Bytes → Bytes → Bytes
unfolding eq_bytes
from_dir d p = if d == dot then p else drop (length d + 1) p

unfoldable pub is_child : Bytes → Bytes → Bool
unfolding below from_dir contains_byte
is_child d p = below d p && not (contains_byte slash (from_dir d p))

abbrev pub as_dir : Bytes → Node
as_dir name = raw_node (a_path name ∷ a_mode (mode_dir + 493) ∷ [])

unfoldable pub new : Fs
unfolding raw_node
new = record { nodes = (dot, record (as_dir dot) { size = pos 2 }) ∷ [] }

unfoldable pub clear : Fs → Fs
unfolding new
clear fsys = new

unfoldable pub set_node : Bytes → Node → Fs → Fs
unfolding clean
set_node name n fsys = record fsys { nodes = put (clean name) n fsys.nodes }

unfoldable pub node : Bytes → Fs → Option Node
unfolding clean
node name fsys = lookup (clean name) fsys.nodes

abbrev resized : Bytes → Option Node → Fs → Fs
resized d none fsys = fsys
resized d (some n) fsys =
    if is_dir n
    then record fsys {
      nodes =
          put d (record n { size = pos (2 + count_if (is_child d) (keys fsys.nodes)) }) fsys.nodes;
    }
    else fsys

unfoldable pub update_dir_size : Bytes → Fs → Fs
unfolding is_child
update_dir_size d fsys = resized d (lookup d fsys.nodes) fsys

-- The text before the first slash.
unfoldable pub first_elem : Bytes → Bytes
first_elem [] = []
first_elem (c ∷ s) = let rest = first_elem s in if eq_nat c slash then [] else c ∷ rest

unfoldable pub mem : Bytes → List Bytes → Bool
unfolding eq_bytes
mem p [] = false
mem p (q ∷ qs) = eq_bytes p q || mem p qs

-- The elements that are not in `seen`, each once.
unfoldable pub fresh : List Bytes → List Bytes → List Bytes
unfolding mem
fresh seen [] = []
fresh seen (p ∷ ps) = if mem p seen then fresh seen ps else p ∷ fresh (p ∷ seen) ps

-- The names in the directory: of the nodes, and of the directories that only their nodes imply.
-- They are sorted by the code, and listed here in the order of the map.
unfoldable pub entry_names : Bytes → Fs → List Bytes
unfolding is_child first_elem fresh
entry_names d fsys =
    let names = keys fsys.nodes in
    let listed = map (from_dir d) (keep_if (is_child d) names) in
    let deeper = keep_if (λ p. below d p && contains_byte slash (from_dir d p)) names in
    listed ++ fresh listed (map (λ p. first_elem (from_dir d p)) deeper)

abbrev pub dir_size : Bytes → Fs → ℤ
dir_size d fsys = pos (2 + length (entry_names d fsys))

-- What OpenContext finds under a name, for a context that does not follow links, and the state
-- that it leaves: a node gets the name, and a directory its size.
abbrev pub found : Bytes → Option Node → Fs → Result Node × Fs
found name (some n) fsys =
    let n' =
      if is_dir n
      then record n { path = name; size = dir_size name fsys }
      else record n { path = name } in
    (ok n', record fsys { nodes = put name n' fsys.nodes })
found name none fsys =
    if eq_bytes name dot || not (is_empty (entry_names name fsys))
    then (ok (record (as_dir name) { size = dir_size name fsys }), fsys)
    else (err (path_error "open" name not_exist), fsys)

-- StatContext, and the information of the file that OpenContext gives.
unfoldable pub lstat : Bytes → Fs → Result Node × Fs
unfolding valid_path clean entry_names raw_node
lstat name fsys =
    if valid_path name
    then found (clean name) (lookup (clean name) fsys.nodes) fsys
    else (err (path_error "open" name not_exist), fsys)

-- fs.Exists of fs/util.go
abbrev existing : Result Node → Result Bool
existing (ok n) = ok true
existing (err e) = if is_not_exist e then ok false else err e

unfoldable pub exists : Bytes → Fs → Result Bool × Fs
unfolding lstat
exists name fsys = (existing (lstat name fsys).0, (lstat name fsys).1)

-- fs.IsDir
abbrev directory : Result Node → Result Bool
directory (ok n) = ok (is_dir n)
directory (err e) = err e

unfoldable pub is_dir_at : Bytes → Fs → Result Bool × Fs
unfolding lstat
is_dir_at name fsys = (directory (lstat name fsys).0, (lstat name fsys).1)

-- A method, and one after another as long as there is no error.
abbrev pub then_do : {A B : Type 0} → Result A × Fs → (A → Fs → Result B × Fs) → Result B × Fs
then_do (ok a, fsys) k = k a fsys
then_do (err e, fsys) k = (err e, fsys)

-- The directory's file hides the names that start with #.
unfoldable pub visible_names : Bytes → Fs → List Bytes
unfolding entry_names has_prefix
visible_names name fsys = keep_if (λ p. not (has_prefix p (codes "#"))) (entry_names name fsys)

abbrev listed : Bytes → Result Node → Fs → Result (List Bytes)
listed name (ok n) fsys = ok (visible_names name fsys)
listed name (err e) fsys = err e

-- fs.ReadDir of fs/readdir.go, for a directory: its file is opened, and all of it listed.
unfoldable pub read_dir : Bytes → Fs → Result (List Bytes) × Fs
unfolding lstat visible_names
read_dir name fsys =
    (listed (clean name) (lstat name fsys).0 (lstat name fsys).1, (lstat name fsys).1)
