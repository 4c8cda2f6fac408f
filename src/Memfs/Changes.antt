-- ===== src/Memfs/Changes.antt =====
-- The methods of fs/memfs/memfs.go that change the map of nodes, with fs.IsEmpty of fs/util.go.
use wanix.Base.{
  ℕ, zero, ◌+◌, ◌-◌, ◌%◌, ◌^◌, Bytes, Bool, true, false, not, ◌&&◌, Option, none, some, List, [],
  ◌∷◌, ◌++◌, if◌then◌else◌, ◌==◌, bytes_eq, eq_bytes, eq_nat, length, take, is_empty, ltb, lookup,
  put, delete, ℤ, pos, negsuc,
}
use wanix.Errors.{
  Error, path_error, not_exist, exist, not_empty, invalid, other, bare, Result, ok, err,
}
use wanix.Paths.{dot, valid_path, clean, dir}
use wanix.Nodes.{
  Node, NodeFile, a_data, a_mode, a_time, raw_node, entry, open_file, size, mode_dir, mode_symlink,
  has_bit, with_bit, is_dir, zeros,
}
use wanix.Memfs.{Fs, update_dir_size, exists, is_dir_at, lstat, read_dir, then_do}

abbrev pub Outcome : Type 0
Outcome = Result (Unit {0})

abbrev pub refused : {A : Type 0} → Error → Fs → Result A × Fs
refused e fsys = (err e, fsys)

-- The name is there, or the method ends with the error.
abbrev pub if_true : Error → (Fs → Outcome × Fs) → Bool → Fs → Outcome × Fs
if_true e k true fsys = k fsys
if_true e k false fsys = (err e, fsys)

-- The new node is in the map, and its directory has a new size.
unfoldable pub added : Bytes → Node → Fs → Fs
unfolding update_dir_size dir
added name n fsys = update_dir_size (dir name) (record fsys { nodes = put name n fsys.nodes })

-- fs.IsEmpty of fs/util.go. The error of a missing path is none of the named ones.
abbrev pub emptiness : Bytes → Node → Fs → Result Bool × Fs
emptiness name n fsys =
    if is_dir n
    then then_do (lstat name fsys)
        (λ opened t. then_do (read_dir name t) (λ names u. (ok (is_empty names), u)))
    else (ok (size_is_zero (size n)), fsys)
  where
    size_is_zero : ℤ → Bool
    size_is_zero (pos zero) = true
    size_is_zero _ = false

unfoldable pub is_empty_at : Bytes → Fs → Result Bool × Fs
unfolding exists lstat read_dir
is_empty_at name fsys = elim (exists name fsys).0 [
  | ok true ↦ then_do (lstat name (exists name fsys).1) (emptiness name)
  | _ ↦ (err (bare (other 0)), (exists name fsys).1)
]

-- The parent of a new node must be there, the root always is.
abbrev pub with_parent : Bool → Bytes → Error → (Fs → Outcome × Fs) → Fs → Outcome × Fs
with_parent root_too d e k fsys =
    if not root_too && d == dot then k fsys else then_do (exists d fsys) (if_true e k)

unfoldable pub create_at : Bytes → ℕ → Fs → Outcome × Fs
unfolding added exists dir eq_bytes
create_at name now fsys =
    if not (valid_path name)
    then (err (path_error "create" name not_exist), fsys)
    else with_parent false (dir name) (path_error "create" name not_exist)
        (λ t. (ok tt, added name (entry name 420 (a_time now ∷ [])) t)) fsys

-- The file that is open on the new node.
abbrev created : Outcome → ℕ → Bytes → Result NodeFile
created (err e) now name = err e
created (ok u) now name = ok (open_file (entry name 420 (a_time now ∷ [])))

unfoldable pub create : Bytes → ℕ → Fs → Result NodeFile × Fs
unfolding create_at clean
create name now fsys =
    let m = create_at (clean name) now fsys in (created m.0 now (clean name), m.1)

unfoldable pub mkdir : Bytes → ℕ → ℕ → Fs → Outcome × Fs
unfolding added exists dir clean
mkdir path perm now fsys =
    let name = clean path in
    if not (valid_path name)
    then (err (path_error "mkdir" name not_exist), fsys)
    else then_do (exists name fsys) (λ there t.
      if there
      then (err (path_error "mkdir" name exist), t)
      else with_parent true (dir name) (path_error "mkdir" name not_exist)
          (λ u. (
            ok tt,
            added name
                (record (entry name (with_bit mode_dir perm) (a_time now ∷ [])) { size = pos 2 }) u,
          ))
          t)

-- A change of the node of a name that is in the map.
abbrev pub on_node : Bytes → Error → (Node → Node) → Option Node → Fs → Outcome × Fs
on_node name e act none fsys = (err e, fsys)
on_node name e act (some n) fsys = (ok tt, record fsys { nodes = put name (act n) fsys.nodes })

-- The pattern of Chmod, Chown and Chtimes.
unfoldable pub change_node : Error → Bytes → (Node → Node) → Fs → Outcome × Fs
unfolding exists
change_node e name act fsys =
    if not (valid_path name)
    then (err e, fsys)
    else then_do (exists name fsys) (if_true e (λ t. on_node name e act (lookup name t.nodes) t))

-- The type bits of a mode.
abbrev bits : List ℕ → ℕ → ℕ
bits [] mode = 0
bits (i ∷ is) mode = let rest = bits is mode in if has_bit (2 ^ i) mode then 2 ^ i + rest else rest

unfoldable pub type_bits : ℕ → ℕ
type_bits mode = bits (31 ∷ 27 ∷ 26 ∷ 25 ∷ 24 ∷ 21 ∷ 19 ∷ []) mode

unfoldable pub chmod : Bytes → ℕ → Fs → Outcome × Fs
unfolding change_node type_bits clean
chmod path mode fsys =
    let name = clean path in
    change_node (path_error "chmod" name not_exist) name
      (λ n. record n { mode = type_bits n.mode + mode % 512 }) fsys

unfoldable pub chown : Bytes → ℤ → ℤ → Fs → Outcome × Fs
unfolding change_node clean
chown path uid gid fsys =
    let name = clean path in
    change_node (path_error "chown" name not_exist) name (λ n. record n { uid = uid; gid = gid })
      fsys

unfoldable pub chtimes : Bytes → ℕ → ℕ → Fs → Outcome × Fs
unfolding change_node clean
chtimes path atime mtime fsys =
    let name = clean path in
    change_node (path_error "chtimes" name not_exist) name (λ n. record n { mod_time = mtime }) fsys

-- Data cut to a size, or filled up with zeros to it.
unfoldable pub cut : ℕ → Bytes → Bytes
cut k old = if ltb (length old) k then old ++ zeros (k - length old) else take k old

abbrev pub truncate_node : Bytes → ℤ → Option Node → Fs → Outcome × Fs
truncate_node name k none fsys = (err (path_error "truncate" name not_exist), fsys)
truncate_node name (negsuc k) (some n) fsys = (err (path_error "truncate" name invalid), fsys)
truncate_node name (pos k) (some n) fsys =
    if eq_nat k (length n.bytes)
    then (ok tt, fsys)
    else (ok tt, record fsys { nodes = put name (record n { bytes = cut k n.bytes }) fsys.nodes })

unfoldable pub truncate : Bytes → ℤ → Fs → Outcome × Fs
unfolding cut clean
truncate path k fsys =
    let name = clean path in
    if not (valid_path name)
    then (err (path_error "truncate" name not_exist), fsys)
    else truncate_node name k (lookup name fsys.nodes) fsys

-- The node goes, and its directory has a new size.
unfoldable pub dropped : Bytes → Fs → Outcome × Fs
unfolding update_dir_size dir
dropped name fsys =
    (ok tt, update_dir_size (dir name) (record fsys { nodes = delete name fsys.nodes }))

unfoldable pub remove : Bytes → Fs → Outcome × Fs
unfolding dropped exists is_dir_at is_empty_at clean eq_bytes
remove path fsys =
    let name = clean path in
    if not (valid_path name)
    then (err (path_error "remove" name not_exist), fsys)
    else if name == dot
    then (err (path_error "remove" name invalid), fsys)
    else then_do (exists name fsys) (
        if_true (path_error "remove" name not_exist) (λ t. then_do (is_dir_at name t) (λ d u.
          if d
          then then_do (is_empty_at name u)
              (if_true (path_error "remove" name not_empty) (dropped name))
          else dropped name u)))

unfoldable pub symlink : Bytes → Bytes → Fs → Outcome × Fs
unfolding added exists dir clean eq_bytes
symlink old path fsys =
    let name = clean path in
    if not (valid_path name)
    then (err (path_error "symlink" old invalid), fsys)
    else with_parent false (dir name) (path_error "symlink" name not_exist)
        (λ t. (ok tt, added name (raw_node (a_data old ∷ a_mode (511 + mode_symlink) ∷ [])) t)) fsys

abbrev pub link_of : Bytes → Option Node → Result Bytes
link_of name none = err (path_error "readlink" name not_exist)
link_of name (some n) =
    if has_bit mode_symlink n.mode then ok n.bytes else err (path_error "readlink" name invalid)

unfoldable pub readlink : Bytes → Fs → Result Bytes
unfolding clean
readlink path fsys =
    let name = clean path in
    if not (valid_path name)
    then err (path_error "readlink" name not_exist)
    else link_of name (lookup name fsys.nodes)
