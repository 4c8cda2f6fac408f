-- ===== src/Memfs/Rename.antt =====
-- Rename of fs/memfs/memfs.go.
use wanix.Base.{
  Bytes, ◌≡◌, refl, ◌∙◌, ◌++◌, Bool, true, false, not, ◌&&◌, ◌||◌, Option, none, some, List, [],
  ◌∷◌, if◌then◌else◌, ◌==◌, bytes_eq, eq_bytes, has_prefix, trim_prefix, Map, lookup, put, delete,
  keys, lookup-put, lookup-delete, Bool-cases, inl, inr, arith,
}
use wanix.Errors.{Error, path_error, ok, err, not_exist, exist}
use wanix.Paths.{slash, dot, valid_path, clean, dir}
use wanix.Nodes.{Node, is_dir}
use wanix.Memfs.{Fs, update_dir_size}
use wanix.Memfs.Changes.{Outcome}
use wanix.Memfs.Frame.{Content, content, content_at, update_dir_size-IsSame}

-- The nodes of a directory and of all below it, each with its new name.
unfoldable pub to_rename : Bytes → Bytes → Map Bytes Node → List (Bytes × Node)
unfolding eq_bytes has_prefix trim_prefix
to_rename old new [] = []
to_rename old new ((p, n) ∷ m) =
    let rest = to_rename old new m in
    if p == old || has_prefix p (old ++ (slash ∷ []))
    then (new ++ trim_prefix p old, n) ∷ rest
    else rest

unfoldable pub delete_old : Bytes → Bytes → List (Bytes × Node) → Map Bytes Node → Map Bytes Node
unfolding trim_prefix
delete_old old new [] m = m
delete_old old new ((p, n) ∷ moved) m =
    delete_old old new moved (delete (old ++ trim_prefix p new) m)

unfoldable pub add_new : List (Bytes × Node) → Map Bytes Node → Map Bytes Node
add_new [] m = m
add_new ((p, n) ∷ moved) m = add_new moved (put p n m)

unfoldable pub moved_nodes : Bytes → Bytes → Node → Map Bytes Node → Map Bytes Node
unfolding to_rename delete_old add_new
moved_nodes old new n m =
    if is_dir n
    then (let moved = to_rename old new m in add_new moved (delete_old old new moved m))
    else delete old (put new n m)

-- A key starts with the text.
unfoldable pub any_with_prefix : Bytes → List Bytes → Bool
unfolding has_prefix
any_with_prefix prefix [] = false
any_with_prefix prefix (p ∷ ps) = has_prefix p prefix || any_with_prefix prefix ps

-- The map without the destination, or none if that is a directory with entries.
abbrev pub cleared : Bytes → Option Node → Map Bytes Node → Option (Map Bytes Node)
cleared new none m = some m
cleared new (some n) m =
    if is_dir n && any_with_prefix (new ++ (slash ∷ [])) (keys m) then none else some (delete new m)

abbrev pub no_dir : Option Node → Bool
no_dir none = true
no_dir (some n) = not (is_dir n)

abbrev pub lacks_parent : Bytes → Fs → Bool
lacks_parent d fsys = if d == dot then false else no_dir (lookup d fsys.nodes)

abbrev pub resized_dirs : Bytes → Bytes → Fs → Fs
resized_dirs old_dir new_dir fsys =
    let t = update_dir_size old_dir fsys in
    if old_dir == new_dir then t else update_dir_size new_dir t

abbrev pub moved_to : Bytes → Bytes → Node → Fs → Option (Map Bytes Node) → Outcome × Fs
moved_to old new n fsys none = (err (path_error "rename" new exist), fsys)
moved_to old new n fsys (some m) =
    (ok tt, resized_dirs (dir old) (dir new) (record fsys { nodes = moved_nodes old new n m }))

abbrev pub rename_node : Bytes → Bytes → Fs → Option Node → Outcome × Fs
rename_node old new fsys none = (err (path_error "rename" old not_exist), fsys)
rename_node old new fsys (some n) =
    if lacks_parent (dir new) fsys
    then (err (path_error "rename" new not_exist), fsys)
    else moved_to old new n fsys (cleared new (lookup new fsys.nodes) fsys.nodes)

unfoldable pub rename : Bytes → Bytes → Fs → Outcome × Fs
unfolding moved_nodes any_with_prefix update_dir_size clean valid_path dir eq_bytes lookup keys
rename old_path new_path fsys =
    let old = clean old_path in
    let new = clean new_path in
    if not (valid_path old) || not (valid_path new)
    then (err (path_error "rename" old not_exist), fsys)
    else if old == new
    then (ok tt, fsys)
    else rename_node old new fsys (lookup old fsys.nodes)

lookup-cleared :
    (new k : Bytes) (o : Option Node) (m m' : Map Bytes Node)
    → cleared new o m ≡ some m'
    → eq_bytes new k ≡ false
    → lookup k m' ≡ lookup k m
lookup-cleared new k none m m' h apart = ground arith
lookup-cleared new k (some n) m m' h apart =
    let e : m' ≡ delete new m = ground arith in rw (e, lookup-delete, apart)

resized_dirs-content :
    (a b k : Bytes) (fsys : Fs) → content_at k (resized_dirs a b fsys) ≡ content_at k fsys
resized_dirs-content a b k fsys = elim (Bool-cases (eq_bytes a b)) [
  | inl same ↦ rw same (update_dir_size-IsSame a fsys k)
  | inr other ↦
      rw other
        (update_dir_size-IsSame b (update_dir_size a fsys) k ∙ update_dir_size-IsSame a fsys k)
]

module _ (old new k : Bytes) (n : Node) (fsys : Fs) (file : is_dir n ≡ false) where
  moved_to-content :
      (o : Option (Map Bytes Node))
      → ((m : Map Bytes Node)
          → o ≡ some m
          → eq_bytes new k ≡ false
          → lookup k m ≡ lookup k fsys.nodes)
      → (moved_to old new n fsys o).0 ≡ ok tt
      → content_at k (moved_to old new n fsys o).1 ≡ (
          if eq_bytes old k
          then none
          else if eq_bytes new k
          then content (some n)
          else content_at k fsys)
  unfolding moved_nodes
  moved_to-content none keeps done = cc
  moved_to-content (some m) keeps done =
      resized_dirs-content (dir old) (dir new) k (record fsys { nodes = moved_nodes old new n m })
      ∙ (rw (file, lookup-delete, lookup-put) (ground (arith, keeps m refl)))

-- If the method succeeds, the content under `k` is `c`.
abbrev Leaves : Bytes → Option Content → Outcome × Fs → Type 0
Leaves k c m = m.0 ≡ ok tt → content_at k m.1 ≡ c

module _ (k : Bytes) (c : Option Content) where
  guard-Leaves :
      (b : Bool) (e : Error) (t : Fs) (m : Outcome × Fs)
      → Leaves k c m
      → Leaves k c (if b then (err e, t) else m)
  guard-Leaves true e t m next h = cc
  guard-Leaves false e t m next h = next h

  second-Leaves :
      (b : Bool) (m m' : Outcome × Fs)
      → b ≡ false
      → Leaves k c m'
      → Leaves k c (if b then m else m')
  second-Leaves true m m' b_false next h = absurd (ground arith)
  second-Leaves false m m' b_false next h = next h

  node-Leaves :
      (old new : Bytes) (fsys : Fs) (o : Option Node) (n : Node)
      → o ≡ some n
      → Leaves k c (rename_node old new fsys (some n))
      → Leaves k c (rename_node old new fsys o)
  node-Leaves old new fsys o n there next = rw there next

-- A Rename of a node that is not a directory to another name, if it succeeds, leaves its content
-- under the new name and nothing under the old one, and the content of all other names as it was.
pub rename-content :
    (old_path new_path k : Bytes) (n : Node) (fsys : Fs)
    → eq_bytes (clean old_path) (clean new_path) ≡ false
    → lookup (clean old_path) fsys.nodes ≡ some n
    → is_dir n ≡ false
    → (rename old_path new_path fsys).0 ≡ ok tt
    → content_at k (rename old_path new_path fsys).1 ≡ (
        if eq_bytes (clean old_path) k
        then none
        else if eq_bytes (clean new_path) k
        then content (some n)
        else content_at k fsys)
unfolding rename
rename-content old_path new_path k n fsys apart there file =
    let old = clean old_path in
    let new = clean new_path in
    guard-Leaves k _ (not (valid_path old) || not (valid_path new)) _ fsys _ (
      second-Leaves k _ (old == new) (ok tt, fsys) _ apart
        (node-Leaves k _ old new fsys (lookup old fsys.nodes) n there (
          guard-Leaves k _ (lacks_parent (dir new) fsys) _ fsys _ (
            moved_to-content old new k n fsys file (cleared new (lookup new fsys.nodes) fsys.nodes)
              (λ m. lookup-cleared new k (lookup new fsys.nodes) fsys.nodes m)))))
