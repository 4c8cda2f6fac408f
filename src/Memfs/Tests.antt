-- ===== src/Memfs/Tests.antt =====
-- A concrete file system of fs/memfs/memfs.go, runs of it, and the theorems at it.
use wanix.Base.{codes, ◌≡◌, inl, refl, [], ◌∷◌, eq_bytes, lookup, delete, put, keys, bytes_eq}
use wanix.Errors.{ok, err, path_error, not_empty}
use wanix.Paths.{dot, clean, valid_path}
use wanix.Nodes.{entry}
use wanix.Memfs.{Fs, new}
use wanix.Memfs.Changes.{create_at, mkdir, remove}
use wanix.Memfs.Frame.{content_at}
use wanix.Memfs.Methods.{removing, perform, perform-elsewhere}
use wanix.Memfs.Rename.{rename}

-- The directory "d" with the file "d/f".
abbrev tree : Fs
tree = (create_at (codes "d/f") 5 (mkdir (codes "d") 493 4 new).1).1

-- The directory "h" with the hidden file "h/#f".
abbrev hidden : Fs
hidden = (create_at (codes "h/#f") 5 (mkdir (codes "h") 493 4 new).1).1

tree_keys : keys tree.nodes ≡ dot ∷ codes "d" ∷ codes "d/f" ∷ []
unfolding create_at mkdir new keys put lookup valid_path entry
tree_keys = refl

remove_full : (remove (codes "d") tree).0 ≡ err (path_error "remove" (codes "d") not_empty)
unfolding remove create_at mkdir new keys put lookup valid_path entry
remove_full = refl

-- A directory that has only hidden entries counts as empty.
remove_hidden : (remove (codes "h") hidden).0 ≡ ok tt
unfolding remove create_at mkdir new keys put lookup valid_path entry
remove_hidden = refl

perform-elsewhere_example :
    content_at (codes "d") (perform removing (codes "d/f") tree).1 ≡ content_at (codes "d") tree
unfolding clean eq_bytes
perform-elsewhere_example = perform-elsewhere removing (codes "d/f") (codes "d") tree (inl refl)

rename_dir : keys (rename (codes "d") (codes "e") tree).1.nodes ≡ dot ∷ codes "e" ∷ codes "e/f" ∷ []
unfolding rename create_at mkdir new keys put delete lookup valid_path entry
rename_dir = refl

-- The file of a directory that takes the place of the root has a name that no lookup asks for.
rename_onto_root : keys (rename (codes "d") dot tree).1.nodes ≡ dot ∷ codes "./f" ∷ []
unfolding rename create_at mkdir new keys put delete lookup valid_path entry
rename_onto_root = refl
