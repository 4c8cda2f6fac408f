-- ===== src/Memfs/Results.antt =====
-- What the methods of fs/memfs/memfs.go that succeed have made of their own name.
use wanix.Base.{
  ℕ, ◌+◌, Bytes, ◌≡◌, refl, ◌∙◌, Bool, true, false, not, ◌&&◌, Option, none, some, ◌==◌, bytes_eq,
  eq_bytes, eq_refl, lookup, delete, lookup-delete, if◌then◌else◌, arith, [], ◌∷◌,
}
use wanix.Errors.{Error, Result, ok, err}
use wanix.Paths.{dot, dir, valid_path, clean}
use wanix.Nodes.{Node, a_time, a_data, a_mode, entry, raw_node, mode_symlink}
use wanix.Memfs.{Fs, exists, is_dir_at, then_do}
use wanix.Memfs.Changes.{
  Outcome, if_true, added, is_empty_at, with_parent, create_at, dropped, remove, symlink, readlink,
  link_of,
}
use wanix.Memfs.Frame.{content, content_at, Content, added-content, update_dir_size-IsSame}

-- If the method succeeds, the state that it leaves has the content under the name.
abbrev Leaves : {A : Type 0} → Bytes → Option Content → Result A × Fs → Type 0
Leaves {A = A} name c m = (a : A) → m.0 ≡ ok a → content_at name m.1 ≡ c

module _ (name : Bytes) (c : Option Content) where
  then_do-Leaves :
      {A B : Type 0} (m : Result A × Fs) (k : A → Fs → Result B × Fs)
      → ((a : A) (t : Fs) → Leaves name c (k a t))
      → Leaves name c (then_do m k)
  then_do-Leaves (ok a, t) k next b h = next a t b h
  then_do-Leaves (err e, t) k next b h = cc

  if_true-Leaves :
      (e : Error) (k : Fs → Outcome × Fs)
      → ((t : Fs) → Leaves name c (k t))
      → (b : Bool) (t : Fs) → Leaves name c (if_true e k b t)
  if_true-Leaves e k next true t u h = next t u h
  if_true-Leaves e k next false t u h = cc

  guard-Leaves :
      (b : Bool) (e : Error) (t : Fs) (m : Outcome × Fs)
      → Leaves name c m
      → Leaves name c (if b then (err e, t) else m)
  guard-Leaves true e t m next u h = cc
  guard-Leaves false e t m next u h = next u h

  choice-Leaves :
      (b : Bool) (m n : Outcome × Fs)
      → Leaves name c m
      → Leaves name c n
      → Leaves name c (if b then m else n)
  choice-Leaves true m n p q u h = p u h
  choice-Leaves false m n p q u h = q u h

  with_parent-Leaves :
      (root_too : Bool) (d : Bytes) (e : Error) (k : Fs → Outcome × Fs) (t : Fs)
      → ((u : Fs) → Leaves name c (k u))
      → Leaves name c (with_parent root_too d e k t)
  with_parent-Leaves root_too d e k t next =
      choice-Leaves (not root_too && eq_bytes d dot) (k t) (then_do (exists d t) (if_true e k))
        (next t) (then_do-Leaves (exists d t) (if_true e k) (if_true-Leaves e k next))

added-Leaves :
    (name : Bytes) (n : Node) (t : Fs)
    → Leaves {A = Unit {0}} name (content (some n)) (ok tt, added name n t)
added-Leaves name n t u h = added-content name name n t ∙ (rw (eq_refl name))

-- A Create that succeeds leaves an empty regular file under its name, of mode 0644, whatever stood
-- there before.
pub create-content :
    (path : Bytes) (now : ℕ) (fsys : Fs)
    → (create_at (clean path) now fsys).0 ≡ ok tt
    → content_at (clean path) (create_at (clean path) now fsys).1
      ≡ content (some (entry (clean path) 420 (a_time now ∷ [])))
unfolding create_at
create-content path now fsys =
    let name = clean path in
    guard-Leaves name _ (not (valid_path name)) _ fsys _
      (with_parent-Leaves name _ false (dir name) _ _ fsys (λ u. added-Leaves name _ u)) tt

symlink-content :
    (old path : Bytes) (fsys : Fs)
    → (symlink old path fsys).0 ≡ ok tt
    → content_at (clean path) (symlink old path fsys).1
      ≡ content (some (raw_node (a_data old ∷ a_mode (511 + mode_symlink) ∷ [])))
unfolding symlink
symlink-content old path fsys =
    let name = clean path in
    guard-Leaves name _ (not (valid_path name)) _ fsys _
      (with_parent-Leaves name _ false (dir name) _ _ fsys (λ u. added-Leaves name _ u)) tt

link_of-content :
    (name : Bytes) (o : Option Node) (n : Node)
    → content o ≡ content (some n)
    → link_of name o ≡ link_of name (some n)
link_of-content name none n h = cc
link_of-content name (some m) n h = ground arith

-- Readlink of a valid name gives the target that a Symlink of that name that succeeded was given.
pub readlink-symlink :
    (old path : Bytes) (fsys : Fs)
    → valid_path (clean path) ≡ true
    → (symlink old path fsys).0 ≡ ok tt
    → readlink path (symlink old path fsys).1 ≡ ok old
unfolding readlink
readlink-symlink old path fsys good done = rw good (
    link_of-content (clean path) (lookup (clean path) (symlink old path fsys).1.nodes)
      (raw_node (a_data old ∷ a_mode (511 + mode_symlink) ∷ []))
      (symlink-content old path fsys done)
    ∙ (unfold raw_node in refl))

dropped-Leaves : (name : Bytes) (t : Fs) → Leaves name none (dropped name t)
unfolding dropped
dropped-Leaves name t u h =
    update_dir_size-IsSame (dir name) (record t { nodes = delete name t.nodes }) name
    ∙ (rw (lookup-delete, eq_refl name))

-- After a Remove that succeeded the map has no node under the name.
pub remove-gone :
    (path : Bytes) (fsys : Fs)
    → (remove path fsys).0 ≡ ok tt
    → content_at (clean path) (remove path fsys).1 ≡ none
unfolding remove
remove-gone path fsys =
    let name = clean path in
    guard-Leaves name _ (not (valid_path name)) _ fsys _
      (guard-Leaves name _ (name == dot) _ fsys _ (
        then_do-Leaves name _ (exists name fsys) _ (
          if_true-Leaves name _ _ _ (λ t. then_do-Leaves name _ (is_dir_at name t) _ (λ d u.
            choice-Leaves name _ d _ _
              (then_do-Leaves name _ (is_empty_at name u) _
                (if_true-Leaves name _ _ (dropped name) (dropped-Leaves name)))
              (dropped-Leaves name u))))))
      tt

-- Create of the root succeeds and makes the root a regular file.
pub create-root :
    (now : ℕ) (fsys : Fs)
    → ((create_at dot now fsys).0 ≡ ok tt)
      × (content_at dot (create_at dot now fsys).1
          ≡ content (some (entry dot 420 (a_time now ∷ []))))
create-root now fsys = (made, unfold clean in create-content dot now fsys made)
  where
    made : (create_at dot now fsys).0 ≡ ok tt
    made = unfold create_at valid_path dir in refl
