-- ===== src/Memfs/Methods.antt =====
-- The methods of fs/memfs/memfs.go as one family: each leaves the content of all names but its own.
use wanix.Base.{
  ℕ, Bytes, ◌≡◌, refl, ◌∙◌, Bool, true, false, not, Option, none, some, inl, inr, ◌⊎◌, eq_bytes,
  Bool-cases, ℤ, pos, negsuc, lookup, eq_nat, length, if◌then◌else◌, ◌==◌, bytes_eq, arith,
}
use wanix.Errors.{Error, path_error, Result, ok, err, not_empty, succeeded, bare, other}
use wanix.Paths.{dot, dir, valid_path, clean}
use wanix.Nodes.{Node, is_dir}
use wanix.Memfs.{Fs, lstat, exists, is_dir_at, read_dir, then_do}
use wanix.Memfs.Changes.{
  Outcome, if_true, emptiness, is_empty_at, create_at, mkdir, change_node, chmod, chown, chtimes,
  truncate_node, truncate, cut, dropped, remove, symlink,
}
use wanix.Memfs.Frame.{
  content_at, IsSame, IsFramed, lstat-IsSame, then_do-IsFramed, if_exists-IsFramed,
  with_parent-IsFramed, added-IsFramed, put-IsFramed, dropped-IsFramed, on_node-IsFramed,
  exists-IsSame, if_true-IsFramed,
}

-- The methods that change the file system at one name.
pub data Method : Type 0 where
  creating : ℕ → Method
  making_dir : ℕ → ℕ → Method
  setting_mode : ℕ → Method
  setting_owner : ℤ → ℤ → Method
  setting_times : ℕ → ℕ → Method
  truncating : ℤ → Method
  removing : Method
  linking : Bytes → Method

unfoldable pub perform : Method → Bytes → Fs → Outcome × Fs
unfolding create_at mkdir chmod chown chtimes truncate remove symlink clean
perform (creating now) path fsys = create_at (clean path) now fsys
perform (making_dir perm now) path fsys = mkdir path perm now fsys
perform (setting_mode mode) path fsys = chmod path mode fsys
perform (setting_owner uid gid) path fsys = chown path uid gid fsys
perform (setting_times atime mtime) path fsys = chtimes path atime mtime fsys
perform (truncating k) path fsys = truncate path k fsys
perform removing path fsys = remove path fsys
perform (linking old) path fsys = symlink old path fsys

read_dir-IsSame : (p : Bytes) (base t : Fs) → IsSame base t → IsSame base (read_dir p t).1
unfolding read_dir
read_dir-IsSame p base t same k = lstat-IsSame p t k ∙ same k

module _ (name : Bytes) (base : Fs) where
  lstat-IsSame_from : (p : Bytes) (t : Fs) → IsSame base t → IsSame base (lstat p t).1
  lstat-IsSame_from p t same k = lstat-IsSame p t k ∙ same k

  then_do-IsSame :
      {A B : Type 0} (m : Result A × Fs) (k : A → Fs → Result B × Fs)
      → IsSame base m.1
      → ((a : A) (t : Fs) → IsSame base t → IsSame base (k a t).1)
      → IsSame base (then_do m k).1
  then_do-IsSame (ok a, t) k same next j = next a t same j
  then_do-IsSame (err e, t) k same next j = same j

  emptiness-IsSame :
      (p : Bytes) (n : Node) (t : Fs) → IsSame base t → IsSame base (emptiness p n t).1
  emptiness-IsSame p n t same = elim (Bool-cases (is_dir n)) [
    | inl directory ↦ rw directory (
        then_do-IsSame (lstat p t) _ (lstat-IsSame_from p t same) (λ a u same_u.
          then_do-IsSame (read_dir p u) _ (read_dir-IsSame p base u same_u)
            (λ names v same_v. same_v)))
    | inr file ↦ rw file same
  ]

  is_empty_at-IsSame : (p : Bytes) (t : Fs) → IsSame base t → IsSame base (is_empty_at p t).1
  unfolding is_empty_at
  is_empty_at-IsSame p t same = after (exists p t).0
    where
      after :
          (r : Result Bool)
          → IsSame base
              (elim r as (λ _. Result Bool × Fs) [
                | ok true ↦ then_do (lstat p (exists p t).1) (emptiness p)
                | _ ↦ (err (bare (other 0)), (exists p t).1)
              ]).1
      after (ok true) =
          then_do-IsSame (lstat p (exists p t).1) (emptiness p)
            (lstat-IsSame_from p (exists p t).1 (exists-IsSame name base p t same))
            (λ n u. emptiness-IsSame p n u)
      after (ok false) = exists-IsSame name base p t same
      after (err e) = exists-IsSame name base p t same

  guard-IsFramed :
      (b : Bool) (e : Error) (t : Fs) (m : Outcome × Fs)
      → IsSame base t
      → IsFramed name base m
      → IsFramed name base (if b then (err e, t) else m)
  guard-IsFramed true e t m same framed k h = same k
  guard-IsFramed false e t m same framed k h = framed k h

  change_node-IsFramed :
      (e : Error) (act : Node → Node) → IsFramed name base (change_node e name act base)
  unfolding change_node
  change_node-IsFramed e act =
      guard-IsFramed (not (valid_path name)) e base _ (λ k. refl)
        (if_exists-IsFramed name base name e _ base (λ k. refl)
          (λ u. on_node-IsFramed name base e act (lookup name u.nodes) u))

  truncate_node-IsFramed :
      (z : ℤ) (o : Option Node) → IsFramed name base (truncate_node name z o base)
  truncate_node-IsFramed z none k h = refl
  truncate_node-IsFramed (negsuc z) (some n) k h = refl
  truncate_node-IsFramed (pos z) (some n) k h = elim (Bool-cases (eq_nat z (length n.bytes))) [
    | inl same ↦ rw same
    | inr differs ↦ rw differs (
        put-IsFramed name base (record n { bytes = cut z n.bytes }) base (λ k. refl) k
          (ground (arith, h)))
  ]

  create_at-IsFramed : (now : ℕ) → IsFramed name base (create_at name now base)
  unfolding create_at
  create_at-IsFramed now =
      guard-IsFramed (not (valid_path name)) _ base _ (λ k. refl)
        (with_parent-IsFramed name base false (dir name) _ _ base (λ k. refl)
          (λ u. added-IsFramed name base _ u))

mkdir-IsFramed :
    (path : Bytes) (perm now : ℕ) (fsys : Fs)
    → IsFramed (clean path) fsys (mkdir path perm now fsys)
unfolding mkdir
mkdir-IsFramed path perm now fsys =
    let name = clean path in
    guard-IsFramed name fsys (not (valid_path name)) _ fsys _ (λ k. refl)
      (then_do-IsFramed name fsys (exists name fsys) _
        (exists-IsSame name fsys name fsys (λ k. refl))
        (λ there t same. guard-IsFramed name fsys there _ t _ same (
          with_parent-IsFramed name fsys true (dir name) _ _ t same
            (λ u. added-IsFramed name fsys _ u))))

truncate-IsFramed :
    (path : Bytes) (z : ℤ) (fsys : Fs) → IsFramed (clean path) fsys (truncate path z fsys)
unfolding truncate
truncate-IsFramed path z fsys =
    let name = clean path in
    guard-IsFramed name fsys (not (valid_path name)) _ fsys _ (λ k. refl)
      (truncate_node-IsFramed name fsys z (lookup name fsys.nodes))

remove-IsFramed : (path : Bytes) (fsys : Fs) → IsFramed (clean path) fsys (remove path fsys)
unfolding remove
remove-IsFramed path fsys =
    let name = clean path in
    guard-IsFramed name fsys (not (valid_path name)) _ fsys _ (λ k. refl)
      (guard-IsFramed name fsys (name == dot) _ fsys _ (λ k. refl)
        (if_exists-IsFramed name fsys name _ _ fsys (λ k. refl)
          (λ t same.
            then_do-IsFramed name fsys (is_dir_at name t) _ (λ k. lstat-IsSame name t k ∙ same k)
              (λ d u same_u. on_dir name d u same_u))))
  where
    on_dir :
        (name : Bytes) (d : Bool) (u : Fs)
        → IsSame fsys u
        → IsFramed name fsys (
            if d
            then then_do
                (is_empty_at name u)
                (if_true (path_error "remove" name not_empty) (dropped name))
            else dropped name u)
    on_dir name true u same k h =
        then_do-IsFramed name fsys (is_empty_at name u) _ (is_empty_at-IsSame name fsys name u same)
          (if_true-IsFramed name fsys _ (dropped name) (dropped-IsFramed name fsys)) k h
    on_dir name false u same k h = dropped-IsFramed name fsys u same k h

symlink-IsFramed :
    (old path : Bytes) (fsys : Fs) → IsFramed (clean path) fsys (symlink old path fsys)
unfolding symlink
symlink-IsFramed old path fsys =
    let name = clean path in
    guard-IsFramed name fsys (not (valid_path name)) _ fsys _ (λ k. refl)
      (with_parent-IsFramed name fsys false (dir name) _ _ fsys (λ k. refl)
        (λ u. added-IsFramed name fsys _ u))

perform-IsFramed :
    (m : Method) (path : Bytes) (fsys : Fs) → IsFramed (clean path) fsys (perform m path fsys)
unfolding perform
perform-IsFramed (creating now) path fsys = create_at-IsFramed (clean path) fsys now
perform-IsFramed (making_dir perm now) path fsys = mkdir-IsFramed path perm now fsys
perform-IsFramed (setting_mode mode) path fsys =
    unfold chmod in change_node-IsFramed (clean path) fsys _ _
perform-IsFramed (setting_owner uid gid) path fsys =
    unfold chown in change_node-IsFramed (clean path) fsys _ _
perform-IsFramed (setting_times atime mtime) path fsys =
    unfold chtimes in change_node-IsFramed (clean path) fsys _ _
perform-IsFramed (truncating z) path fsys = truncate-IsFramed path z fsys
perform-IsFramed removing path fsys = remove-IsFramed path fsys
perform-IsFramed (linking old) path fsys = symlink-IsFramed old path fsys

-- A Create, Mkdir, Chmod, Chown, Chtimes, Truncate, Remove or Symlink of the memory file system
-- leaves the content, which is mode, time, owner and data, of all names but its own as it was, and
-- if it fails, of all names.
pub perform-elsewhere :
    (m : Method) (path k : Bytes) (fsys : Fs)
    → (eq_bytes (clean path) k ≡ false) ⊎ (succeeded (perform m path fsys).0 ≡ false)
    → content_at k (perform m path fsys).1 ≡ content_at k fsys
perform-elsewhere m path k fsys h = perform-IsFramed m path fsys k h
