-- ===== src/Subdir.antt =====
-- fs/sub.go: a file system seen from one of its directories. The functions of package fs that the
-- methods call at the whole name (StatContext, OpenContext, Create, ...) are the record `Whole`.
-- `S` is the state of the whole file system; a method gives its result and the state after it.
pub mod Names
pub mod Tests
use wanix.Base.{
  ℕ, Bytes, Bool, true, false, ◌&&◌, Option, none, some, List, if◌then◌else◌, ◌==◌, bytes_eq,
  eq_bytes, eq_nat, leb, length, take, drop, get_elem?, ◌+◌, String,
}
use wanix.Errors.{Errno, Error, bare, Result, ok, err, path_error, invalid}
use wanix.Paths.{slash, dot, valid_path, join}
use wanix.Contexts.{Ctx}

-- What a method does to the whole file system, and its result.
abbrev pub Action : Type 0 → Type 0 → Type 0
Action S A = S → Result A × S

pub record Whole (F S Info H : Type 0) : Type 0 where
  pub stat : Ctx F → Bytes → Action S Info
  pub open_file : Ctx F → Bytes → Action S H
  pub create : Bytes → Action S H
  pub mkdir : Bytes → ℕ → Action S (Unit {0})
  pub truncate : Bytes → ℕ → Action S (Unit {0})
  pub chtimes : Bytes → ℕ → ℕ → Action S (Unit {0})
  pub chmod : Bytes → ℕ → Action S (Unit {0})
  pub remove : Bytes → Action S (Unit {0})
  pub rename : Bytes → Bytes → Action S (Unit {0})
  pub symlink : Bytes → Bytes → Action S (Unit {0})
  pub readlink : Bytes → Action S Bytes
  pub set_xattr : Ctx F → Bytes → Bytes → Bytes → ℕ → Action S (Unit {0})
  pub get_xattr : Ctx F → Bytes → Bytes → Action S Bytes
  pub list_xattrs : Ctx F → Bytes → Action S (List Bytes)
  pub remove_xattr : Ctx F → Bytes → Bytes → Action S (Unit {0})

-- What `Sub` makes: the file system itself, or the file system at a directory.
pub data Subtree (F : Type 0) : Type 0 where
  same_fs : F → Subtree F
  subdir_fs : F → Bytes → Subtree F

module _ {F : Type 0} where
  -- `subs` is the method Sub, if the file system has one.
  unfoldable pub sub : (F → Option (Bytes → Result (Subtree F))) → F → Bytes → Result (Subtree F)
  unfolding valid_path eq_bytes
  sub subs fsys d =
      if valid_path d
      then (if d == dot
          then ok (same_fs fsys)
          else elim (subs fsys) [ none ↦ ok (subdir_fs fsys d) | some method ↦ method d ])
      else err (path_error "sub" d invalid)

unfoldable pub full_name : String → Bytes → Bytes → Result Bytes
unfolding valid_path join
full_name op d name = if valid_path name then ok (join d name) else err (path_error op name invalid)

-- The byte of a name at an index, compared.
abbrev is_at : Option ℕ → ℕ → Bool
is_at none c = false
is_at (some a) c = eq_nat a c

unfoldable pub shorten : Bytes → Bytes → Option Bytes
unfolding eq_bytes
shorten d name =
    if name == d
    then some dot
    else if leb (length d + 2) (length name)
        && is_at (get_elem? name (length d)) slash
        && take (length d) name == d
    then some (drop (length d + 1) name)
    else none

abbrev shortened : String → Bytes → Errno → Option Bytes → Error
shortened op p e none = path_error op p e
shortened op p e (some short) = path_error op short e

unfoldable pub fix_err : Bytes → Error → Error
unfolding shorten
fix_err d (bare e) = bare e
fix_err d (path_error op p e) = shortened op p e (shorten d p)

abbrev pub fixed : {A : Type 0} → Bytes → Result A → Result A
fixed d (ok a) = ok a
fixed d (err e) = err (fix_err d e)

abbrev pub at_full : {S A : Type 0} → Result Bytes → (Bytes → Action S A) → Action S A
at_full (ok full) act s = act full s
at_full (err e) act s = (err e, s)

-- The pattern of most methods: the whole name, the call at it, and the error of the call with its
-- name made short again.
abbrev pub delegated : {S A : Type 0} → String → Bytes → Bytes → (Bytes → Action S A) → Action S A
delegated op d name act s =
    at_full (full_name op d name) (λ full t. let m = act full t in (fixed d m.0, m.1)) s

module _ {F S Info H : Type 0} (w : Whole F S Info H) (d : Bytes) where
  -- The directory of the file system that `Sub` makes of this one.
  unfoldable pub sub_sub : Bytes → Result Bytes
  unfolding full_name eq_bytes
  sub_sub name = if name == dot then ok d else full_name "sub" d name

  unfoldable pub stat_context : Ctx F → Bytes → Action S Info
  unfolding full_name fix_err
  stat_context ctx name = delegated "stat" d name (w.stat ctx)

  unfoldable pub open_context : Ctx F → Bytes → Action S H
  unfolding full_name fix_err
  open_context ctx name = delegated "open" d name (w.open_file ctx)

  unfoldable pub create : Bytes → Action S H
  unfolding full_name fix_err
  create name = delegated "create" d name w.create

  unfoldable pub mkdir : Bytes → ℕ → Action S (Unit {0})
  unfolding full_name fix_err
  mkdir name perm = delegated "mkdir" d name (λ full. w.mkdir full perm)

  unfoldable pub truncate : Bytes → ℕ → Action S (Unit {0})
  unfolding full_name fix_err
  truncate name size = delegated "truncate" d name (λ full. w.truncate full size)

  unfoldable pub chtimes : Bytes → ℕ → ℕ → Action S (Unit {0})
  unfolding full_name fix_err
  chtimes name atime mtime = delegated "chtimes" d name (λ full. w.chtimes full atime mtime)

  unfoldable pub chmod : Bytes → ℕ → Action S (Unit {0})
  unfolding full_name fix_err
  chmod name mode = delegated "chmod" d name (λ full. w.chmod full mode)

  unfoldable pub remove : Bytes → Action S (Unit {0})
  unfolding full_name fix_err
  remove name = delegated "remove" d name w.remove

  -- The new name is checked first.
  unfoldable pub rename : Bytes → Bytes → Action S (Unit {0})
  unfolding full_name fix_err
  rename old new =
      at_full (full_name "rename" d new)
        (λ new_full. delegated "rename" d old (λ old_full. w.rename old_full new_full))

  -- The target of the link is passed on as it is.
  unfoldable pub symlink : Bytes → Bytes → Action S (Unit {0})
  unfolding full_name fix_err
  symlink old new = delegated "symlink" d new (w.symlink old)

  unfoldable pub readlink : Bytes → Action S Bytes
  unfolding full_name fix_err
  readlink name = delegated "readlink" d name w.readlink

  unfoldable pub set_xattr : Ctx F → Bytes → Bytes → Bytes → ℕ → Action S (Unit {0})
  unfolding full_name fix_err
  set_xattr ctx name attr value flags =
      delegated "setxattr" d name (λ full. w.set_xattr ctx full attr value flags)

  -- The errors of the two readers of attributes keep the whole name.
  unfoldable pub get_xattr : Ctx F → Bytes → Bytes → Action S Bytes
  unfolding full_name
  get_xattr ctx name attr =
      at_full (full_name "getxattr" d name) (λ full. w.get_xattr ctx full attr)

  unfoldable pub list_xattrs : Ctx F → Bytes → Action S (List Bytes)
  unfolding full_name
  list_xattrs ctx name = at_full (full_name "listxattrs" d name) (w.list_xattrs ctx)

  unfoldable pub remove_xattr : Ctx F → Bytes → Bytes → Action S (Unit {0})
  unfolding full_name fix_err
  remove_xattr ctx name attr = delegated "removexattr" d name (λ full. w.remove_xattr ctx full attr)
