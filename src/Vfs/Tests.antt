-- ===== src/Vfs/Tests.antt =====
-- Concrete file systems under the namespace of fs/vfs/vfs.go, and the theorems at them. A file
-- system is a number, every file of it exists, and file system 7 allocates file system 8.
use wanix.Base.{
  ℕ, Bytes, codes, ◌≡◌, refl, true, false, none, some, [], ◌∷◌, if◌then◌else◌, eq_nat, bytes_eq,
  eq_bytes, eq_bytes_iff, has_prefix, lookup, put, keys, length, ◌≤◌, arith,
}
use wanix.Errors.{ok}
use wanix.Paths.{base, dot, join}
use wanix.Contexts.{Context, background}
use wanix.Vfs.{Files, BindTarget, Ns, mode_after, bound, bind, unbind}
use wanix.Vfs.Resolve.{elsewhere, resolve_fs, resolve_under}
use wanix.Vfs.Bindings.{NoEmpty}
use wanix.Vfs.Undo.{unbind-bind}
use wanix.Vfs.Open.{Opens, directory, open_context, below, first_part}
use wanix.Vfs.Listed.{lacks, open_context-lists}
use wanix.Vfs.Lookup.{mem, IsMatch, resolve_fs-longest}

abbrev numbered : Files ℕ ℕ
numbered = record {
  same = eq_nat;
  resolver = λ f. none;
  is_create_fs = λ f. true;
  stat = λ ctx f name. ok f;
  lstat = λ ctx f name. ok f;
  resolve = λ f ctx name. ok (f, name);
  allocator = λ f. if eq_nat f 7 then some (λ name. ok 8) else none;
  open_stat = λ f name. ok f;
}

abbrev a_target : ℕ → Bytes → BindTarget ℕ ℕ
a_target f name = record { fs = f; path = name; fi = f }

-- File system 1 at "a".
abbrev one_bound : Ns ℕ ℕ
one_bound = record { bindings = (codes "a", a_target 1 dot ∷ []) ∷ []; ctx = background }

-- File system 2 at "a" as well.
abbrev two_bound : Ns ℕ ℕ
two_bound = record {
  bindings = (codes "a", a_target 2 dot ∷ a_target 1 dot ∷ []) ∷ [];
  ctx = background;
}

one_bound-NoEmpty : NoEmpty one_bound
unfolding lookup
one_bound-NoEmpty k h = ground arith

two_bound-NoEmpty : NoEmpty two_bound
unfolding lookup
two_bound-NoEmpty k h = ground arith

bind_two : bind numbered (some 2) dot (codes "a") (some mode_after) one_bound ≡ ok two_bound
unfolding bind eq_bytes put lookup
bind_two = refl

unbind_two : unbind numbered 2 dot (codes "a") two_bound ≡ ok one_bound
unfolding unbind eq_bytes put lookup
unbind_two = refl

unbind-bind_example :
    (back : Ns ℕ ℕ) × (unbind numbered 2 dot (codes "a") two_bound ≡ ok back)
    × ((k : Bytes) → lookup k back.bindings ≡ lookup k one_bound.bindings)
unfolding bound lookup eq_bytes
unbind-bind_example =
    unbind-bind numbered 2 2 dot dot (codes "a") mode_after one_bound two_bound one_bound-NoEmpty
      refl refl refl (refl, tt) refl bind_two

no_other :
    (name q : Bytes)
    → IsMatch name one_bound q
    → length (codes "a") ≤ length q
    → eq_bytes (codes "a") q ≡ false
    → resolve_under numbered background q name (bound q one_bound) ≡ none
no_other name q m n differs = absurd (
    unfold keys in
    unfold mem in ground (arith, eq_bytes_iff q (codes "a"), eq_bytes_iff (codes "a") q))

resolve_fs-longest_example :
    resolve_fs numbered background (codes "a/c") one_bound ≡ ok (elsewhere 1 (codes "c"))
unfolding lookup eq_bytes has_prefix resolve_under bound join mem keys
resolve_fs-longest_example =
    resolve_fs-longest numbered background (codes "a/c") one_bound (codes "a")
      (ok (elsewhere 1 (codes "c"))) refl refl refl (no_other (codes "a/c"))

abbrev a_context : Context ℕ
a_context = record {
  no_follow = true;
  origin = none;
  filepath = none;
  read_only = false;
  op = none;
}

-- Every file is an empty directory, and an entry has the last part of its path as its name.
abbrev empty_directories : Opens ℕ ℕ Bytes ℕ
empty_directories = record {
  is_dir = λ info. true;
  stat = λ ctx f name. ok f;
  read_dir = λ ctx f name. ok [];
  open_at = λ ctx f name. ok f;
  raw_entry = λ info fname. fname;
  dir_entry = λ name. name;
  name_of = base;
}

-- File system 1 at "c" and, further below, at "a/b".
abbrev deep : Ns ℕ ℕ
deep = record {
  bindings = (codes "a/b", a_target 1 dot ∷ []) ∷ (codes "c", a_target 1 dot ∷ []) ∷ [];
  ctx = background;
}

open_root :
    open_context empty_directories 0 background dot deep
    ≡ ok (directory (codes "a" ∷ codes "c" ∷ []))
unfolding open_context lookup base
open_root = refl

open_context-lists_example :
    lacks empty_directories.name_of (codes "a") (codes "a" ∷ codes "c" ∷ []) ≡ false
unfolding lookup eq_bytes below first_part has_prefix base
open_context-lists_example =
    open_context-lists empty_directories 0 background (codes "a") dot (codes "a/b")
      (a_target 1 dot ∷ []) deep (codes "a" ∷ codes "c" ∷ []) refl refl refl refl open_root
