-- ===== src/Metacache/Writes.antt =====
-- The operations of fs/metacache/metacache.go that change the file system under the cache, with
-- the invalidation that each does when it succeeds, and the ones that open a file.
use wanix.Base.{ℕ, zero, suc, Bytes, ◌||◌, Option, none, some, eq_bytes, is_empty, if◌then◌else◌}
use Prim.Native.Nat.{bit_and}
use wanix.Base.{eq_nat}
use wanix.Errors.{Result, ok, err}
use wanix.Paths.{dir, dot}
use wanix.Metacache.{
  Action, Outcome, Backing, Fs, normalize_path, invalidate, invalidate_dir, invalidate_parent,
}
use wanix.Metacache.Ops.{lift}
use wanix.Metacache.Handle.{File, wrap_file}

-- O_CREATE|O_TRUNC, 0x40 and 0x200 there
abbrev pub creating_flags : ℕ
creating_flags = 0x240

module _ {S Info DirEntry : Type 0} where
  abbrev pub on_success :
      {A : Type 0}
      → (Fs S Info DirEntry → Fs S Info DirEntry)
      → Result A × Fs S Info DirEntry
      → Result A × Fs S Info DirEntry
  on_success act (ok a, f) = (ok a, act f)
  on_success act (err e, f) = (err e, f)

  abbrev pub invalidate_both : Bytes → Fs S Info DirEntry → Fs S Info DirEntry
  invalidate_both name f = invalidate_parent name (invalidate name f)

  -- The loop of `MkdirAll` up the path. `none` means that the fuel ran out.
  unfoldable pub invalidate_up : ℕ → Bytes → Fs S Info DirEntry → Option (Fs S Info DirEntry)
  unfolding eq_bytes
  invalidate_up zero path f = none
  invalidate_up (suc fuel) path f =
      let rest = invalidate_up fuel (dir path) (invalidate_both path f) in
      if eq_bytes path dot || is_empty path then some f else rest

module _ {S Info DirEntry H : Type 0} (b : Backing S Info DirEntry H) where
  abbrev opened :
      Bytes → Result H × Fs S Info DirEntry → Result (File H DirEntry) × Fs S Info DirEntry
  opened name (ok h, f) = (ok (wrap_file h name), f)
  opened name (err e, f) = (err e, f)

  unfoldable pub open_context : Bytes → Action (Fs S Info DirEntry) (Result (File H DirEntry))
  unfolding lift wrap_file
  open_context name f = opened name (lift (b.open_read name) f)

  unfoldable pub open_file : Bytes → ℕ → ℕ → Action (Fs S Info DirEntry) (Result (File H DirEntry))
  unfolding lift wrap_file
  open_file name flag perm f = opened name (
      on_success (λ g. if eq_nat (bit_and flag creating_flags) 0 then g else invalidate_both name g)
        (lift (b.open_file name flag perm) f))

  unfoldable pub create : Bytes → Action (Fs S Info DirEntry) (Result (File H DirEntry))
  unfolding lift wrap_file
  create name f = opened name (on_success (invalidate_both name) (lift (b.create name) f))

  unfoldable pub mkdir : Bytes → ℕ → Action (Fs S Info DirEntry) Outcome
  unfolding lift
  mkdir name perm f = on_success (invalidate_parent name) (lift (b.mkdir name perm) f)

  -- `fuel` bounds the rounds of the loop.
  abbrev pub climbed :
      ℕ → Bytes → Outcome × Fs S Info DirEntry → Option (Outcome × Fs S Info DirEntry)
  climbed fuel name (ok u, f) = elim (invalidate_up fuel (normalize_path name) f) [
    | none ↦ none
    | some g ↦ some (ok u, g)
  ]
  climbed fuel name (err e, f) = some (err e, f)

  unfoldable pub mkdir_all :
      ℕ → Bytes → ℕ → Fs S Info DirEntry → Option (Outcome × Fs S Info DirEntry)
  unfolding lift
  mkdir_all fuel name perm f = climbed fuel name (lift (b.mkdir_all name perm) f)

  unfoldable pub remove : Bytes → Action (Fs S Info DirEntry) Outcome
  unfolding lift
  remove name f = on_success (invalidate_both name) (lift (b.remove name) f)

  unfoldable pub remove_all : Bytes → Action (Fs S Info DirEntry) Outcome
  unfolding lift
  remove_all name f =
      on_success (λ g. invalidate_parent name (invalidate_dir name g)) (lift (b.remove_all name) f)

  unfoldable pub rename : Bytes → Bytes → Action (Fs S Info DirEntry) Outcome
  unfolding lift
  rename old new f =
      on_success
        (λ g. invalidate_parent new (invalidate_parent old (invalidate new (invalidate old g))))
        (lift (b.rename old new) f)

  unfoldable pub truncate : Bytes → ℕ → Action (Fs S Info DirEntry) Outcome
  unfolding lift
  truncate name size f = on_success (invalidate name) (lift (b.truncate name size) f)

  unfoldable pub symlink : Bytes → Bytes → Action (Fs S Info DirEntry) Outcome
  unfolding lift
  symlink old new f = on_success (invalidate_both new) (lift (b.symlink old new) f)

  unfoldable pub chmod : Bytes → ℕ → Action (Fs S Info DirEntry) Outcome
  unfolding lift
  chmod name mode f = on_success (invalidate name) (lift (b.chmod name mode) f)

  unfoldable pub chown : Bytes → ℕ → ℕ → Action (Fs S Info DirEntry) Outcome
  unfolding lift
  chown name uid gid f = on_success (invalidate name) (lift (b.chown name uid gid) f)

  unfoldable pub chtimes : Bytes → ℕ → ℕ → Action (Fs S Info DirEntry) Outcome
  unfolding lift
  chtimes name atime mtime f = on_success (invalidate name) (lift (b.chtimes name atime mtime) f)
