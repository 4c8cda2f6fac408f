-- ===== src/Copy.antt =====
-- fs/copy.go: `CopyFS`, `CopyAll` and `CopyNewFS`, over any two file systems that share a state.
-- The calls recurse into the directories that they read, so they take fuel, and `none` is the call
-- that used it up. `io_copy` is `io.Copy` of the standard library, from an open file into another.
pub mod Laws
pub mod Total
pub mod Tests
use wanix.Base.{
  ℕ, zero, suc, ◌+◌, ◌/◌, ◌%◌, Bytes, Bool, true, false, ◌&&◌, not, Option, none, some, List, [],
  ◌∷◌, if◌then◌else◌, ltb, eq_nat,
}
use wanix.Errors.{Errno, Error, errno, exist, other, bare, Result, ok, err}
use wanix.Actions.{Action, return, fail, lift}
use wanix.Paths.{join}
use wanix.Backends.{
  Kind, regular_file, directory, symbolic_link, irregular, Info, is_dir, is_link, Entry, FileSystem,
}

-- What `fmt.Errorf` makes here. An error that it wraps with %w is kept as it is.
abbrev pub cannot_copy : Error
cannot_copy = bare (other 1)

abbrev pub dst_not_writable : Error
dst_not_writable = bare (other 2)

abbrev pub cannot_read_directory : Error
cannot_read_directory = bare (other 3)

-- os.O_WRONLY|os.O_CREATE|os.O_TRUNC
abbrev pub write_create_truncate : ℕ
write_create_truncate = 577

abbrev is_exist_errno : Errno → Bool
is_exist_errno exist = true
is_exist_errno _ = false

-- os.IsExist(err)
abbrev pub is_exist : Error → Bool
is_exist e = is_exist_errno (errno e)

-- `mode&0500 == 0`, of the permission bits.
unfoldable pub lacks_0500 : ℕ → Bool
lacks_0500 perm = eq_nat (perm / 64 % 2) 0 && eq_nat (perm / 256 % 2) 0

-- `if mode&0500 == 0 { mode |= 0500 }`
unfoldable pub with_0500 : ℕ → ℕ
unfolding lacks_0500
with_0500 perm = if lacks_0500 perm then perm + 320 else perm

-- A copy that has ended, or has used up its fuel.
abbrev pub Run : Type 0 → Type 0
Run W = W → Option (Result (Unit {0}) × W)

module _ {W : Type 0} where
  -- `defer f.Close()`: it is run whatever the result is, and its own error is dropped.
  abbrev pub then_close : {A : Type 0} → Result A × W → Action W (Unit {0}) → Result A × W
  then_close (r, w) close = (r, (close w).1)

  -- A deferred call whose error becomes the result.
  abbrev pub then_check : Result (Unit {0}) × W → Action W (Unit {0}) → Result (Unit {0}) × W
  then_check (r, w) last = go (last w)
    where
      go : Result (Unit {0}) × W → Result (Unit {0}) × W
      go (ok u, w') = (r, w')
      go (err e, w') = (err e, w')

  -- The next step of a loop, unless the last one failed.
  abbrev pub and_then : Option (Result (Unit {0}) × W) → Run W → Option (Result (Unit {0}) × W)
  and_then none next = none
  and_then (some (err e, w)) next = some (err e, w)
  and_then (some (ok u, w)) next = next w

  abbrev pub close_after :
      Option (Result (Unit {0}) × W) → Action W (Unit {0}) → Option (Result (Unit {0}) × W)
  close_after none close = none
  close_after (some r) close = some (then_close r close)

module _ {W H : Type 0} (io_copy : H → H → Action W (Unit {0})) (src dst : FileSystem W H) where
  unfoldable pub copy_symlink : Bytes → Bytes → Action W (Unit {0})
  copy_symlink src_path dst_path w = elim (src.readlink src_path w) [
    | err e ↦ (err e, w)
    | ok target ↦ dst.symlink target dst_path w
  ]

  -- The copying of an open file into another. The test after `io.Copy` is on the result of the
  -- function, which is nil there, and not on the error of the copying.
  unfoldable pub copy_contents : H → H → Action W (Unit {0})
  copy_contents dstf srcf w =
      if dst.is_writer dstf then (ok tt, (io_copy dstf srcf w).1) else (err dst_not_writable, w)

  -- What follows the opening of the destination.
  unfoldable pub copy_into : H → Bytes → ℕ → Result H × W → Result (Unit {0}) × W
  unfolding copy_contents
  copy_into srcf dst_path perm (err e, w) = (err e, w)
  copy_into srcf dst_path perm (ok dstf, w) =
      then_check (then_check (copy_contents dstf srcf w) (dst.file_close dstf))
        (dst.chmod dst_path perm)

  unfoldable pub copy_file : Bytes → Bytes → ℕ → Action W (Unit {0})
  unfolding copy_into
  copy_file src_path dst_path perm w = elim (src.open_read src_path w) [
    | err e ↦ (err e, w)
    | ok srcf ↦
        then_close
          (copy_into srcf dst_path perm (dst.open_file dst_path write_create_truncate perm w))
          (src.file_close srcf)
  ]

  -- The loop over the entries of a directory, with what is done for one of them.
  unfoldable pub copy_entries : (Bytes → Run W) → List Entry → Run W
  copy_entries one [] w = some (ok tt, w)
  copy_entries one (x ∷ xs) w = and_then (one x.name w) (copy_entries one xs)

  -- The reading of the directory and what follows it, with what `CopyFS` does for an entry.
  unfoldable pub copy_listed : (Bytes → Bytes → Run W) → Bytes → Bytes → ℕ → Run W
  unfolding copy_entries with_0500
  copy_listed one src_path dst_path perm w = elim (src.read_dir src_path w) [
    | err e ↦ some (err cannot_read_directory, w)
    | ok entries ↦
        and_then (copy_entries (λ name. one (join src_path name) (join dst_path name)) entries w)
          (λ w'. some (dst.chmod dst_path (with_0500 perm) w'))
  ]

  -- `copyDir`
  unfoldable pub copy_dir : (Bytes → Bytes → Run W) → Bytes → Bytes → ℕ → Run W
  unfolding copy_listed with_0500
  copy_dir one src_path dst_path perm w = elim (src.open_read src_path w) [
    | err e ↦ some (err e, w)
    | ok srcf ↦
        close_after
          (and_then (some (dst.mkdir_all dst_path (with_0500 perm) w))
            (copy_listed one src_path dst_path perm))
          (src.file_close srcf)
  ]

  -- The switch on the type bits of the source.
  unfoldable pub copy_as : (Bytes → Bytes → Run W) → Info → Bytes → Bytes → Run W
  unfolding copy_symlink copy_file copy_dir
  copy_as one info src_path dst_path w = elim (info.kind) [
    | symbolic_link ↦ some (copy_symlink src_path dst_path w)
    | directory ↦ copy_dir one src_path dst_path info.perm w
    | regular_file ↦ some (copy_file src_path dst_path info.perm w)
    | irregular ↦ some (err cannot_copy, w)
  ]

  unfoldable pub copy_fs : ℕ → Bytes → Bytes → Run W
  unfolding copy_as
  copy_fs zero src_path dst_path w = none
  copy_fs (suc fuel) src_path dst_path w = elim (src.lstat src_path w) [
    | err e ↦ some (err e, w)
    | ok info ↦ copy_as (copy_fs fuel) info src_path dst_path w
  ]

  -- `dstErr == nil && !info.ModTime().After(dstInfo.ModTime())`
  unfoldable pub is_up_to_date : Info → Result Info → Bool
  is_up_to_date info (err e) = false
  is_up_to_date info (ok at) = not (ltb at.mod_time info.mod_time)

  -- One entry of `copyDirNewer`, with what is done for a directory.
  unfoldable pub copy_entry_newer : (Bytes → Bytes → ℕ → Run W) → Bytes → Bytes → Info → Run W
  unfolding copy_symlink copy_file is_up_to_date
  copy_entry_newer sub src_entry dst_entry info w =
      if is_dir info.kind
      then sub src_entry dst_entry info.perm w
      else if is_link info.kind
      then some (copy_symlink src_entry dst_entry w)
      else if is_up_to_date info (dst.stat dst_entry w)
      then some (ok tt, w)
      else some (copy_file src_entry dst_entry info.perm w)

  unfoldable pub copy_entries_newer :
      (Bytes → Bytes → ℕ → Run W) → Bytes → Bytes → List Entry → Run W
  unfolding copy_entry_newer
  copy_entries_newer sub src_path dst_path [] w = some (ok tt, w)
  copy_entries_newer sub src_path dst_path (x ∷ xs) w = elim (x.info) [
    | err e ↦ some (err e, w)
    | ok info ↦
        and_then (copy_entry_newer sub (join src_path x.name) (join dst_path x.name) info w)
          (copy_entries_newer sub src_path dst_path xs)
  ]

  -- `err != nil && !os.IsExist(err)`
  unfoldable pub made_or_there : Result (Unit {0}) → Result (Unit {0})
  made_or_there (ok u) = ok u
  made_or_there (err e) = if is_exist e then ok tt else err e

  unfoldable pub copy_listed_newer : (Bytes → Bytes → ℕ → Run W) → Bytes → Bytes → Run W
  unfolding copy_entries_newer
  copy_listed_newer sub src_path dst_path w = elim (src.read_dir src_path w) [
    | err e ↦ some (err e, w)
    | ok entries ↦ copy_entries_newer sub src_path dst_path entries w
  ]

  -- The body of `copyDirNewer`, with the recursive call.
  unfoldable pub copy_dir_newer_with : (Bytes → Bytes → ℕ → Run W) → Bytes → Bytes → ℕ → Run W
  unfolding copy_listed_newer made_or_there
  copy_dir_newer_with sub src_path dst_path perm w = elim (src.open_read src_path w) [
    | err e ↦ some (err e, w)
    | ok srcf ↦ close_after (go (dst.mkdir dst_path perm w)) (src.file_close srcf)
  ]
    where
      go : Result (Unit {0}) × W → Option (Result (Unit {0}) × W)
      go (r, w') = and_then (some (made_or_there r, w')) (copy_listed_newer sub src_path dst_path)

  unfoldable pub copy_dir_newer : ℕ → Bytes → Bytes → ℕ → Run W
  unfolding copy_dir_newer_with
  copy_dir_newer zero src_path dst_path perm w = none
  copy_dir_newer (suc fuel) src_path dst_path perm w =
      copy_dir_newer_with (copy_dir_newer fuel) src_path dst_path perm w

  -- The destination is a file that is as new as the source, or newer.
  unfoldable pub skips : Info → Result Info → Bool
  skips info (err e) = false
  skips info (ok at) = not (is_dir at.kind) && not (ltb at.mod_time info.mod_time)

  unfoldable pub copy_new_fs : ℕ → Bytes → Bytes → Run W
  unfolding copy_symlink copy_file copy_dir_newer skips
  copy_new_fs fuel src_path dst_path w = elim (src.lstat src_path w) [
    | err e ↦ some (err e, w)
    | ok info ↦ if skips info (dst.lstat dst_path w) then some (ok tt, w) else as_kind info
  ]
    where
      as_kind : Info → Option (Result (Unit {0}) × W)
      as_kind info = elim (info.kind) [
        | symbolic_link ↦ some (copy_symlink src_path dst_path w)
        | directory ↦ copy_dir_newer fuel src_path dst_path info.perm w
        | regular_file ↦ some (copy_file src_path dst_path info.perm w)
        | irregular ↦ some (err cannot_copy, w)
      ]

-- `CopyAll`: within one file system.
module _ {W H : Type 0} (io_copy : H → H → Action W (Unit {0})) (fsys : FileSystem W H) where
  unfoldable pub copy_all : ℕ → Bytes → Bytes → Run W
  unfolding copy_fs
  copy_all fuel src_path dst_path = copy_fs io_copy fsys fsys fuel src_path dst_path
