-- ===== src/Copy/Laws.antt =====
-- fs/copy.go: what the copying of a file comes to.
use wanix.Base.{ℕ, ◌≡◌, refl, Bytes, inl, inr}
use wanix.Errors.{Result, ok, err, Result-cases}
use wanix.Actions.{Action}
use wanix.Backends.{FileSystem}
use wanix.Copy.{copy_contents, copy_into, copy_file}

module _ {W H : Type 0} (src dst : FileSystem W H) (fails works : H → H → Action W (Unit {0})) where
  copy_contents-blind :
      ((d s : H) (w : W) → (fails d s w).1 ≡ (works d s w).1)
      → (d s : H) (w : W) → copy_contents fails src dst d s w ≡ copy_contents works src dst d s w
  unfolding copy_contents
  copy_contents-blind same d s w = rw (same d s w) refl

  copy_into-blind :
      ((d s : H) (w : W) → (fails d s w).1 ≡ (works d s w).1)
      → (srcf : H) (dst_path : Bytes) (perm : ℕ) (r : Result H × W)
      → copy_into fails src dst srcf dst_path perm r ≡ copy_into works src dst srcf dst_path perm r
  unfolding copy_into
  copy_into-blind same srcf dst_path perm (err e, w) = refl
  copy_into-blind same srcf dst_path perm (ok dstf, w) =
      rw (copy_contents-blind same dstf srcf w) refl

  -- Two ways to copy the contents that leave the same state make no difference to the result of
  -- copyFile, even where one of them fails.
  pub copy_file-blind :
      ((d s : H) (w : W) → (fails d s w).1 ≡ (works d s w).1)
      → (src_path dst_path : Bytes) (perm : ℕ) (w : W)
      → copy_file fails src dst src_path dst_path perm w
        ≡ copy_file works src dst src_path dst_path perm w
  unfolding copy_file
  copy_file-blind same src_path dst_path perm w = elim (Result-cases (src.open_read src_path w)) [
    | inr (e, h) ↦ rw (copy_file, h) refl
    | inl (srcf, h) ↦
        rw
          (
            copy_file,
            h,
            copy_into-blind same srcf dst_path perm (dst.open_file dst_path 577 perm w),
          )
          refl
  ]
