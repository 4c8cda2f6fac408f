-- ===== src/Metacache/Trees.antt =====
-- MkdirAll of fs/metacache/metacache.go, and its loop that climbs from the path to the root.
use wanix.Base.{
  ℕ, zero, suc, ◌<◌, Bytes, ◌≡◌, ◌≢◌, refl, true, ◌||◌, ◌⊎◌, some, [], ◌∷◌, arith, bytes_eq,
  eq_bytes, eq_bytes_iff, Bool-cases, Option-cases, ap, ◌∙◌, inl, inr, is_empty, length,
}
use wanix.Errors.{ok, err}
use wanix.Paths.{dir, dot, valid_path}
use wanix.Paths.Dir.{dir-valid_path, length-dir}
use wanix.Metacache.{Outcome, Backing, Fs}
use wanix.Metacache.Ops.{lift}
use wanix.Metacache.Writes.{invalidate_both, invalidate_up, climbed, mkdir_all}
use wanix.Metacache.Fresh.{
  IsFresh, both-IsFresh, invalidate-keeps_IsFresh, invalidate_parent-IsFresh,
}
use wanix.Metacache.Coherence.{SeesBacking, IsFresh→SeesBacking}
use wanix.Metacache.Listing.{normalize_path-valid}

-- `filepath.Dir`, so many times.
unfoldable pub ups : ℕ → Bytes → Bytes
ups zero p = p
ups (suc k) p = ups k (dir p)

ups-dot : (k : ℕ) → ups k dot ≡ dot
unfolding ups dir
ups-dot zero = refl
ups-dot (suc k) = ups-dot k

-- The fuel that the climb needs: none to speak of at the root, the length of the path elsewhere.
abbrev Enough : ℕ → Bytes → Type 0
Enough fuel p = ((p ≡ dot) × (0 < fuel)) ⊎ (length p < fuel)

Enough-dir :
    (fuel : ℕ) (p : Bytes)
    → valid_path p ≡ true
    → p ≢ dot
    → Enough (suc fuel) p
    → Enough fuel (dir p)
Enough-dir fuel p v h (inl (e, _)) = absurd (h e)
Enough-dir fuel p v h (inr less) = elim (length-dir p v) [
  | inl root ↦ inl (root, positive p v less)
  | inr shorter ↦ inr (omega arith)
]
  where
    positive : (p : Bytes) → valid_path p ≡ true → length p < suc fuel → 0 < fuel
    positive [] v less = unfold valid_path in cc
    positive (c ∷ p) v less = omega arith

module _ {S Info DirEntry : Type 0} where
  invalidate_up-total :
      (fuel : ℕ) (p : Bytes) (f : Fs S Info DirEntry)
      → valid_path p ≡ true
      → Enough fuel p
      → (g : Fs S Info DirEntry) × (invalidate_up fuel p f ≡ some g)
  unfolding invalidate_up
  invalidate_up-total zero p f v (inl (e, less)) = absurd (omega arith)
  invalidate_up-total zero p f v (inr less) = absurd (omega arith)
  invalidate_up-total (suc fuel) p f v enough = elim (Bool-cases (eq_bytes p dot || is_empty p)) [
    | inl stop ↦ (f, rw stop)
    | inr go ↦ rw go (
        invalidate_up-total fuel (dir p) (invalidate_both p f) (dir-valid_path p v)
          (Enough-dir fuel p v (λ e. ground (arith, eq_bytes_iff p dot)) enough))
  ]

  invalidate_up-keeps_IsFresh :
      (fuel : ℕ) (p name : Bytes) (f g : Fs S Info DirEntry)
      → invalidate_up fuel p f ≡ some g
      → IsFresh name f.cache
      → IsFresh name g.cache
  unfolding invalidate_up
  invalidate_up-keeps_IsFresh zero p name f g h fresh = cc
  invalidate_up-keeps_IsFresh (suc fuel) p name f g h fresh =
      elim (Bool-cases (eq_bytes p dot || is_empty p)) [
        | inl stop ↦ let same : f ≡ g = ground arith in rw (← same) fresh
        | inr go ↦
            invalidate_up-keeps_IsFresh fuel (dir p) name (invalidate_both p f) g (ground arith)
              (invalidate_parent-IsFresh p name _ (invalidate-keeps_IsFresh p name f fresh))
      ]

  invalidate_up-next :
      (fuel : ℕ) (p : Bytes) (f g : Fs S Info DirEntry)
      → invalidate_up (suc fuel) p f ≡ some g
      → valid_path p ≡ true
      → p ≢ dot
      → invalidate_up fuel (dir p) (invalidate_both p f) ≡ some g
  unfolding invalidate_up
  invalidate_up-next fuel p f g h v below = elim (Bool-cases (eq_bytes p dot || is_empty p)) [
    | inl stop ↦ absurd (at_root p v below stop)
    | inr go ↦ ground arith
  ]
    where
      at_root :
          (p : Bytes) → valid_path p ≡ true → p ≢ dot → (eq_bytes p dot || is_empty p) ≡ true → ⊥
      at_root [] v below stop = unfold valid_path in cc
      at_root (c ∷ p) v below stop = below ((eq_bytes_iff (c ∷ p) dot).0 (ground arith))

  -- The climb drops what is cached of the path and of each directory above it, but the root.
  invalidate_up-IsFresh :
      (fuel k : ℕ) (p : Bytes) (f g : Fs S Info DirEntry)
      → invalidate_up fuel p f ≡ some g
      → ups k p ≢ dot
      → valid_path p ≡ true
      → IsFresh (ups k p) g.cache
  unfolding ups
  invalidate_up-IsFresh zero k p f g h below v = unfold invalidate_up in cc
  invalidate_up-IsFresh (suc fuel) zero p f g h below v =
      invalidate_up-keeps_IsFresh fuel (dir p) p (invalidate_both p f) g
        (invalidate_up-next fuel p f g h v below) (both-IsFresh p p ((eq_bytes_iff p p).1 refl) f)
  invalidate_up-IsFresh (suc fuel) (suc k) p f g h below v =
      invalidate_up-IsFresh fuel k (dir p) (invalidate_both p f) g
        (invalidate_up-next fuel p f g h v
          (λ e. below (ap (λ q. ups k (dir q)) e ∙ ups-dot (suc k))))
        below (dir-valid_path p v)

module _ {S Info DirEntry H : Type 0} (b : Backing S Info DirEntry H) where
  climbed-total :
      (fuel : ℕ) (name : Bytes) (m : Outcome × Fs S Info DirEntry)
      → valid_path name ≡ true
      → length name < fuel
      → (r : Outcome × Fs S Info DirEntry) × (climbed b fuel name m ≡ some r)
  climbed-total fuel name (err e, f) v enough = ((err e, f), refl)
  climbed-total fuel name (ok u, f) v enough =
      let (g, up) = invalidate_up-total fuel name f v (inr enough) in
      ((ok u, g), ground (arith, normalize_path-valid name v, up))

  -- MkdirAll of a valid path returns: fuel above the length of the path is enough for its loop.
  pub mkdir_all-total :
      (fuel : ℕ) (name : Bytes) (perm : ℕ) (f : Fs S Info DirEntry)
      → valid_path name ≡ true
      → length name < fuel
      → (r : Outcome × Fs S Info DirEntry) × (mkdir_all b fuel name perm f ≡ some r)
  unfolding mkdir_all
  mkdir_all-total fuel name perm f v enough =
      climbed-total fuel name (lift (b.mkdir_all name perm) f) v enough

  climbed-IsFresh :
      (fuel k : ℕ) (name : Bytes) (m : Outcome × Fs S Info DirEntry) (g : Fs S Info DirEntry)
      → climbed b fuel name m ≡ some (ok tt, g)
      → valid_path name ≡ true
      → ups k name ≢ dot
      → IsFresh (ups k name) g.cache
  climbed-IsFresh fuel k name (err e, f) g h v below = cc
  climbed-IsFresh fuel k name (ok u, f) g h v below =
      elim (Option-cases (invalidate_up fuel name f)) [
        | inl out ↦ cc (h, normalize_path-valid name v)
        | inr (g', up) ↦
            let same : g' ≡ g = ground (arith, normalize_path-valid name v) in
            rw (← same) (invalidate_up-IsFresh fuel k name f g' up below v)
      ]

  -- After a MkdirAll of a valid path that succeeded, the reads of the path and of each directory
  -- above it, the root left out, give the answers of the file system under the cache.
  pub mkdir_all-SeesBacking :
      (fuel k : ℕ) (name : Bytes) (perm : ℕ) (f g : Fs S Info DirEntry)
      → mkdir_all b fuel name perm f ≡ some (ok tt, g)
      → valid_path name ≡ true
      → ups k name ≢ dot
      → SeesBacking b (ups k name) g
  unfolding mkdir_all
  mkdir_all-SeesBacking fuel k name perm f g h v below =
      IsFresh→SeesBacking b (ups k name) g
        (climbed-IsFresh fuel k name (lift (b.mkdir_all name perm) f) g h v below)
