-- ===== src/Metacache/Below.antt =====
-- The keys below a directory, which InvalidateDir of fs/metacache/metacache.go deletes.
use wanix.Base.{
  Bytes, ◌≡◌, ◌≢◌, refl, Bool, true, false, not, ◌==◌, ◌&&◌, ◌||◌, none, [], ◌∷◌, ◌++◌, arith,
  bytes_eq, eq_bytes_iff, has_prefix, has_prefix-append_right, lookup, lookup-delete_if, is_empty,
  Bool-cases, inl, inr,
}
use wanix.Paths.{dot, slash}
use wanix.Metacache.{
  Fs, normalize_path, lstat_suffix, readdir_suffix, invalidate_dir, children_prefix,
}
use wanix.Metacache.Fresh.{IsFresh, dir-IsFresh}

is_empty-normalize_path : (p : Bytes) → is_empty (normalize_path p) ≡ false
unfolding normalize_path
is_empty-normalize_path p = ground arith

children_prefix-below :
    (p : Bytes) → p ≢ dot → is_empty p ≡ false → children_prefix p ≡ p ++ (slash ∷ [])
unfolding children_prefix
children_prefix-below p h e = ground (arith, eq_bytes_iff p dot)

is_empty-append_slash : (p : Bytes) → is_empty (p ++ (slash ∷ [])) ≡ false
is_empty-append_slash [] = refl
is_empty-append_slash (c ∷ p) = refl

module _ {S Info DirEntry : Type 0} where
  -- A key below the directory is deleted with it.
  invalidate_dir-below :
      (p key : Bytes) (g : Fs S Info DirEntry)
      → normalize_path p ≢ dot
      → has_prefix key (normalize_path p ++ (slash ∷ [])) ≡ true
      → lookup key (invalidate_dir p g).cache ≡ none
  unfolding invalidate_dir
  invalidate_dir-below p key g h below = rw lookup-delete_if (
      rw
        (
          children_prefix-below (normalize_path p) h (is_empty-normalize_path p),
          is_empty-append_slash (normalize_path p),
          below,
        )
        refl)

  invalidate_dir-IsFresh_below :
      (p name : Bytes) (g : Fs S Info DirEntry)
      → normalize_path p ≢ dot
      → has_prefix (normalize_path name) (normalize_path p ++ (slash ∷ [])) ≡ true
      → IsFresh name (invalidate_dir p g).cache
  invalidate_dir-IsFresh_below p name g h below = record {
    at_stat = invalidate_dir-below p (normalize_path name) g h below;
    at_lstat =
        invalidate_dir-below p (normalize_path name ++ lstat_suffix) g h
          (has_prefix-append_right (normalize_path name) lstat_suffix _ below);
    at_read_dir =
        invalidate_dir-below p (normalize_path name ++ readdir_suffix) g h
          (has_prefix-append_right (normalize_path name) readdir_suffix _ below);
  }

-- Whether a path is the one that is removed with RemoveAll or below it, the root left out.
abbrev pub is_within : Bytes → Bytes → Bool
is_within name p =
    name == p
    || (not (normalize_path name == dot)
        && has_prefix (normalize_path p) (normalize_path name ++ slash ∷ []))

module _ {S Info DirEntry : Type 0} where
  pub within-IsFresh :
      (name p : Bytes)
      → is_within name p ≡ true
      → (g : Fs S Info DirEntry) → IsFresh p (invalidate_dir name g).cache
  within-IsFresh name p within g = elim (Bool-cases (name == p)) [
    | inl same ↦ dir-IsFresh name p same g
    | inr other ↦
        invalidate_dir-IsFresh_below name p g
          (λ root. ground (arith, within, other, root, eq_bytes_iff (normalize_path name) dot))
          (ground (arith, within, other))
  ]
