-- ===== src/Metacache/Fresh.antt =====
-- Lemmas on the keys that the invalidations of fs/metacache/metacache.go delete.
use wanix.Base.{
  Bytes, ◌≡◌, refl, Bool, true, ◌||◌, none, ◌++◌, arith, bytes_eq, eq_bytes, eq_bytes_iff, eq_refl,
  lookup, Map, delete, delete_if, lookup-delete, lookup-delete_if, Bool-cases, inl, inr,
}
use wanix.Errors.{Result, ok, err}
use wanix.Metacache.{
  CacheEntry, Fs, normalize_path, lstat_suffix, readdir_suffix, invalidate, invalidate_dir,
  invalidate_parent,
}
use wanix.Metacache.Writes.{on_success, invalidate_both}

abbrev pub Cache : Type 0 → Type 0 → Type 0
Cache Info DirEntry = Map Bytes (CacheEntry Info DirEntry)

-- No answer about a path is in the cache.
pub record IsFresh {Info DirEntry : Type 0} (name : Bytes) (m : Cache Info DirEntry) : Type 0 where
  pub at_stat : lookup (normalize_path name) m ≡ none
  pub at_lstat : lookup (normalize_path name ++ lstat_suffix) m ≡ none
  pub at_read_dir : lookup (normalize_path name ++ readdir_suffix) m ≡ none

module _ {Info DirEntry : Type 0} where
  pub delete-keeps_none :
      (j k : Bytes) (m : Cache Info DirEntry) → lookup k m ≡ none → lookup k (delete j m) ≡ none
  delete-keeps_none j k m h = rw lookup-delete (ground arith)

  pub delete_self : (k : Bytes) (m : Cache Info DirEntry) → lookup k (delete k m) ≡ none
  delete_self k m = simp (lookup-delete, eq_refl)

  delete-IsFresh :
      (j name : Bytes) (m : Cache Info DirEntry) → IsFresh name m → IsFresh name (delete j m)
  delete-IsFresh j name m h = record {
    at_stat = delete-keeps_none j _ m h.at_stat;
    at_lstat = delete-keeps_none j _ m h.at_lstat;
    at_read_dir = delete-keeps_none j _ m h.at_read_dir;
  }

  delete_if-IsFresh :
      (p : Bytes → Bool) (name : Bytes) (m : Cache Info DirEntry)
      → IsFresh name m
      → IsFresh name (delete_if p m)
  delete_if-IsFresh p name m h = record {
    at_stat = rw lookup-delete_if (ground (arith, h.at_stat));
    at_lstat = rw lookup-delete_if (ground (arith, h.at_lstat));
    at_read_dir = rw lookup-delete_if (ground (arith, h.at_read_dir));
  }

  delete_three-IsFresh :
      (name : Bytes) (m : Cache Info DirEntry)
      → IsFresh name (
          delete
            (normalize_path name ++ readdir_suffix)
            (delete (normalize_path name ++ lstat_suffix) (delete (normalize_path name) m)))
  delete_three-IsFresh name m = record {
    at_stat =
        delete-keeps_none _ (normalize_path name) _
          (delete-keeps_none _ (normalize_path name) _ (delete_self (normalize_path name) m));
    at_lstat =
        delete-keeps_none _ (normalize_path name ++ lstat_suffix) _
          (delete_self (normalize_path name ++ lstat_suffix) _);
    at_read_dir = delete_self (normalize_path name ++ readdir_suffix) _;
  }

module _ {S Info DirEntry : Type 0} where
  invalidate-IsFresh :
      (name : Bytes) (f : Fs S Info DirEntry) → IsFresh name (invalidate name f).cache
  unfolding invalidate
  invalidate-IsFresh name f = delete_three-IsFresh name f.cache

  pub invalidate-keeps_IsFresh :
      (other name : Bytes) (f : Fs S Info DirEntry)
      → IsFresh name f.cache
      → IsFresh name (invalidate other f).cache
  unfolding invalidate
  invalidate-keeps_IsFresh other name f h =
      delete-IsFresh _ name _ (delete-IsFresh _ name _ (delete-IsFresh _ name f.cache h))

  pub invalidate_parent-IsFresh :
      (other name : Bytes) (f : Fs S Info DirEntry)
      → IsFresh name f.cache
      → IsFresh name (invalidate_parent other f).cache
  unfolding invalidate_parent
  invalidate_parent-IsFresh other name f h = delete-IsFresh _ name f.cache h

  invalidate_dir-IsFresh :
      (name : Bytes) (f : Fs S Info DirEntry) → IsFresh name (invalidate_dir name f).cache
  unfolding invalidate_dir
  invalidate_dir-IsFresh name f = delete_if-IsFresh _ name _ (delete_three-IsFresh name f.cache)

  -- Invalidation leaves the file system under the cache alone.
  state-invalidate :
      (name : Bytes) (f : Fs S Info DirEntry)
      → ((invalidate name f).state ≡ f.state)
        × ((invalidate_dir name f).state ≡ f.state)
        × ((invalidate_parent name f).state ≡ f.state)
  unfolding invalidate invalidate_dir invalidate_parent
  state-invalidate name f = (refl, refl, refl)

  pub path-IsFresh :
      (p name : Bytes)
      → eq_bytes p name ≡ true
      → (g : Fs S Info DirEntry) → IsFresh name (invalidate p g).cache
  path-IsFresh p name t g = rw ((eq_bytes_iff p name).0 t) (invalidate-IsFresh name g)

  pub dir-IsFresh :
      (p name : Bytes)
      → eq_bytes p name ≡ true
      → (g : Fs S Info DirEntry) → IsFresh name (invalidate_dir p g).cache
  dir-IsFresh p name t g = rw ((eq_bytes_iff p name).0 t) (invalidate_dir-IsFresh name g)

  pub both-IsFresh :
      (p name : Bytes)
      → eq_bytes p name ≡ true
      → (g : Fs S Info DirEntry) → IsFresh name (invalidate_both p g).cache
  both-IsFresh p name t g = invalidate_parent-IsFresh p name _ (path-IsFresh p name t g)

  pub ends-IsFresh :
      (old new name : Bytes)
      → (eq_bytes old name || eq_bytes new name) ≡ true
      → (g : Fs S Info DirEntry)
      → IsFresh name
          (invalidate_parent new (invalidate_parent old (invalidate new (invalidate old g)))).cache
  ends-IsFresh old new name t g = invalidate_parent-IsFresh new name _ (
      invalidate_parent-IsFresh old name _ (elim (Bool-cases (eq_bytes old name)) [
        | inl e ↦ invalidate-keeps_IsFresh new name _ (path-IsFresh old name e g)
        | inr e ↦ path-IsFresh new name (ground arith) (invalidate old g)
      ]))

  pub on_success-ok :
      {A : Type 0} (act : Fs S Info DirEntry → Fs S Info DirEntry)
      (m : Result A × Fs S Info DirEntry) (a : A)
      → (on_success act m).0 ≡ ok a
      → (on_success act m).1 ≡ act m.1
  on_success-ok act (ok a, f) a' h = refl
  on_success-ok act (err e, f) a' h = cc
