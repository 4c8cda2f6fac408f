-- ===== src/Metacache/Listing.antt =====
-- The listing of the directory around a changed path, and the paths under a removed directory.
use wanix.Base.{
  ℕ, Bytes, ◌≡◌, refl, true, false, ◌||◌, none, [], ◌∷◌, ◌++◌, arith, bytes_eq, eq_bytes,
  eq_bytes_iff, has_prefix, lookup, Bool-cases, inl, inr,
}
use wanix.Errors.{ok, err}
use wanix.Paths.{dir, valid_path, slash}
use wanix.Paths.Clean.{all_elems-not_rooted, all_elems-ne_nil}
use wanix.Paths.Dir.{dir-valid_path, valid_path-cases}
use wanix.Metacache.{
  Outcome, Backing, Fs, normalize_path, readdir_suffix, get_cached, invalidate_parent,
}
use wanix.Metacache.Ops.{lift, read_dir_context, fetch_and_cache_read_dir}
use wanix.Metacache.Writes.{on_success, mkdir, remove, remove_all, rename, symlink}
use wanix.Metacache.Fresh.{delete-keeps_none, delete_self}
use wanix.Metacache.Coherence.{
  Change, making_dir, removing, removing_all, renaming, symlinking, relinks, perform,
  store_entries-answer,
}

-- A valid path is its own key.
pub normalize_path-valid : (p : Bytes) → valid_path p ≡ true → normalize_path p ≡ p
normalize_path-valid p h = elim (valid_path-cases p h) [
  | inl e ↦ rw e (unfold normalize_path in refl)
  | inr e ↦ plain p (all_elems-not_rooted p e) (all_elems-ne_nil p e)
]
  where
    plain : (p : Bytes) → has_prefix p (slash ∷ []) ≡ false → ¬ (p ≡ []) → normalize_path p ≡ p
    plain [] h k = absurd (k refl)
    plain (c ∷ p) h k = unfold normalize_path in rw h

module _ {S Info DirEntry : Type 0} where
  NoListing : Bytes → Fs S Info DirEntry → Type 0
  NoListing name g = lookup (normalize_path (dir name) ++ readdir_suffix) g.cache ≡ none

  invalidate_parent-NoListing :
      (name : Bytes) (g : Fs S Info DirEntry)
      → valid_path name ≡ true
      → NoListing name (invalidate_parent name g)
  unfolding NoListing invalidate_parent
  invalidate_parent-NoListing name g v =
      rw (normalize_path-valid (dir name) (dir-valid_path name v), normalize_path-valid name v)
        (delete_self (dir name ++ readdir_suffix) g.cache)

  invalidate_parent-keeps_NoListing :
      (other name : Bytes) (g : Fs S Info DirEntry)
      → NoListing name g
      → NoListing name (invalidate_parent other g)
  unfolding NoListing invalidate_parent
  invalidate_parent-keeps_NoListing other name g h = delete-keeps_none _ _ g.cache h

  parent-NoListing :
      (p name : Bytes)
      → eq_bytes p name ≡ true
      → valid_path name ≡ true
      → (g : Fs S Info DirEntry) → NoListing name (invalidate_parent p g)
  parent-NoListing p name t v g =
      rw ((eq_bytes_iff p name).0 t) (invalidate_parent-NoListing name g v)

  ends-NoListing :
      (old new name : Bytes)
      → (eq_bytes old name || eq_bytes new name) ≡ true
      → valid_path name ≡ true
      → (g : Fs S Info DirEntry) → NoListing name (invalidate_parent new (invalidate_parent old g))
  ends-NoListing old new name t v g = elim (Bool-cases (eq_bytes new name)) [
    | inl e ↦ parent-NoListing new name e v _
    | inr e ↦
        invalidate_parent-keeps_NoListing new name _ (parent-NoListing old name (ground arith) v g)
  ]

module _ {S Info DirEntry H : Type 0} (b : Backing S Info DirEntry H) where
  ListsFromBacking : Bytes → Fs S Info DirEntry → Type 0
  ListsFromBacking name f =
      (now later : ℕ)
      → (read_dir_context b now later (dir name) f).0 ≡ (b.read_dir (dir name) f.state).0

  NoListing→ListsFromBacking :
      (name : Bytes) (f : Fs S Info DirEntry) → NoListing name f → ListsFromBacking name f
  unfolding ListsFromBacking NoListing read_dir_context get_cached fetch_and_cache_read_dir
  NoListing→ListsFromBacking name f h now later =
      rw h (store_entries-answer b later (dir name) _ (b.read_dir (dir name) f.state).0 _)

  success-lists :
      (act : Fs S Info DirEntry → Fs S Info DirEntry) (m : Outcome × Fs S Info DirEntry)
      (name : Bytes)
      → ((g : Fs S Info DirEntry) → NoListing name (act g))
      → (on_success act m).0 ≡ ok tt
      → ListsFromBacking name (on_success act m).1
  success-lists act (ok u, f) name gone h = NoListing→ListsFromBacking name (act f) (gone f)
  success-lists act (err e, f) name gone h = cc

  -- After a Mkdir, Remove, RemoveAll, Rename or Symlink that succeeded and that adds a valid path
  -- to its directory or takes it from there, ReadDir of that directory gives the listing of the
  -- file system under the cache.
  pub perform-lists :
      (c : Change) (f : Fs S Info DirEntry) (name : Bytes) (now later : ℕ)
      → (perform b c f).0 ≡ ok tt
      → relinks c name ≡ true
      → valid_path name ≡ true
      → (read_dir_context b now later (dir name) (perform b c f).1).0
        ≡ (b.read_dir (dir name) (perform b c f).1.state).0
  unfolding ListsFromBacking mkdir remove remove_all rename symlink
  perform-lists (making_dir p perm) f name now later h t v =
      success-lists _ (lift (b.mkdir p perm) f) name (parent-NoListing p name t v) h now later
  perform-lists (removing p) f name now later h t v =
      success-lists _ (lift (b.remove p) f) name (λ g. parent-NoListing p name t v _) h now later
  perform-lists (removing_all p) f name now later h t v =
      success-lists _ (lift (b.remove_all p) f) name (λ g. parent-NoListing p name t v _) h now
        later
  perform-lists (renaming old new) f name now later h t v =
      success-lists _ (lift (b.rename old new) f) name (λ g. ends-NoListing old new name t v _) h
        now later
  perform-lists (symlinking old new) f name now later h t v =
      success-lists _ (lift (b.symlink old new) f) name (λ g. parent-NoListing new name t v _) h now
        later
  perform-lists _ f name now later h t v = cc
