-- ===== src/Metacache/Stale.antt =====
-- Where fs/metacache/metacache.go keeps answers that its comments say it drops, or never stores.
use wanix.Base.{
  ℕ, ◌+◌, ◌/◌, ◌≤◌, Bytes, ◌≡◌, Bool, true, false, ◌||◌, none, some, ◌++◌, arith, le→ltb, ◌==◌,
  bytes_eq, eq_bytes, eq_refl, lookup, lookup-put, lookup-delete, lookup-delete_if,
}
use wanix.Errors.{Error, ok, err, bare, not_exist, is_not_exist}
use wanix.Paths.{dir, dot, valid_path}
use wanix.Metacache.{
  Backing, CacheEntry, Fs, normalize_path, lstat_suffix, readdir_suffix, get_cached, set_cached,
  invalidate, invalidate_dir, invalidate_parent,
}
use wanix.Metacache.Ops.{
  lift, stat_context, lstat_context, fetch_and_cache_stat, fetch_and_cache_lstat, answer,
}
use wanix.Metacache.Writes.{mkdir, rename}
use wanix.Metacache.Expiry.{passed_on}
use wanix.Metacache.Coherence.{store_info-answer}
use wanix.Metacache.Fresh.{on_success-ok}
use wanix.Metacache.Listing.{normalize_path-valid}

-- The keys that a rename deletes.
abbrev pub rename_deletes : Bytes → Bytes → Bytes → Bool
rename_deletes old new key =
    let p = normalize_path old in
    let q = normalize_path new in
    p == key
    || (p ++ lstat_suffix) == key
    || (p ++ readdir_suffix) == key
    || q == key
    || (q ++ lstat_suffix) == key
    || (q ++ readdir_suffix) == key
    || (dir p ++ readdir_suffix) == key
    || (dir q ++ readdir_suffix) == key

module _ {S Info DirEntry H : Type 0} (b : Backing S Info DirEntry H) where
  -- A `Stat` is answered from an entry of its key that has not expired.
  stat-hit :
      (now later : ℕ) (name : Bytes) (entry : CacheEntry Info DirEntry) (f : Fs S Info DirEntry)
      → lookup (normalize_path name) f.cache ≡ some entry
      → now ≤ entry.expires_at
      → (stat_context b now later name f).0 ≡ answer b entry.error entry.info
  unfolding stat_context get_cached
  stat-hit now later name entry f found alive = rw (found, le→ltb entry.expires_at now alive)

  -- A cached error of a path is still given by Stat after a Mkdir of the path that succeeded,
  -- until the error expires; for a path that is not the key of the listing of its parent.
  pub stat-mkdir_stale :
      (now later : ℕ) (name : Bytes) (perm : ℕ) (entry : CacheEntry Info DirEntry) (e : Error)
      (f : Fs S Info DirEntry)
      → lookup (normalize_path name) f.cache ≡ some entry
      → entry.error ≡ some e
      → now ≤ entry.expires_at
      → eq_bytes (dir (normalize_path name) ++ readdir_suffix) (normalize_path name) ≡ false
      → (mkdir b name perm f).0 ≡ ok tt
      → (stat_context b now later name (mkdir b name perm f).1).0 ≡ err e
  unfolding mkdir invalidate_parent
  stat-mkdir_stale now later name perm entry e f found failed alive apart done =
      rw (on_success-ok (invalidate_parent name) (lift (b.mkdir name perm) f) tt done) (
        rw
          (stat-hit now later name entry (invalidate_parent name (lift (b.mkdir name perm) f).1)
            (rw (lookup-delete, apart) found) alive)
          (rw failed))

  -- After a Rename that succeeded, a path whose key is not one of those that the rename deletes
  -- still gives its cached answer until it expires.
  pub stat-rename_stale :
      (now later : ℕ) (old new child : Bytes) (entry : CacheEntry Info DirEntry)
      (f : Fs S Info DirEntry)
      → lookup (normalize_path child) f.cache ≡ some entry
      → now ≤ entry.expires_at
      → rename_deletes old new (normalize_path child) ≡ false
      → (rename b old new f).0 ≡ ok tt
      → (stat_context b now later child (rename b old new f).1).0 ≡ answer b entry.error entry.info
  unfolding rename invalidate invalidate_parent
  stat-rename_stale now later old new child entry f found alive apart done =
      rw (on_success-ok _ (lift (b.rename old new) f) tt done)
        (stat-hit now later child entry _ (simp lookup-delete (ground arith)) alive)

  -- After Lstat has fetched the information of a valid name, a Stat of that name with ":lstat"
  -- behind it, if that is valid too, gives the information of the name until it expires, whatever
  -- the file system holds there.
  pub stat-collides :
      (t now later : ℕ) (name : Bytes) (info : Info) (f : Fs S Info DirEntry) (s : S)
      → valid_path name ≡ true
      → valid_path (name ++ lstat_suffix) ≡ true
      → (b.lstat name f.state).0 ≡ ok info
      → now ≤ t + f.ttl
      → (stat_context b now later
          (name ++ lstat_suffix)
          (record (fetch_and_cache_lstat b t name (normalize_path name ++ lstat_suffix) f).1 {
            state = s;
          })).0
        ≡ ok (some info)
  unfolding fetch_and_cache_lstat stat_context get_cached set_cached
  stat-collides t now later name info f s v v' got alive =
      simp
        (
          got,
          normalize_path-valid name v,
          normalize_path-valid (name ++ lstat_suffix) v',
          lookup-put,
          eq_refl,
        )
        (ground (arith, le→ltb (t + f.ttl) now alive))

  -- Where Stat and Lstat of the root fail because it is missing, and no answer of Stat for it is
  -- cached: Lstat caches the failure and gives it for half the time to live, and Stat does not
  -- cache it, but asks the file system again.
  pub root_missing :
      (t now later : ℕ) (e : Error) (f : Fs S Info DirEntry) (s : S)
      → lookup dot f.cache ≡ none
      → (b.lstat dot f.state).0 ≡ err e
      → (b.stat dot f.state).0 ≡ err e
      → is_not_exist e ≡ true
      → now ≤ t + f.ttl / 2
      → ((lstat_context b now later dot
            (record (fetch_and_cache_lstat b t dot (dot ++ lstat_suffix) f).1 { state = s })).0
          ≡ err (bare not_exist))
        × ((stat_context b now later dot
              (record (fetch_and_cache_stat b t dot dot f).1 { state = s })).0
            ≡ passed_on (b.stat dot s).0)
  unfolding fetch_and_cache_lstat fetch_and_cache_stat lstat_context stat_context get_cached
      set_cached normalize_path eq_bytes
  root_missing t now later e f s empty l st missing alive = (
    simp (l, missing, lookup-put) (ground (arith, le→ltb (t + f.ttl / 2) now alive)),
    simp (st, missing, empty) (store_info-answer b later dot (b.stat dot s).0 _),
  )

module _ {S Info DirEntry : Type 0} where
  -- InvalidateDir of the root keeps every key but the three of the root itself.
  pub invalidate_dir-root :
      (key : Bytes) (f : Fs S Info DirEntry)
      → eq_bytes dot key ≡ false
      → eq_bytes (dot ++ lstat_suffix) key ≡ false
      → eq_bytes (dot ++ readdir_suffix) key ≡ false
      → lookup key (invalidate_dir dot f).cache ≡ lookup key f.cache
  unfolding invalidate_dir normalize_path eq_bytes
  invalidate_dir-root key f h l r = simp (lookup-delete_if, lookup-delete) (ground arith)
