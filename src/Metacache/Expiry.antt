-- ===== src/Metacache/Expiry.antt =====
-- How long an answer of the cache lives: fetchAndCacheStat and fetchAndCacheReadDir against the
-- reads that follow them, and what a refresh may store.
use wanix.Base.{
  ℕ, ◌+◌, Bytes, ◌≡◌, ◌⊎◌, inl, inr, refl, Option, none, some, arith, if◌then◌else◌, ltb, bytes_eq,
  eq_bytes_iff, eq_refl, lookup, lookup-put, Option-cases,
}
use wanix.Errors.{Error, Result, ok, err}
use wanix.Metacache.{
  Slice, Backing, CacheEntry, Refresh, refresh_stat, refresh_lstat, refresh_read_dir, Fs,
  normalize_path, get_cached, set_cached, extend_expiry,
}
use wanix.Metacache.Ops.{fetch_and_cache_stat, stat_context, run_refresh, renew_info, renew_entries}

-- An answer of the wrapped file system as the cache passes it on.
abbrev pub passed_on : {Info : Type 0} → Result Info → Result (Option Info)
passed_on (ok info) = ok (some info)
passed_on (err e) = err e

-- The error that a key has in the cache.
abbrev pub cached_error :
    {Info DirEntry : Type 0} → Option (CacheEntry Info DirEntry) → Option Error
cached_error none = none
cached_error (some entry) = entry.error

module _ {S Info DirEntry H : Type 0} (b : Backing S Info DirEntry H) where
  -- After Stat has fetched an answer at time t, a Stat of that name gives the answer up to t +
  -- ttl, whatever the file system under the cache has become, and asks it anew after that.
  pub stat-fetched :
      (t now later : ℕ) (name : Bytes) (f : Fs S Info DirEntry) (info : Info) (s : S)
      → (b.stat name f.state).0 ≡ ok info
      → (stat_context b now later name
          (record (fetch_and_cache_stat b t name (normalize_path name) f).1 { state = s })).0
        ≡ (if ltb (t + f.ttl) now then passed_on (b.stat name s).0 else ok (some info))
  unfolding fetch_and_cache_stat stat_context get_cached set_cached
  stat-fetched t now later name f info s h = simp (h, lookup-put, eq_refl) (ground arith)

  abbrev NoNewError : Fs S Info DirEntry → Fs S Info DirEntry → Bytes → Type 0
  NoNewError f g key =
      (cached_error (lookup key g.cache) ≡ none)
      ⊎ (cached_error (lookup key g.cache) ≡ cached_error (lookup key f.cache))

  set_cached-NoNewError :
      (later : ℕ) (at key : Bytes) (info : Option Info) (entries : Slice DirEntry)
      (f : Fs S Info DirEntry)
      → NoNewError f (set_cached later at info entries none f) key
  unfolding set_cached
  set_cached-NoNewError later at key info entries f = simp lookup-put (ground arith)

  extend_expiry-NoNewError :
      (later : ℕ) (at key : Bytes) (f : Fs S Info DirEntry)
      → NoNewError f (extend_expiry later at f) key
  unfolding extend_expiry
  extend_expiry-NoNewError later at key f = elim (Option-cases (lookup at f.cache)) [
    | inl missing ↦ rw missing (inr refl)
    | inr (old, found) ↦ rw found (simp lookup-put (ground (arith, eq_bytes_iff at key)))
  ]

  renew_info-NoNewError :
      (later : ℕ) (at key : Bytes) (r : Result Info) (f : Fs S Info DirEntry)
      → NoNewError f (renew_info b later at r f) key
  renew_info-NoNewError later at key (ok info) f =
      set_cached-NoNewError later at key (some info) none f
  renew_info-NoNewError later at key (err e) f = extend_expiry-NoNewError later at key f

  renew_entries-NoNewError :
      (later : ℕ) (at key : Bytes) (r : Result (Slice DirEntry)) (f : Fs S Info DirEntry)
      → NoNewError f (renew_entries b later at r f) key
  renew_entries-NoNewError later at key (ok entries) f =
      set_cached-NoNewError later at key none entries f
  renew_entries-NoNewError later at key (err e) f = extend_expiry-NoNewError later at key f

  -- A background refresh stores no new error: at every key the cached error is none, or the one
  -- from before.
  pub run_refresh-NoNewError :
      (later : ℕ) (r : Refresh) (f : Fs S Info DirEntry) (key : Bytes)
      → (cached_error (lookup key (run_refresh b later r f).cache) ≡ none)
        ⊎ (cached_error (lookup key (run_refresh b later r f).cache)
            ≡ cached_error (lookup key f.cache))
  unfolding run_refresh
  run_refresh-NoNewError later (refresh_stat name at) f key =
      let (r, s) = b.stat name f.state in
      renew_info-NoNewError later at key r (record f { state = s })
  run_refresh-NoNewError later (refresh_lstat name at) f key =
      let (r, s) = b.lstat name f.state in
      renew_info-NoNewError later at key r (record f { state = s })
  run_refresh-NoNewError later (refresh_read_dir name at) f key =
      let (r, s) = b.read_dir name f.state in
      renew_entries-NoNewError later at key r (record f { state = s })
