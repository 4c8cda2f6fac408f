-- ===== src/Metacache/Ops.antt =====
-- The cached reads of fs/metacache/metacache.go (Stat, Lstat, ReadDir) and their refreshes.
-- A read takes two readings of the clock: `now` in `getCached`, and `later`, once the file system
-- has answered, in `setCached`.
use wanix.Base.{
  ℕ, Bytes, Bool, true, false, not, ◌&&◌, Option, none, some, [], ◌∷◌, ◌++◌, if◌then◌else◌,
  eq_bytes,
}
use wanix.Errors.{Error, Result, ok, err, bare, not_exist, is_not_exist}
use wanix.Paths.{dot}
use wanix.Metacache.{
  Slice, Action, Backing, Refresh, refresh_stat, refresh_lstat, refresh_read_dir, Fs, Lookup, miss,
  hit, normalize_path, lstat_suffix, readdir_suffix, get_cached, set_cached, extend_expiry,
}

module _ {S Info DirEntry : Type 0} where
  -- An action of the wrapped file system, run in the state of the cache.
  unfoldable pub lift : {A : Type 0} → Action S A → Action (Fs S Info DirEntry) A
  lift m f = let (r, s) = m f.state in (r, record f { state = s })

module _ {S Info DirEntry H : Type 0} (b : Backing S Info DirEntry H) where
  abbrev pub cache_negative : ℕ → Bytes → Error → Bool → Fs S Info DirEntry → Fs S Info DirEntry
  cache_negative later key e is_root f =
      if is_not_exist e && not is_root
      then set_cached later key none none (some (bare not_exist)) f
      else f

  abbrev pub store_info :
      ℕ → Bytes → Result Info → Fs S Info DirEntry → Result (Option Info) × Fs S Info DirEntry
  store_info later key (err e) f = (err e, cache_negative later key e (eq_bytes key dot) f)
  store_info later key (ok info) f = (ok (some info), set_cached later key (some info) none none f)

  unfoldable pub fetch_and_cache_stat :
      ℕ → Bytes → Bytes → Action (Fs S Info DirEntry) (Result (Option Info))
  unfolding lift
  fetch_and_cache_stat later name key f =
      let (r, g) = lift (b.stat name) f in store_info later key r g

  unfoldable pub fetch_and_cache_lstat :
      ℕ → Bytes → Bytes → Action (Fs S Info DirEntry) (Result (Option Info))
  unfolding lift
  fetch_and_cache_lstat later name key f =
      let (r, g) = lift (b.lstat name) f in store_info later key r g

  abbrev pub store_entries :
      ℕ
      → Bytes
      → Bytes
      → Result (Slice DirEntry)
      → Fs S Info DirEntry
      → Result (Slice DirEntry) × Fs S Info DirEntry
  store_entries later name key (err e) f =
      (err e, cache_negative later key e (eq_bytes (normalize_path name) dot) f)
  store_entries later name key (ok entries) f =
      (ok entries, set_cached later key none entries none f)

  unfoldable pub fetch_and_cache_read_dir :
      ℕ → Bytes → Bytes → Action (Fs S Info DirEntry) (Result (Slice DirEntry))
  unfolding lift
  fetch_and_cache_read_dir later name key f =
      let (r, g) = lift (b.read_dir name) f in store_entries later name key r g

  -- The refresh that is started when one is due.
  abbrev pub spawn : Bool → Refresh → Fs S Info DirEntry → Fs S Info DirEntry
  spawn true r f = record f { spawned = f.spawned ++ r ∷ [] }
  spawn false r f = f

  abbrev pub answer : {A : Type 0} → Option Error → A → Result A
  answer none a = ok a
  answer (some e) a = err e

  abbrev pub stat_found :
      ℕ
      → Bytes
      → Bytes
      → Lookup Info DirEntry
      → Fs S Info DirEntry
      → Result (Option Info) × Fs S Info DirEntry
  stat_found later name key miss f = fetch_and_cache_stat later name key f
  stat_found later name key (hit entry due) f =
      (answer entry.error entry.info, spawn due (refresh_stat name key) f)

  unfoldable pub stat_context : ℕ → ℕ → Bytes → Action (Fs S Info DirEntry) (Result (Option Info))
  stat_context now later name f =
      let key = normalize_path name in
      let (found, g) = get_cached now key f in stat_found later name key found g

  abbrev pub lstat_found :
      ℕ
      → Bytes
      → Bytes
      → Lookup Info DirEntry
      → Fs S Info DirEntry
      → Result (Option Info) × Fs S Info DirEntry
  lstat_found later name key miss f = fetch_and_cache_lstat later name key f
  lstat_found later name key (hit entry due) f =
      (answer entry.error entry.info, spawn due (refresh_lstat name key) f)

  unfoldable pub lstat_context : ℕ → ℕ → Bytes → Action (Fs S Info DirEntry) (Result (Option Info))
  lstat_context now later name f =
      let key = normalize_path name ++ lstat_suffix in
      let (found, g) = get_cached now key f in lstat_found later name key found g

  abbrev pub read_dir_found :
      ℕ
      → Bytes
      → Bytes
      → Lookup Info DirEntry
      → Fs S Info DirEntry
      → Result (Slice DirEntry) × Fs S Info DirEntry
  read_dir_found later name key miss f = fetch_and_cache_read_dir later name key f
  read_dir_found later name key (hit entry due) f =
      (answer entry.error entry.entries, spawn due (refresh_read_dir name key) f)

  unfoldable pub read_dir_context :
      ℕ → ℕ → Bytes → Action (Fs S Info DirEntry) (Result (Slice DirEntry))
  read_dir_context now later name f =
      let key = normalize_path name ++ readdir_suffix in
      let (found, g) = get_cached now key f in read_dir_found later name key found g

  abbrev pub renew_info : ℕ → Bytes → Result Info → Fs S Info DirEntry → Fs S Info DirEntry
  renew_info later key (err e) f = extend_expiry later key f
  renew_info later key (ok info) f = set_cached later key (some info) none none f

  abbrev pub renew_entries :
      ℕ → Bytes → Result (Slice DirEntry) → Fs S Info DirEntry → Fs S Info DirEntry
  renew_entries later key (err e) f = extend_expiry later key f
  renew_entries later key (ok entries) f = set_cached later key none entries none f

  -- A spawned refresh, when it runs.
  unfoldable pub run_refresh : ℕ → Refresh → Fs S Info DirEntry → Fs S Info DirEntry
  unfolding lift
  run_refresh later (refresh_stat name key) f =
      let (r, g) = lift (b.stat name) f in renew_info later key r g
  run_refresh later (refresh_lstat name key) f =
      let (r, g) = lift (b.lstat name) f in renew_info later key r g
  run_refresh later (refresh_read_dir name key) f =
      let (r, g) = lift (b.read_dir name) f in renew_entries later key r g
