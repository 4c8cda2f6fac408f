-- ===== src/Metacache.antt =====
-- fs/metacache/metacache.go: a file system that caches the metadata of another one. Here are the
-- cache, its expiry and its invalidation; the operations are in the modules below.
-- Times are numbers of nanoseconds, read from the clock by the caller (`now`); the zero time, which
-- `renewsAt` has in the entry of an error, is `none`. Logging and the lock are left out: each
-- function here runs under `cacheMu`, so it is one step.
pub mod Ops
pub mod Handle
pub mod Writes
pub mod Expiry
pub mod Fresh
pub mod Below
pub mod Coherence
pub mod Listing
pub mod Trees
pub mod Stale
pub mod Iterate
pub mod Tests
use wanix.Base.{
  ℕ, ◌+◌, ◌/◌, String, Bytes, Bool, true, false, not, ◌&&◌, ◌||◌, Option, none, some, List, [], ◌∷◌,
  ◌++◌, codes, if◌then◌else◌, ltb, ◌==◌, bytes_eq, eq_bytes, has_prefix, trim_prefix, is_empty, Map,
  lookup, put, delete, delete_if, map,
}
use wanix.Errors.{Error, Result}
use wanix.Paths.{dir, dot, slash}

-- A Go slice: `none` is nil.
abbrev pub Slice : Type 0 → Type 0
Slice A = Option (List A)

abbrev pub items : {A : Type 0} → Slice A → List A
items none = []
items (some xs) = xs

-- An operation of the file system under the cache, on the state of that file system.
abbrev pub Action : Type 0 → Type 0 → Type 0
Action S A = S → A × S

abbrev pub Outcome : Type 0
Outcome = Result (Unit {0})

-- What the cache calls of the file system that it wraps (`fs.DefaultFS` and the open files of it).
-- `H` is an open file, and the Boolean of `write` and `write_at` is the type assertion on it.
pub record Backing (S Info DirEntry H : Type 0) : Type 0 where
  pub stat : Bytes → Action S (Result Info)
  pub lstat : Bytes → Action S (Result Info)
  pub read_dir : Bytes → Action S (Result (Slice DirEntry))
  pub open_file : Bytes → ℕ → ℕ → Action S (Result H)
  pub open_read : Bytes → Action S (Result H)
  pub create : Bytes → Action S (Result H)
  pub mkdir : Bytes → ℕ → Action S Outcome
  pub mkdir_all : Bytes → ℕ → Action S Outcome
  pub remove : Bytes → Action S Outcome
  pub remove_all : Bytes → Action S Outcome
  pub rename : Bytes → Bytes → Action S Outcome
  pub truncate : Bytes → ℕ → Action S Outcome
  pub symlink : Bytes → Bytes → Action S Outcome
  pub chmod : Bytes → ℕ → Action S Outcome
  pub chown : Bytes → ℕ → ℕ → Action S Outcome
  pub chtimes : Bytes → ℕ → ℕ → Action S Outcome
  pub file_stat : H → Action S (Result Info)
  pub is_writer : H → Bool
  pub file_write : H → Bytes → Action S (ℕ × Option Error)
  pub is_writer_at : H → Bool
  pub file_write_at : H → Bytes → ℕ → Action S (ℕ × Option Error)
  pub file_close : H → Action S (Option Error)

pub record CacheEntry (Info DirEntry : Type 0) : Type 0 where
  pub info : Option Info
  pub entries : Slice DirEntry
  pub error : Option Error
  pub cached_at : ℕ
  pub renews_at : Option ℕ
  pub expires_at : ℕ

-- A refresh that runs beside the caller: `go f.refreshStat(ctx, name, key)`.
pub data Refresh : Type 0 where
  refresh_stat refresh_lstat refresh_read_dir : Bytes → Bytes → Refresh

-- `state` is the file system under the cache, `spawned` the refreshes started and not yet run.
pub record Fs (S Info DirEntry : Type 0) : Type 0 where
  pub cache : Map Bytes (CacheEntry Info DirEntry)
  pub ttl : ℕ
  pub state : S
  pub spawned : List Refresh

abbrev pub lstat_suffix : Bytes
lstat_suffix = codes ":lstat"

abbrev pub readdir_suffix : Bytes
readdir_suffix = codes ":readdir"

-- The nanoseconds of `30 * time.Second`.
abbrev pub default_ttl : ℕ
default_ttl = 30000000000

unfoldable pub normalize_path : Bytes → Bytes
unfolding trim_prefix
normalize_path p = let q = trim_prefix p (slash ∷ []) in if is_empty q then dot else q

-- What `getCached` finds: the entry, with whether a refresh is due.
pub data Lookup (Info DirEntry : Type 0) : Type 0 where
  miss : Lookup Info DirEntry
  hit : CacheEntry Info DirEntry → Bool → Lookup Info DirEntry

abbrev pub is_after : ℕ → Option ℕ → Bool
is_after now none = false
is_after now (some t) = ltb t now

-- The prefix of the keys that are deleted with a directory, empty for the root.
unfoldable pub children_prefix : Bytes → Bytes
unfolding eq_bytes
children_prefix p = if eq_bytes p dot || is_empty p then [] else p ++ (slash ∷ [])

abbrev pub entry_at :
    {Info DirEntry : Type 0}
    → ℕ
    → ℕ
    → Option Info
    → Slice DirEntry
    → Option Error
    → CacheEntry Info DirEntry
entry_at now ttl info entries none = record {
  info = info;
  entries = entries;
  error = none;
  cached_at = now;
  renews_at = some (now + ttl / 2);
  expires_at = now + ttl;
}
entry_at now ttl info entries (some e) = record {
  info = info;
  entries = entries;
  error = some e;
  cached_at = now;
  renews_at = none;
  expires_at = now + ttl / 2;
}

module _ {S Info DirEntry : Type 0} where
  unfoldable pub new_with_ttl : S → ℕ → Fs S Info DirEntry
  new_with_ttl s ttl = record { cache = []; ttl = ttl; state = s; spawned = [] }

  unfoldable pub new : S → Fs S Info DirEntry
  unfolding new_with_ttl
  new s = new_with_ttl s default_ttl

  unfoldable pub set_ttl : ℕ → Fs S Info DirEntry → Fs S Info DirEntry
  set_ttl ttl f = record f { ttl = ttl }

  unfoldable pub drop_key : Bytes → Fs S Info DirEntry → Fs S Info DirEntry
  drop_key key f = record f { cache = delete key f.cache }

  unfoldable pub invalidate : Bytes → Fs S Info DirEntry → Fs S Info DirEntry
  unfolding normalize_path drop_key
  invalidate path f =
      let p = normalize_path path in
      drop_key (p ++ readdir_suffix) (drop_key (p ++ lstat_suffix) (drop_key p f))

  unfoldable pub invalidate_dir : Bytes → Fs S Info DirEntry → Fs S Info DirEntry
  unfolding normalize_path drop_key children_prefix has_prefix
  invalidate_dir path f =
      let p = normalize_path path in
      let prefix = children_prefix p in
      let g = drop_key (p ++ readdir_suffix) (drop_key (p ++ lstat_suffix) (drop_key p f)) in
      record g { cache = delete_if (λ key. not (is_empty prefix) && has_prefix key prefix) g.cache }

  unfoldable pub invalidate_all : Fs S Info DirEntry → Fs S Info DirEntry
  invalidate_all f = record f { cache = [] }

  abbrev pub checked :
      ℕ
      → Bytes
      → Option (CacheEntry Info DirEntry)
      → Fs S Info DirEntry
      → Lookup Info DirEntry × Fs S Info DirEntry
  checked now key none f = (miss, f)
  checked now key (some entry) f =
      if ltb entry.expires_at now
      then (miss, record f { cache = delete key f.cache })
      else (hit entry (is_after now entry.renews_at), f)

  unfoldable pub get_cached :
      ℕ → Bytes → Fs S Info DirEntry → Lookup Info DirEntry × Fs S Info DirEntry
  get_cached now key f = checked now key (lookup key f.cache) f

  unfoldable pub set_cached :
      ℕ
      → Bytes
      → Option Info
      → Slice DirEntry
      → Option Error
      → Fs S Info DirEntry
      → Fs S Info DirEntry
  set_cached now key info entries error f = record f {
    cache = put key (entry_at now f.ttl info entries error) f.cache;
  }

  unfoldable pub invalidate_parent : Bytes → Fs S Info DirEntry → Fs S Info DirEntry
  unfolding normalize_path drop_key
  invalidate_parent path f = drop_key (dir (normalize_path path) ++ readdir_suffix) f

  abbrev pub extended :
      ℕ → Bytes → Option (CacheEntry Info DirEntry) → Fs S Info DirEntry → Fs S Info DirEntry
  extended now key none f = f
  extended now key (some entry) f = record f {
    cache =
        put key (record entry { renews_at = some (now + f.ttl / 2); expires_at = now + f.ttl })
          f.cache;
  }

  unfoldable pub extend_expiry : ℕ → Bytes → Fs S Info DirEntry → Fs S Info DirEntry
  extend_expiry now key f = extended now key (lookup key f.cache) f
