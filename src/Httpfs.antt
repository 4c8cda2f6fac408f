-- ===== src/Httpfs.antt =====
-- fs/httpfs: the file system of an HTTP server, and `Cacher`, which caches the nodes that it got.
-- Here are the nodes and the cache, with its expiry and its invalidation. What is fetched from the
-- server is in Fetch, the methods that read in Reads, those that change the server in Writes, and
-- the methods of an open file in Handle.
-- Times are numbers of nanoseconds, read from the clock by the caller; the zero time of `renewsAt` is
-- `none`. Logging and the lock are left out: what runs under the lock is one step.
pub mod Fetch
pub mod Reads
pub mod Writes
pub mod Handle
pub mod Writing
pub mod Forgetting
pub mod Complete
pub mod Crashes
pub mod Fresh
pub mod Tests
use wanix.Base.{
  ℕ, zero, suc, ◌+◌, ◌/◌, Bytes, codes, Bool, true, false, not, ◌&&◌, ◌||◌, Option, none, some,
  List, [], ◌∷◌, ◌++◌, if◌then◌else◌, ltb, bytes_eq, eq_bytes, ◌==◌, has_prefix, trim_prefix,
  is_empty, Map, lookup, put, delete, delete_if,
}
use wanix.Errors.{Error}
use wanix.Paths.{slash, dot, join, base}

-- The name of an entry of a directory, and whether its mode is that of a directory.
pub record DirEntry : Type 0 where
  pub path : Bytes
  pub is_dir : Bool

-- `I` is the size, the mode and the time of a node.
pub record Node (I : Type 0) : Type 0 where
  pub path : Bytes
  pub info : I
  pub is_dir : Bool
  pub entries : List DirEntry
  pub content : Bytes

-- `Path` of a node.
unfoldable pub path_of : Bytes → Bytes
unfolding eq_bytes
path_of path = if eq_bytes path (slash ∷ []) then dot else trim_prefix path (slash ∷ [])

-- `Name` of a node.
unfoldable pub name_of : Bytes → Bytes
name_of path = base (path_of path)

pub record CacheEntry (I : Type 0) : Type 0 where
  pub node : Option (Node I)
  pub error : Option Error
  pub cached_at : ℕ
  pub renews_at : Option ℕ
  pub expires_at : ℕ

-- A call that runs beside the caller.
pub data Spawned : Type 0 where
  pull_dir_of pull_meta_of prefetch_of : Bytes → Spawned

-- `state` is the server, `spawned` the calls started and not yet run.
pub record Cacher (W I : Type 0) : Type 0 where
  pub cache : Map Bytes (CacheEntry I)
  pub ttl : ℕ
  pub state : W
  pub spawned : List Spawned

-- The nanoseconds of `20 * time.Second`.
abbrev pub default_ttl : ℕ
default_ttl = 20000000000

unfoldable pub normalize_path : Bytes → Bytes
normalize_path p = trim_prefix p (slash ∷ [])

-- What `CachedNode` comes to: a node, an error that was cached, nothing, or a panic.
pub data Cached (I : Type 0) : Type 0 where
  hit : Node I → Cached I
  failed : Error → Cached I
  miss crash : Cached I

abbrev pub is_after : ℕ → Option ℕ → Bool
is_after now none = false
is_after now (some t) = ltb t now

module _ {I : Type 0} where
  -- An entry without an error is returned with its node, which is asserted to be there.
  abbrev pub entry_result : CacheEntry I → Cached I
  entry_result entry = elim (entry.error) [
    | some e ↦ failed e
    | none ↦ elim (entry.node) [ some n ↦ hit n | none ↦ crash ]
  ]

  abbrev pub renewal : Bytes → Node I → Spawned
  renewal path n = if n.is_dir then pull_dir_of path else pull_meta_of path

  unfoldable pub node_entry : ℕ → ℕ → Node I → CacheEntry I
  node_entry now ttl n = record {
    node = some n;
    error = none;
    cached_at = now;
    renews_at = some (now + ttl / 2);
    expires_at = now + ttl;
  }

  unfoldable pub error_entry : ℕ → ℕ → Error → CacheEntry I
  error_entry now ttl e = record {
    node = none;
    error = some e;
    cached_at = now;
    renews_at = none;
    expires_at = now + ttl / 2;
  }

  -- `InvalidateNode` without the fetching: the path is deleted and, if it was a directory and the
  -- call is recursive, what is below it too. It takes fuel, and `none` is the call that used it up.
  unfoldable pub forget_entries :
      (Bytes → Map Bytes (CacheEntry I) → Option (Map Bytes (CacheEntry I)))
      → Bytes
      → List DirEntry
      → Map Bytes (CacheEntry I)
      → Option (Map Bytes (CacheEntry I))
  forget_entries one path [] m = some m
  forget_entries one path (x ∷ xs) m = elim (one (join path (name_of x.path)) m) [
    | none ↦ none
    | some m' ↦ forget_entries one path xs m'
  ]

  -- What is done below the path, from the entry that it had.
  unfoldable pub forget_below :
      (Bytes → Map Bytes (CacheEntry I) → Option (Map Bytes (CacheEntry I)))
      → Bytes
      → Option (CacheEntry I)
      → Map Bytes (CacheEntry I)
      → Option (Map Bytes (CacheEntry I))
  unfolding forget_entries
  forget_below one path none m = some m
  forget_below one path (some entry) m = elim (entry.node) [
    | none ↦ some m
    | some n ↦ if n.is_dir then forget_entries one path n.entries m else some m
  ]

  unfoldable pub forget :
      ℕ → Bool → Bytes → Map Bytes (CacheEntry I) → Option (Map Bytes (CacheEntry I))
  unfolding forget_below lookup delete
  forget zero recursive path m = none
  forget (suc fuel) false path m = some (delete (normalize_path path) m)
  forget (suc fuel) true path m =
      forget_below (forget fuel true) (normalize_path path) (lookup (normalize_path path) m)
        (delete (normalize_path path) m)

module _ {W I : Type 0} where
  unfoldable pub new : W → Cacher W I
  new w = record { cache = []; ttl = default_ttl; state = w; spawned = [] }

  unfoldable pub set_ttl : ℕ → Cacher W I → Cacher W I
  set_ttl ttl c = record c { ttl = ttl }

  unfoldable pub get_ttl : Cacher W I → ℕ
  get_ttl c = c.ttl

  -- The part of `CachedNode` for an entry that has not expired.
  unfoldable pub renewed : ℕ → Bytes → CacheEntry I → Cacher W I → Cached I × Cacher W I
  renewed now path entry c =
      if is_after now entry.renews_at
      then elim (entry.node) [
        | none ↦ (crash, c)
        | some n ↦ (entry_result entry, record c { spawned = renewal path n ∷ c.spawned })
      ]
      else (entry_result entry, c)

  unfoldable pub cached_entry :
      ℕ → Bytes → Option (CacheEntry I) → Cacher W I → Cached I × Cacher W I
  unfolding renewed delete
  cached_entry now path none c = (miss, c)
  cached_entry now path (some entry) c =
      if ltb entry.expires_at now
      then (miss, record c { cache = delete path c.cache })
      else renewed now path entry c

  unfoldable pub cached_node : ℕ → Bytes → Cacher W I → Cached I × Cacher W I
  unfolding cached_entry lookup
  cached_node now path c =
      cached_entry now (normalize_path path) (lookup (normalize_path path) c.cache) c

  unfoldable pub cache_node : ℕ → Node I → Cacher W I → Cacher W I
  unfolding node_entry put
  cache_node now n c = record c { cache = put (path_of n.path) (node_entry now c.ttl n) c.cache }

  unfoldable pub cache_node_error : ℕ → Bytes → Error → Cacher W I → Cacher W I
  unfolding error_entry put
  cache_node_error now path e c = record c {
    cache = put (normalize_path path) (error_entry now c.ttl e) c.cache;
  }

  unfoldable pub invalidate_all : Bytes → Cacher W I → Cacher W I
  unfolding eq_bytes delete delete_if
  invalidate_all name c =
      let p = normalize_path name in
      if eq_bytes p dot || is_empty p then record c { cache = [] } else record c {
        cache = delete_if (λ key. has_prefix key (p ++ (slash ∷ []))) (delete p c.cache);
      }
