-- ===== src/Httpfs/Fetch.antt =====
-- fs/httpfs/cacher.go: `PullNode`, `PullDir` and `PullMeta`, which fetch nodes and cache them, and
-- `InvalidateNode`, which fetches the parent again. The requests to the server are a record.
use wanix.Base.{
  ℕ, Bytes, codes, Bool, true, false, ◌&&◌, ◌||◌, Option, none, some, List, [], ◌∷◌, ◌++◌,
  if◌then◌else◌, has_prefix, Map,
}
use wanix.Errors.{not_exist, Error, bare, Result, ok, err, Outcome, returned, hangs}
use wanix.Actions.{Action}
use wanix.Paths.{join, dir}
use wanix.Httpfs.{
  Node, DirEntry, CacheEntry, Cacher, Spawned, prefetch_of, normalize_path, name_of, cache_node,
  cache_node_error, forget,
}

-- What the methods of `FS` get from the server. `list_dir` is the request of `PullDir` with the
-- parsing of its parts: the nodes before the first error, and that error.
pub record Server (W I : Type 0) : Type 0 where
  pub get : Bytes → Action W (Node I)
  pub stat : Bytes → Action W (Node I)
  pub list_dir : Bytes → W → (List (Node I) × Option Error) × W
  pub readlink : Bytes → Action W Bytes
  pub write_file : Bytes → Bytes → ℕ → ℕ → Action W (Unit {0})
  pub create : Bytes → Bytes → ℕ → Action W (Node I)
  pub symlink : Bytes → Bytes → Action W (Unit {0})
  pub rename : Bytes → Bytes → Action W (Unit {0})
  pub mkdir : Bytes → ℕ → Action W (Unit {0})
  pub remove : Bytes → Action W (Unit {0})
  pub chmod : Bytes → ℕ → Action W (Unit {0})
  pub chown : Bytes → ℕ → ℕ → Action W (Unit {0})
  pub chtimes : Bytes → ℕ → ℕ → Action W (Unit {0})
  pub patch : Bytes → Bytes → Action W (Unit {0})

-- `err == fs.ErrNotExist`: the sentinel itself, and not an error around it.
abbrev pub is_sentinel : Error → Bool
is_sentinel (bare not_exist) = true
is_sentinel _ = false

-- strings.Contains
unfoldable pub has_part : Bytes → Bytes → Bool
has_part [] part = has_prefix [] part
has_part (b ∷ s) part = has_prefix (b ∷ s) part || has_part s part

-- The attribute files of a node.
abbrev pub is_attr : Bytes → Bool
is_attr name = has_part name (codes "/:attr")

-- The prefetching that is started for each directory in a directory.
unfoldable pub prefetches : Bytes → List DirEntry → List Spawned
prefetches name [] = []
prefetches name (x ∷ xs) =
    let rest = prefetches name xs in
    if x.is_dir then prefetch_of (join name (name_of x.path)) ∷ rest else rest

-- The first node, if there was no error.
abbrev pub first_or : {I : Type 0} → List (Node I) → Option Error → Result (Option (Node I))
first_or nodes (some e) = err e
first_or [] none = ok none
first_or (n ∷ ns) none = ok (some n)

abbrev pub without_value : {A : Type 0} → Result A → Result (Unit {0})
without_value (err e) = err e
without_value (ok a) = ok tt

module _ {W I : Type 0} where
  unfoldable pub cache_nodes : ℕ → List (Node I) → Cacher W I → Cacher W I
  unfolding cache_node
  cache_nodes now [] c = c
  cache_nodes now (n ∷ ns) c = cache_nodes now ns (cache_node now n c)

  -- A missing file is cached as missing.
  unfoldable pub note_missing : ℕ → Bytes → Error → Cacher W I → Cacher W I
  unfolding cache_node_error
  note_missing now name e c =
      if is_sentinel e then cache_node_error now name (bare not_exist) c else c

module _ {W I : Type 0} (server : Server W I) where
  -- Without a part in the response there is no node and no error.
  unfoldable pub pull_dir : ℕ → Bytes → Cacher W I → Result (Option (Node I)) × Cacher W I
  unfolding cache_nodes
  pull_dir now name c =
      let ((nodes, failure), w) = server.list_dir (normalize_path name) c.state in
      (first_or nodes failure, cache_nodes now nodes (record c { state = w }))

  unfoldable pub after_meta :
      ℕ → Bytes → Result (Node I) × Cacher W I → Result (Node I) × Cacher W I
  unfolding note_missing cache_node
  after_meta now path (err e, c) = (err e, note_missing now path e c)
  after_meta now path (ok n, c) = (ok n, cache_node now n c)

  unfoldable pub pull_meta : ℕ → Bytes → Cacher W I → Result (Node I) × Cacher W I
  unfolding after_meta
  pull_meta now path c =
      let (r, w) = server.stat (normalize_path path) c.state in
      after_meta now (normalize_path path) (r, record c { state = w })

  unfoldable pub after_open :
      ℕ → Bytes → Bool → Result (Node I) × Cacher W I → Result (Node I) × Cacher W I
  unfolding note_missing cache_node prefetches
  after_open now name recursive (err e, c) = (err e, note_missing now name e c)
  after_open now name recursive (ok n, c) =
      let c' = cache_node now n c in
      if n.is_dir && recursive
      then (ok n, record c' { spawned = prefetches name n.entries ++ c'.spawned })
      else (ok n, c')

  -- The node that is returned has its content with it.
  unfoldable pub pull_node : ℕ → Bytes → Bool → Cacher W I → Result (Node I) × Cacher W I
  unfolding after_open
  pull_node now name recursive c =
      let (r, w) = server.get (normalize_path name) c.state in
      after_open now (normalize_path name) recursive (r, record c { state = w })

  -- What `InvalidateNode` does when the path has been deleted.
  unfoldable pub resync_parent : ℕ → Bytes → Cacher W I → Result (Unit {0}) × Cacher W I
  unfolding pull_dir
  resync_parent now path c =
      if is_attr path
      then (ok tt, c)
      else let (r, c') = pull_dir now (dir path) c in (without_value r, c')

  -- What follows the deletions, which have left the cache.
  unfoldable pub after_forget :
      ℕ
      → Bytes
      → Bool
      → Option (Map Bytes (CacheEntry I))
      → Cacher W I
      → Outcome (Unit {0}) × Cacher W I
  unfolding resync_parent
  after_forget now path resync none c = (hangs, c)
  after_forget now path false (some m) c = (returned (ok tt), record c { cache = m })
  after_forget now path true (some m) c =
      let (r, c') = resync_parent now path (record c { cache = m }) in (returned r, c')

  -- `InvalidateNode`. With enough fuel for `forget` it does not hang.
  unfoldable pub invalidate_node :
      ℕ → ℕ → Bytes → Bool → Bool → Cacher W I → Outcome (Unit {0}) × Cacher W I
  unfolding forget after_forget
  invalidate_node fuel now path resync recursive c =
      after_forget now (normalize_path path) resync (forget fuel recursive path c.cache) c
