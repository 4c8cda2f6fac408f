-- ===== src/Httpfs/Fresh.antt =====
-- fs/httpfs/cacher.go: what is cached of a file after it was changed.
use wanix.Base.{
  ℕ, ◌<◌, ◌≡◌, refl, Bytes, Bool, true, false, Option, none, some, List, [], ◌∷◌, arith, length,
  bytes_eq, ◌==◌, Map, lookup, lookup-put, Bool-cases, inl, inr, ◌⊎◌, some-injective,
}
use wanix.Errors.{Result, ok, Outcome}
use wanix.Paths.{dir}
use wanix.Httpfs.{Node, CacheEntry, Cacher, normalize_path, path_of, node_entry, cache_node, forget}
use wanix.Httpfs.Fetch.{
  Server, cache_nodes, pull_dir, resync_parent, invalidate_node, after_forget, is_attr,
}
use wanix.Httpfs.Writes.{
  on_success, request, write_file, symlink, mkdir, remove, chmod, chown, chtimes,
}
use wanix.Httpfs.Forgetting.{forget-Forgets}

module _ {I : Type 0} where
  abbrev pub IsAmong : Node I → List (Node I) → Type 0
  IsAmong n [] = true ≡ false
  IsAmong n (m ∷ ms) = (m ≡ n) ⊎ IsAmong n ms

  -- An entry with one of the nodes.
  pub record IsOf (nodes : List (Node I)) (entry : CacheEntry I) : Type 0 where
    pub node : Node I
    pub cached : entry.node ≡ some node
    pub listed : IsAmong node nodes

module _ {W I : Type 0} where
  -- What is found after nodes were cached was there before, or is one of them.
  cache_nodes-IsOf :
      (now : ℕ) (ns : List (Node I)) (c : Cacher W I) (p : Bytes) (entry : CacheEntry I)
      → lookup p (cache_nodes now ns c).cache ≡ some entry
      → (lookup p c.cache ≡ some entry) ⊎ IsOf ns entry
  unfolding cache_nodes cache_node node_entry
  cache_nodes-IsOf now [] c p entry h = inl h
  cache_nodes-IsOf now (n ∷ ns) c p entry h =
      elim (cache_nodes-IsOf now ns (cache_node now n c) p entry h) [
        | inr later ↦
            inr (record { node = later.node; cached = later.cached; listed = inr later.listed })
        | inl here ↦ of_first here
      ]
    where
      of_first :
          lookup p (cache_node now n c).cache ≡ some entry
          → (lookup p c.cache ≡ some entry) ⊎ IsOf (n ∷ ns) entry
      of_first h = elim (Bool-cases (path_of n.path == p)) [
        | inl same ↦ inr (record {
          node = n;
          cached =
              ground
                (arith, h, same, lookup-put (path_of n.path) p (node_entry now c.ttl n) c.cache);
          listed = inl refl;
        })
        | inr other ↦ inl (
            ground
              (arith, h, other, lookup-put (path_of n.path) p (node_entry now c.ttl n) c.cache))
      ]

module _ {W I : Type 0} (server : Server W I) where
  -- The nodes that the server lists for the parent of a name.
  abbrev pub siblings : Bytes → W → List (Node I)
  siblings name w = (server.list_dir (normalize_path (dir (normalize_path name))) w).0.0

  resync_parent-IsOf :
      (now : ℕ) (path : Bytes) (c : Cacher W I) (entry : CacheEntry I)
      → lookup (normalize_path path) c.cache ≡ none
      → lookup (normalize_path path) (resync_parent server now (normalize_path path) c).1.cache
        ≡ some entry
      → IsOf (siblings path c.state) entry
  unfolding resync_parent pull_dir
  resync_parent-IsOf now path c entry absent h = elim (Bool-cases (is_attr (normalize_path path))) [
    | inl attr ↦ absurd (ground (arith, absent, (rw (resync_parent, attr) at h)))
    | inr plain ↦
        elim (cache_nodes-IsOf now (siblings path c.state) _ (normalize_path path) entry
          (rw (resync_parent, plain, pull_dir) at h)) [
            | inl before ↦ absurd (ground (arith, absent, before))
            | inr listed ↦ listed
          ]
  ]

  after_forget-IsOf :
      (now : ℕ) (path : Bytes) (resync : Bool) (o : Option (Map Bytes (CacheEntry I)))
      (m : Map Bytes (CacheEntry I)) (c : Cacher W I) (entry : CacheEntry I)
      → o ≡ some m
      → lookup (normalize_path path) m ≡ none
      → lookup
          (normalize_path path)
          (after_forget server now (normalize_path path) resync o c).1.cache
        ≡ some entry
      → IsOf (siblings path c.state) entry
  unfolding after_forget
  after_forget-IsOf now path resync none m c entry e absent h = cc
  after_forget-IsOf now path false (some n) m c entry e absent h =
      absurd (ground (arith, rw (some-injective n m e) at h, absent))
  after_forget-IsOf now path true (some n) m c entry e absent h =
      resync_parent-IsOf now path (record c { cache = n }) entry
        (rw (← some-injective n m e) at absent) h

  invalidate_node-IsOf :
      (fuel now : ℕ) (path : Bytes) (resync recursive : Bool) (c : Cacher W I)
      (entry : CacheEntry I)
      → length c.cache < fuel
      → lookup
          (normalize_path path)
          (invalidate_node server fuel now path resync recursive c).1.cache
        ≡ some entry
      → IsOf (siblings path c.state) entry
  unfolding invalidate_node
  invalidate_node-IsOf fuel now path resync recursive c entry enough h =
      let f = forget-Forgets fuel recursive path c.cache enough in
      after_forget-IsOf now path resync (forget fuel recursive path c.cache) f.rest c entry f.ended
        f.gone h

-- The changes of one name.
pub data Change : Type 0 where
  writing : Bytes → Bytes → ℕ → ℕ → Change
  linking : Bytes → Bytes → Change
  making_dir changing_mode : Bytes → ℕ → Change
  removing : Bytes → Change
  changing_owner changing_times : Bytes → ℕ → ℕ → Change

abbrev pub subject : Change → Bytes
subject (writing name bytes perm mod_time) = name
subject (linking old new) = new
subject (making_dir name perm) = name
subject (changing_mode name mode) = name
subject (removing name) = name
subject (changing_owner name uid gid) = name
subject (changing_times name atime mtime) = name

module _ {W I : Type 0} (server : Server W I) where
  unfoldable pub perform : ℕ → ℕ → Change → Cacher W I → Outcome (Unit {0}) × Cacher W I
  unfolding write_file symlink mkdir remove chmod chown chtimes
  perform fuel now (writing name bytes perm mod_time) c =
      write_file server fuel now name bytes perm mod_time c
  perform fuel now (linking old new) c = symlink server fuel now old new c
  perform fuel now (making_dir name perm) c = mkdir server fuel now name perm c
  perform fuel now (changing_mode name mode) c = chmod server fuel now name mode c
  perform fuel now (removing name) c = remove server fuel now name c
  perform fuel now (changing_owner name uid gid) c = chown server fuel now name uid gid c
  perform fuel now (changing_times name atime mtime) c = chtimes server fuel now name atime mtime c

  -- What the server makes of a change.
  abbrev pub effect : Change → W → Result (Unit {0}) × W
  effect (writing name bytes perm mod_time) = server.write_file name bytes perm mod_time
  effect (linking old new) = server.symlink old new
  effect (making_dir name perm) = server.mkdir name perm
  effect (changing_mode name mode) = server.chmod name mode
  effect (removing name) = server.remove name
  effect (changing_owner name uid gid) = server.chown name uid gid
  effect (changing_times name atime mtime) = server.chtimes name atime mtime

  on_success-IsOf :
      (fuel now : ℕ) (path : Bytes) (resync recursive : Bool) (c : Cacher W I)
      (entry : CacheEntry I) (act : W → Result (Unit {0}) × W)
      → length c.cache < fuel
      → (act c.state).0 ≡ ok tt
      → lookup
          (normalize_path path)
          (on_success
            (request act c)
            (invalidate_node server fuel now path resync recursive)).1.cache
        ≡ some entry
      → IsOf (siblings server path (act c.state).1) entry
  on_success-IsOf fuel now path resync recursive c entry act enough done h =
      invalidate_node-IsOf server fuel now path resync recursive
        (record c { state = (act c.state).1 }) entry enough (rw done at h)

  -- After WriteFile, Symlink, Mkdir, Chmod, Remove, Chown or Chtimes that the server has made,
  -- whatever the call returns then, an entry of the cache under its name has a node that the
  -- server listed for the parent after the change; with more fuel than there are entries in the
  -- cache.
  pub perform-IsOf :
      (fuel now : ℕ) (change : Change) (c : Cacher W I) (entry : CacheEntry I)
      → length c.cache < fuel
      → (effect change c.state).0 ≡ ok tt
      → lookup (normalize_path (subject change)) (perform fuel now change c).1.cache ≡ some entry
      → IsOf (siblings server (subject change) (effect change c.state).1) entry
  unfolding perform write_file symlink mkdir remove chmod chown chtimes
  perform-IsOf fuel now (writing name bytes perm mod_time) c entry enough done h =
      on_success-IsOf fuel now name true false c entry (effect (writing name bytes perm mod_time))
        enough done h
  perform-IsOf fuel now (linking old new) c entry enough done h =
      on_success-IsOf fuel now new true false c entry (effect (linking old new)) enough done h
  perform-IsOf fuel now (making_dir name perm) c entry enough done h =
      on_success-IsOf fuel now name true false c entry (effect (making_dir name perm)) enough done h
  perform-IsOf fuel now (changing_mode name mode) c entry enough done h =
      on_success-IsOf fuel now name false false c entry (effect (changing_mode name mode)) enough
        done h
  perform-IsOf fuel now (removing name) c entry enough done h =
      on_success-IsOf fuel now name true true c entry (effect (removing name)) enough done h
  perform-IsOf fuel now (changing_owner name uid gid) c entry enough done h =
      on_success-IsOf fuel now name false false c entry (effect (changing_owner name uid gid))
        enough done h
  perform-IsOf fuel now (changing_times name atime mtime) c entry enough done h =
      on_success-IsOf fuel now name false false c entry (effect (changing_times name atime mtime))
        enough done h
