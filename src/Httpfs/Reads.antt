-- ===== src/Httpfs/Reads.antt =====
-- fs/httpfs/cacher.go: the methods that read. `now` is the time at which the cache is looked up, and
-- `later` that at which what was fetched is cached.
use wanix.Base.{
  ℕ, zero, suc, Bytes, Bool, true, false, Option, none, some, List, [], ◌∷◌, if◌then◌else◌,
  bytes_eq, eq_bytes,
}
use wanix.Errors.{Error, bare, other, Result, ok, err, Outcome, returned, panicked, hangs}
use wanix.Paths.{dot, dir, base}
use wanix.Httpfs.{
  Node, DirEntry, Cacher, Cached, hit, miss, crash, failed, cached_node, name_of, cache_node,
}
use wanix.Httpfs.Fetch.{Server, is_attr, pull_dir, pull_meta, pull_node, note_missing}

abbrev pub not_a_directory : Error
not_a_directory = bare (other 1)

-- `for _, entry := range parent.Entries()`: the type of the first entry of the name.
unfoldable pub listed_as_dir : Bytes → List DirEntry → Bool
unfolding eq_bytes
listed_as_dir name [] = false
listed_as_dir name (x ∷ xs) =
    let rest = listed_as_dir name xs in if eq_bytes (name_of x.path) name then x.is_dir else rest

module _ {W I : Type 0} (server : Server W I) (now later : ℕ) where
  -- The file is fetched each time, and only its metadata is cached.
  unfoldable pub open_context : Bytes → Cacher W I → Result (Node I) × Cacher W I
  unfolding note_missing cache_node
  open_context name c =
      let (r, w) = server.get name c.state in
      let c' = record c { state = w } in
      elim r [
        | err e ↦ (err e, note_missing later name e c')
        | ok n ↦ (ok n, cache_node later n c')
      ]

  abbrev pub of_result : {A : Type 0} → Result A × Cacher W I → Outcome A × Cacher W I
  of_result (r, c) = (returned r, c)

  abbrev pub some_node : Result (Node I) × Cacher W I → Outcome (Option (Node I)) × Cacher W I
  some_node (err e, c) = (returned (err e), c)
  some_node (ok n, c) = (returned (ok (some n)), c)

  -- Whether the cached parent lists the name as a directory. For a parent that is cached as missing
  -- the entries of a nil node are asked for.
  unfoldable pub parent_lists : Bytes → Cached I × Cacher W I → Option Bool × Cacher W I
  unfolding listed_as_dir
  parent_lists name (miss, c) = (some false, c)
  parent_lists name (hit n, c) = (some (listed_as_dir (base name) n.entries), c)
  parent_lists name (failed e, c) = (none, c)
  parent_lists name (crash, c) = (none, c)

  unfoldable pub expects_dir : Bytes → Cacher W I → Option Bool × Cacher W I
  unfolding parent_lists cached_node eq_bytes
  expects_dir name c =
      if eq_bytes name dot then (some true, c) else parent_lists name (cached_node now (dir name) c)

  -- A file is asked for its metadata; if it turns out to be a directory, it is listed.
  unfoldable pub after_meta :
      Bytes → Result (Node I) × Cacher W I → Outcome (Option (Node I)) × Cacher W I
  unfolding pull_dir
  after_meta name (err e, c) = (returned (err e), c)
  after_meta name (ok n, c) =
      if n.is_dir then of_result (pull_dir server later name c) else (returned (ok (some n)), c)

  unfoldable pub fetch_stat :
      Bytes → Option Bool × Cacher W I → Outcome (Option (Node I)) × Cacher W I
  unfolding after_meta pull_meta pull_dir
  fetch_stat name (none, c) = (panicked, c)
  fetch_stat name (some true, c) = of_result (pull_dir server later name c)
  fetch_stat name (some false, c) = after_meta name (pull_meta server later name c)

  -- What follows a lookup, with the call of `Stat` on an open attribute file.
  unfoldable pub stat_missed :
      (Bytes → Cacher W I → Outcome (Option (Node I)) × Cacher W I)
      → Bytes
      → Cached I × Cacher W I
      → Outcome (Option (Node I)) × Cacher W I
  unfolding fetch_stat expects_dir open_context
  stat_missed again name (hit n, c) = (returned (ok (some n)), c)
  stat_missed again name (failed e, c) = (returned (err e), c)
  stat_missed again name (crash, c) = (panicked, c)
  stat_missed again name (miss, c) =
      if is_attr name then opened (open_context name c) else fetch_stat name (expects_dir name c)
    where
      opened : Result (Node I) × Cacher W I → Outcome (Option (Node I)) × Cacher W I
      opened (err e, c') = (returned (err e), c')
      opened (ok n, c') = again n.path c'

  -- `StatContext`, on fuel: `Stat` of an attribute file asks the cache again. A node is absent where
  -- the code returns a nil one without an error.
  unfoldable pub stat_context : ℕ → Bytes → Cacher W I → Outcome (Option (Node I)) × Cacher W I
  unfolding stat_missed cached_node
  stat_context zero name c = (hangs, c)
  stat_context (suc fuel) name c = stat_missed (stat_context fuel) name (cached_node now name c)

  abbrev pub entries_of : Node I → Result (List DirEntry)
  entries_of n = if n.is_dir then ok n.entries else err not_a_directory

  unfoldable pub read_missed : Bytes → Cached I × Cacher W I → Outcome (List DirEntry) × Cacher W I
  unfolding pull_node
  read_missed name (hit n, c) = (returned (entries_of n), c)
  read_missed name (failed e, c) = (returned (err e), c)
  read_missed name (crash, c) = (panicked, c)
  read_missed name (miss, c) = listed (pull_node server later name true c)
    where
      listed : Result (Node I) × Cacher W I → Outcome (List DirEntry) × Cacher W I
      listed (err e, c') = (returned (err e), c')
      listed (ok n, c') = (returned (entries_of n), c')

  unfoldable pub read_dir_context : Bytes → Cacher W I → Outcome (List DirEntry) × Cacher W I
  unfolding read_missed cached_node
  read_dir_context name c = read_missed name (cached_node now name c)
