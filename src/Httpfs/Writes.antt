-- ===== src/Httpfs/Writes.antt =====
-- fs/httpfs/cacher.go: the methods that change the server, and then the cache. `fuel` is that of
-- `InvalidateNode` and `now` the time at which its nodes are cached.
use wanix.Base.{ℕ, Bytes, true, false}
use wanix.Errors.{Result, ok, err, Outcome, returned, panicked, hangs}
use wanix.Httpfs.{Node, Cacher, invalidate_all}
use wanix.Httpfs.Fetch.{Server, invalidate_node}

module _ {W I : Type 0} where
  -- `if err != nil { return err }`
  abbrev pub on_success :
      Result (Unit {0}) × Cacher W I
      → (Cacher W I → Outcome (Unit {0}) × Cacher W I)
      → Outcome (Unit {0}) × Cacher W I
  on_success (err e, c) next = (returned (err e), c)
  on_success (ok u, c) next = next c

  abbrev pub and_then :
      Outcome (Unit {0}) × Cacher W I
      → (Cacher W I → Outcome (Unit {0}) × Cacher W I)
      → Outcome (Unit {0}) × Cacher W I
  and_then (returned (err e), c) next = (returned (err e), c)
  and_then (returned (ok u), c) next = next c
  and_then (panicked, c) next = (panicked, c)
  and_then (hangs, c) next = (hangs, c)

  -- A request to the server.
  abbrev pub request : {A : Type 0} → (W → Result A × W) → Cacher W I → Result A × Cacher W I
  request act c = let (r, w) = act c.state in (r, record c { state = w })

module _ {W I : Type 0} (server : Server W I) (fuel now : ℕ) where
  unfoldable pub write_file : Bytes → Bytes → ℕ → ℕ → Cacher W I → Outcome (Unit {0}) × Cacher W I
  unfolding invalidate_node
  write_file name bytes perm mod_time c =
      on_success (request (server.write_file name bytes perm mod_time) c)
        (invalidate_node server fuel now name true false)

  -- The file is returned if the parent could be fetched.
  unfoldable pub create : Bytes → Bytes → ℕ → Cacher W I → Outcome (Node I) × Cacher W I
  unfolding invalidate_node
  create name content mode c = made (request (server.create name content mode) c)
    where
      returning : Node I → Outcome (Unit {0}) × Cacher W I → Outcome (Node I) × Cacher W I
      returning n (returned (ok u), c') = (returned (ok n), c')
      returning n (returned (err e), c') = (returned (err e), c')
      returning n (panicked, c') = (panicked, c')
      returning n (hangs, c') = (hangs, c')

      made : Result (Node I) × Cacher W I → Outcome (Node I) × Cacher W I
      made (err e, c') = (returned (err e), c')
      made (ok n, c') = returning n (invalidate_node server fuel now name true false c')

  unfoldable pub symlink : Bytes → Bytes → Cacher W I → Outcome (Unit {0}) × Cacher W I
  unfolding invalidate_node
  symlink old new c =
      on_success (request (server.symlink old new) c)
        (invalidate_node server fuel now new true false)

  unfoldable pub rename : Bytes → Bytes → Cacher W I → Outcome (Unit {0}) × Cacher W I
  unfolding invalidate_node
  rename old new c = on_success (request (server.rename old new) c) (λ c'.
      and_then (invalidate_node server fuel now new true false c')
        (invalidate_node server fuel now old true true))

  unfoldable pub mkdir : Bytes → ℕ → Cacher W I → Outcome (Unit {0}) × Cacher W I
  unfolding invalidate_node
  mkdir name perm c =
      on_success (request (server.mkdir name perm) c)
        (invalidate_node server fuel now name true false)

  unfoldable pub remove : Bytes → Cacher W I → Outcome (Unit {0}) × Cacher W I
  unfolding invalidate_node
  remove name c =
      on_success (request (server.remove name) c) (invalidate_node server fuel now name true true)

  unfoldable pub chmod : Bytes → ℕ → Cacher W I → Outcome (Unit {0}) × Cacher W I
  unfolding invalidate_node
  chmod name mode c =
      on_success (request (server.chmod name mode) c)
        (invalidate_node server fuel now name false false)

  unfoldable pub chown : Bytes → ℕ → ℕ → Cacher W I → Outcome (Unit {0}) × Cacher W I
  unfolding invalidate_node
  chown name uid gid c =
      on_success (request (server.chown name uid gid) c)
        (invalidate_node server fuel now name false false)

  unfoldable pub chtimes : Bytes → ℕ → ℕ → Cacher W I → Outcome (Unit {0}) × Cacher W I
  unfolding invalidate_node
  chtimes name atime mtime c =
      on_success (request (server.chtimes name atime mtime) c)
        (invalidate_node server fuel now name false false)

  unfoldable pub patch : Bytes → Bytes → Cacher W I → Outcome (Unit {0}) × Cacher W I
  unfolding invalidate_all
  patch name tar c =
      on_success (request (server.patch name tar) c)
        (λ c'. (returned (ok tt), invalidate_all name c'))
