-- ===== src/Syncfs/Scan.antt =====
-- fs/syncfs/syncfs.go: the two scans of `Sync`. `fs.WalkDir` of the standard library is a list of
-- the visits that it makes, in order; the function that it calls ends the walk with an error.
use wanix.Base.{
  ℕ, ◌-◌, Bytes, Bool, true, false, not, ◌&&◌, ◌||◌, Option, none, some, List, [], ◌∷◌,
  if◌then◌else◌, ltb, leb, bytes_eq, eq_bytes, Map, lookup, put,
}
use wanix.Errors.{Error, is_not_exist, Result, ok, err}
use wanix.Paths.{dot}
use wanix.Backends.{Info, is_dir, unix}

-- A call of the function: the path, the error that the walk passes on, and `entry.Info()`.
pub record Visit : Type 0 where
  pub path : Bytes
  pub error : Option Error
  pub info : Result Info

-- What `Index` returns: a file system that is only read.
pub record Index : Type 0 where
  pub walk : List Visit
  pub stat : Bytes → Result Info
  pub lstat : Bytes → Result Info

-- `rinfo.ModTime()` is newer than that of the local file by two seconds at least.
unfoldable pub is_newer : ℕ → ℕ → Bool
is_newer l r = ltb (unix l) (unix r) && leb 2 (unix r - unix l)

-- Whether to pull, from what `Lstat` gives for the local file: an error ends the scan, unless it is
-- that the file does not exist.
unfoldable pub should_pull : Info → Result Info → Result Bool
unfolding is_newer
should_pull rinfo (ok linfo) = ok (is_newer linfo.mod_time rinfo.mod_time)
should_pull rinfo (err e) = if is_not_exist e then ok true else err e

-- Deleted here, and not yet there.
unfoldable pub is_tombstoned : Option (Map Bytes Bool) → Bytes → Bool
unfolding lookup
is_tombstoned none path = false
is_tombstoned (some m) path = elim (lookup path m) [ none ↦ false | some exists ↦ not exists ]

-- `pullDirs` and `pullFiles`.
pub record Pulls : Type 0 where
  pub dirs : List Bytes
  pub files : List Bytes

abbrev pub add_pull : Bytes → Info → Pulls → Pulls
add_pull path rinfo ps =
    if is_dir rinfo.kind
    then record ps { dirs = path ∷ ps.dirs }
    else record ps { files = path ∷ ps.files }

-- The path that a visit adds, if any.
unfoldable pub visit_remote :
    Option (Map Bytes Bool) → (Bytes → Result Info) → Visit → Result (Option Info)
unfolding eq_bytes is_tombstoned should_pull
visit_remote changes local_lstat v = elim (v.error) [
  | some e ↦ err e
  | none ↦ if eq_bytes v.path dot || is_tombstoned changes v.path then ok none else wanted (v.info)
]
  where
    if_wanted : Info → Result Bool → Result (Option Info)
    if_wanted rinfo (err e) = err e
    if_wanted rinfo (ok b) = ok (if b then some rinfo else none)

    wanted : Result Info → Result (Option Info)
    wanted (err e) = err e
    wanted (ok rinfo) = if_wanted rinfo (should_pull rinfo (local_lstat v.path))

abbrev pub pull_or_not : Bytes → Option Info → Pulls → Pulls
pull_or_not path none ps = ps
pull_or_not path (some rinfo) ps = add_pull path rinfo ps

abbrev pub visited : Bytes → Result (Option Info) → Result Pulls → Result Pulls
visited path (err e) rest = err e
visited path (ok o) (err e) = err e
visited path (ok o) (ok ps) = ok (pull_or_not path o ps)

-- The walk over the index. A visit that fails is the last one.
unfoldable pub scan_remote :
    Option (Map Bytes Bool) → (Bytes → Result Info) → List Visit → Result Pulls
unfolding visit_remote
scan_remote changes local_lstat [] = ok (record { dirs = []; files = [] })
scan_remote changes local_lstat (v ∷ vs) =
    visited v.path (visit_remote changes local_lstat v) (scan_remote changes local_lstat vs)

-- Whether to push, from what `Lstat` gives for the file in the index.
unfoldable pub should_push : Info → Result Info → Result Bool
should_push linfo (ok rinfo) = ok (ltb (unix rinfo.mod_time) (unix linfo.mod_time))
should_push linfo (err e) = if is_not_exist e then ok true else err e

unfoldable pub visit_local : (Bytes → Result Info) → Visit → Result Bool
unfolding eq_bytes should_push
visit_local remote_lstat v = elim (v.error) [
  | some e ↦ err e
  | none ↦ if eq_bytes v.path dot then ok false else wanted (v.info)
]
  where
    wanted : Result Info → Result Bool
    wanted (err e) = err e
    wanted (ok linfo) = should_push linfo (remote_lstat v.path)

-- The walk over the local file system, which marks what it finds; a failing one leaves its marks.
unfoldable pub scan_local :
    (Bytes → Result Info) → List Visit → Map Bytes Bool → Result (Unit {0}) × Map Bytes Bool
unfolding visit_local put
scan_local remote_lstat [] m = (ok tt, m)
scan_local remote_lstat (v ∷ vs) m = elim (visit_local remote_lstat v) [
  | err e ↦ (err e, m)
  | ok b ↦ scan_local remote_lstat vs (if b then put v.path true m else m)
]
