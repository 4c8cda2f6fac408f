-- ===== src/Cowfs.antt =====
-- fs/cowfs/cowfs.go: a read-only base file system under a writable overlay, with the names that are
-- deleted from the base (tombstones) and the names that were moved (renames).
-- What the methods call of the two file systems is the record `Layers`: reads of the base, which
-- never changes, and reads and changes of the overlay, whose state is `S`. A read of the overlay
-- leaves its state as it is. Logging is left out.
pub mod Changes
pub mod Views
pub mod Chains
pub mod Records
pub mod Filing
pub mod Redirect
pub mod Moves
pub mod Renamed
pub mod Removal
pub mod Listed
pub mod Tests
use wanix.Base.{
  ℕ, zero, suc, Bytes, codes, Bool, true, false, not, ◌&&◌, ◌||◌, Option, none, some, List, [], ◌∷◌,
  ◌++◌, if◌then◌else◌, ◌==◌, bytes_eq, eq_bytes, is_empty, Map, lookup, put, delete, has_key,
}
use wanix.Errors.{Error, bare, not_exist, invalid, Result, ok, err, is_not_exist}
use wanix.Paths.{clean, join}
use wanix.Contexts.{Ctx, follow_symlinks}
use wanix.Actions.{Action, ◌>>=◌, ◌>>◌, return, fail, lift, ask, modify, fail_if, when, then_do}

-- The flags of OpenFile, each a bit of package os.
pub record Flags : Type 0 where
  pub wronly : Bool
  pub rdwr : Bool
  pub append : Bool
  pub create : Bool
  pub trunc : Bool
  pub excl : Bool

-- `H` is an open file. `entries` is Open and then ReadDir(-1) of the file, none if it is no directory.
pub record Layers (S Info H : Type 0) : Type 0 where
  pub is_dir : Info → Bool
  pub base_stat : Bytes → Result Info
  pub base_lstat : Bytes → Result Info
  pub base_readlink : Bytes → Result Bytes
  pub base_entries : Bytes → Result (List Bytes)
  pub base_open : Bytes → Result H
  pub base_open_file : Bytes → Flags → ℕ → Result H
  pub stat : Bytes → S → Result Info
  pub lstat : Bytes → S → Result Info
  pub readlink : Bytes → S → Result Bytes
  pub entries : Bytes → S → Result (List Bytes)
  pub open_read : Bytes → S → Result H
  pub open_file : Bytes → Flags → ℕ → Action S H
  pub mkdir : Bytes → ℕ → Action S (Unit {0})
  pub mkdir_all : Bytes → ℕ → Action S (Unit {0})
  pub remove : Bytes → Action S (Unit {0})
  pub rename : Bytes → Bytes → Action S (Unit {0})
  pub symlink : Bytes → Bytes → Action S (Unit {0})
  pub chtimes : Bytes → ℕ → ℕ → Action S (Unit {0})
  pub chmod : Bytes → ℕ → Action S (Unit {0})
  pub chown : Bytes → ℕ → ℕ → Action S (Unit {0})
  pub write_file : Bytes → Bytes → ℕ → Action S (Unit {0})
  -- fs.CopyFS from the base to the overlay
  pub copy_up : Bytes → Bytes → Action S (Unit {0})
  -- the hexadecimal digits of the SHA-1 sum
  pub sha1_hex : Bytes → Bytes

pub record Fs (S : Type 0) : Type 0 where
  pub overlay : S
  pub tombstones : Map Bytes (Unit {0})
  pub renames : Map Bytes Bytes
  pub whiteout_dir : Bytes

-- The hop limit of a rename chain.
abbrev pub max_hops : ℕ
max_hops = 1000

abbrev step : (Bytes → Result Bytes) → Bytes → Option Bytes → Result Bytes
step rest cur none = ok cur
step rest cur (some next) = if next == cur then err (bare invalid) else rest next

unfoldable pub has_seen : Bytes → List Bytes → Bool
unfolding eq_bytes
has_seen p [] = false
has_seen p (q ∷ qs) = eq_bytes p q || has_seen p qs

-- One round for each hop that is left; `seen` are the paths before this one.
unfoldable pub follow : ℕ → List Bytes → Bytes → Map Bytes Bytes → Result Bytes
unfolding lookup eq_bytes has_seen
follow zero seen cur renames = err (bare invalid)
follow (suc hops) seen cur renames =
    if has_seen cur seen
    then err (bare invalid)
    else step (λ next. follow hops (cur ∷ seen) next renames) cur (lookup cur renames)

unfoldable pub resolve_terminal : Bytes → Map Bytes Bytes → Result Bytes
unfolding follow
resolve_terminal path renames = follow max_hops [] path renames

abbrev pub is_some : {A : Type 0} → Option A → Bool
is_some none = false
is_some (some a) = true

-- Whether a file is there, where the lookup can say.
abbrev pub known : {Info : Type 0} → Result Info → Result Bool
known (ok info) = ok true
known (err e) = if is_not_exist e then ok false else err e

module _ {S : Type 0} where
  unfoldable pub reset : Fs S → Fs S
  reset u = record u { tombstones = []; renames = [] }

  abbrev pub is_dead : Bytes → Fs S → Bool
  is_dead name u = is_some (lookup name u.tombstones)

  abbrev pub live : Result Bytes → Fs S → Result Bytes
  live (err e) u = err e
  live (ok cur) u = if is_dead cur u then err (bare not_exist) else ok cur

  unfoldable pub resolve_path : Bytes → Fs S → Result Bytes
  unfolding resolve_terminal lookup
  resolve_path path u = live (resolve_terminal path u.renames) u

  abbrev pub set_overlay : {A : Type 0} → Result A × S → Fs S → Result A × Fs S
  set_overlay (r, s) u = (r, record u { overlay = s })

  abbrev pub overlay_ask : {A : Type 0} → (S → Result A) → Action (Fs S) A
  overlay_ask read = ask (λ u. read u.overlay)

  -- A call that changes the overlay, and nothing else.
  abbrev pub on_overlay : {A : Type 0} → Action S A → Action (Fs S) A
  on_overlay act u = ((act u.overlay).0, record u { overlay = (act u.overlay).1 })

module _ {S Info H : Type 0} (l : Layers S Info H) where
  abbrev pub persisted : Bytes → Bytes → Bytes → Action (Fs S) (Unit {0})
  persisted kind name content u =
      if is_empty u.whiteout_dir
      then (ok tt, u)
      else on_overlay (l.write_file (join (join u.whiteout_dir kind) (l.sha1_hex name)) content 420)
          u

  -- The file that records a deletion, and a move: its directory, and what is written to it.
  abbrev pub rename_content : Bytes → Bytes → Bytes
  rename_content old new = old ++ codes " " ++ new

  unfoldable pub tombstone : Bytes → Action (Fs S) (Unit {0})
  unfolding put join
  tombstone name = do
    modify (λ u. record u { tombstones = put name tt u.tombstones })
    persisted (codes "deletes") name name

  unfoldable pub record_rename : Bytes → Bytes → Action (Fs S) (Unit {0})
  unfolding put join
  record_rename old new = do
    modify (λ u. record u { renames = put old new u.renames })
    persisted (codes "renames") old (rename_content old new)

  unfoldable pub should_copy : Bytes → Action (Fs S) Bool
  should_copy name = do
    in_overlay ← overlay_ask (λ s. known (l.lstat name s))
    if in_overlay then return false else lift (base_has (l.base_lstat name))
    where
      base_has : Result Info → Result Bool
      base_has (ok info) = ok true
      base_has (err e) = if is_not_exist e then err (bare not_exist) else err e

  unfoldable pub copy_if_needed : Bytes → Action (Fs S) Bytes
  unfolding resolve_path should_copy
  copy_if_needed name = do
    path ← ask (resolve_path name)
    needed ← should_copy path
    when needed (on_overlay (l.copy_up path path))
    return path

  unfoldable pub chtimes : Bytes → ℕ → ℕ → Action (Fs S) (Unit {0})
  unfolding copy_if_needed clean
  chtimes name atime mtime = do
    path ← copy_if_needed (clean name)
    on_overlay (l.chtimes path atime mtime)

  unfoldable pub chmod : Bytes → ℕ → Action (Fs S) (Unit {0})
  unfolding copy_if_needed clean
  chmod name mode = do path ← copy_if_needed (clean name); on_overlay (l.chmod path mode)

  unfoldable pub chown : Bytes → ℕ → ℕ → Action (Fs S) (Unit {0})
  unfolding copy_if_needed clean
  chown name uid gid = do path ← copy_if_needed (clean name); on_overlay (l.chown path uid gid)
