-- ===== src/Syncfs/Tests.antt =====
-- A concrete local file system and remote for fs/syncfs/syncfs.go, runs, and the theorems at them.
-- The state is the local file system, a map from paths to what `Lstat` gives; the remote takes every
-- patch, and its index lists `f` and `g`, of the times 5 s and 9 s.
use wanix.Base.{
  ℕ, ◌*◌, ◌/◌, ◌%◌, ◌≡◌, ◌≢◌, eq_nat, refl, Bytes, Bool, true, false, ◌||◌, none, some, List, [],
  ◌∷◌, arith, codes, map, bytes_eq, eq_bytes, Map, lookup, put, delete, keys, lookup-put,
  lookup-delete, eq_iff, eq_refl, Bool-cases, has_prefix, ◌++◌, ◌&&◌, ◌==◌, drop, length,
  if◌then◌else◌, inr, inl, trim_prefix,
}
use wanix.Errors.{Error, Result, ok, err, bare, not_exist, not_supported, other, succeeded}
use wanix.Actions.{Action}
use wanix.Paths.{clean, slash}
use wanix.Backends.{regular_file, Info, FileSystem}
use wanix.Copy.{Run}
use wanix.Syncfs.{Syncfs, returned, panicked, new, create, mkdir, remove, clean_name, rename_file}
use wanix.Syncfs.Scan.{Index, Visit, Pulls, scan_remote, scan_local}
use wanix.Syncfs.Push.{
  Member, name, is_deletion, pack, pack_info, pack_headed, pack_rest, pack_body,
}
use wanix.Syncfs.Run.{Parts, sync}
use wanix.Syncfs.Agreement.{Sets, Moves}
use wanix.Syncfs.Tracking.{
  Op, creating, removing, renaming, making_dir, perform, perform_all, AllSound,
}
use wanix.Syncfs.Archive.{gone, CanPack, perform_all-pack}
use wanix.Syncfs.Acceptance.{Kept, sync-Kept}
use wanix.Syncfs.Decisions.{contains, due_paths, scan_remote-due}
use wanix.Syncfs.FirstSync.{first_scans-disjoint}
use wanix.Syncfs.Removed.{remove-found}

abbrev World : Type 0
World = Map Bytes Info

abbrev missing : Error
missing = bare not_exist

abbrev at_time : ℕ → Info
at_time seconds = record { kind = regular_file; perm = 420; mod_time = seconds * 1000000000 }

abbrev found : Bytes → World → Result Info
found path w = elim (lookup path w) [ none ↦ err missing | some info ↦ ok info ]

abbrev creating_at : Bytes → Action World Bytes
creating_at path w = (ok path, put path (at_time 7) w)

abbrev noting : Bytes → Action World (Unit {0})
noting path w = (ok tt, put path (at_time 7) w)

abbrev on_existing : Bytes → Action World (Unit {0})
on_existing path w = elim (lookup path w) [
  | none ↦ (err missing, w)
  | some info ↦ (ok tt, put path (at_time 7) w)
]

abbrev opening_at : Bytes → ℕ → Action World Bytes
opening_at path flag w = if eq_nat (flag / 64 % 2) 1 then creating_at path w else (ok path, w)

-- What is below the old name is below the new one.
abbrev below : Bytes → Bytes
below path = path ++ codes "/"

unfoldable move_below : Bytes → Bytes → World → World
unfolding has_prefix
move_below old new [] = []
move_below old new ((path, info) ∷ w) =
    let rest = move_below old new w in
    if has_prefix path (below old)
    then (below new ++ drop (length (below old)) path, info) ∷ rest
    else (path, info) ∷ rest

-- What is renamed is taken from its old name and put at the new one, with all below it.
abbrev renaming_to : Bytes → Bytes → Action World (Unit {0})
renaming_to old new w = (ok tt, put new (at_time 7) (delete old (move_below old new w)))

-- Where nothing is below the old name, nothing else is moved.
move_below-leaf :
    (old new : Bytes) (w : World)
    → ((p : Bytes) → has_prefix p (old ++ slash ∷ []) ≡ true → succeeded (found p w) ≡ false)
    → move_below old new w ≡ w
unfolding move_below lookup
move_below-leaf old new [] leaf = refl
move_below-leaf old new ((path, info) ∷ w) leaf = elim (Bool-cases (has_prefix path (below old))) [
  | inl under ↦ absurd (ground (arith, leaf path under, eq_refl path))
  | inr aside ↦
      rw
        (
          aside,
          move_below-leaf old new w (λ p h. ground (arith, leaf p h, h, aside, eq_iff path p)),
        )
        refl
]

abbrev disk : FileSystem World Bytes
disk = record {
  stat = found;
  lstat = found;
  read_dir = λ path w. ok [];
  readlink = λ path w. ok path;
  open_read = λ path w. ok path;
  open_file = λ path flag perm. opening_at path flag;
  create = creating_at;
  mkdir = λ path perm. noting path;
  mkdir_all = λ path perm. noting path;
  remove = λ path w. (ok tt, delete path w);
  rename = renaming_to;
  symlink = λ old new. noting new;
  chmod = λ path mode. on_existing path;
  chown = λ path uid gid. on_existing path;
  chtimes = λ path atime mtime. on_existing path;
  file_stat = λ h w. ok (at_time 7);
  is_writer = λ h. true;
  file_read_all = λ h w. ok [];
  file_write = λ h p w. ((1, none), w);
  file_write_at = λ h p off w. ((1, none), w);
  file_close = λ h w. (ok tt, w);
}

abbrev visits : Bytes → Info → Visit
visits path info = record { path = path; error = none; info = ok info }

abbrev indexed : Bytes → Result Info
indexed path =
    if eq_bytes path (codes "f")
    then ok (at_time 5)
    else if eq_bytes path (codes "g")
    then ok (at_time 9)
    else err missing

abbrev remote_walk : List Visit
remote_walk = visits (codes "f") (at_time 5) ∷ visits (codes "g") (at_time 9) ∷ []

abbrev snapshot : Index
snapshot = record { walk = remote_walk; stat = indexed; lstat = indexed }

abbrev parts : Parts World Bytes Info
parts = record {
  local = disk;
  remote = disk;
  walk_local = λ w. visits (codes "f") (at_time 7) ∷ [];
  index = λ w. ok snapshot;
  patch = λ members w. (ok tt, w);
  io_copy = λ d s w. (ok tt, w);
  file_info_header = λ info. ok info;
  write_header = λ path t link. ok tt;
  write_body = λ t body. ok tt;
  fuel = 1;
  push_first = true;
}

abbrev synced : World → Map Bytes Bool → Syncfs World
synced w m = record { world = w; changes = some m; armed = false }

abbrev f : Bytes
f = codes "f"

-- Before the first sync there is no map, and to record a change in it panics.
create_panics : (create disk f (new [])).0 ≡ panicked
unfolding create new clean_name clean trim_prefix
create_panics = refl

-- A file that could not be created is recorded as one that exists, and then no archive can be made.
abbrev read_only : FileSystem World Bytes
read_only = record disk { create = λ path w. (err missing, w) }

create_marks :
    create read_only f (synced [] [])
    ≡ (returned (err missing), record { world = []; changes = some ((f, true) ∷ []); armed = true })
unfolding create clean_name clean trim_prefix put lookup
create_marks = refl

sync_stops :
    (sync (record parts { local = read_only }) (synced [] ((f, true) ∷ []))).0
    ≡ returned (err missing)
unfolding sync lookup eq_bytes put
sync_stops = refl

-- The scan of the local files fails at the second of three: the third is not recorded, and there is
-- a map from now on, so that it is not scanned for again.
broken_walk : World → List Visit
broken_walk w =
    visits f (at_time 7)
    ∷ record { path = codes "h"; error = some (bare (other 4)); info = err missing }
    ∷ visits (codes "k") (at_time 7)
    ∷ []

sync_forgets :
    let s = (sync (record parts { walk_local = broken_walk }) (new [])).1 in
    s.changes ≡ some ((f, true) ∷ [])
unfolding sync new lookup eq_bytes put broken_walk
sync_forgets = refl

-- A file that is renamed to its own name is no longer recorded.
rename_self :
    (rename_file disk f f (synced ((f, at_time 7) ∷ []) ((f, true) ∷ []))).1.changes ≡ some []
unfolding rename_file put lookup delete eq_bytes
rename_self = refl

ok-ne_err : {A : Type 0} (a : A) (e : Error) → ok a ≢ err e
ok-ne_err a e h = cc

noting-Sets : (path : Bytes) (w : World) → Sets disk path true w (noting path w)
noting-Sets path w = record {
  done = λ u h p. ground (arith, lookup-put path p (at_time 7) w);
  failed = λ e h p. absurd (ok-ne_err _ e h);
}

creating_at-Sets : (path : Bytes) (w : World) → Sets disk path true w (creating_at path w)
creating_at-Sets path w = record {
  done = λ u h p. ground (arith, lookup-put path p (at_time 7) w);
  failed = λ e h p. absurd (ok-ne_err _ e h);
}

on_existing-Sets : (path : Bytes) (w : World) → Sets disk path true w (on_existing path w)
on_existing-Sets path w = record {
  done = λ u h p. ground (arith, h, lookup-put path p (at_time 7) w);
  failed = λ e h p. ground (arith, h);
}

removing-Sets : (path : Bytes) (w : World) → Sets disk path false w (disk.remove path w)
removing-Sets path w = record {
  done = λ u h p. ground (arith, lookup-delete path p w);
  failed = λ e h p. absurd (ok-ne_err _ e h);
}

renaming-Moves :
    (old new : Bytes) (w : World)
    → ((p : Bytes) → has_prefix p (old ++ slash ∷ []) ≡ true → succeeded (found p w) ≡ false)
    → Moves disk old new w (renaming_to old new w)
renaming-Moves old new w leaf = record {
  moved = λ h p.
      rw (move_below-leaf old new w leaf)
        (ground (arith, lookup-put new p (at_time 7) (delete old w), lookup-delete old p w));
  unmoved = λ e h p. absurd (ok-ne_err _ e h);
}

abbrev steps : List (Op Bytes)
steps = creating f ∷ making_dir (codes "d") 493 ∷ renaming f (codes "g") ∷ removing (codes "g") ∷ []

abbrev marked : Map Bytes Bool
marked = (codes "d", true) ∷ []

-- The files after the first two steps.
abbrev two_made : World
two_made = (f, at_time 7) ∷ (codes "d", at_time 7) ∷ []

f-leaf : (p : Bytes) → has_prefix p (f ++ slash ∷ []) ≡ true → succeeded (found p two_made) ≡ false
unfolding lookup has_prefix eq_bytes
f-leaf p below_f = elim (Bool-cases (f == p)) [
  | inl same ↦ absurd (ground (arith, below_f, (eq_iff f p).0 same))
  | inr differs ↦ elim (Bool-cases (codes "d" == p)) [
    | inl same ↦ absurd (ground (arith, below_f, (eq_iff (codes "d") p).0 same))
    | inr unequal ↦ rw (differs, unequal) refl
  ]
]

steps-AllSound : AllSound disk steps (synced [] [])
unfolding perform clean_name clean trim_prefix put delete lookup eq_bytes create mkdir rename_file
    move_below has_prefix
steps-AllSound = (
  creating_at-Sets f [],
  refl,
  (
    noting-Sets (codes "d") _,
    tt,
    (renaming-Moves f (codes "g") two_made f-leaf, tt, (removing-Sets (codes "g") _, tt, tt)),
  ),
)

packs :
    (path : Bytes) (info : Info) (w : World)
    → found path w ≡ ok info
    → succeeded (pack_info (λ i. ok i) (λ p t link. ok tt) (λ t body. ok tt) disk path info w).0
      ≡ true
unfolding pack_info pack_headed pack_rest pack_body
packs path info w h = ground arith

disk-CanPack : (w : World) → CanPack (λ i. ok i) (λ path t link. ok tt) (λ t body. ok tt) disk w
disk-CanPack w = (λ path info h. packs path info w h, λ path. refl)

perform_all-pack_example :
    (xs : List (Member Info)) × ((pack
        (λ i. ok i)
        (λ path t link. ok tt)
        (λ t body. ok tt)
        disk
        marked
        (perform_all disk steps (synced [] [])).world).0
      ≡ ok xs)
    × (map name xs ≡ keys marked)
    × (map is_deletion xs ≡ gone marked)
unfolding perform_all perform clean_name clean trim_prefix put delete lookup eq_bytes
perform_all-pack_example =
    perform_all-pack (λ i. ok i) (λ path t link. ok tt) (λ t body. ok tt) disk steps (synced [] [])
      marked refl steps-AllSound refl (disk-CanPack (perform_all disk steps (synced [] [])).world)

sync-Kept_example : Kept parts ((f, true) ∷ []) (sync parts (synced [] ((f, true) ∷ []))).1
sync-Kept_example = sync-Kept parts ((f, true) ∷ []) (synced [] ((f, true) ∷ [])) refl

-- `f` is recorded as gone, and `g` is missing here.
scan_remote-due_example :
    (contains (codes "g") [] || contains (codes "g") (codes "g" ∷ []))
    ≡ contains (codes "g") (due_paths (some ((f, false) ∷ [])) (λ path. found path []) remote_walk)
unfolding scan_remote lookup eq_bytes
scan_remote-due_example =
    scan_remote-due (some ((f, false) ∷ [])) (λ path. found path []) remote_walk
      (record { dirs = []; files = codes "g" ∷ [] }) (codes "g") refl

-- `f` is newer here and `g` is not here.
first_scans-disjoint_example : (contains f [] || contains f (codes "g" ∷ [])) ≡ false
unfolding scan_remote scan_local lookup eq_bytes put
first_scans-disjoint_example =
    first_scans-disjoint (λ path. found path ((f, at_time 7) ∷ [])) indexed
      (visits f (at_time 7) ∷ []) remote_walk (record { dirs = []; files = codes "g" ∷ [] }) f true
      (λ i h. h, tt) (λ i h. h, (λ i h. h, tt)) refl refl

-- `f` was written and then removed: it is fetched again.
remove-found_example :
    (contains f [] || contains f (f ∷ codes "g" ∷ []))
    ≡ (contains f (codes "f" ∷ codes "g" ∷ []) && true)
unfolding clean_name clean trim_prefix lookup delete eq_bytes contains scan_remote remove
remove-found_example =
    remove-found disk f (synced ((f, at_time 7) ∷ []) ((f, true) ∷ [])) [] ((f, true) ∷ [])
      remote_walk (record { dirs = []; files = f ∷ codes "g" ∷ [] }) missing refl refl refl refl
      not_root refl
  where
    not_root : f ≢ codes "."
    not_root e = ground (arith, e)

abbrev copies : Bytes → Run World
copies path w = some (ok tt, w)

-- A local file system that does not set times.
abbrev untimed : FileSystem World Bytes
untimed = record disk { chtimes = λ path atime mtime w. (err (bare not_supported), w) }

abbrev one_file : Pulls
one_file = record { dirs = []; files = f ∷ [] }
