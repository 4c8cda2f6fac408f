-- ===== src/Cowfs/Views.antt =====
-- Stat, Readlink, Deleted, OpenFile, Open and Whiteout of fs/cowfs/cowfs.go.
use wanix.Base.{
  ℕ, Bytes, codes, Bool, true, false, not, ◌&&◌, ◌||◌, Option, none, some, List, [], ◌∷◌,
  if◌then◌else◌, ◌==◌, bytes_eq, eq_bytes, has_prefix, Map, lookup, put, delete, keys, sort_strings,
  trim_space, split_on,
}
use wanix.Errors.{Error, bare, not_exist, exist, other, Result, ok, err, is_not_exist}
use wanix.Paths.{clean, dir, dot, join}
use wanix.Contexts.{Ctx, follow_symlinks}
use wanix.Actions.{Action, ◌>>=◌, ◌>>◌, return, ask, modify, fail_if, when, then_do}
use wanix.Cowfs.{Layers, Fs, Flags, is_dead, resolve_path, on_overlay, should_copy}
use wanix.Cowfs.Changes.{in_base, in_overlay, overlay_stats, base_stats, revive}

-- A read of the overlay, or of the base where the overlay has no such file.
abbrev pub or_base : {A : Type 0} → Result A → Result A → Result A
or_base (ok a) beneath = ok a
or_base (err e) beneath = if is_not_exist e then beneath else err e

module _ {S : Type 0} where
  -- The resolved name, which is checked for a tombstone once more.
  unfoldable pub visible : Bytes → Fs S → Result Bytes
  unfolding resolve_path clean
  visible name u = again (resolve_path (clean name) u)
    where
      again : Result Bytes → Result Bytes
      again (err e) = err e
      again (ok path) = if is_dead path u then err (bare not_exist) else ok path

  -- Whether an open directory hides an entry.
  unfoldable pub hides : Bytes → Fs S → Bytes → Bool
  unfolding join lookup
  hides path u name = is_dead (join path name) u

  -- The names that are deleted or moved, sorted.
  unfoldable pub deleted : Fs S → List Bytes
  unfolding put keys sort_strings
  deleted u = sort_strings (keys (add_all (keys u.renames) (add_all (keys u.tombstones) [])))
    where
      add_all : List Bytes → Map Bytes (Unit {0}) → Map Bytes (Unit {0})
      add_all [] m = m
      add_all (p ∷ ps) m = add_all ps (put p tt m)

abbrev and_then : {A B : Type 0} → Result A → (A → Result B) → Result B
and_then (ok a) next = next a
and_then (err e) next = err e

module _ {F S Info H : Type 0} (l : Layers S Info H) where
  unfoldable pub stat_context : Ctx F → Bytes → Fs S → Result Info
  unfolding visible follow_symlinks
  stat_context ctx name u = and_then (visible name u) (λ path.
      if follow_symlinks ctx
      then or_base (l.stat path u.overlay) (l.base_stat path)
      else or_base (l.lstat path u.overlay) (l.base_lstat path))

module _ {S Info H : Type 0} (l : Layers S Info H) where
  unfoldable pub readlink : Bytes → Fs S → Result Bytes
  unfolding visible
  readlink name u =
      and_then (visible name u) (λ path. or_base (l.readlink path u.overlay) (l.base_readlink path))

  -- A file that is to be made has its own name if the resolved one is deleted.
  abbrev pub open_name : Bytes → Result Bytes → Result Bytes
  open_name name (ok path) = ok path
  open_name name (err e) = if is_not_exist e then ok name else err e

  abbrev pub is_writing : Flags → Bool
  is_writing f = f.wronly || f.rdwr || f.append || f.create || f.trunc

  abbrev pub write_parent : Bool → Bytes → Action (Fs S) (Unit {0})
  write_parent creating d = when (not (d == dot)) (do
    above ← overlay_stats l d
    beneath ← base_stats l d
    fail_if (not above && not (beneath || creating)) (bare not_exist)
    when (not above) (on_overlay (l.mkdir_all d 493)))

  -- An error of a missing file is passed over.
  abbrev pub forgiven : Result (Unit {0}) × Fs S → Result (Unit {0}) × Fs S
  forgiven (ok done, t) = (ok done, t)
  forgiven (err e, t) = if is_not_exist e then (ok tt, t) else (err e, t)

  abbrev pub bring_up : Flags → Bytes → ℕ → Action (Fs S) (Unit {0})
  bring_up flag path perm =
      if flag.trunc
      then when flag.create (on_overlay (l.write_file path [] perm))
      else (λ t. forgiven (on_overlay (l.copy_up path path) t))

  abbrev pub open_to_write : Bool → Bool → Bytes → Flags → ℕ → Action (Fs S) H
  open_to_write overlay base path flag perm = do
    write_parent flag.create (dir path)
    when (base && not overlay) (bring_up flag path perm)
    f ← on_overlay (l.open_file path flag perm)
    revive l path
    return f

  abbrev pub open_to_read : Bytes → Flags → ℕ → Action (Fs S) H
  open_to_read path flag perm u = elim (on_overlay (l.open_file path flag perm) u).0 [
    | ok f ↦ (ok f, (on_overlay (l.open_file path flag perm) u).1)
    | err e ↦ (
      if is_not_exist e then l.base_open_file path flag perm else err e,
      (on_overlay (l.open_file path flag perm) u).1,
    )
  ]

  unfoldable pub open_file : Bytes → Flags → ℕ → Action (Fs S) H
  unfolding resolve_path clean dir eq_bytes delete lookup
  open_file name flag perm = do
    path ← ask (λ u. open_name (clean name) (resolve_path (clean name) u))
    dead ← ask (λ u. ok (is_dead path u))
    fail_if (not flag.create && dead) (bare not_exist)
    overlay ← in_overlay l path
    base ← in_base l path
    fail_if (flag.create && flag.excl && ((base && not dead) || overlay)) (bare exist)
    if is_writing flag
        then open_to_write overlay base path flag perm
        else open_to_read path flag perm

  unfoldable pub create : Bytes → Action (Fs S) H
  unfolding open_file
  create name =
      open_file name
        (record {
          wronly = false;
          rdwr = true;
          append = false;
          create = true;
          trunc = true;
          excl = false;
        })
        438

  -- What Open gives: a file of a layer, or the OverlayFile of a directory of the base, under one of
  -- the overlay if there is one.
  pub data Opened : Type 0 where
    plain : H → Opened
    merged : Bytes → H → Option H → Opened

  abbrev pub dir_in : Result Info → Result Bool
  dir_in (ok info) = ok (l.is_dir info)
  dir_in (err e) = err e

  abbrev as_plain : Result H → Result Opened
  as_plain (ok f) = ok (plain f)
  as_plain (err e) = err e

  -- Both directories, and an error that names both errors.
  abbrev both : Bytes → Result H → Result H → Result Opened
  both path (ok b) (ok f) = ok (merged path b (some f))
  both path _ _ = err (bare (other 0))

  abbrev base_dir : Bytes → Result H → Result Opened
  base_dir path (ok b) = ok (merged path b none)
  base_dir path (err e) = err e

  abbrev pub open_base : Bytes → Result Bool → Result Opened
  open_base path (ok true) = base_dir path (l.base_open path)
  open_base path _ = as_plain (l.base_open path)

  abbrev open_both : Bytes → S → Result Bool → Result Opened
  open_both path s (ok true) = both path (l.base_open path) (l.open_read path s)
  open_both path s _ = as_plain (l.open_read path s)

  abbrev pub open_overlay : Bytes → S → Result Bool → Result Opened
  open_overlay path s (ok true) = open_both path s (dir_in (l.base_lstat path))
  open_overlay path s (ok false) = as_plain (l.open_read path s)
  open_overlay path s (err e) =
      if is_not_exist e then open_base path (dir_in (l.base_lstat path)) else err e

  abbrev pub open_by : Bytes → S → Result Bool → Result Opened
  open_by path s (ok true) = open_base path (dir_in (l.base_lstat path))
  open_by path s (ok false) = open_overlay path s (dir_in (l.lstat path s))
  open_by path s (err e) =
      if is_not_exist e then open_overlay path s (dir_in (l.lstat path s)) else err e

  unfoldable pub open_name_read : Bytes → Fs S → Result Opened
  unfolding visible should_copy
  open_name_read name u =
      and_then (visible name u) (λ path. open_by path u.overlay (should_copy l path u).0)

-- A tracking file of the whiteout directory, by its path, with what reading it gives.
abbrev pub Tracking : Type 0
Tracking = Bytes × Result Bytes

-- An index out of range, which stops the program.
abbrev pub index_panic : Error
index_panic = bare (other 1)

module _ {S : Type 0} where
  abbrev renamed_by : List Bytes → Fs S → Result (Unit {0}) × Fs S
  renamed_by (old ∷ new ∷ _) u = (ok tt, record u { renames = put old new u.renames })
  renamed_by _ u = (err index_panic, u)

  unfoldable pub load_content : Bytes → Bytes → Bytes → Action (Fs S) (Unit {0})
  unfolding has_prefix join put trim_space split_on
  load_content d path content u =
      if has_prefix path (join d (codes "deletes"))
      then (ok tt, record u { tombstones = put (trim_space content) tt u.tombstones })
      else if has_prefix path (join d (codes "renames"))
      then renamed_by (split_on 32 (trim_space content)) u
      else (ok tt, u)

  unfoldable pub load_all : Bytes → List Tracking → Action (Fs S) (Unit {0})
  unfolding load_content
  load_all d [] u = (ok tt, u)
  load_all d ((path, err e) ∷ files) u = (err e, u)
  load_all d ((path, ok content) ∷ files) u =
      then_do (load_content d path content u) (λ _. load_all d files)

-- `walk` lists the files below the directory in the overlay.
unfoldable pub whiteout :
    {S Info H : Type 0}
    → Layers S Info H
    → (Bytes → S → List Tracking)
    → Bytes
    → Action (Fs S) (Unit {0})
unfolding load_all join
whiteout l walk d = do
  modify (λ u. record u { whiteout_dir = d })
  on_overlay (l.mkdir_all (join d (codes "deletes")) 493)
  on_overlay (l.mkdir_all (join d (codes "renames")) 493)
  (λ u. load_all d (walk d u.overlay) u)
