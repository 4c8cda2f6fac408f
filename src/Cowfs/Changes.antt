-- ===== src/Cowfs/Changes.antt =====
-- Rename, Remove, Symlink and Mkdir of fs/cowfs/cowfs.go.
use wanix.Base.{
  ℕ, Bytes, Bool, true, false, not, ◌&&◌, List, [], ◌∷◌, if◌then◌else◌, ◌==◌, bytes_eq, eq_bytes,
  is_empty, keep_if, Map, lookup, delete,
}
use wanix.Errors.{bare, not_exist, invalid, exist, Result, ok, err}
use wanix.Paths.{clean, dir, dot, join}
use wanix.Actions.{Action, ◌>>=◌, ◌>>◌, return, lift, ask, modify, fail_if, when}
use wanix.Cowfs.{
  Layers, Fs, known, is_dead, resolve_path, resolve_terminal, overlay_ask, on_overlay, tombstone,
  record_rename,
}

-- The renames that do not lead to the path.
unfoldable pub drop_values : Bytes → Map Bytes Bytes → Map Bytes Bytes
unfolding eq_bytes
drop_values target [] = []
drop_values target ((k, v) ∷ m) =
    let rest = drop_values target m in if v == target then rest else (k, v) ∷ rest

module _ {S Info H : Type 0} (l : Layers S Info H) where
  -- Lstat and Stat of the two layers, where a missing file is no error.
  abbrev pub in_base : Bytes → Action (Fs S) Bool
  in_base name = lift (known (l.base_lstat name))

  abbrev pub in_overlay : Bytes → Action (Fs S) Bool
  in_overlay name = overlay_ask (λ s. known (l.lstat name s))

  abbrev pub overlay_stats : Bytes → Action (Fs S) Bool
  overlay_stats name = overlay_ask (λ s. known (l.stat name s))

  abbrev pub base_stats : Bytes → Action (Fs S) Bool
  base_stats name = lift (known (l.base_stat name))

  -- Go on with the state after a step, or end the walk where the step failed.
  abbrev pub unless_failed : (Fs S → Fs S) → Result (Unit {0}) × Fs S → Fs S
  unless_failed rest (ok done, t) = rest t
  unless_failed rest (err e, t) = t

  -- Every rename that leads to `src` now leads to `new`. The walk over the entries ends where one
  -- cannot be written to the overlay, which is only logged.
  unfoldable pub redirect : Bytes → Bytes → List (Bytes × Bytes) → Fs S → Fs S
  unfolding record_rename eq_bytes
  redirect src new [] u = u
  redirect src new ((k, v) ∷ entries) u =
      let rest = redirect src new entries in
      if v == src then unless_failed rest (record_rename l k new u) else rest u

  -- A directory above the destination of a rename.
  abbrev pub rename_parent : Bytes → Action (Fs S) (Unit {0})
  rename_parent d =
      when (not (d == dot))
        (do there ← overlay_stats d; when (not there) (on_overlay (l.mkdir_all d 493)))

  abbrev pub move_content : Bool → Bytes → Bytes → Action (Fs S) (Unit {0})
  move_content true src new = on_overlay (l.rename src new)
  move_content false src new = on_overlay (l.copy_up src new)

  abbrev pub redirect_all : Bytes → Bytes → Fs S → Fs S
  redirect_all src new u = redirect src new u.renames u

  -- What is written down after the content has moved.
  unfoldable pub moved : Bool → Bytes → Bytes → Bytes → Action (Fs S) (Unit {0})
  unfolding tombstone redirect record_rename delete eq_bytes
  moved src_in_base old src new = do
    when src_in_base (tombstone l src)
    when (not (old == src) && src_in_base) (tombstone l old)
    modify (redirect_all src new)
    when src_in_base (record_rename l old new)
    modify (λ u. record u { tombstones = delete new u.tombstones })

  unfoldable pub rename : Bytes → Bytes → Action (Fs S) (Unit {0})
  unfolding resolve_path tombstone moved clean dir eq_bytes
  rename old_name new_name =
      let old = clean old_name in
      let new = clean new_name in
      do
        src ← ask (resolve_path old)
        src_in_base ← in_base src
        src_in_overlay ← in_overlay src
        fail_if (not src_in_base && not src_in_overlay) (bare not_exist)
        new_in_overlay ← in_overlay new
        when new_in_overlay (on_overlay (l.remove new))
        new_in_base ← in_base new
        when new_in_base (tombstone l new)
        rename_parent (dir new)
        move_content src_in_overlay src new
        moved src_in_base old src new

  abbrev known_dir : Result Info → Bool
  known_dir (ok info) = l.is_dir info
  known_dir (err e) = false

  -- Whether the file to remove is a directory, in the layer that shows it.
  abbrev pub target_is_dir : Bool → Bool → Bytes → Action (Fs S) Bool
  target_is_dir true base target = ask (λ u. ok (known_dir (l.lstat target u.overlay)))
  target_is_dir false true target = return (known_dir (l.base_lstat target))
  target_is_dir false false target = return false

  abbrev pub overlay_entries : Bool → Bytes → Action (Fs S) (List Bytes)
  overlay_entries true target = overlay_ask (l.entries target)
  overlay_entries false target = return []

  abbrev pub base_entries : Bool → Bytes → Action (Fs S) (List Bytes)
  base_entries true target = lift (l.base_entries target)
  base_entries false target = return []

  -- The directory has no entries but those of the base that are deleted.
  abbrev pub check_empty : Bool → Bool → Bytes → Action (Fs S) (Unit {0})
  check_empty overlay base target = do
    above ← overlay_entries overlay target
    beneath ← base_entries base target
    dead ← ask (λ u. ok (is_empty (keep_if (λ e. not (is_dead (join target e) u)) beneath)))
    fail_if (not (dead && is_empty above)) (bare invalid)

  -- The tombstone of a file that was never there is written too, and its error only logged.
  abbrev pub bury_missing : Bytes → Fs S → Result (Unit {0}) × Fs S
  bury_missing target u = (err (bare not_exist), (tombstone l target u).1)

  abbrev pub remove_there : Bool → Bool → Bytes → Action (Fs S) (Unit {0})
  remove_there base overlay target = do
    directory ← target_is_dir overlay base target
    when directory (check_empty overlay base target)
    when overlay (on_overlay (l.remove target))
    tombstone l target
    modify (λ u. record u { renames = drop_values target u.renames })

  abbrev pub remove_known : Bool → Bool → Bool → Bytes → Action (Fs S) (Unit {0})
  remove_known true base overlay target = when overlay (on_overlay (l.remove target))
  remove_known false base overlay target =
      if not base && not overlay then bury_missing target else remove_there base overlay target

  unfoldable pub remove : Bytes → Action (Fs S) (Unit {0})
  unfolding resolve_terminal tombstone drop_values clean join eq_bytes lookup
  remove name = do
    target ← ask (λ u. resolve_terminal (clean name) u.renames)
    base ← in_base target
    overlay ← in_overlay target
    dead ← ask (λ u. ok (is_dead target u))
    remove_known dead base overlay target

  -- The directory of a new file, which must be in a layer, and is made in the overlay.
  abbrev pub new_parent : Bytes → Action (Fs S) (Unit {0})
  new_parent d = when (not (d == dot)) (do
    above ← overlay_stats d
    beneath ← base_stats d
    fail_if (not above && not beneath) (bare not_exist)
    when (not above && beneath) (on_overlay (l.mkdir_all d 493)))

  abbrev pub revive : Bytes → Action (Fs S) (Unit {0})
  revive name = modify (λ u. record u { tombstones = delete name u.tombstones })

  unfoldable pub symlink : Bytes → Bytes → Action (Fs S) (Unit {0})
  unfolding tombstone clean dir eq_bytes delete
  symlink old new_name =
      let new = clean new_name in
      do
        new_parent (dir new)
        overlay ← in_overlay new
        when overlay (on_overlay (l.remove new))
        base ← in_base new
        when base (tombstone l new)
        on_overlay (l.symlink old new)
        revive new

  unfoldable pub mkdir : Bytes → ℕ → Action (Fs S) (Unit {0})
  unfolding tombstone clean dir eq_bytes delete
  mkdir name perm =
      let path = clean name in
      do
        overlay ← in_overlay path
        fail_if overlay (bare exist)
        base ← in_base path
        new_parent (dir path)
        when base (tombstone l path)
        on_overlay (l.mkdir path perm)
        revive path
