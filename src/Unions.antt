-- ===== src/Unions.antt =====
-- fs/fskit/unionfs.go: the file systems that answer together, in their order.
pub mod First
pub mod Tests
use wanix.Base.{
  Bytes, codes, Bool, true, false, not, ◌&&◌, ◌||◌, Option, none, some, List, [], ◌∷◌, ◌++◌,
  if◌then◌else◌, ◌==◌, bytes_eq, eq_bytes, ◌⊎◌, inl, inr,
}
use wanix.Errors.{Error, path_error, not_exist, invalid, Result, ok, err, is_not_exist}
use wanix.Paths.{dot, valid_path}
use wanix.Contexts.{Ctx, is_read_only, with_origin}
use wanix.Listings.{dir_file_entries}

-- What a union calls of its file systems. `itself` is the union as a file system.
pub record Members (F E H : Type 0) : Type 0 where
  pub itself : F
  -- fs.Equal
  pub same : F → F → Bool
  -- the method ResolveFS, if the file system has one
  pub resolver : F → Option (Ctx F → Bytes → Result (F × Bytes))
  -- the type assertion to fs.CreateFS
  pub is_create_fs : F → Bool
  -- whether fs.StatContext succeeds
  pub exists : Ctx F → F → Bytes → Bool
  pub open_at : Ctx F → F → Bytes → Result H
  pub read_dir : Ctx F → F → Bytes → Result (List E)
  pub name_of : E → Bytes

pub data Opened (E H : Type 0) : Type 0 where
  file : H → Opened E H
  directory : List E → Opened E H

-- What a member says of a name: an end of the search, that it has not the name, or to stat it later.
pub data Answer (F : Type 0) : Type 0 where
  ends : Result (F × Bytes) → Answer F
  skips : Answer F
  stats : Answer F

module _ {F E H : Type 0} (m : Members F E H) (ctx : Ctx F) where
  abbrev pub answer : F → Bytes → Result (F × Bytes) → Answer F
  answer fsys name (err e) = if is_not_exist e then skips else ends (err e)
  answer fsys name (ok (rfsys, rname)) =
      if not (is_read_only ctx) && m.is_create_fs rfsys
      then ends (ok (rfsys, rname))
      else if not (eq_bytes rname name) || not (m.same rfsys fsys)
      then ends (ok (rfsys, rname))
      else stats

  abbrev asked : F → Bytes → Option (Ctx F → Bytes → Result (F × Bytes)) → Answer F
  asked fsys name none = stats
  asked fsys name (some resolve) = answer fsys name (resolve ctx name)

  unfoldable pub ask : Bytes → F → Answer F
  unfolding is_read_only eq_bytes
  ask name fsys = asked fsys name (m.resolver fsys)

  abbrev with_answer : F → Answer F → Result (F × Bytes) ⊎ List F → Result (F × Bytes) ⊎ List F
  with_answer fsys (ends r) rest = inl r
  with_answer fsys skips rest = rest
  with_answer fsys stats (inl r) = inl r
  with_answer fsys stats (inr to_stat) = inr (fsys ∷ to_stat)

  -- The first loop: an end, or the members to stat.
  unfoldable pub ask_all : Bytes → List F → Result (F × Bytes) ⊎ List F
  unfolding ask
  ask_all name [] = inr []
  ask_all name (f ∷ fs) = with_answer f (ask name f) (ask_all name fs)

  -- The second loop: the first that has the name, and takes changes where they may be meant.
  unfoldable pub stat_all : Bytes → List F → F × Bytes
  unfolding is_read_only
  stat_all name [] = (m.itself, name)
  stat_all name (f ∷ fs) =
      if m.exists ctx f name && (is_read_only ctx || m.is_create_fs f)
      then (f, name)
      else stat_all name fs

  abbrev pub stated : Bytes → Result (F × Bytes) ⊎ List F → Result (F × Bytes)
  stated name (inl r) = r
  stated name (inr to_stat) = ok (stat_all name to_stat)

  unfoldable pub resolve_fs : Bytes → List F → Result (F × Bytes)
  unfolding ask_all stat_all is_read_only eq_bytes
  resolve_fs name [] = err (path_error "resolve" name not_exist)
  resolve_fs name (f ∷ []) = ok (f, name)
  resolve_fs name fs =
      if name == dot && is_read_only ctx then ok (m.itself, name) else stated name (ask_all name fs)

  -- The entries of the members that can be read.
  abbrev readable : Result (List E) → List E
  readable (ok es) = es
  readable (err e) = []

  unfoldable pub all_entries : Bytes → List F → List E
  all_entries name [] = []
  all_entries name (f ∷ fs) = readable (m.read_dir ctx f name) ++ all_entries name fs

  abbrev opened : Result H → Result (Opened E H)
  opened (err e) = err e
  opened (ok f) = ok (file f)

  abbrev open_resolved : Bytes → List F → Result (F × Bytes) → Result (Opened E H)
  open_resolved name fs (err e) = err e
  open_resolved name fs (ok (rfsys, rname)) =
      if not (eq_bytes rname name) || not (m.same rfsys m.itself)
      then opened (m.open_at ctx rfsys rname)
      else if not (name == dot)
      then err (path_error "open" name not_exist)
      else ok (directory (dir_file_entries m.name_of (all_entries name fs)))

  unfoldable pub open_context : Bytes → List F → Result (Opened E H)
  unfolding resolve_fs all_entries dir_file_entries eq_bytes valid_path
  open_context name fs =
      if valid_path name
      then open_resolved name fs (resolve_fs name fs)
      else err (path_error "open" name invalid)
