-- ===== src/Metacache/Coherence.antt =====
-- What a client of fs/metacache/metacache.go sees of its own changes: after a change that
-- succeeded, reads of the paths that it touched are answered by the file system, not by the cache.
use wanix.Base.{ℕ, Bytes, ◌≡◌, refl, Bool, true, false, ◌||◌, ◌==◌, bytes_eq}
use wanix.Errors.{Result, ok, err}
use wanix.Metacache.{Slice, Action, Outcome, Backing, Fs, get_cached}
use wanix.Metacache.Ops.{
  store_info, store_entries, lift, stat_context, lstat_context, read_dir_context,
  fetch_and_cache_stat, fetch_and_cache_lstat, fetch_and_cache_read_dir,
}
use wanix.Metacache.Writes.{
  on_success, mkdir, remove, remove_all, rename, truncate, symlink, chmod, chown, chtimes,
}
use wanix.Metacache.Expiry.{passed_on}
use wanix.Metacache.Fresh.{
  IsFresh, path-IsFresh, both-IsFresh, ends-IsFresh, invalidate_parent-IsFresh,
}
use wanix.Metacache.Below.{is_within, within-IsFresh}

-- The operations that change the file system and return no file.
pub data Change : Type 0 where
  making_dir : Bytes → ℕ → Change
  removing removing_all : Bytes → Change
  renaming symlinking : Bytes → Bytes → Change
  truncating changing_mode : Bytes → ℕ → Change
  changing_owner changing_times : Bytes → ℕ → ℕ → Change

-- The paths that a change is made to: those it is given, and of RemoveAll the ones below. What is
-- below a renamed directory is left out, and so is Mkdir: they are not invalidated.
abbrev pub touches : Change → Bytes → Bool
touches (making_dir name perm) p = false
touches (removing name) p = name == p
touches (removing_all name) p = is_within name p
touches (renaming old new) p = old == p || new == p
touches (symlinking old new) p = new == p
touches (truncating name size) p = name == p
touches (changing_mode name mode) p = name == p
touches (changing_owner name uid gid) p = name == p
touches (changing_times name atime mtime) p = name == p

-- The paths that a change adds to their directory or takes from it.
abbrev pub relinks : Change → Bytes → Bool
relinks (making_dir name perm) p = name == p
relinks (removing name) p = name == p
relinks (removing_all name) p = name == p
relinks (renaming old new) p = old == p || new == p
relinks (symlinking old new) p = new == p
relinks _ p = false

module _ {S Info DirEntry H : Type 0} (b : Backing S Info DirEntry H) where
  abbrev pub perform : Change → Action (Fs S Info DirEntry) Outcome
  perform (making_dir name perm) = mkdir b name perm
  perform (removing name) = remove b name
  perform (removing_all name) = remove_all b name
  perform (renaming old new) = rename b old new
  perform (symlinking old new) = symlink b old new
  perform (truncating name size) = truncate b name size
  perform (changing_mode name mode) = chmod b name mode
  perform (changing_owner name uid gid) = chown b name uid gid
  perform (changing_times name atime mtime) = chtimes b name atime mtime

  -- The reads of a path have the answers of the file system under the cache, at any time.
  pub record SeesBacking (name : Bytes) (f : Fs S Info DirEntry) : Type 0 where
    pub stat :
        (now later : ℕ) → (stat_context b now later name f).0 ≡ passed_on (b.stat name f.state).0
    pub lstat :
        (now later : ℕ) → (lstat_context b now later name f).0 ≡ passed_on (b.lstat name f.state).0
    pub read_dir :
        (now later : ℕ) → (read_dir_context b now later name f).0 ≡ (b.read_dir name f.state).0

module _ {S Info DirEntry H : Type 0} (b : Backing S Info DirEntry H) where
  pub store_info-answer :
      (later : ℕ) (key : Bytes) (r : Result Info) (f : Fs S Info DirEntry)
      → (store_info b later key r f).0 ≡ passed_on r
  store_info-answer later key (ok info) f = refl
  store_info-answer later key (err e) f = refl

  pub store_entries-answer :
      (later : ℕ) (name key : Bytes) (r : Result (Slice DirEntry)) (f : Fs S Info DirEntry)
      → (store_entries b later name key r f).0 ≡ r
  store_entries-answer later name key (ok entries) f = refl
  store_entries-answer later name key (err e) f = refl

  pub IsFresh→SeesBacking :
      (name : Bytes) (f : Fs S Info DirEntry) → IsFresh name f.cache → SeesBacking b name f
  unfolding stat_context lstat_context read_dir_context get_cached fetch_and_cache_stat
      fetch_and_cache_lstat fetch_and_cache_read_dir
  IsFresh→SeesBacking name f h = record {
    stat = λ now later. rw h.at_stat (store_info-answer later _ (b.stat name f.state).0 _);
    lstat = λ now later. rw h.at_lstat (store_info-answer later _ (b.lstat name f.state).0 _);
    read_dir = λ now later.
        rw h.at_read_dir (store_entries-answer later name _ (b.read_dir name f.state).0 _);
  }

  pub success-SeesBacking :
      (act : Fs S Info DirEntry → Fs S Info DirEntry) (m : Outcome × Fs S Info DirEntry)
      (name : Bytes)
      → ((g : Fs S Info DirEntry) → IsFresh name (act g).cache)
      → (on_success act m).0 ≡ ok tt
      → SeesBacking b name (on_success act m).1
  success-SeesBacking act (ok u, f) name fresh h = IsFresh→SeesBacking name (act f) (fresh f)
  success-SeesBacking act (err e, f) name fresh h = cc

  -- After a Remove, RemoveAll, Rename, Symlink, Truncate, Chmod, Chown or Chtimes that succeeded,
  -- Stat, Lstat and ReadDir of the path that was changed, of both paths of a Rename, and of every
  -- path below that of a RemoveAll (other than the root) give the answer of the file system under
  -- the cache, at whatever time they are made; of a path below a renamed one nothing is said.
  pub perform-SeesBacking :
      (c : Change) (f : Fs S Info DirEntry) (name : Bytes)
      → (perform b c f).0 ≡ ok tt
      → touches c name ≡ true
      → SeesBacking b name (perform b c f).1
  unfolding remove remove_all rename truncate symlink chmod chown chtimes
  perform-SeesBacking (making_dir p perm) f name h t = cc
  perform-SeesBacking (removing p) f name h t =
      success-SeesBacking _ (lift (b.remove p) f) name (both-IsFresh p name t) h
  perform-SeesBacking (removing_all p) f name h t =
      success-SeesBacking _ (lift (b.remove_all p) f) name
        (λ g. invalidate_parent-IsFresh p name _ (within-IsFresh p name t g)) h
  perform-SeesBacking (renaming old new) f name h t =
      success-SeesBacking _ (lift (b.rename old new) f) name (ends-IsFresh old new name t) h
  perform-SeesBacking (symlinking old new) f name h t =
      success-SeesBacking _ (lift (b.symlink old new) f) name (both-IsFresh new name t) h
  perform-SeesBacking (truncating p size) f name h t =
      success-SeesBacking _ (lift (b.truncate p size) f) name (path-IsFresh p name t) h
  perform-SeesBacking (changing_mode p mode) f name h t =
      success-SeesBacking _ (lift (b.chmod p mode) f) name (path-IsFresh p name t) h
  perform-SeesBacking (changing_owner p uid gid) f name h t =
      success-SeesBacking _ (lift (b.chown p uid gid) f) name (path-IsFresh p name t) h
  perform-SeesBacking (changing_times p atime mtime) f name h t =
      success-SeesBacking _ (lift (b.chtimes p atime mtime) f) name (path-IsFresh p name t) h
