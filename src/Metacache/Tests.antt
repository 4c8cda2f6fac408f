-- ===== src/Metacache/Tests.antt =====
-- A concrete file system under the cache of fs/metacache/metacache.go, runs of it, and the
-- theorems at it. Its state is a version number: at 0 every path is missing, at any other every
-- path exists and has the version as its information; each change makes a new version.
use wanix.Base.{
  ℕ, suc, codes, ◌≡◌, refl, true, false, none, some, [], ◌∷◌, arith, if◌then◌else◌, ltb, bytes_eq,
  eq_bytes, lookup, put, delete,
}
use wanix.Errors.{Result, ok, err, bare, path_error, not_exist}
use wanix.Paths.{dir, valid_path}
use wanix.Metacache.{
  invalidate, Backing, Fs, Outcome, normalize_path, CacheEntry, get_cached, set_cached,
  invalidate_parent,
}
use wanix.Metacache.Ops.{stat_context, read_dir_context, fetch_and_cache_stat}
use wanix.Metacache.Handle.{File, wrap_file, file_write, file_close}
use wanix.Metacache.Writes.{mkdir, remove}
use wanix.Metacache.Expiry.{stat-fetched}
use wanix.Metacache.Coherence.{removing, making_dir, perform, perform-SeesBacking, SeesBacking}
use wanix.Metacache.Listing.{perform-lists}
use wanix.Metacache.Iterate.{read_pieces, read_pieces_lem}

abbrev found : ℕ → Result ℕ
found n = if ltb 0 n then ok n else err (path_error "stat" [] not_exist)

abbrev changed : ℕ → Outcome × ℕ
changed n = (ok tt, suc n)

abbrev versions : Backing ℕ ℕ ℕ ℕ
versions = record {
  stat = λ name n. (found n, n);
  lstat = λ name n. (found n, n);
  read_dir = λ name n. (ok (some (n ∷ [])), n);
  open_file = λ name flag perm n. (ok n, n);
  open_read = λ name n. (ok n, n);
  create = λ name n. (ok n, suc n);
  mkdir = λ name perm. changed;
  mkdir_all = λ name perm. changed;
  remove = λ name. changed;
  remove_all = λ name. changed;
  rename = λ old new. changed;
  truncate = λ name size. changed;
  symlink = λ old new. changed;
  chmod = λ name mode. changed;
  chown = λ name uid gid. changed;
  chtimes = λ name atime mtime. changed;
  file_stat = λ h n. (found n, n);
  is_writer = λ h. true;
  file_write = λ h p n. ((1, none), suc n);
  is_writer_at = λ h. false;
  file_write_at = λ h p off n. ((0, none), n);
  file_close = λ h n. (none, n);
}

abbrev start : ℕ → Fs ℕ ℕ ℕ
start n = record { cache = []; ttl = 10; state = n; spawned = [] }

-- The second read is a hit, the third comes after the expiry.
hit_then_expiry :
    let f = (stat_context versions 100 100 (codes "/a") (start 3)).1 in
    let g = record f { state = 8 } in
    ((stat_context versions 110 110 (codes "a") g).0 ≡ ok (some 3))
    × ((stat_context versions 111 111 (codes "a") g).0 ≡ ok (some 8))
unfolding stat_context fetch_and_cache_stat normalize_path get_cached set_cached lookup put eq_bytes
hit_then_expiry = (refl, refl)

stat-fetched_example :
    (stat_context versions 110 110
      (codes "a")
      (record (fetch_and_cache_stat versions 100
        (codes "a")
        (normalize_path (codes "a"))
        (start 3)).1 { state = 8 })).0
    ≡ ok (some 3)
stat-fetched_example = stat-fetched versions 100 110 110 (codes "a") (start 3) 3 8 refl

-- A cache that holds the missing path `a`, and the file `d/x`, until 150.
abbrev missing_a : CacheEntry ℕ ℕ
missing_a = record {
  info = none;
  entries = none;
  error = some (bare not_exist);
  cached_at = 145;
  renews_at = none;
  expires_at = 150;
}

abbrev present : CacheEntry ℕ ℕ
present = record {
  info = some 4;
  entries = none;
  error = none;
  cached_at = 140;
  renews_at = some 145;
  expires_at = 150;
}

abbrev warm : Fs ℕ ℕ ℕ
warm = record {
  cache = (codes "a", missing_a) ∷ (codes "d/x", present) ∷ [];
  ttl = 10;
  state = 4;
  spawned = [];
}

perform-SeesBacking_example :
    SeesBacking versions (codes "d/x") (perform versions (removing (codes "d/x")) warm).1
perform-SeesBacking_example =
    perform-SeesBacking versions (removing (codes "d/x")) warm (codes "d/x") (unfold remove in refl)
      (unfold eq_bytes in refl)

perform-lists_example :
    (read_dir_context versions 100 100
      (dir (codes "d/y"))
      (perform versions (making_dir (codes "d/y") 0) warm).1).0
    ≡ ok (some (5 ∷ []))
unfolding mkdir eq_bytes valid_path invalidate_parent
perform-lists_example =
    perform-lists versions (making_dir (codes "d/y") 0) warm (codes "d/y") 100 100 refl refl refl

abbrev made : Fs ℕ ℕ ℕ
made = record { cache = (codes "d/x", present) ∷ []; ttl = 10; state = 5; spawned = [] }

abbrev listing : File ℕ ℕ
listing = record {
  handle = 0;
  name = codes "d";
  written = false;
  dir_entries = some (1 ∷ 2 ∷ 3 ∷ 4 ∷ 5 ∷ []);
  dir_offset = 1;
}

read_pieces_example : read_pieces 5 3 listing ≡ 2 ∷ 3 ∷ 4 ∷ 5 ∷ []
read_pieces_example = read_pieces_lem 5 2 listing (omega arith)

-- A write through an open file makes its path fresh when the file is closed.
close_after_write :
    let wf = wrap_file {H = ℕ} {DirEntry = ℕ} 0 (codes "d/x") in
    let (n, wf', f) = file_write versions (codes "z") wf warm in
    (stat_context versions 148 148 (codes "d/x") (file_close versions wf' f).1).0 ≡ ok (some 5)
unfolding stat_context fetch_and_cache_stat normalize_path get_cached set_cached lookup put eq_bytes
    file_write file_close wrap_file dir delete invalidate invalidate_parent
close_after_write = refl
