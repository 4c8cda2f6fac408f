-- ===== src/Httpfs/Crashes.antt =====
-- fs/httpfs/cacher.go: calls that panic, and calls that do not.
use wanix.Base.{
  ℕ, suc, ◌≤◌, ◌≡◌, ◌≢◌, refl, Bytes, false, none, some, arith, bytes_eq, eq_bytes_iff, lookup,
}
use wanix.Errors.{Error, panicked}
use wanix.Paths.{dot, dir}
use wanix.Httpfs.{
  Cacher, miss, failed, cached_node, cached_entry, renewed, normalize_path, error_entry,
}
use wanix.Httpfs.Fetch.{Server, is_attr}
use wanix.Httpfs.Reads.{stat_context, stat_missed, expects_dir, parent_lists, fetch_stat}

module _ {W I : Type 0} (now : ℕ) (name : Bytes) (c : Cacher W I) where
  cached_node-miss :
      lookup (normalize_path name) c.cache ≡ none → cached_node now name c ≡ (miss, c)
  unfolding cached_node cached_entry
  cached_node-miss absent = rw (cached_node, absent) refl

  cached_node-failed :
      (cached_at : ℕ) (e : Error)
      → lookup (normalize_path name) c.cache ≡ some (error_entry cached_at c.ttl e)
      → now ≤ (error_entry {I = I} cached_at c.ttl e).expires_at
      → cached_node now name c ≡ (failed e, c)
  unfolding cached_node cached_entry renewed error_entry
  cached_node-failed cached_at e there fresh =
      rw (cached_node, there, cached_entry) (ground (arith, fresh))

module _ {W I : Type 0} (server : Server W I) (now later : ℕ) where
  -- Stat of a name that is not cached, other than the root and the attribute files, panics where
  -- its parent is cached as an error that has not expired.
  pub stat_context-panics :
      (fuel : ℕ) (name : Bytes) (c : Cacher W I) (cached_at : ℕ) (e : Error)
      → lookup (normalize_path name) c.cache ≡ none
      → lookup (normalize_path (dir name)) c.cache ≡ some (error_entry cached_at c.ttl e)
      → now ≤ (error_entry {I = I} cached_at c.ttl e).expires_at
      → is_attr name ≡ false
      → name ≢ dot
      → stat_context server now later (suc fuel) name c ≡ (panicked, c)
  unfolding stat_context stat_missed expects_dir parent_lists fetch_stat
  stat_context-panics fuel name c cached_at e uncached missing fresh plain inside =
      rw (stat_context, cached_node-miss now name c uncached, stat_missed, plain, expects_dir)
        (ground (
          arith,
          inside,
          eq_bytes_iff name dot,
          cached_node-failed now (dir name) c cached_at e missing fresh,
        ))
