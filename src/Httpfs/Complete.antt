-- ===== src/Httpfs/Complete.antt =====
-- fs/httpfs/cacher.go: what a recursive `InvalidateNode` deletes.
use wanix.Base.{
  ℕ, zero, suc, ◌<◌, ◌≡◌, sym, ◌∙◌, Bytes, true, false, Option, none, some, List, [], ◌∷◌, arith,
  length, bytes_eq, Map, lookup, delete, some-injective, inl, inr, ◌⊎◌,
}
use wanix.Paths.{join}
use wanix.Httpfs.{
  DirEntry, Node, CacheEntry, normalize_path, name_of, forget, forget_below, forget_entries,
}
use wanix.Httpfs.Forgetting.{
  IsPart-lacks, Forgets, forget_entries-Leaves, length-delete_found, forget-Forgets,
}

-- The entry is one of those in the list.
abbrev pub IsIn : DirEntry → List DirEntry → Type 0
IsIn x [] = true ≡ false
IsIn x (y ∷ ys) = (y ≡ x) ⊎ IsIn x ys

module _ {I : Type 0} where
  forget_entries-gone :
      (one : Bytes → Map Bytes (CacheEntry I) → Option (Map Bytes (CacheEntry I))) (k : ℕ)
      → ((p : Bytes) (m : Map Bytes (CacheEntry I)) → length m < k → Forgets p m (one p m))
      → (path : Bytes) (xs : List DirEntry) (m rest : Map Bytes (CacheEntry I)) → length m < k
      → forget_entries one path xs m ≡ some rest
      → (x : DirEntry) → IsIn x xs
      → lookup (normalize_path (join path (name_of x.path))) rest ≡ none
  unfolding forget_entries
  forget_entries-gone one k forgets path [] m rest h e x here = absurd (ground (arith, here))
  forget_entries-gone one k forgets path (y ∷ ys) m rest h e x here =
      let f = forgets (join path (name_of y.path)) m h in
      let less : length f.rest < k = omega (arith, f.part.shorter, h) in
      let e' : forget_entries one path ys f.rest ≡ some rest = rw (forget_entries, f.ended) at e in
      elim here [
        | inr later ↦ forget_entries-gone one k forgets path ys f.rest rest less e' x later
        | inl same ↦
            let l = forget_entries-Leaves one k forgets path ys f.rest less in
            let left : l.rest ≡ rest = some-injective l.rest rest (sym l.ended ∙ e') in
            rw (← left, ← same)
              (IsPart-lacks l.rest f.rest (normalize_path (join path (name_of y.path))) l.part
                f.gone)
      ]

  -- After a recursive invalidation that came to an end, of a path that was cached as a directory,
  -- no entry of that directory is in the cache; with more fuel than there are entries in the
  -- cache.
  pub forget-children :
      (fuel : ℕ) (path : Bytes) (m rest : Map Bytes (CacheEntry I)) (entry : CacheEntry I)
      (n : Node I) (x : DirEntry)
      → length m < fuel
      → forget fuel true path m ≡ some rest
      → lookup (normalize_path path) m ≡ some entry
      → entry.node ≡ some n
      → n.is_dir ≡ true
      → IsIn x n.entries
      → lookup (normalize_path (join (normalize_path path) (name_of x.path))) rest ≡ none
  unfolding forget
  forget-children zero path m rest entry n x h e found node dir here = absurd (omega arith)
  forget-children (suc fuel) path m rest entry n x h e found node dir here =
      let p = normalize_path path in
      forget_entries-gone (forget fuel true) fuel (forget-Forgets fuel true) p n.entries
        (delete p m) rest (omega (arith, length-delete_found p entry m found, h))
        (rw (forget, found, forget_below, node, dir) at e) x here
