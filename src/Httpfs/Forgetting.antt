-- ===== src/Httpfs/Forgetting.antt =====
-- fs/httpfs/cacher.go: the deletions of `InvalidateNode`, and that they come to an end.
use wanix.Base.{
  ℕ, zero, suc, ◌≤◌, ◌<◌, ◌≡◌, refl, Bytes, Bool, true, false, Option, none, some, List, [], ◌∷◌,
  arith, length, bytes_eq, ◌==◌, eq_refl, Map, lookup, delete, lookup-delete, Bool-cases,
  Option-cases, inl, inr,
}
use wanix.Paths.{join}
use wanix.Httpfs.{
  DirEntry, CacheEntry, normalize_path, name_of, forget, forget_below, forget_entries,
}

-- One map has no more than another.
pub record IsPart {V : Type 0} (small big : Map Bytes V) : Type 0 where
  pub shorter : length small ≤ length big
  pub found : (p : Bytes) (v : V) → lookup p small ≡ some v → lookup p big ≡ some v

module _ {V : Type 0} where
  pub IsPart-refl : (m : Map Bytes V) → IsPart m m
  IsPart-refl m = record { shorter = omega arith; found = λ p v h. h }

  pub IsPart-trans : (a b c : Map Bytes V) → IsPart a b → IsPart b c → IsPart a c
  IsPart-trans a b c ab bc = record {
    shorter = omega (arith, ab.shorter, bc.shorter);
    found = λ p v h. bc.found p v (ab.found p v h);
  }

  -- What a part lacks, a part of it lacks too.
  pub IsPart-lacks :
      (a b : Map Bytes V) (p : Bytes) → IsPart a b → lookup p b ≡ none → lookup p a ≡ none
  IsPart-lacks a b p part h = elim (Option-cases (lookup p a)) [
    | inl absent ↦ absent
    | inr (v, there) ↦ absurd (ground (arith, h, part.found p v there))
  ]

  length-delete : (k : Bytes) (m : Map Bytes V) → length (delete k m) ≤ length m
  unfolding delete
  length-delete k [] = omega arith
  length-delete k ((j, v) ∷ m) = ground (arith, length-delete k m)

  pub delete-IsPart : (k : Bytes) (m : Map Bytes V) → IsPart (delete k m) m
  delete-IsPart k m = record {
    shorter = length-delete k m;
    found = λ p v h. ground (arith, h, lookup-delete k p m);
  }

  -- The deletion of a key that is there makes a map shorter.
  pub length-delete_found :
      (k : Bytes) (v : V) (m : Map Bytes V) → lookup k m ≡ some v → length (delete k m) < length m
  unfolding delete lookup
  length-delete_found k v [] h = cc
  length-delete_found k v ((j, w) ∷ m) h = elim (Bool-cases (j == k)) [
    | inl same ↦ rw same (omega (arith, length-delete k m))
    | inr other ↦ rw other (omega (arith, length-delete_found k v m (ground (arith, h, other))))
  ]

module _ {I : Type 0} where
  -- Deletions that come to an end, and leave a part without the path.
  pub record Forgets (path : Bytes) (m : Map Bytes (CacheEntry I))
      (r : Option (Map Bytes (CacheEntry I))) : Type 0 where
    pub rest : Map Bytes (CacheEntry I)
    pub ended : r ≡ some rest
    pub part : IsPart rest m
    pub gone : lookup (normalize_path path) rest ≡ none

  -- What is left after a loop over entries.
  pub record Leaves (m : Map Bytes (CacheEntry I)) (r : Option (Map Bytes (CacheEntry I)))
      : Type 0 where
    pub rest : Map Bytes (CacheEntry I)
    pub ended : r ≡ some rest
    pub part : IsPart rest m

  pub forget_entries-Leaves :
      (one : Bytes → Map Bytes (CacheEntry I) → Option (Map Bytes (CacheEntry I))) (k : ℕ)
      → ((p : Bytes) (m : Map Bytes (CacheEntry I)) → length m < k → Forgets p m (one p m))
      → (path : Bytes) (xs : List DirEntry) (m : Map Bytes (CacheEntry I)) → length m < k
      → Leaves m (forget_entries one path xs m)
  unfolding forget_entries
  forget_entries-Leaves one k forgets path [] m h = record {
    rest = m;
    ended = refl;
    part = IsPart-refl m;
  }
  forget_entries-Leaves one k forgets path (x ∷ xs) m h =
      let f = forgets (join path (name_of x.path)) m h in
      let l =
        forget_entries-Leaves one k forgets path xs f.rest (omega (arith, f.part.shorter, h)) in
      record {
        rest = l.rest;
        ended = rw (forget_entries, f.ended) l.ended;
        part = IsPart-trans l.rest f.rest m l.part f.part;
      }

  forget_below-Leaves :
      (one : Bytes → Map Bytes (CacheEntry I) → Option (Map Bytes (CacheEntry I))) (k : ℕ)
      → ((p : Bytes) (m : Map Bytes (CacheEntry I)) → length m < k → Forgets p m (one p m))
      → (path : Bytes) (o : Option (CacheEntry I)) (m : Map Bytes (CacheEntry I))
      → ((entry : CacheEntry I) → o ≡ some entry → length m < k)
      → Leaves m (forget_below one path o m)
  unfolding forget_below
  forget_below-Leaves one k forgets path none m h = record {
    rest = m;
    ended = refl;
    part = IsPart-refl m;
  }
  forget_below-Leaves one k forgets path (some entry) m h = elim (Option-cases entry.node) [
    | inl empty ↦ record { rest = m; ended = rw empty refl; part = IsPart-refl m }
    | inr (n, e) ↦ elim (Bool-cases n.is_dir) [
      | inl dir ↦
          let l = forget_entries-Leaves one k forgets path n.entries m (h entry refl) in
          record { rest = l.rest; ended = rw (e, dir) l.ended; part = l.part }
      | inr file ↦ record { rest = m; ended = rw (e, file) refl; part = IsPart-refl m }
    ]
  ]

  -- With more fuel than there are entries in the cache, the deletions of InvalidateNode come to an
  -- end: they leave entries that were there, no more of them, and none of the path.
  pub forget-Forgets :
      (fuel : ℕ) (recursive : Bool) (path : Bytes) (m : Map Bytes (CacheEntry I))
      → length m < fuel
      → Forgets path m (forget fuel recursive path m)
  unfolding forget
  forget-Forgets zero recursive path m h = absurd (omega arith)
  forget-Forgets (suc fuel) false path m h = record {
    rest = delete (normalize_path path) m;
    ended = refl;
    part = delete-IsPart (normalize_path path) m;
    gone = ground (
      arith,
      lookup-delete (normalize_path path) (normalize_path path) m,
      eq_refl (normalize_path path),
    );
  }
  forget-Forgets (suc fuel) true path m h =
      let p = normalize_path path in
      let l =
        forget_below-Leaves (forget fuel true) fuel (forget-Forgets fuel true) p (lookup p m)
          (delete p m) (λ entry e. omega (arith, length-delete_found p entry m e, h)) in
      record {
        rest = l.rest;
        ended = l.ended;
        part = IsPart-trans l.rest (delete p m) m l.part (delete-IsPart p m);
        gone =
            IsPart-lacks l.rest (delete p m) p l.part
              (ground (arith, lookup-delete p p m, eq_refl p));
      }
