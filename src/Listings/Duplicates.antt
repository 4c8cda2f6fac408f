-- ===== src/Listings/Duplicates.antt =====
-- removeDuplicatesAndSort of fs/fskit/dirfile.go.
use wanix.Base.{
  ℕ, ◌+◌, ◌≤◌, Bytes, codes, ◌≡◌, ◌⊎◌, refl, ◌∙◌, Bool, true, false, not, Option, none, some, List,
  [], ◌∷◌, arith, if◌then◌else◌, eq_nat, eq_nat_iff, ◌==◌, bytes_eq, eq_iff, eq_refl, keep_if,
  has_prefix, Map, lookup, put, has_key, lookup-put, Bool-cases, inl, inr,
}
use wanix.Listings.{last_index, walk_back, remove_duplicates_and_sort, dir_file_entries}
use wanix.Listings.Order.{IsSorted, named, named-sort_entries, sort_entries-IsSorted}
use wanix.Listings.Merge.{to_list, last_or}

module _ {E : Type 0} (name : E → Bytes) where
  -- The index of the last entry of a name, or else the one given.
  abbrev index_or : Bytes → ℕ → List E → Option ℕ → Option ℕ
  index_or k i [] before = before
  index_or k i (e ∷ es) before = index_or k (i + 1) es (if name e == k then some i else before)

  lookup-last_index :
      (k : Bytes) (i : ℕ) (es : List E) (m : Map Bytes ℕ)
      → lookup k (last_index name i es m) ≡ index_or k i es (lookup k m)
  unfolding last_index
  lookup-last_index k i [] m = refl
  lookup-last_index k i (e ∷ es) m =
      rw (lookup-last_index k (i + 1) es (put (name e) i m), lookup-put (name e) k i m) refl

  -- A name does not occur, or has a last entry, from the index on.
  abbrev Occurs : Bytes → ℕ → List E → Type 0
  Occurs k i es =
      (((d : Option E) → last_or name k es d ≡ d) × ((d : Option ℕ) → index_or k i es d ≡ d))
      ⊎ ((x : E) × (j : ℕ) × ((d : Option E) → last_or name k es d ≡ some x)
          × ((d : Option ℕ) → index_or k i es d ≡ some j)
          × (i ≤ j))

  occurs : (k : Bytes) (i : ℕ) (es : List E) → Occurs k i es
  occurs k i [] = inl (λ d. refl, λ d. refl)
  occurs k i (e ∷ es) = elim (occurs k (i + 1) es) [
    | inl (same, same_index) ↦ elim (Bool-cases (name e == k)) [
      | inl here ↦
          inr (
            e,
            i,
            (λ d. rw here (same (some e))),
            (λ d. rw here (same_index (some i))),
            omega arith,
          )
      | inr elsewhere ↦ inl (λ d. rw elsewhere (same d), λ d. rw elsewhere (same_index d))
    ]
    | inr (x, j, last, index, far) ↦ inr (x, j, (λ d. last _), (λ d. index _), omega (arith, far))
  ]

  has_key-put :
      (k j : Bytes) (m : Map Bytes Bool)
      → has_key j (put k true m) ≡ (if k == j then true else has_key j m)
  unfolding has_key put
  has_key-put k j [] = ground arith
  has_key-put k j ((i, w) ∷ m) =
      ground (arith, eq_iff k j, eq_iff i k, eq_iff i j, has_key-put k j m)

  abbrev is_there : Option E → Bool
  is_there none = false
  is_there (some e) = true

  walk_back_lem :
      (last : Map Bytes ℕ) (i : ℕ) (es : List E) (before : Bytes → Option ℕ)
      → ((k : Bytes) → lookup k last ≡ index_or k i es (before k))
      → (k : Bytes)
      → (named name k (walk_back name last i es).0 ≡ to_list (last_or name k es none))
        × (has_key k (walk_back name last i es).1 ≡ is_there (last_or name k es none))
  unfolding walk_back has_key
  walk_back_lem last i [] before h k = (refl, refl)
  walk_back_lem last i (e ∷ es) before h k =
      let rest = walk_back_lem last (i + 1) es (λ k. if name e == k then some i else before k) h in
      elim (occurs (name e) (i + 1) es) [
        | inl (same, same_index) ↦
            let here : lookup (name e) last ≡ some i =
              h (name e) ∙ rw (eq_refl (name e)) (same_index (some i)) in
            let unseen : has_key (name e) (walk_back name last (i + 1) es).1 ≡ false =
              (rest (name e)).1 ∙ rw (same none) refl in
            rw (here, unseen, (eq_nat_iff i i).1 refl)
              (elim (Bool-cases (name e == k)) [
                | inl at_k ↦
                    let path = (eq_iff (name e) k).0 at_k in
                    let alone : (d : Option E) → last_or name k es d ≡ d = rw path at same in
                    rw (at_k, alone (some e))
                      (
                        rw ((rest k).0, alone none) refl,
                        rw (has_key-put (name e) k (walk_back name last (i + 1) es).1, at_k) refl,
                      )
                | inr other ↦ rw other (
                  (rest k).0,
                  has_key-put (name e) k (walk_back name last (i + 1) es).1 ∙ rw other (rest k).1,
                )
              ])
        | inr (x, j, later, index, far) ↦
            let there : lookup (name e) last ≡ some j = h (name e) ∙ index _ in
            let differs : eq_nat j i ≡ false = ground (arith, far) in
            rw (there, differs)
              (elim (Bool-cases (name e == k)) [
                | inl at_k ↦
                    let path = (eq_iff (name e) k).0 at_k in
                    let last_one : (d : Option E) → last_or name k es d ≡ some x =
                      rw path at later in
                    rw (at_k, last_one (some e)) (rw (last_one none) at (rest k))
                | inr other ↦ rw other (rest k)
              ])
      ]

  -- Of each name the last entry is left, in the order of the names.
  pub remove_duplicates_and_sort_lem :
      (entries : List E) (k : Bytes)
      → IsSorted name (remove_duplicates_and_sort name entries)
        × (named name k (remove_duplicates_and_sort name entries)
            ≡ to_list (last_or name k entries none))
  unfolding remove_duplicates_and_sort lookup
  remove_duplicates_and_sort_lem entries k =
      let kept = (walk_back name (last_index name 0 entries []) 0 entries).0 in
      (
        sort_entries-IsSorted name kept,
        named-sort_entries name k kept
            ∙ (walk_back_lem (last_index name 0 entries []) 0 entries (λ j. none)
                (λ j. lookup-last_index j 0 entries []) k).0,
      )

  last_or-keep_if :
      (p : E → Bool) (hide : Bytes → Bool) (k : Bytes) (entries : List E) (d : Option E)
      → ((e : E) → p e ≡ not (hide (name e)))
      → last_or name k (keep_if p entries) d ≡ (if hide k then d else last_or name k entries d)
  last_or-keep_if p hide k [] d h = ground arith
  last_or-keep_if p hide k (e ∷ es) d h =
      let all : (d : Option E)
          → last_or name k (keep_if p es) d ≡ (if hide k then d else last_or name k es d) =
        λ d. last_or-keep_if p hide k es d h in
      ground (arith, h e, all d, all (some e), eq_iff (name e) k)

  -- The listing of a DirFile is sorted by name, and of each name that is given and does not start
  -- with # it has one entry, the last one given; of a name that starts with # it has none.
  pub dir_file_entries_lem :
      (entries : List E) (k : Bytes)
      → IsSorted name (dir_file_entries name entries)
        × (named name k (dir_file_entries name entries)
            ≡ (if has_prefix k (codes "#") then [] else to_list (last_or name k entries none)))
  unfolding dir_file_entries
  dir_file_entries_lem entries k =
      let p : E → Bool = λ e. not (has_prefix (name e) (codes "#")) in
      let r = remove_duplicates_and_sort_lem (keep_if p entries) k in
      let last = last_or-keep_if p (λ j. has_prefix j (codes "#")) k entries none (λ e. refl) in
      (r.0, r.1 ∙ rw last (ground arith))
