-- ===== src/Listings/Merge.antt =====
-- What a merged directory lists (OverlayFile, UnionDir and DirFile of fs/fskit).
use wanix.Base.{
  Bytes, ◌≡◌, refl, ◌∙◌, Bool, Option, none, some, List, [], ◌∷◌, arith, if◌then◌else◌, ◌==◌,
  bytes_eq, eq_iff, eq_refl, eq_bytes, eq_bytes_iff, Map, lookup, put, lookup-put, Bool-cases, inl,
  inr,
}
use wanix.Errors.{ok, err, ok-injective}
use wanix.Listings.{Dir, add_entries, shown, overlay_entries, sort_entries}
use wanix.Listings.Order.{IsSorted, named, named-sort_entries, sort_entries-IsSorted}

abbrev pub to_list : {A : Type 0} → Option A → List A
to_list none = []
to_list (some a) = a ∷ []

module _ {E : Type 0} (name : E → Bytes) where
  -- The last entry of a name, or else the one given.
  abbrev pub last_or : Bytes → List E → Option E → Option E
  last_or k [] before = before
  last_or k (e ∷ es) before = last_or k es (if name e == k then some e else before)

  lookup-add_entries :
      (k : Bytes) (es : List E) (m : Map Bytes E)
      → lookup k (add_entries name es m) ≡ last_or k es (lookup k m)
  unfolding add_entries
  lookup-add_entries k [] m = refl
  lookup-add_entries k (e ∷ es) m =
      rw (lookup-add_entries k es (put (name e) e m), lookup-put (name e) k e m) refl

  -- Each key is the name of its entry, and is there once.
  abbrev Keyed : Map Bytes E → Type 0
  Keyed [] = Unit {0}
  Keyed ((k, e) ∷ m) = (name e ≡ k) × (lookup k m ≡ none) × Keyed m

  put-Keyed : (e : E) (m : Map Bytes E) → Keyed m → Keyed (put (name e) e m)
  unfolding put lookup
  put-Keyed e [] h = (refl, refl, tt)
  put-Keyed e ((k, x) ∷ m) h = elim (Bool-cases (k == name e)) [
    | inl same ↦ rw same (refl, rw ((eq_iff k (name e)).0 same) at h.1, h.2)
    | inr other ↦ rw other (
      h.0,
      ground (arith, lookup-put (name e) k e m, h, eq_iff k (name e), eq_iff (name e) k),
      put-Keyed e m h.2,
    )
  ]

  add_entries-Keyed : (es : List E) (m : Map Bytes E) → Keyed m → Keyed (add_entries name es m)
  unfolding add_entries
  add_entries-Keyed [] m h = h
  add_entries-Keyed (e ∷ es) m h = add_entries-Keyed es (put (name e) e m) (put-Keyed e m h)

  named-shown :
      (hide : Bytes → Bool) (k : Bytes) (m : Map Bytes E)
      → Keyed m
      → named name k (shown name hide m) ≡ (if hide k then [] else to_list (lookup k m))
  unfolding shown lookup
  named-shown hide k [] h = ground arith
  named-shown hide k ((j, e) ∷ m) h =
      let rest = named-shown hide k m h.2 in
      rw h.0 (elim (Bool-cases (eq_bytes j k)) [
        | inl same ↦
            let path = (eq_bytes_iff j k).0 same in
            let absent : lookup k m ≡ none = rw path at h.1 in
            let none_left : named name k (shown name hide m) ≡ [] = ground (arith, rest, absent) in
            elim (Bool-cases (hide k)) [
              | inl hidden ↦ rw (path, eq_refl k, hidden) none_left
              | inr open_to_see ↦
                  rw (path, eq_refl k, open_to_see) (rw (h.0 ∙ path, eq_refl k, none_left) refl)
            ]
        | inr other ↦ elim (Bool-cases (hide j)) [
          | inl hidden ↦ rw (hidden, other) rest
          | inr open_to_see ↦ rw (open_to_see, other) (rw (h.0, other) rest)
        ]
      ])

  -- The entries of a name in the map of the entries, sorted.
  named-sorted :
      (hide : Bytes → Bool) (k : Bytes) (m : Map Bytes E)
      → Keyed m
      → named name k (sort_entries name (shown name hide m))
        ≡ (if hide k then [] else to_list (lookup k m))
  named-sorted hide k m h = named-sort_entries name k (shown name hide m) ∙ named-shown hide k m h

  -- The entries of a directory that could be read.
  abbrev pub entries_of : Dir E → List E
  entries_of (some (ok es)) = es
  entries_of _ = []

  overlay_entries_both :
      (hide : Bytes → Bool) (base overlay : List E) (k : Bytes)
      → named name k (
          sort_entries name (shown name hide (add_entries name overlay (add_entries name base []))))
        ≡ (if hide k then [] else to_list (last_or k overlay (last_or k base none)))
  unfolding lookup
  overlay_entries_both hide base overlay k =
      let below = add_entries name base [] in
      named-sorted hide k (add_entries name overlay below)
        (add_entries-Keyed overlay below (add_entries-Keyed base [] tt))
      ∙ rw (lookup-add_entries k overlay below, lookup-add_entries k base []) refl

  overlay_entries_map :
      (hide : Bytes → Bool) (base overlay : Dir E) (listed : List E)
      → overlay_entries name hide base overlay ≡ ok listed
      → sort_entries name (
          shown name hide
            (add_entries name (entries_of overlay) (add_entries name (entries_of base) [])))
        ≡ listed
  unfolding overlay_entries add_entries
  overlay_entries_map hide (some (err e)) overlay listed h = cc
  overlay_entries_map hide none (some (err e)) listed h = cc
  overlay_entries_map hide (some (ok es)) (some (err e)) listed h = cc
  overlay_entries_map hide none none listed h = ok-injective (ok _) _ listed refl h
  overlay_entries_map hide none (some (ok ys)) listed h = ok-injective (ok _) _ listed refl h
  overlay_entries_map hide (some (ok xs)) none listed h = ok-injective (ok _) _ listed refl h
  overlay_entries_map hide (some (ok xs)) (some (ok ys)) listed h =
      ok-injective (ok _) _ listed refl h

  -- The listing of an OverlayFile is sorted by name, and of each name it has one entry, if the
  -- name is in a directory and is not hidden: the last one of that name in the overlay, or else
  -- the last one in the base.
  pub overlay_entries_lem :
      (hide : Bytes → Bool) (base overlay : Dir E) (k : Bytes) (listed : List E)
      → overlay_entries name hide base overlay ≡ ok listed
      → IsSorted name listed
        × (named name k listed ≡ (
            if hide k
            then []
            else to_list (last_or k (entries_of overlay) (last_or k (entries_of base) none))))
  overlay_entries_lem hide base overlay k listed h =
      rw (← overlay_entries_map hide base overlay listed h) (
        sort_entries-IsSorted name _,
        overlay_entries_both hide (entries_of base) (entries_of overlay) k,
      )
