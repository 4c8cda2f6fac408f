-- ===== src/Cowfs/Records.antt =====
-- The files in which fs/cowfs/cowfs.go records deletions and moves, and what Whiteout reads from them.
use mathlib.Core.List.{reverse, reverse-append, reverse-reverse, reverse-cons}
use wanix.Base.{
  ◌≡◌, refl, sym, ap, ◌∙◌, Bytes, codes, true, false, List, [], ◌∷◌, ◌++◌, arith, eq_nat, is_empty,
  is_space, trim_space, trim_space_left, split_on, has_prefix, bytes_eq, append_assoc,
}
use wanix.Errors.{Result, ok, err, ok-injective}
use wanix.Paths.{join}
use wanix.Actions.{Action, then_do}
use wanix.Cowfs.{Layers, Fs, rename_content, tombstone, record_rename}
use wanix.Cowfs.Removal.{tombstone-books, record_rename-books}
use wanix.Cowfs.Views.{Tracking, load_content, load_all}

-- A name without a space.
abbrev pub IsPlain : Bytes → Type 0
IsPlain [] = Unit {0}
IsPlain (c ∷ s) = (is_space c ≡ false) × IsPlain s

IsPlain-append : (s t : Bytes) → IsPlain s → IsPlain t → IsPlain (s ++ t)
IsPlain-append [] t h k = k
IsPlain-append (c ∷ s) t h k = (h.0, IsPlain-append s t h.1 k)

IsPlain-reverse : (s : Bytes) → IsPlain s → IsPlain (reverse s)
IsPlain-reverse [] h = tt
IsPlain-reverse (c ∷ s) h =
    rw (reverse-cons c s) (IsPlain-append (reverse s) (c ∷ []) (IsPlain-reverse s h.1) (h.0, tt))

trim_space_left-append :
    (s t : Bytes) → IsPlain s → is_empty s ≡ false → trim_space_left (s ++ t) ≡ s ++ t
unfolding trim_space_left
trim_space_left-append [] t h some = cc
trim_space_left-append (c ∷ s) t h some = rw h.0 refl

is_empty-reverse : (s : Bytes) → is_empty s ≡ false → is_empty (reverse s) ≡ false
is_empty-reverse [] h = h
is_empty-reverse (c ∷ s) h = rw (reverse-cons c s) (not_empty (reverse s))
  where
    not_empty : (t : Bytes) → is_empty (t ++ c ∷ []) ≡ false
    not_empty [] = refl
    not_empty (b ∷ t) = refl

-- What stands between two names without spaces is not trimmed.
trim_space-between :
    (s m t : Bytes)
    → IsPlain s
    → is_empty s ≡ false
    → IsPlain t
    → is_empty t ≡ false
    → trim_space (s ++ (m ++ t)) ≡ s ++ (m ++ t)
unfolding trim_space
trim_space-between s m t ps es pt et =
    let whole = s ++ (m ++ t) in
    let front : trim_space_left whole ≡ whole = trim_space_left-append s (m ++ t) ps es in
    let turned : reverse whole ≡ reverse t ++ (reverse m ++ reverse s) =
      reverse-append s (m ++ t)
      ∙ rw (reverse-append m t) (append_assoc (reverse t) (reverse m) (reverse s)) in
    let back : trim_space_left (reverse whole) ≡ reverse whole = rw turned (
      trim_space_left-append (reverse t) (reverse m ++ reverse s) (IsPlain-reverse t pt)
        (is_empty-reverse t et)) in
    rw (front, back) (reverse-reverse whole)

trim_space_left-plain : (t : Bytes) → IsPlain t → trim_space_left t ≡ t
unfolding trim_space_left
trim_space_left-plain [] h = refl
trim_space_left-plain (c ∷ t) h = rw h.0 refl

-- Trimming leaves a name without spaces.
trim_space-plain : (s : Bytes) → IsPlain s → trim_space s ≡ s
unfolding trim_space
trim_space-plain s p =
    rw (trim_space_left-plain s p, trim_space_left-plain (reverse s) (IsPlain-reverse s p))
      (reverse-reverse s)

split_on-first : (s t : Bytes) → IsPlain s → split_on 32 (s ++ 32 ∷ t) ≡ s ∷ split_on 32 t
unfolding split_on
split_on-first [] t h = refl
split_on-first (c ∷ s) t h =
    let other : eq_nat c 32 ≡ false = ground (arith, h.0) in rw (other, split_on-first s t h.1) refl

split_on-last : (t : Bytes) → IsPlain t → split_on 32 t ≡ t ∷ []
unfolding split_on
split_on-last [] h = refl
split_on-last (c ∷ t) h =
    let other : eq_nat c 32 ≡ false = ground (arith, h.0) in rw (other, split_on-last t h.1) refl

-- The two names of the record of a move.
split_record :
    (old new : Bytes)
    → IsPlain old × (is_empty old ≡ false) × IsPlain new × (is_empty new ≡ false)
    → split_on 32 (trim_space (old ++ codes " " ++ new)) ≡ old ∷ new ∷ []
split_record old new h =
    ap (λ w. split_on 32 (trim_space w)) (append_assoc old (codes " ") new)
    ∙ ap (split_on 32) (trim_space-between old (codes " ") new h.0 h.1 h.2 h.3)
    ∙ split_on-first old new h.0
    ∙ ap (λ r. old ∷ r) (split_on-last new h.2)

-- What is recorded: a deletion, or a move.
pub data Entry : Type 0 where
  gone : Bytes → Entry
  became : Bytes → Bytes → Entry

abbrev pub HasPlainNames : Entry → Type 0
HasPlainNames (gone name) = IsPlain name
HasPlainNames (became old new) =
    IsPlain old × (is_empty old ≡ false) × IsPlain new × (is_empty new ≡ false)

-- A file of the directory for its kind of entry.
abbrev pub IsBelow : Bytes → Entry → Bytes → Type 0
IsBelow d (gone name) path = has_prefix path (join d (codes "deletes")) ≡ true
IsBelow d (became old new) path =
    (has_prefix path (join d (codes "deletes")) ≡ false)
    × (has_prefix path (join d (codes "renames")) ≡ true)

module _ {S Info H : Type 0} (l : Layers S Info H) where
  -- What the file of an entry holds.
  abbrev pub content : Entry → Bytes
  content (gone name) = name
  content (became old new) = rename_content l old new

  -- The entries are those of the files, in their order.
  abbrev pub Filed : Bytes → List Entry → List Tracking → Type 0
  Filed d [] [] = Unit {0}
  Filed d (e ∷ es) ((path, r) ∷ files) =
      IsBelow d e path × (r ≡ ok (content e)) × HasPlainNames e × Filed d es files
  Filed d _ _ = ⊥

  abbrev pub record_entry : Entry → Action (Fs S) (Unit {0})
  record_entry (gone name) = tombstone l name
  record_entry (became old new) = record_rename l old new

  -- The entries are recorded one after the other, whether they can be written down or not.
  unfoldable pub recorded : List Entry → Fs S → Fs S
  recorded [] u = u
  recorded (e ∷ es) u = recorded es (record_entry e u).1

  abbrev pub SameBooks : Fs S → Fs S → Type 0
  SameBooks u v = (u.tombstones ≡ v.tombstones) × (u.renames ≡ v.renames)

  load_content-entry :
      (d path : Bytes) (e : Entry) (u v : Fs S)
      → IsBelow d e path
      → HasPlainNames e
      → SameBooks u v
      → ((load_content d path (content e) u).0 ≡ ok tt)
        × SameBooks (load_content d path (content e) u).1 (record_entry e v).1
  unfolding load_content
  load_content-entry d path (gone name) u v below plain same =
      let b = tombstone-books l name v in
      rw (below, trim_space-plain name plain) (refl, (rw same.0 (sym b.0), same.1 ∙ sym b.1))
  load_content-entry d path (became old new) u v below plain same =
      let b = record_rename-books l old new v in
      let parts : split_on 32 (trim_space (rename_content l old new)) ≡ old ∷ new ∷ [] =
        split_record old new plain in
      rw (below.0, below.1, parts) (refl, (same.0 ∙ sym b.0, rw same.1 (sym b.1)))

  then_load :
      (d : Bytes) (files : List Tracking) (r : Result (Unit {0}) × Fs S)
      → r.0 ≡ ok tt
      → then_do r (λ _. load_all d files) ≡ load_all d files r.1
  then_load d files (ok done, u) h = refl
  then_load d files (err e, u) h = cc

  -- What is read from files with the entries are the books that recording the entries makes.
  pub load_books :
      (d : Bytes) (entries : List Entry) (files : List Tracking) (u v : Fs S)
      → Filed d entries files
      → SameBooks u v
      → ((load_all d files u).0 ≡ ok tt) × SameBooks (load_all d files u).1 (recorded entries v)
  unfolding load_all recorded
  load_books d [] [] u v filed same = (refl, same)
  load_books d [] (f ∷ files) u v filed same = absurd filed
  load_books d (e ∷ es) [] u v filed same = absurd filed
  load_books d (e ∷ es) ((path, err x) ∷ files) u v filed same = cc
  load_books d (e ∷ es) ((path, ok text) ∷ files) u v (below, held, plain, filed) same =
      let text_is : text ≡ content e = ok-injective (ok text) text (content e) refl held in
      let one = load_content-entry d path e u v below plain same in
      let rest =
        load_books d es files (load_content d path (content e) u).1 (record_entry e v).1 filed
          one.1 in
      rw (text_is, then_load d files (load_content d path (content e) u) one.0) rest
