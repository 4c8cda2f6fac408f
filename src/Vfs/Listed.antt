-- ===== src/Vfs/Listed.antt =====
-- What the directories list that OpenContext of fs/vfs/vfs.go makes.
use wanix.Base.{
  Bytes, codes, ◌≡◌, refl, ap, ◌∙◌, Bool, true, false, not, ◌&&◌, Option, none, some, List, [], ◌∷◌,
  ◌++◌, map, arith, ◌==◌, bytes_eq, eq_iff, eq_refl, has_prefix, is_empty, Map, lookup, delete,
  keys, lookup-put, lookup-delete, Bool-cases, inl, inr,
}
use wanix.Errors.{Result, ok, err, path_error, not_exist}
use wanix.Paths.{dot, join, valid_path}
use wanix.Contexts.{Ctx, with_origin}
use wanix.Listings.{dir_file_entries, sort_entries}
use wanix.Listings.Order.{named, named-sort_entries}
use wanix.Listings.Merge.{last_or, to_list}
use wanix.Listings.Duplicates.{dir_file_entries_lem}
use wanix.Vfs.{BindTarget, Ns, bound}
use wanix.Vfs.Resolve.{relative_name, match_paths}
use wanix.Vfs.Open.{
  Opens, Opened, directory, Walk, goes, ends, Found, below, part_below, needed, parents,
  without_listed, all_entries, bound_entries, synthesized, then_walk, add_dir, add_file, visit,
  visit_stat, visit_direct, visit_under, visit_paths, open_context,
}

-- A directory that is needed stays so.
parents-put :
    {T : Type 0} (k name : Bytes) (b : Map Bytes T) (m : Map Bytes Bool)
    → lookup k m ≡ some true
    → lookup k (parents name b m) ≡ some true
unfolding parents
parents-put k name [] m h = h
parents-put k name ((fname, refs) ∷ b) m h =
    parents-put k name b (needed (part_below (below name fname)) m)
      (one (part_below (below name fname)))
  where
    one : (o : Option Bytes) → lookup k (needed o m) ≡ some true
    one none = h
    one (some j) = ground (arith, lookup-put j k true m, h)

-- The parent of a binding further below is needed.
parents-bound :
    {T : Type 0} (k name fname : Bytes) (refs : T) (b : Map Bytes T) (m : Map Bytes Bool)
    → lookup fname b ≡ some refs
    → part_below (below name fname) ≡ some k
    → lookup k (parents name b m) ≡ some true
unfolding parents lookup
parents-bound k name fname refs [] m there part = cc
parents-bound k name fname refs ((g, rs) ∷ b) m there part = elim (Bool-cases (g == fname)) [
  | inl same ↦
      let path = (eq_iff g fname).0 same in
      parents-put k name b (needed (part_below (below name g)) m)
        (rw (path, part) (lookup-put k k true m ∙ rw (eq_refl k) refl))
  | inr other ↦
      parents-bound k name fname refs b (needed (part_below (below name g)) m) (rw other at there)
        part
]

module _ {E : Type 0} (name_of : E → Bytes) where
  -- Whether no entry has the name.
  abbrev pub lacks : Bytes → List E → Bool
  lacks k es = is_empty (named name_of k es)

  lacks-append : (k : Bytes) (es fs : List E) → lacks k (es ++ fs) ≡ (lacks k es && lacks k fs)
  lacks-append k [] fs = refl
  lacks-append k (e ∷ es) fs = ground (arith, lacks-append k es fs)

  some-last_or :
      (k : Bytes) (es : List E) (e : E) → is_empty (to_list (last_or name_of k es (some e))) ≡ false
  some-last_or k [] e = refl
  some-last_or k (x ∷ es) e = elim (Bool-cases (name_of x == k)) [
    | inl same ↦ rw same (some-last_or k es x)
    | inr other ↦ rw other (some-last_or k es e)
  ]

  lacks-last_or :
      (k : Bytes) (es : List E)
      → lacks k es ≡ false
      → is_empty (to_list (last_or name_of k es none)) ≡ false
  lacks-last_or k [] h = cc
  lacks-last_or k (e ∷ es) h = elim (Bool-cases (name_of e == k)) [
    | inl same ↦ rw same (some-last_or k es e)
    | inr other ↦ rw other (lacks-last_or k es (rw other at h))
  ]

  -- A directory lists a name that an entry has, if it does not start with #.
  dir_file_entries-lists :
      (k : Bytes) (es : List E)
      → has_prefix k (codes "#") ≡ false
      → lacks k es ≡ false
      → lacks k (dir_file_entries name_of (sort_entries name_of es)) ≡ false
  dir_file_entries-lists k es plain there =
      let sorted = sort_entries name_of es in
      let there' : lacks k sorted ≡ false = rw (named-sort_entries name_of k es) there in
      rw ((dir_file_entries_lem name_of sorted k).1, plain) (lacks-last_or k sorted there')

module _ {F Info E H : Type 0} (o : Opens F Info E H) (ctx : Ctx F) where
  lookup-without_listed :
      (k : Bytes) (es : List E) (m : Map Bytes Bool)
      → lookup k m ≡ some true
      → lacks o.name_of k es ≡ true
      → lookup k (without_listed o ctx es m) ≡ some true
  unfolding without_listed
  lookup-without_listed k [] m h absent = h
  lookup-without_listed k (e ∷ es) m h absent = elim (Bool-cases (o.name_of e == k)) [
    | inl same ↦ absurd (ground (arith, absent, same))
    | inr other ↦
        lookup-without_listed k es (delete (o.name_of e) m)
          (lookup-delete (o.name_of e) k m ∙ rw other h) (rw other at absent)
  ]

  lacks-dir_entry :
      (k : Bytes) (m : Map Bytes Bool)
      → o.name_of (o.dir_entry k) ≡ k
      → lookup k m ≡ some true
      → lacks o.name_of k (map o.dir_entry (keys m)) ≡ false
  unfolding lookup keys
  lacks-dir_entry k [] names h = cc
  lacks-dir_entry k ((j, v) ∷ m) names h = elim (Bool-cases (o.name_of (o.dir_entry j) == k)) [
    | inl same ↦ rw same refl
    | inr other ↦ rw other (elim (Bool-cases (j == k)) [
      | inl here ↦
          let path = (eq_iff j k).0 here in absurd (ground (arith, other, names, path, eq_refl k))
      | inr elsewhere ↦ lacks-dir_entry k m names (rw elsewhere at h)
    ])
  ]

  lacks-all_entries :
      (k name fname : Bytes) (refs : List (BindTarget F Info)) (entries : List E) (ns : Ns F Info)
      → o.name_of (o.dir_entry k) ≡ k
      → lookup fname ns.bindings ≡ some refs
      → part_below (below name fname) ≡ some k
      → lacks o.name_of k (all_entries o ctx name entries ns) ≡ false
  unfolding all_entries
  lacks-all_entries k name fname refs entries ns names there part =
      let listed = entries ++ bound_entries o ctx name ns.bindings in
      let need = parents-bound k name fname refs ns.bindings [] there part in
      let left = without_listed o ctx listed (parents name ns.bindings []) in
      lacks-append o.name_of k listed (map o.dir_entry (keys left))
      ∙ elim (Bool-cases (lacks o.name_of k listed)) [
        | inl absent ↦
            rw (absent, lacks-dir_entry k left names (lookup-without_listed k listed _ need absent))
              refl
        | inr present ↦ rw present refl
      ]

  -- A directory that is made of what was found lists the parents of the bindings further below.
  synthesized-lists :
      (k name fname : Bytes) (refs : List (BindTarget F Info)) (ns : Ns F Info) (found : Found E)
      (listed : List E)
      → o.name_of (o.dir_entry k) ≡ k
      → lookup fname ns.bindings ≡ some refs
      → part_below (below name fname) ≡ some k
      → has_prefix k (codes "#") ≡ false
      → synthesized o ctx name ns (goes found) ≡ ok (directory listed)
      → lacks o.name_of k listed ≡ false
  unfolding synthesized
  synthesized-lists k name fname refs ns found listed names there part plain done =
      let all = all_entries o ctx name found.entries ns in
      let present = lacks-all_entries k name fname refs found.entries ns names there part in
      elim (Bool-cases (not (name == dot) && is_empty all && not found.found_dir)) [
        | inl nothing ↦
            let failed : err (path_error "open" name not_exist) ≡ ok (directory listed) =
              rw nothing at done in
            cc
        | inr something ↦
            let same : dir_file_entries o.name_of (sort_entries o.name_of all) ≡ listed =
              ap entries (rw something at done) in
            rw (← same) (dir_file_entries-lists o.name_of k all plain present)
      ]
    where
      entries : Result (Opened E H) → List E
      entries (ok (directory es)) = es
      entries _ = []

  -- A walk over bindings does not end with a directory.
  abbrev NoDirectory : Walk E H → Type 0
  NoDirectory (goes found) = Unit {0}
  NoDirectory (ends r) = (listed : List E) → r ≡ ok (directory listed) → ⊥

  then_walk-NoDirectory :
      (w : Walk E H) (next : Found E → Walk E H)
      → NoDirectory w
      → ((found : Found E) → NoDirectory (next found))
      → NoDirectory (then_walk o ctx w next)
  then_walk-NoDirectory (ends r) next h k = h
  then_walk-NoDirectory (goes found) next h k = k found

  add_dir-NoDirectory :
      (r : Result (List E)) (found : Found E) → NoDirectory (add_dir o ctx r found)
  add_dir-NoDirectory (err e) found = λ listed h. cc
  add_dir-NoDirectory (ok es) found = tt

  add_file-NoDirectory : (r : Result H) (found : Found E) → NoDirectory (add_file o ctx r found)
  add_file-NoDirectory (err e) found = tt
  add_file-NoDirectory (ok f) found = λ listed h. cc

  visit_direct-NoDirectory :
      (refs : List (BindTarget F Info)) (found : Found E)
      → NoDirectory (visit_direct o ctx refs found)
  unfolding visit_direct
  visit_direct-NoDirectory [] found = tt
  visit_direct-NoDirectory (ref ∷ refs) found =
      then_walk-NoDirectory (visit o ctx ref found) (visit_direct o ctx refs)
        (elim (Bool-cases (o.is_dir ref.fi)) [
          | inl is_directory ↦
              rw is_directory (add_dir-NoDirectory (o.read_dir ctx ref.fs ref.path) found)
          | inr is_file ↦ rw is_file (add_file-NoDirectory (o.open_at ctx ref.fs ref.path) found)
        ])
        (visit_direct-NoDirectory refs)

  visit_stat-NoDirectory :
      (fsys : F) (path : Bytes) (r : Result Info) (found : Found E)
      → NoDirectory (visit_stat o ctx fsys path r found)
  visit_stat-NoDirectory fsys path (err e) found = tt
  visit_stat-NoDirectory fsys path (ok info) found = elim (Bool-cases (o.is_dir info)) [
    | inl is_directory ↦ rw is_directory (add_dir-NoDirectory (o.read_dir ctx fsys path) found)
    | inr is_file ↦ rw is_file (add_file-NoDirectory (o.open_at ctx fsys path) found)
  ]

  visit_under-NoDirectory :
      (relative : Bytes) (refs : List (BindTarget F Info)) (found : Found E)
      → NoDirectory (visit_under o ctx relative refs found)
  unfolding visit_under
  visit_under-NoDirectory relative [] found = tt
  visit_under-NoDirectory relative (ref ∷ refs) found =
      then_walk-NoDirectory _ (visit_under o ctx relative refs)
        (visit_stat-NoDirectory ref.fs (join ref.path relative)
          (o.stat ctx ref.fs (join ref.path relative)) found)
        (visit_under-NoDirectory relative refs)

  visit_paths-NoDirectory :
      (ps : List Bytes) (name : Bytes) (ns : Ns F Info) (found : Found E)
      → NoDirectory (visit_paths o ctx ps name ns found)
  unfolding visit_paths
  visit_paths-NoDirectory [] name ns found = tt
  visit_paths-NoDirectory (p ∷ ps) name ns found =
      then_walk-NoDirectory _ (visit_paths o ctx ps name ns)
        (visit_under-NoDirectory (relative_name p name) (bound p ns) found)
        (visit_paths-NoDirectory ps name ns)

  synthesized_walk-lists :
      (k name fname : Bytes) (refs : List (BindTarget F Info)) (ns : Ns F Info) (w : Walk E H)
      (listed : List E)
      → NoDirectory w
      → o.name_of (o.dir_entry k) ≡ k
      → lookup fname ns.bindings ≡ some refs
      → part_below (below name fname) ≡ some k
      → has_prefix k (codes "#") ≡ false
      → synthesized o ctx name ns w ≡ ok (directory listed)
      → lacks o.name_of k listed ≡ false
  unfolding synthesized
  synthesized_walk-lists k name fname refs ns (ends r) listed never names there part plain done =
      absurd (never listed done)
  synthesized_walk-lists k name fname refs ns (goes found) listed never names there part plain
        done =
      synthesized-lists k name fname refs ns found listed names there part plain done

-- A directory that OpenContext of a namespace makes lists the first part of the way to each
-- binding further below it, whatever else is bound at it or above it and whatever that holds; for
-- a part that does not start with #, and where the entry that is made for the part has it as its
-- name, as it has if that is not empty and has no slash.
pub open_context-lists :
    {F Info E H : Type 0} (o : Opens F Info E H) (self : F) (ctx : Ctx F) (k name fname : Bytes)
    (refs : List (BindTarget F Info)) (ns : Ns F Info) (listed : List E)
    → o.name_of (o.dir_entry k) ≡ k
    → lookup fname ns.bindings ≡ some refs
    → part_below (below name fname) ≡ some k
    → has_prefix k (codes "#") ≡ false
    → open_context o self ctx name ns ≡ ok (directory listed)
    → lacks o.name_of k listed ≡ false
unfolding open_context
open_context-lists o self ctx k name fname refs ns listed names there part plain done =
    elim (Bool-cases (valid_path name)) [
      | inl valid ↦
          let ctx' = with_origin self name (codes "open") ctx in
          synthesized_walk-lists o ctx' k name fname refs ns _ listed
            (then_walk-NoDirectory o ctx' _ _ (visit_direct-NoDirectory o ctx' (bound name ns) _)
              (visit_paths-NoDirectory o ctx' (match_paths (keys ns.bindings) name) name ns))
            names there part plain (rw valid at done)
      | inr invalid_name ↦
          let failed : err (path_error "open" name not_exist) ≡ ok (directory listed) =
            rw invalid_name at done in
          cc
    ]
