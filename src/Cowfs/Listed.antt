-- ===== src/Cowfs/Listed.antt =====
-- What an open directory of fs/cowfs/cowfs.go lists: the OverlayFile of fs/fskit that Open makes.
use wanix.Base.{
  sym, Bool-cases, inl, inr, arith, false, Bool, Bytes, bytes_eq, ◌≡◌, refl, ◌∙◌, true, Option,
  none, some, List, some-injective, [], lookup,
}
use wanix.Errors.{Result, ok, err, bare, not_exist}
use wanix.Paths.{clean, join}
use wanix.Listings.{Dir, overlay_entries}
use wanix.Listings.Order.{named}
use wanix.Listings.Merge.{overlay_entries_lem}
use wanix.Cowfs.{Layers, Fs, resolve_path, is_dead, should_copy}
use wanix.Cowfs.Changes.{remove}
use wanix.Cowfs.Views.{
  hides, open_base, open_overlay, open_by, dir_in, visible, Opened, plain, merged, open_name_read,
}
use wanix.Cowfs.Chains.{resolve_terminal-end}
use wanix.Cowfs.Removal.{remove-Hidden}

module _ {S Info H E : Type 0} (l : Layers S Info H) (name_of : E → Bytes)
    (contents : H → Dir E) where
  -- ReadDir(-1) of what Open gives, from that of the files of the layers.
  unfoldable pub listing : Opened l → Fs S → Dir E
  unfolding hides overlay_entries
  listing (plain f) u = contents f
  listing (merged path base none) u =
      some (overlay_entries name_of (hides path u) (contents base) none)
  listing (merged path base (some f)) u =
      some (overlay_entries name_of (hides path u) (contents base) (contents f))

  hidden-unlisted :
      (k path : Bytes) (u : Fs S) (base overlay : Dir E) (listed : List E)
      → hides path u k ≡ true
      → overlay_entries name_of (hides path u) base overlay ≡ ok listed
      → named name_of k listed ≡ []
  hidden-unlisted k path u base overlay listed hidden lists =
      (overlay_entries_lem name_of (hides path u) base overlay k listed lists).1 ∙ rw hidden refl

  some-ok : (r : Result (List E)) (es : List E) → some r ≡ some (ok es) → r ≡ ok es
  some-ok r es h = some-injective r (ok es) h

  -- The path of an open directory.
  abbrev IsAt : Bytes → Result (Opened l) → Type 0
  IsAt path (ok (merged q base overlay)) = q ≡ path
  IsAt path _ = Unit {0}

  open_base-IsAt : (path : Bytes) (r : Result Bool) → IsAt path (open_base l path r)
  open_base-IsAt path (ok true) = ground arith
  open_base-IsAt path (ok false) = ground arith
  open_base-IsAt path (err e) = ground arith

  open_overlay-IsAt : (path : Bytes) (s : S) (r : Result Bool) → IsAt path (open_overlay l path s r)
  open_overlay-IsAt path s (ok true) = ground arith
  open_overlay-IsAt path s (ok false) = ground arith
  open_overlay-IsAt path s (err e) =
      ground (arith, open_base-IsAt path (dir_in l (l.base_lstat path)))

  open_by-IsAt : (path : Bytes) (s : S) (r : Result Bool) → IsAt path (open_by l path s r)
  open_by-IsAt path s (ok true) = open_base-IsAt path (dir_in l (l.base_lstat path))
  open_by-IsAt path s (ok false) = open_overlay-IsAt path s (dir_in l (l.lstat path s))
  open_by-IsAt path s (err e) = ground (arith, open_overlay-IsAt path s (dir_in l (l.lstat path s)))

  -- Of a name that is not renamed, Open gives a directory at that name.
  open_name_read-at :
      (above path : Bytes) (u : Fs S) (base : H) (overlay : Option H)
      → lookup (clean above) u.renames ≡ none
      → open_name_read l above u ≡ ok (merged path base overlay)
      → path ≡ clean above
  unfolding open_name_read visible resolve_path
  open_name_read-at above path u base overlay last opened =
      let p = clean above in
      let resolved = resolve_terminal-end u.renames p last in
      elim (Bool-cases (is_dead p u)) [
        | inl dead ↦
            let fails : open_name_read l above u ≡ err (bare not_exist) =
              rw (resolved, dead) refl in
            absurd (ground (arith, opened, fails))
        | inr alive ↦
            let opens : open_name_read l above u ≡ open_by l p u.overlay (should_copy l p u).0 =
              rw (resolved, alive, alive) refl in
            rw (sym opens ∙ opened) at (open_by-IsAt p u.overlay (should_copy l p u).0)
      ]

  -- After a Remove that succeeded, of a name that is not renamed: where Open of the directory
  -- above the name, which is not renamed either, gives an OverlayFile (as of a directory of the
  -- base), its listing has no entry of that name, whatever the two layers list.
  pub remove-unlisted :
      (name above path k : Bytes) (u u' : Fs S) (base : H) (overlay : Option H) (listed : List E)
      → lookup (clean name) u.renames ≡ none
      → remove l name u ≡ (ok tt, u')
      → lookup (clean above) u'.renames ≡ none
      → join (clean above) k ≡ clean name
      → open_name_read l above u' ≡ ok (merged path base overlay)
      → listing (merged path base overlay) u' ≡ some (ok listed)
      → named name_of k listed ≡ []
  unfolding hides listing
  remove-unlisted name above path k u u' base overlay listed last removed stays entry opened lists =
      let gone =
        remove-Hidden l name (clean name) u u' (resolve_terminal-end u.renames (clean name) last)
          removed in
      let at = open_name_read-at above path u' base overlay stays opened in
      of_file overlay (rw (at, entry) gone.1) lists
    where
      of_file :
          (o : Option H)
          → hides path u' k ≡ true
          → listing (merged path base o) u' ≡ some (ok listed)
          → named name_of k listed ≡ []
      of_file none h lists =
          hidden-unlisted k path u' (contents base) none listed h (some-ok _ _ lists)
      of_file (some f) h lists =
          hidden-unlisted k path u' (contents base) (contents f) listed h (some-ok _ _ lists)
