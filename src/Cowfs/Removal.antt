-- ===== src/Cowfs/Removal.antt =====
-- Remove of fs/cowfs/cowfs.go, and what the methods do to the two books, tombstones and renames.
use wanix.Base.{
  Bytes, codes, ◌≡◌, refl, Bool, true, false, none, [], ◌∷◌, arith, bytes_eq, eq_refl, ap, is_empty,
  Map, lookup, put, lookup-put, Bool-cases, inl, inr,
}
use wanix.Errors.{ok-injective, bare, not_exist, ok, err}
use wanix.Paths.{clean}
use wanix.Actions.{
  Action, ◌>>◌, when, modify, Triple, bind-Triple, seq-Triple, ask-Triple, weaken-Triple, Keeps,
  fact-Triple, bind-Keeps, when-Keeps, ask-Keeps, lift-Keeps, fail_if-Keeps,
}
use wanix.Cowfs.{
  Layers, Fs, is_dead, resolve_path, resolve_terminal, tombstone, record_rename, persisted,
  on_overlay,
}
use wanix.Cowfs.Changes.{
  remove, remove_known, remove_there, check_empty, target_is_dir, drop_values, overlay_entries,
  base_entries,
}
use wanix.Contexts.{Ctx}
use wanix.Cowfs.Views.{stat_context, readlink, open_name_read, visible}
use wanix.Cowfs.Chains.{resolve_terminal-end, resolve_terminal_iff}

-- What is known of the renames alone stays true while the overlay changes, and the tombstones.
pub on_overlay-renames :
    {S A : Type 0} (act : Action S A) (Q : Map Bytes Bytes → Bytes → Type 0)
    → Keeps (λ u. Q u.renames u.whiteout_dir) (on_overlay act)
on_overlay-renames act Q = record { holds = λ u q a h. q }

module _ {S Info H : Type 0} (l : Layers S Info H) where
  persisted-books :
      (kind name content : Bytes) (u : Fs S)
      → ((persisted l kind name content u).1.tombstones ≡ u.tombstones)
        × ((persisted l kind name content u).1.renames ≡ u.renames)
        × ((persisted l kind name content u).1.whiteout_dir ≡ u.whiteout_dir)
  persisted-books kind name content u = elim (Bool-cases (is_empty u.whiteout_dir)) [
    | inl off ↦ rw off (refl, refl, refl)
    | inr on ↦ rw on (refl, refl, refl)
  ]

  -- A tombstone is one more tombstone, even if it cannot be written down.
  pub tombstone-books :
      (name : Bytes) (u : Fs S)
      → ((tombstone l name u).1.tombstones ≡ put name tt u.tombstones)
        × ((tombstone l name u).1.renames ≡ u.renames)
        × ((tombstone l name u).1.whiteout_dir ≡ u.whiteout_dir)
  unfolding tombstone ◌>>◌
  tombstone-books name u =
      persisted-books (codes "deletes") name name
        (record u { tombstones = put name tt u.tombstones })

  pub record_rename-books :
      (old new : Bytes) (u : Fs S)
      → ((record_rename l old new u).1.tombstones ≡ u.tombstones)
        × ((record_rename l old new u).1.renames ≡ put old new u.renames)
        × ((record_rename l old new u).1.whiteout_dir ≡ u.whiteout_dir)
  unfolding record_rename ◌>>◌
  record_rename-books old new u =
      persisted-books (codes "renames") old _ (record u { renames = put old new u.renames })

  pub tombstone-renames :
      (name : Bytes) (Q : Map Bytes Bytes → Bytes → Type 0)
      → Keeps (λ u. Q u.renames u.whiteout_dir) (tombstone l name)
  tombstone-renames name Q = record {
    holds = λ u q a h. rw ((tombstone-books name u).1, (tombstone-books name u).2) q;
  }

lookup-drop_values :
    (t k : Bytes) (m : Map Bytes Bytes) → lookup k m ≡ none → lookup k (drop_values t m) ≡ none
unfolding lookup drop_values
lookup-drop_values t k [] h = refl
lookup-drop_values t k ((j, v) ∷ m) h = ground (arith, lookup-drop_values t k m)

module _ {S Info H : Type 0} (l : Layers S Info H) where
  abbrev NotRenamed : Bytes → Fs S → Type 0
  NotRenamed target u = lookup target u.renames ≡ none

  -- A path that does not lead elsewhere, and is deleted.
  abbrev pub Hidden : Bytes → Fs S → Type 0
  Hidden target u = (lookup target u.renames ≡ none) × (is_dead target u ≡ true)

  pub Hidden-resolve_path :
      (target : Bytes) (u : Fs S) → Hidden target u → resolve_path target u ≡ err (bare not_exist)
  unfolding resolve_path
  Hidden-resolve_path target u (last, dead) =
      rw (resolve_terminal-end u.renames target last) (rw dead refl)

  tombstone-hides :
      (target : Bytes) → Triple (NotRenamed target) (tombstone l target) (λ _ u. Hidden target u)
  tombstone-hides target = record {
    holds = λ u last a h.
        let b = tombstone-books l target u in
        (rw b.1 last, rw (b.0, lookup-put target target tt u.tombstones, eq_refl target) refl);
  }

  drop_values-hides :
      (target : Bytes)
      → Triple
          (Hidden target)
          (modify (λ u. record u { renames = drop_values target u.renames }))
          (λ _ u. Hidden target u)
  drop_values-hides target = record {
    holds = λ u h a e. (lookup-drop_values target target u.renames h.0, h.1);
  }

  remove_overlay-Keeps :
      (overlay : Bool) (target : Bytes)
      → Keeps (NotRenamed target) (when overlay (on_overlay (l.remove target)))
  remove_overlay-Keeps overlay target =
      when-Keeps overlay (on_overlay-renames (l.remove target) (λ m _. lookup target m ≡ none))

  check_empty-Keeps :
      (overlay base : Bool) (target : Bytes)
      → Keeps (NotRenamed target) (check_empty l overlay base target)
  check_empty-Keeps overlay base target = bind-Keeps (entries-keeps overlay) (λ above.
      bind-Keeps (beneath-keeps base)
        (λ beneath. bind-Keeps (ask-Keeps _) (λ dead. fail_if-Keeps _ _)))
    where
      entries-keeps : (b : Bool) → Keeps (NotRenamed target) (overlay_entries l b target)
      entries-keeps true = ask-Keeps _
      entries-keeps false = lift-Keeps _

      beneath-keeps : (b : Bool) → Keeps (NotRenamed target) (base_entries l b target)
      beneath-keeps true = lift-Keeps _
      beneath-keeps false = lift-Keeps _

  target_is_dir-Keeps :
      (overlay base : Bool) (target : Bytes)
      → Keeps (NotRenamed target) (target_is_dir l overlay base target)
  target_is_dir-Keeps true base target = ask-Keeps _
  target_is_dir-Keeps false true target = lift-Keeps _
  target_is_dir-Keeps false false target = lift-Keeps _

  remove_there-hides :
      (base overlay : Bool) (target : Bytes)
      → Triple (NotRenamed target) (remove_there l base overlay target) (λ _ u. Hidden target u)
  remove_there-hides base overlay target =
      bind-Triple (target_is_dir-Keeps overlay base target) (λ directory.
        seq-Triple (when-Keeps directory (check_empty-Keeps overlay base target)) (
          seq-Triple (remove_overlay-Keeps overlay target)
            (seq-Triple (tombstone-hides target) (drop_values-hides target))))

  -- A file that is deleted already stays so.
  remove_known-hides :
      (dead base overlay : Bool) (target : Bytes)
      → Triple
          (λ u. NotRenamed target u × (is_dead target u ≡ dead))
          (remove_known l dead base overlay target)
          (λ _ u. Hidden target u)
  remove_known-hides true base overlay target = when-Keeps overlay (record { holds = λ u h a e. h })
  remove_known-hides false true overlay target =
      weaken-Triple (λ u h. h.0) (λ _ u h. h) (remove_there-hides true overlay target)
  remove_known-hides false false true target =
      weaken-Triple (λ u h. h.0) (λ _ u h. h) (remove_there-hides false true target)
  remove_known-hides false false false target = record { holds = λ u h a e. cc }

  remove-Triple :
      (name target : Bytes)
      → Triple
          (λ u. resolve_terminal (clean name) u.renames ≡ ok target)
          (remove l name)
          (λ _ u. Hidden target u)
  unfolding remove
  remove-Triple name target = bind-Triple (ask-Triple _) (λ t.
      weaken-Triple {P = λ u. (t ≡ target) × NotRenamed t u} {Q = λ _. Hidden target}
        (λ u h. (
          ok-injective (resolve_terminal (clean name) u.renames) t target h.0 h.1,
          ((resolve_terminal_iff u.renames (clean name) t).0 h.0).last,
        ))
        (λ _ u h. h)
        (fact-Triple (λ same. rw (← same) (
          bind-Triple (lift-Keeps _) (λ base. bind-Triple (ask-Keeps _) (λ overlay.
            bind-Triple (ask-Triple _) (λ dead.
              weaken-Triple
                (λ u h. (h.1, ok-injective (ok (is_dead t u)) (is_dead t u) dead refl h.0))
                (λ _ u h. h) (remove_known-hides dead base overlay t))))))))

  pub remove-Hidden :
      (name target : Bytes) (u u' : Fs S)
      → resolve_terminal (clean name) u.renames ≡ ok target
      → remove l name u ≡ (ok tt, u')
      → Hidden target u'
  remove-Hidden name target u u' leads removed =
      rw (ap (λ r. r.1) removed) at
        ((remove-Triple name target).holds u leads tt (ap (λ r. r.0) removed))

  -- After a Remove that succeeded, the path that the name led to is deleted.
  pub remove-hides :
      (name target : Bytes) (u u' : Fs S)
      → resolve_terminal (clean name) u.renames ≡ ok target
      → remove l name u ≡ (ok tt, u')
      → resolve_path target u' ≡ err (bare not_exist)
  remove-hides name target u u' leads removed =
      Hidden-resolve_path target u' (remove-Hidden name target u u' leads removed)

-- After a Remove that succeeded, of a name that is not renamed, Stat, Readlink and Open of the
-- name say that no such file exists, whichever of the layers had it.
pub remove-unseen :
    {F S Info H : Type 0} (l : Layers S Info H) (ctx : Ctx F) (name : Bytes) (u u' : Fs S)
    → lookup (clean name) u.renames ≡ none
    → remove l name u ≡ (ok tt, u')
    → (stat_context l ctx name u' ≡ err (bare not_exist))
      × (readlink l name u' ≡ err (bare not_exist))
      × (open_name_read l name u' ≡ err (bare not_exist))
unfolding stat_context readlink open_name_read visible
remove-unseen l ctx name u u' last removed =
    let gone =
      remove-hides l name (clean name) u u' (resolve_terminal-end u.renames (clean name) last)
        removed in
    rw gone (refl, refl, refl)
