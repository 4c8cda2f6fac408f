-- ===== src/Cowfs/Moves.antt =====
-- Rename of fs/cowfs/cowfs.go: what it makes of the two books.
use wanix.Base.{
  Bytes, ◌≡◌, refl, ap, Bool, true, false, not, ◌==◌, bytes_eq, eq_refl, Map, put, lookup-delete,
}
use wanix.Errors.{ok-injective, ok}
use wanix.Paths.{clean, dir, dot}
use wanix.Actions.{
  Action, modify, Triple, bind-Triple, seq-Triple, ask-Triple, lift-Triple, when-Triple,
  weaken-Triple, Keeps, fact-Triple, bind-Keeps, when-Keeps, ask-Keeps, lift-Keeps, fail_if-Keeps,
}
use wanix.Cowfs.{Layers, Fs, is_dead, resolve_path, record_rename, known}
use wanix.Cowfs.Changes.{rename, moved, redirect_all, rename_parent, move_content}
use wanix.Cowfs.Removal.{record_rename-books, tombstone-renames, on_overlay-renames}

module _ {S Info H : Type 0} (l : Layers S Info H) where
  -- What is known of the renames alone: a map and the directory of the books.
  abbrev pub Known : (Map Bytes Bytes → Bytes → Type 0) → Fs S → Type 0
  Known P u = P u.renames u.whiteout_dir

  rename_parent-Keeps :
      (P : Map Bytes Bytes → Bytes → Type 0) (d : Bytes) → Keeps (Known P) (rename_parent l d)
  rename_parent-Keeps P d =
      when-Keeps (not (d == dot))
        (bind-Keeps (ask-Keeps _) (λ there. when-Keeps (not there) (on_overlay-renames _ P)))

  move_content-Keeps :
      (P : Map Bytes Bytes → Bytes → Type 0) (above : Bool) (src new : Bytes)
      → Keeps (Known P) (move_content l above src new)
  move_content-Keeps P true src new = on_overlay-renames _ P
  move_content-Keeps P false src new = on_overlay-renames _ P

  -- Before its books, Rename changes neither the renames nor the directory for the books.
  rename-Triple :
      (old_name new_name src : Bytes) (P : Map Bytes Bytes → Bytes → Type 0) (Q : Fs S → Type 0)
      → ((b : Bool)
          → known (l.base_lstat src) ≡ ok b
          → Triple (Known P) (moved l b (clean old_name) src (clean new_name)) (λ _ u. Q u))
      → Triple
          (λ u. (resolve_path (clean old_name) u ≡ ok src) × Known P u)
          (rename l old_name new_name)
          (λ _ u. Q u)
  unfolding rename
  rename-Triple old_name new_name src P Q after = bind-Triple (ask-Triple _) (λ s.
      weaken-Triple {P = λ u. (s ≡ src) × Known P u} {Q = λ _ u. Q u}
        (λ u h. (ok-injective (resolve_path (clean old_name) u) s src h.0 h.1.0, h.1.1))
        (λ _ u h. h)
        (fact-Triple (λ same. rw same (
          bind-Triple (lift-Triple _) (λ base. fact-Triple (λ there.
            bind-Triple (ask-Keeps _) (λ overlay. seq-Triple (fail_if-Keeps _ _) (
              bind-Triple (ask-Keeps _) (λ above.
                seq-Triple (when-Keeps above (on_overlay-renames _ P)) (
                  bind-Triple (lift-Keeps _) (λ beneath.
                    seq-Triple (when-Keeps beneath (tombstone-renames l _ P)) (
                      seq-Triple (rename_parent-Keeps P (dir (clean new_name))) (
                        seq-Triple (move_content-Keeps P overlay src (clean new_name))
                          (after base there))))))))))))))

  -- The books after the walk over the renames.
  redirect_all-Triple :
      (src new : Bytes) (P Q : Map Bytes Bytes → Bytes → Type 0)
      → ((u : Fs S) → Known P u → Known Q (redirect_all l src new u))
      → Triple (Known P) (modify (redirect_all l src new)) (λ _ u. Known Q u)
  redirect_all-Triple src new P Q step = record { holds = λ u h a e. step u h }

  recorded-Triple :
      (old new : Bytes) (P Q : Map Bytes Bytes → Bytes → Type 0)
      → ((m : Map Bytes Bytes) (d : Bytes) → P m d → Q (put old new m) d)
      → Triple (Known P) (record_rename l old new) (λ _ u. Known Q u)
  recorded-Triple old new P Q step = record {
    holds = λ u h a e.
        let b = record_rename-books l old new u in rw (b.1, b.2) (step u.renames u.whiteout_dir h);
  }

  -- The whole of the books: what the walk makes of what was known, what the new entry makes of it,
  -- and that the destination is alive at the end.
  moved-Triple :
      (b : Bool) (old src new : Bytes) (P Q R : Map Bytes Bytes → Bytes → Type 0)
      → ((u : Fs S) → Known P u → Known Q (redirect_all l src new u))
      → ((m : Map Bytes Bytes) (d : Bytes) → b ≡ true → Q m d → R (put old new m) d)
      → ((m : Map Bytes Bytes) (d : Bytes) → b ≡ false → Q m d → R m d)
      → Triple (Known P) (moved l b old src new) (λ _ u. Known R u × (is_dead new u ≡ false))
  unfolding moved
  moved-Triple b old src new P Q R walk entry none_recorded =
      seq-Triple (when-Keeps b (tombstone-renames l src P)) (
        seq-Triple (when-Keeps _ (tombstone-renames l old P)) (
          seq-Triple (redirect_all-Triple src new P Q walk) (
            seq-Triple {Q = λ _. Known R}
              (when-Triple b (λ yes. recorded-Triple old new Q R (λ m d q. entry m d yes q))
                (λ no u q. none_recorded u.renames u.whiteout_dir no q))
              (record {
                holds = λ u r a e. (r, rw (lookup-delete new new u.tombstones, eq_refl new) refl);
              }))))

  success :
      {A : Type 0} {P : Fs S → Type 0} {Q : Fs S → Type 0} {act : Action (Fs S) A} (u u' : Fs S)
      (a : A)
      → Triple P act (λ _ v. Q v)
      → P u
      → act u ≡ (ok a, u')
      → Q u'
  success u u' a t p done = rw (ap (λ r. r.1) done) at (t.holds u p a (ap (λ r. r.0) done))

  -- What a Rename that succeeds makes of the books.
  pub rename-books :
      (old_name new_name src : Bytes) (P Q R : Map Bytes Bytes → Bytes → Type 0) (u u' : Fs S)
      → ((v : Fs S) → Known P v → Known Q (redirect_all l src (clean new_name) v))
      → ((m : Map Bytes Bytes) (d : Bytes) → Q m d → R (put (clean old_name) (clean new_name) m) d)
      → ((m : Map Bytes Bytes) (d : Bytes) → known (l.base_lstat src) ≡ ok false → Q m d → R m d)
      → resolve_path (clean old_name) u ≡ ok src
      → Known P u
      → rename l old_name new_name u ≡ (ok tt, u')
      → Known R u' × (is_dead (clean new_name) u' ≡ false)
  rename-books old_name new_name src P Q R u u' walk entry none_recorded leads known_before done =
      success {Q = λ v. Known R v × (is_dead (clean new_name) v ≡ false)} u u' tt
        (rename-Triple old_name new_name src P
          (λ v. Known R v × (is_dead (clean new_name) v ≡ false))
          (λ b there.
            moved-Triple b (clean old_name) src (clean new_name) P Q R walk (λ m d yes. entry m d)
              (λ m d no. none_recorded m d (rw no at there))))
        (leads, known_before) done
