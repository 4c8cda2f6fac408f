-- ===== src/Cowfs/Renamed.antt =====
-- Rename of fs/cowfs/cowfs.go: where the names lead to after it, while no directory for the two books is
-- set.
use wanix.Base.{
  ℕ, zero, suc, ◌≤◌, ◌<◌, ◌⊎◌, inl, inr, Map, put, eq_iff, Bool-cases, Bytes, ◌≡◌, refl, ◌∙◌, true,
  false, none, some, [], arith, ◌==◌, bytes_eq, eq_refl, lookup, lookup-put,
}
use wanix.Errors.{Result, bare, invalid, ok, err}
use wanix.Paths.{clean}
use wanix.Cowfs.{Layers, Fs, is_dead, live, resolve_path, resolve_terminal, known, max_hops}
use wanix.Cowfs.Changes.{rename, redirect_all}
use wanix.Cowfs.Chains.{
  Leads, resolve_terminal_iff, resolve_terminal-end, resolve_terminal-once, resolve_terminal_self,
}
use wanix.Cowfs.Redirect.{redirect-others, redirect-turns, redirect-either}
use wanix.Cowfs.Moves.{rename-books}

module _ {S Info H : Type 0} (l : Layers S Info H) where
  alive :
      (p q : Bytes) (u : Fs S)
      → resolve_terminal p u.renames ≡ ok q
      → is_dead q u ≡ false
      → resolve_path p u ≡ ok q
  unfolding resolve_path
  alive p q u leads live = rw leads (rw live refl)

  -- What becomes of a link: it leads to the new name, or as before, if that was not the source.
  abbrev Turned : Bytes → Bytes → Map Bytes Bytes → Map Bytes Bytes → Type 0
  Turned src new before m =
      (j y : Bytes)
      → lookup j before ≡ some y
      → (lookup j m ≡ some new) ⊎ ((lookup j m ≡ some y) × (y == src ≡ false))

  redirect_all-Turned :
      (src new : Bytes) (u : Fs S)
      → u.whiteout_dir ≡ []
      → Turned src new u.renames (redirect_all l src new u).renames
  redirect_all-Turned src new u free j y link = elim (Bool-cases (y == src)) [
    | inl same ↦
        inl (redirect-turns l src new j u.renames u free (rw (← (eq_iff y src).0 same) link))
    | inr other ↦ elim (redirect-either l src new j u.renames u free) [
      | inl stays ↦ inr (stays ∙ link, other)
      | inr turned ↦ inl turned
    ]
  ]

  put-Turned :
      (old src new : Bytes) (before m : Map Bytes Bytes)
      → Turned src new before m
      → Turned src new before (put old new m)
  put-Turned old src new before m turned j y link = elim (Bool-cases (old == j)) [
    | inl here ↦ inl (lookup-put old j new m ∙ rw here refl)
    | inr elsewhere ↦ rw (lookup-put old j new m, elsewhere) (turned j y link)
  ]

  -- A chain that led to the source leads to the new name, and is no longer.
  Turned-Leads :
      (n : ℕ) (src new p : Bytes) (before m : Map Bytes Bytes)
      → Turned src new before m
      → p == src ≡ false
      → Leads before n p src
      → (k : ℕ) × (k ≤ n) × Leads m k p new
  Turned-Leads zero src new p before m turned differ at =
      absurd (ground (arith, differ, at, eq_refl src))
  Turned-Leads (suc n) src new p before m turned differ (next, link, chain) =
      elim (turned p next link) [
        | inl there ↦ (1, omega arith, (new, there, refl))
        | inr (stays, further) ↦
            let (k, short, rest) = Turned-Leads n src new next before m turned further chain in
            (suc k, omega (arith, short), (next, stays, rest))
      ]

  terminal :
      (p q : Bytes) (u : Fs S) → resolve_path p u ≡ ok q → resolve_terminal p u.renames ≡ ok q
  unfolding resolve_path
  terminal p q u leads = go (resolve_terminal p u.renames) leads
    where
      go : (r : Result Bytes) → live r u ≡ ok q → r ≡ ok q
      go (err e) h = h
      go (ok cur) h = elim (Bool-cases (is_dead cur u)) [
        | inl dead ↦ absurd (ground (arith, h, dead))
        | inr breathes ↦ rw breathes at h
      ]

  -- After a Rename that succeeded, to another name that is not renamed itself, the new name leads
  -- to itself, and each name that led to the moved file over one rename or a chain of them leads
  -- to the new name; the path that the file had is left out, and no directory for the books is
  -- set.
  pub rename-links :
      (old_name new_name src p : Bytes) (u u' : Fs S)
      → u.whiteout_dir ≡ []
      → lookup (clean new_name) u.renames ≡ none
      → clean old_name == clean new_name ≡ false
      → resolve_path (clean old_name) u ≡ ok src
      → resolve_path p u ≡ ok src
      → p == src ≡ false
      → rename l old_name new_name u ≡ (ok tt, u')
      → (resolve_path (clean new_name) u' ≡ ok (clean new_name))
        × (resolve_path p u' ≡ ok (clean new_name))
  rename-links old_name new_name src p u u' free unused differ leads link apart done =
      let old = clean old_name in
      let new = clean new_name in
      let After : Map Bytes Bytes → Bytes → Type 0 =
        λ m d. (lookup new m ≡ none) × Turned src new u.renames m in
      let r =
        rename-books l old_name new_name src (λ m d. (d ≡ []) × (m ≡ u.renames)) After After u u'
          (λ v h. rw (← h.1) (
            redirect-others l src new new v.renames v h.0 (rw h.1 unused) ∙ rw h.1 unused,
            redirect_all-Turned src new v h.0,
          ))
          (λ m d q.
            (lookup-put old new new m ∙ rw differ q.0, put-Turned old src new u.renames m q.1))
          (λ m d no q. q) leads (free, refl) done in
      let end = (resolve_terminal_iff u.renames p src).0 (terminal p src u link) in
      let (k, short, chain) =
        Turned-Leads end.length src new p u.renames u'.renames r.0.1 apart end.chain in
      let found = (resolve_terminal_iff u'.renames p new).1 (record {
        length = k;
        short = shorter k end.length short end.short;
        chain = chain;
        last = r.0.0;
      }) in
      (alive new new u' (resolve_terminal-end u'.renames new r.0.0) r.1, alive p new u' found r.1)
    where
      shorter : (k n : ℕ) → k ≤ n → n < max_hops → k < max_hops
      shorter k n a b = omega (arith, a, b)

  -- After a Rename of a file of the base that succeeded, to another name that is not renamed
  -- itself, the old name leads to the new one; while no directory for the books is set.
  pub rename-old :
      (old_name new_name src : Bytes) (u u' : Fs S)
      → u.whiteout_dir ≡ []
      → lookup (clean new_name) u.renames ≡ none
      → clean old_name == clean new_name ≡ false
      → resolve_path (clean old_name) u ≡ ok src
      → known (l.base_lstat src) ≡ ok true
      → rename l old_name new_name u ≡ (ok tt, u')
      → resolve_path (clean old_name) u' ≡ ok (clean new_name)
  rename-old old_name new_name src u u' free unused differ leads base done =
      let old = clean old_name in
      let new = clean new_name in
      let r =
        rename-books l old_name new_name src (λ m d. (d ≡ []) × (lookup new m ≡ none))
          (λ m d. lookup new m ≡ none) (λ m d. (lookup new m ≡ none) × (lookup old m ≡ some new)) u
          u' (λ v h. redirect-others l src new new v.renames v h.0 h.1 ∙ h.1)
          (λ m d q. (
            lookup-put old new new m ∙ rw differ q,
            lookup-put old old new m ∙ rw (eq_refl old) refl,
          ))
          (λ m d no q. absurd (ground (arith, base, no))) leads (free, unused) done in
      alive old new u' (resolve_terminal-once u'.renames old new r.0.1 r.0.0) r.1

  lost :
      (p : Bytes) (u : Fs S) → lookup p u.renames ≡ some p → resolve_path p u ≡ err (bare invalid)
  unfolding resolve_path
  lost p u loop = rw (resolve_terminal_self u.renames p loop) refl

  -- After a Rename that succeeded, to a name that leads to the file in one step, that name cannot
  -- be resolved: it is renamed to itself, and what is asked of it fails as invalid; while no
  -- directory for the books is set.
  pub rename-back :
      (old_name new_name src : Bytes) (u u' : Fs S)
      → u.whiteout_dir ≡ []
      → lookup (clean new_name) u.renames ≡ some src
      → resolve_path (clean old_name) u ≡ ok src
      → rename l old_name new_name u ≡ (ok tt, u')
      → resolve_path (clean new_name) u' ≡ err (bare invalid)
  rename-back old_name new_name src u u' free renamed leads done =
      let old = clean old_name in
      let new = clean new_name in
      let r =
        rename-books l old_name new_name src (λ m d. (d ≡ []) × (lookup new m ≡ some src))
          (λ m d. lookup new m ≡ some new) (λ m d. lookup new m ≡ some new) u u'
          (λ v h. redirect-turns l src new new v.renames v h.0 h.1)
          (λ m d q. ground (arith, lookup-put old new new m, q)) (λ m d no q. q) leads
          (free, renamed) done in
      lost new u' r.0

  -- After a Rename that succeeded, of a file of the base to its own name, that name cannot be
  -- resolved: what is asked of it fails as invalid.
  pub rename_self :
      (name src : Bytes) (u u' : Fs S)
      → resolve_path (clean name) u ≡ ok src
      → known (l.base_lstat src) ≡ ok true
      → rename l name name u ≡ (ok tt, u')
      → resolve_path (clean name) u' ≡ err (bare invalid)
  rename_self name src u u' leads base done =
      let new = clean name in
      let r =
        rename-books l name name src (λ m d. Unit {0}) (λ m d. Unit {0})
          (λ m d. lookup new m ≡ some new) u u' (λ v h. tt)
          (λ m d q. lookup-put new new new m ∙ rw (eq_refl new) refl)
          (λ m d no q. absurd (ground (arith, base, no))) leads tt done in
      lost new u' r.0
