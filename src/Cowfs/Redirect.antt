-- ===== src/Cowfs/Redirect.antt =====
-- The walk over the renames in Rename of fs/cowfs/cowfs.go, while no directory for the two books is set.
use wanix.Base.{
  Bytes, ◌≡◌, refl, ◌∙◌, false, none, some, ◌⊎◌, List, [], ◌∷◌, arith, ◌==◌, bytes_eq, eq_iff,
  eq_refl, is_empty, lookup, put, lookup-put, Bool-cases, inl, inr,
}
use wanix.Errors.{ok}
use wanix.Actions.{◌>>◌}
use wanix.Cowfs.{Layers, Fs, record_rename}
use wanix.Cowfs.Changes.{redirect}

module _ {S Info H : Type 0} (l : Layers S Info H) where
  -- With no directory for them, a rename is only kept in memory.
  record_rename-free :
      (old new : Bytes) (u : Fs S)
      → u.whiteout_dir ≡ []
      → record_rename l old new u ≡ (ok tt, record u { renames = put old new u.renames })
  unfolding record_rename ◌>>◌ is_empty
  record_rename-free old new u free = rw free refl

  redirect-whiteout_dir :
      (src new : Bytes) (entries : List (Bytes × Bytes)) (u : Fs S)
      → u.whiteout_dir ≡ []
      → (redirect l src new entries u).whiteout_dir ≡ []
  unfolding redirect
  redirect-whiteout_dir src new [] u free = free
  redirect-whiteout_dir src new ((k, v) ∷ entries) u free = elim (Bool-cases (v == src)) [
    | inl same ↦
        rw (same, record_rename-free k new u free)
          (redirect-whiteout_dir src new entries (record u { renames = put k new u.renames }) free)
    | inr other ↦ rw other (redirect-whiteout_dir src new entries u free)
  ]

  -- A name that is no key stays none.
  pub redirect-others :
      (src new j : Bytes) (entries : List (Bytes × Bytes)) (u : Fs S)
      → u.whiteout_dir ≡ []
      → lookup j entries ≡ none
      → lookup j (redirect l src new entries u).renames ≡ lookup j u.renames
  unfolding redirect lookup
  redirect-others src new j [] u free absent = refl
  redirect-others src new j ((k, v) ∷ entries) u free absent =
      let other : (k == j) ≡ false = ground arith in
      let beyond : lookup j entries ≡ none = ground arith in
      elim (Bool-cases (v == src)) [
        | inl same ↦
            rw (same, record_rename-free k new u free)
              (redirect-others src new j entries (record u { renames = put k new u.renames }) free
                  beyond
                ∙ lookup-put k j new u.renames
                ∙ rw other refl)
        | inr differs ↦ rw differs (redirect-others src new j entries u free beyond)
      ]

  -- A name that leads to the new one goes on leading there.
  redirect-stays :
      (src new j : Bytes) (entries : List (Bytes × Bytes)) (u : Fs S)
      → u.whiteout_dir ≡ []
      → lookup j u.renames ≡ some new
      → lookup j (redirect l src new entries u).renames ≡ some new
  unfolding redirect
  redirect-stays src new j [] u free there = there
  redirect-stays src new j ((k, v) ∷ entries) u free there = elim (Bool-cases (v == src)) [
    | inl same ↦
        rw (same, record_rename-free k new u free)
          (redirect-stays src new j entries (record u { renames = put k new u.renames }) free
            (ground (arith, lookup-put k j new u.renames, there)))
    | inr other ↦ rw other (redirect-stays src new j entries u free there)
  ]

  -- A name that led to the source leads to the new name.
  pub redirect-turns :
      (src new j : Bytes) (entries : List (Bytes × Bytes)) (u : Fs S)
      → u.whiteout_dir ≡ []
      → lookup j entries ≡ some src
      → lookup j (redirect l src new entries u).renames ≡ some new
  unfolding redirect lookup
  redirect-turns src new j [] u free there = cc
  redirect-turns src new j ((k, v) ∷ entries) u free there = elim (Bool-cases (v == src)) [
    | inl same ↦
        rw (same, record_rename-free k new u free)
          (elim (Bool-cases (k == j)) [
            | inl here ↦
                redirect-stays src new j entries (record u { renames = put k new u.renames }) free
                  (lookup-put k j new u.renames ∙ rw here refl)
            | inr elsewhere ↦
                redirect-turns src new j entries (record u { renames = put k new u.renames }) free
                  (rw elsewhere at there)
          ])
    | inr other ↦
        rw other (
          redirect-turns src new j entries u free
            (ground (arith, there, eq_iff v src, eq_refl src)))
  ]

  -- A name leads where it led, or to the new name.
  pub redirect-either :
      (src new j : Bytes) (entries : List (Bytes × Bytes)) (u : Fs S)
      → u.whiteout_dir ≡ []
      → (lookup j (redirect l src new entries u).renames ≡ lookup j u.renames)
        ⊎ (lookup j (redirect l src new entries u).renames ≡ some new)
  unfolding redirect
  redirect-either src new j [] u free = inl refl
  redirect-either src new j ((k, v) ∷ entries) u free = elim (Bool-cases (v == src)) [
    | inl same ↦
        let v' = record u { renames = put k new u.renames } in
        rw (same, record_rename-free k new u free)
          (elim (Bool-cases (k == j)) [
            | inl here ↦ inr (
                redirect-stays src new j entries v' free
                  (lookup-put k j new u.renames ∙ rw here refl))
            | inr elsewhere ↦ elim (redirect-either src new j entries v' free) [
              | inl stays ↦ inl (stays ∙ lookup-put k j new u.renames ∙ rw elsewhere refl)
              | inr turned ↦ inr turned
            ]
          ])
    | inr other ↦ rw other (redirect-either src new j entries u free)
  ]
