-- ===== src/Tasks/Table.antt =====
-- The table of tasks (task.go): Alloc, Lookup and the aliases.
use wanix.Base.{
  ℕ, zero, suc, ◌+◌, ◌-◌, ◌*◌, ◌/◌, ◌%◌, ◌<◌, ◌≡◌, refl, sym, ap, ◌∙◌, Bytes, false, Option, none,
  some, [], ◌∷◌, ◌++◌, arith, if◌then◌else◌, ◌==◌, ltb, nat_eq, bytes_eq, eq_iff, eq_refl, is_empty,
  lookup, put, delete, lookup-put, lookup-delete, trim_space, Bool-cases, Option-cases, inl, inr,
}
use wanix.Errors.{bare, not_exist, ok, err, ok-injective}
use wanix.Tasks.{Calls, Task, TaskFs, digits, itoa, lookup_task, alloc, set_alias, made}

-- The number that decimal digits stand for.
abbrev value : ℕ → Bytes → ℕ
value acc [] = acc
value acc (c ∷ s) = value (acc * 10 + (c - 48)) s

value-append : (acc : ℕ) (s : Bytes) (c : ℕ) → value acc (s ++ c ∷ []) ≡ value acc s * 10 + (c - 48)
value-append acc [] c = refl
value-append acc (b ∷ s) c = value-append (acc * 10 + (b - 48)) s c

value-digits : (rounds n : ℕ) → n < rounds → value 0 (digits rounds n) ≡ n
unfolding digits
value-digits zero n h = absurd (omega (arith, h))
value-digits (suc rounds) n h = elim (Bool-cases (ltb n 10)) [
  | inl small ↦ rw small (ground (arith, small))
  | inr large ↦
      let lower : n / 10 < rounds = ground (arith, h, large) in
      rw large (
        value-append 0 (digits rounds (n / 10)) (48 + n % 10)
        ∙ rw (value-digits rounds (n / 10) lower) (omega arith))
]

-- Two numbers are not printed as one string.
pub itoa-injective : (m n : ℕ) → itoa m ≡ itoa n → m ≡ n
unfolding itoa
itoa-injective m n h =
    sym (value-digits (suc m) m (omega arith))
    ∙ ap (value 0) h
    ∙ value-digits (suc n) n (omega arith)

module _ {Ns F D : Type 0} where
  -- No number above the last one given has a task.
  abbrev pub IsTable : TaskFs Ns F D → Type 0
  IsTable d = (id : ℕ) → d.next_id < id → lookup (itoa id) d.resources ≡ none

  -- A task that is put under the next number.
  abbrev stored : Task Ns F D → TaskFs Ns F D → TaskFs Ns F D
  stored t d = record d { next_id = t.id; resources = put (itoa t.id) t d.resources }

  abbrev IsAllocated : Task Ns F D → TaskFs Ns F D → TaskFs Ns F D → Type 0
  IsAllocated t d d' =
      (lookup_task (itoa t.id) d ≡ err (bare not_exist))
      × ((rid : Bytes)
          → lookup_task rid d' ≡ (if itoa t.id == rid then ok t else lookup_task rid d))
      × IsTable d'

  stored-IsAllocated :
      (t : Task Ns F D) (d : TaskFs Ns F D)
      → IsTable d
      → t.id ≡ d.next_id + 1
      → IsAllocated t d (stored t d)
  unfolding lookup_task
  stored-IsAllocated t d h next = (
    rw (h t.id (omega (arith, next))) refl,
    (λ rid. rw (lookup-put (itoa t.id) rid t d.resources) (elim (Bool-cases (itoa t.id == rid)) [
      | inl same ↦ rw same refl
      | inr other ↦ rw other refl
    ])),
    (λ id far.
        let differs : (itoa t.id == itoa id) ≡ false = elim (Bool-cases (itoa t.id == itoa id)) [
          | inl same ↦
              absurd
                (omega (arith, itoa-injective t.id id ((eq_iff (itoa t.id) (itoa id)).0 same), far))
          | inr other ↦ other
        ] in
        lookup-put (itoa t.id) (itoa id) t d.resources
        ∙ rw differs (h id (omega (arith, far, next)))),
  )

module _ {Ns F D : Type 0} (c : Calls Ns F) where
  -- An Alloc that succeeds gives a task under a new number: Lookup did not find that number
  -- before, finds the task after, and finds for all other numbers what it found before; for a
  -- table without tasks above its last number, and it stays so.
  pub lookup_task-alloc :
      (kind : Bytes) (parent : Option (Task Ns F D)) (d d' : TaskFs Ns F D) (t : Task Ns F D)
      → IsTable d
      → alloc c kind parent d ≡ (ok t, d')
      → (lookup_task (itoa t.id) d ≡ err (bare not_exist))
        × ((rid : Bytes)
            → lookup_task rid d' ≡ (if itoa t.id == rid then ok t else lookup_task rid d))
        × IsTable d'
  unfolding alloc
  lookup_task-alloc kind parent d d' t h done = elim (Option-cases (lookup kind d.types)) [
    | inl unknown ↦
        let failed : err (bare not_exist) ≡ ok t = ap (λ r. r.0) (rw unknown at done) in cc
    | inr (driver, known) ↦
        let t' = made c kind driver (d.next_id + 1) parent in
        let e : (ok t', stored t' d) ≡ (ok t, d') = rw known at done in
        let same_task : t' ≡ t = ok-injective (ok t') t' t refl (ap (λ r. r.0) e) in
        let same_table : stored t' d ≡ d' = ap (λ r. r.1) e in
        rw (← same_task, ← same_table) (stored-IsAllocated t' d h refl)
  ]

module _ {Ns F D : Type 0} where
  -- A new alias that is written to a task that has another one leads to the task, and the old
  -- alias leads to no task, whichever task it led to.
  pub lookup-set_alias :
      (written : Bytes) (t : Task Ns F D) (d : TaskFs Ns F D)
      → is_empty written ≡ false
      → is_empty t.alias ≡ false
      → (trim_space written == t.alias) ≡ false
      → (lookup (trim_space written) (set_alias written t d).aliases ≡ some t.id)
        × (lookup t.alias (set_alias written t d).aliases ≡ none)
  unfolding set_alias
  lookup-set_alias written t d some_written had_one other =
      let new = trim_space written in
      rw (some_written, had_one)
        (
          lookup-put new new t.id (delete t.alias d.aliases) ∙ rw (eq_refl new) refl,
          lookup-put new t.alias t.id (delete t.alias d.aliases)
              ∙ rw other (lookup-delete t.alias t.alias d.aliases ∙ rw (eq_refl t.alias) refl),
        )
