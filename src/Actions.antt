-- ===== src/Actions.antt =====
-- Code that changes a state and may fail: a function from the state to a result and the state after
-- it. A step that fails ends the code, and what was changed before it stays changed.
use wanix.Base.{Bool, true, false, ◌≡◌, refl}
use wanix.Errors.{Error, Result, ok, err}

abbrev pub Action : Type 0 → Type 0 → Type 0
Action S A = S → Result A × S

abbrev pub then_do : {S A B : Type 0} → Result A × S → (A → Action S B) → Result B × S
then_do (err e, s) next = (err e, s)
then_do (ok a, s) next = next a s

module _ {S : Type 0} where
  infixl 5 ◌>>=◌ ◌>>◌
  unfoldable pub ◌>>=◌ : {A B : Type 0} → Action S A → (A → Action S B) → Action S B
  ◌>>=◌ first next s = then_do (first s) next

  unfoldable pub ◌>>◌ : {B : Type 0} → Action S (Unit {0}) → Action S B → Action S B
  ◌>>◌ first next s = then_do (first s) (λ _. next)

  abbrev pub return : {A : Type 0} → A → Action S A
  return a s = (ok a, s)

  abbrev pub fail : {A : Type 0} → Error → Action S A
  fail e s = (err e, s)

  abbrev pub lift : {A : Type 0} → Result A → Action S A
  lift r s = (r, s)

  -- A result that is read off the state.
  abbrev pub ask : {A : Type 0} → (S → Result A) → Action S A
  ask read s = (read s, s)

  abbrev pub modify : (S → S) → Action S (Unit {0})
  modify f s = (ok tt, f s)

  -- `if test { return err }`
  abbrev pub fail_if : Bool → Error → Action S (Unit {0})
  fail_if true e s = (err e, s)
  fail_if false e s = (ok tt, s)

  -- `if test { act }`
  abbrev pub when : Bool → Action S (Unit {0}) → Action S (Unit {0})
  when true act s = act s
  when false act s = (ok tt, s)

-- From a state with `P`, an action that succeeds leaves its value and its state with `Q`.
pub record Triple {S A : Type 0} (P : S → Type 0) (act : Action S A) (Q : A → S → Type 0)
    : Type 0 where
  pub holds : (s : S) → P s → (a : A) → (act s).0 ≡ ok a → Q a (act s).1

module _ {S : Type 0} where
  then_do-holds :
      {A B : Type 0} (Q : A → S → Type 0) (R : B → S → Type 0) (r : Result A × S)
      (next : A → Action S B)
      → ((a : A) → r.0 ≡ ok a → Q a r.1)
      → ((a : A) → Triple (Q a) (next a) R)
      → (b : B) → (then_do r next).0 ≡ ok b
      → R b (then_do r next).1
  then_do-holds Q R (err e, s) next q t b h = cc
  then_do-holds Q R (ok a, s) next q t b h = (t a).holds s (q a refl) b h

  pub bind-Triple :
      {A B : Type 0} {P : S → Type 0} {Q : A → S → Type 0} {R : B → S → Type 0} {first : Action S A}
      {next : A → Action S B}
      → Triple P first Q
      → ((a : A) → Triple (Q a) (next a) R)
      → Triple P (first >>= next) R
  unfolding ◌>>=◌
  bind-Triple {Q = Q} {R = R} {first = first} {next = next} t u = record {
    holds = λ s p b h. then_do-holds Q R (first s) next (t.holds s p) u b h;
  }

  pub seq-Triple :
      {B : Type 0} {P : S → Type 0} {Q : Unit {0} → S → Type 0} {R : B → S → Type 0}
      {first : Action S (Unit {0})} {next : Action S B}
      → Triple P first Q
      → Triple (Q tt) next R
      → Triple P (first >> next) R
  unfolding ◌>>◌
  seq-Triple {Q = Q} {R = R} {first = first} {next = next} t u = record {
    holds = λ s p b h. then_do-holds Q R (first s) (λ _. next) (t.holds s p) (λ _. u) b h;
  }

  -- A step that leaves the state as it is keeps what is known of it.
  pub lift-Triple :
      {A : Type 0} {P : S → Type 0} (r : Result A) → Triple P (lift r) (λ a s. (r ≡ ok a) × P s)
  lift-Triple r = record { holds = λ s p a h. (h, p) }

  pub ask-Triple :
      {A : Type 0} {P : S → Type 0} (read : S → Result A)
      → Triple P (ask read) (λ a s. (read s ≡ ok a) × P s)
  ask-Triple read = record { holds = λ s p a h. (h, p) }

  pub fail_if-Triple :
      {P : S → Type 0} (test : Bool) (e : Error)
      → Triple P (fail_if test e) (λ _ s. (test ≡ false) × P s)
  fail_if-Triple {P = P} test e = record { holds = λ s p. go test s p }
    where
      go :
          (b : Bool) (s : S)
          → P s
          → (u : Unit {0}) → (fail_if b e s).0 ≡ ok u
          → (b ≡ false) × P (fail_if b e s).1
      go true s p u h = cc
      go false s p u h = (refl, p)

  pub when-Triple :
      {P : S → Type 0} {Q : Unit {0} → S → Type 0} {act : Action S (Unit {0})} (test : Bool)
      → (test ≡ true → Triple P act Q)
      → (test ≡ false → (s : S) → P s → Q tt s)
      → Triple P (when test act) Q
  when-Triple {act = act} true t u = record { holds = λ s p a h. (t refl).holds s p a h }
  when-Triple {act = act} false t u = record { holds = λ s p a h. u refl s p }

  pub weaken-Triple :
      {A : Type 0} {P P' : S → Type 0} {Q Q' : A → S → Type 0} {act : Action S A}
      → ((s : S) → P' s → P s)
      → ((a : A) (s : S) → Q a s → Q' a s)
      → Triple P act Q
      → Triple P' act Q'
  weaken-Triple {act = act} pre post t = record {
    holds = λ s p a h. post a (act s).1 (t.holds s (pre s p) a h);
  }

  -- A fact that does not depend on the state.
  pub fact-Triple :
      {A : Type 0} {φ : Type 0} {P : S → Type 0} {Q : A → S → Type 0} {act : Action S A}
      → (φ → Triple P act Q)
      → Triple (λ s. φ × P s) act Q
  fact-Triple t = record { holds = λ s p a h. (t p.0).holds s p.1 a h }

-- A step that keeps what is known of the state, whatever it gives.
abbrev pub Keeps : {S A : Type 0} → (S → Type 0) → Action S A → Type 0
Keeps P act = Triple P act (λ _. P)

module _ {S : Type 0} {P : S → Type 0} where
  pub bind-Keeps :
      {A B : Type 0} {first : Action S A} {next : A → Action S B}
      → Keeps P first
      → ((a : A) → Keeps P (next a))
      → Keeps P (first >>= next)
  bind-Keeps t u = bind-Triple t u

  pub when-Keeps : {act : Action S (Unit {0})} (test : Bool) → Keeps P act → Keeps P (when test act)
  when-Keeps test t = when-Triple test (λ _. t) (λ _ u p. p)

  pub ask-Keeps : {A : Type 0} (read : S → Result A) → Keeps P (ask read)
  ask-Keeps read = record { holds = λ u p a h. p }

  pub lift-Keeps : {A : Type 0} (r : Result A) → Keeps P (lift r)
  lift-Keeps r = record { holds = λ u p a h. p }

  pub fail_if-Keeps : (test : Bool) (e : Error) → Keeps P (fail_if test e)
  fail_if-Keeps test e = weaken-Triple (λ u p. p) (λ _ u p. p.1) (fail_if-Triple test e)
