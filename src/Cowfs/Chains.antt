-- ===== src/Cowfs/Chains.antt =====
-- The rename chains of fs/cowfs/cowfs.go: what resolveTerminal finds.
use wanix.Base.{
  ℕ, zero, suc, ◌<◌, Bytes, ◌≡◌, ◌↔◌, inl, inr, refl, false, none, some, List, [], ◌∷◌, arith,
  bytes_eq, eq_bytes, eq_bytes_iff, eq_refl, Map, lookup, Bool-cases, Option-cases,
}
use wanix.Errors.{bare, invalid, ok, err}
use wanix.Cowfs.{follow, resolve_terminal, max_hops, has_seen}

-- So many renames lead from one path to another.
abbrev pub Leads : Map Bytes Bytes → ℕ → Bytes → Bytes → Type 0
Leads renames zero p q = p ≡ q
Leads renames (suc n) p q = (next : Bytes) × (lookup p renames ≡ some next) × Leads renames n next q

-- A path that is not renamed, at the end of a chain with fewer renames than there are hops.
pub record IsEnd (renames : Map Bytes Bytes) (hops : ℕ) (p q : Bytes) : Type 0 where
  pub length : ℕ
  pub short : length < hops
  pub chain : Leads renames length p q
  pub last : lookup q renames ≡ none

module _ (renames : Map Bytes Bytes) where
  -- What is found is the end of the chain.
  follow-IsEnd :
      (hops : ℕ) (seen : List Bytes) (p q : Bytes)
      → follow hops seen p renames ≡ ok q
      → IsEnd renames hops p q
  unfolding follow
  follow-IsEnd zero seen p q h = cc
  follow-IsEnd (suc hops) seen p q h = elim (Option-cases (lookup p renames)) [
    | inl last ↦
        let e : p ≡ q = ground arith in
        rw (← e) (record { length = 0; short = omega arith; chain = refl; last = last })
    | inr (next, renamed) ↦
        let rest : follow hops (p ∷ seen) next renames ≡ ok q = ground arith in
        let r = follow-IsEnd hops (p ∷ seen) next q rest in
        record {
          length = suc r.length;
          short = ground (arith, r.short);
          chain = (next, renamed, r.chain);
          last = r.last;
        }
  ]

  -- The chain from a path to its end has one length.
  Leads_unique :
      (m n : ℕ) (p q : Bytes)
      → lookup q renames ≡ none
      → Leads renames m p q
      → Leads renames n p q
      → m ≡ n
  Leads_unique zero zero p q last h k = refl
  Leads_unique zero (suc n) p q last h (next, e, rest) = absurd (ground (arith, h, last, e))
  Leads_unique (suc m) zero p q last (next, e, rest) k = absurd (ground (arith, k, last, e))
  Leads_unique (suc m) (suc n) p q last (next, e, rest) (next', e', rest') =
      let same : next ≡ next' = ground (arith, e, e') in
      let more = Leads_unique m n next q last rest (rw same rest') in omega (arith, more)

  -- Each of the paths is further from the end than `n` renames.
  abbrev AllFurther : ℕ → Bytes → List Bytes → Type 0
  AllFurther n q [] = Unit {0}
  AllFurther n q (p ∷ ps) = ((k : ℕ) × (n < k) × Leads renames k p q) × AllFurther n q ps

  AllFurther-has_seen :
      (n : ℕ) (p q : Bytes) (seen : List Bytes)
      → lookup q renames ≡ none
      → Leads renames n p q
      → AllFurther n q seen
      → has_seen p seen ≡ false
  unfolding has_seen
  AllFurther-has_seen n p q [] last chain h = refl
  AllFurther-has_seen n p q (s ∷ seen) last chain ((k, further, from), h) =
      elim (Bool-cases (eq_bytes p s)) [
        | inl same ↦
            let e : p ≡ s = (eq_bytes_iff p s).0 same in
            absurd (omega (arith, further, Leads_unique n k p q last chain (rw e from)))
        | inr other ↦ rw other (AllFurther-has_seen n p q seen last chain h)
      ]

  AllFurther-weaken :
      (n : ℕ) (q : Bytes) (seen : List Bytes) → AllFurther (suc n) q seen → AllFurther n q seen
  AllFurther-weaken n q [] h = tt
  AllFurther-weaken n q (s ∷ seen) ((k, further, from), h) =
      ((k, omega (arith, further), from), AllFurther-weaken n q seen h)

  -- The end of a chain that is short enough is found.
  follow-found :
      (hops n : ℕ) (seen : List Bytes) (p q : Bytes)
      → n < hops
      → Leads renames n p q
      → lookup q renames ≡ none
      → AllFurther n q seen
      → follow hops seen p renames ≡ ok q
  unfolding follow
  follow-found zero n seen p q short chain last h = absurd (omega (arith, short))
  follow-found (suc hops) zero seen p q short at last h =
      let end : lookup p renames ≡ none = rw at last in
      rw (AllFurther-has_seen 0 p q seen last at h, end) (rw at refl)
  follow-found (suc hops) (suc n) seen p q short (next, e, rest) last h =
      let moved : eq_bytes next p ≡ false = elim (Bool-cases (eq_bytes next p)) [
        | inl same ↦
            let back : next ≡ p = (eq_bytes_iff next p).0 same in
            absurd
              (omega (arith, Leads_unique n (suc n) next q last rest (rw back (next, e, rest))))
        | inr other ↦ other
      ] in
      rw (AllFurther-has_seen (suc n) p q seen last (next, e, rest) h, e, moved)
        (follow-found hops n (p ∷ seen) next q (omega (arith, short)) rest last
          ((suc n, omega arith, (next, e, rest)), AllFurther-weaken n q seen h))

-- resolveTerminal finds a path exactly if that is not renamed itself and fewer than 1000 renames
-- lead there: it fails on a cycle, on a name that is renamed to itself, and on a longer chain.
pub resolve_terminal_iff :
    (renames : Map Bytes Bytes) (p q : Bytes)
    → (resolve_terminal p renames ≡ ok q) ↔ IsEnd renames max_hops p q
unfolding resolve_terminal
resolve_terminal_iff renames p q = (
  λ h. follow-IsEnd renames max_hops [] p q h,
  λ r. follow-found renames max_hops r.length [] p q r.short r.chain r.last tt,
)

-- A path that is not renamed is its own end.
pub resolve_terminal-end :
    (renames : Map Bytes Bytes) (p : Bytes)
    → lookup p renames ≡ none
    → resolve_terminal p renames ≡ ok p
resolve_terminal-end renames p last =
    (resolve_terminal_iff renames p p).1
      (record { length = 0; short = ground arith; chain = refl; last = last })

-- A path that is renamed once.
pub resolve_terminal-once :
    (renames : Map Bytes Bytes) (p q : Bytes)
    → lookup p renames ≡ some q
    → lookup q renames ≡ none
    → resolve_terminal p renames ≡ ok q
resolve_terminal-once renames p q renamed last =
    (resolve_terminal_iff renames p q).1
      (record { length = 1; short = ground arith; chain = (q, renamed, refl); last = last })

follow_self :
    (hops : ℕ) (renames : Map Bytes Bytes) (p : Bytes)
    → lookup p renames ≡ some p
    → follow (suc hops) [] p renames ≡ err (bare invalid)
unfolding follow has_seen
follow_self hops renames p e = rw (e, eq_refl p)

-- A name that is renamed to itself.
pub resolve_terminal_self :
    (renames : Map Bytes Bytes) (p : Bytes)
    → lookup p renames ≡ some p
    → resolve_terminal p renames ≡ err (bare invalid)
unfolding resolve_terminal
resolve_terminal_self renames p e = follow_self 999 renames p e
