-- ===== src/Vfs/Bindings.antt =====
-- Bind, Unbind and UnbindAll of fs/vfs/vfs.go: what they leave in the table.
use wanix.Base.{
  Bytes, ◌≡◌, ◌≢◌, refl, true, false, not, Option, none, some, List, [], ◌∷◌, ◌++◌, arith,
  if◌then◌else◌, ◌==◌, bytes_eq, lookup, lookup-put, lookup-delete, lookup-delete_if, keep_if,
  Bool-cases, inl, inr, Map,
}
use wanix.Errors.{ok, Result-cases}
use wanix.Paths.{valid_path}
use wanix.Vfs.{
  Files, BindTarget, Ns, BindMode, mode_after, mode_replace, mode_before, mode_unknown, bound,
  is_special, unbind_all, placed, add_target, store_targets, is_target, remove_target, unbind,
  bind_target, bind, is_known, bind_mode,
}

-- No path has an empty list of targets.
abbrev pub NoEmpty : {F Info : Type 0} → Ns F Info → Type 0
NoEmpty ns = (k : Bytes) → lookup k ns.bindings ≢ some []

module _ {F Info : Type 0} where
  placed-ne_nil :
      (m : BindMode) (ref : BindTarget F Info) (refs : List (BindTarget F Info))
      → m ≢ mode_unknown
      → placed m ref refs ≢ []
  placed-ne_nil mode_after ref refs h = cc
  placed-ne_nil mode_replace ref refs h = cc
  placed-ne_nil mode_before ref [] h = cc
  placed-ne_nil mode_before ref (x ∷ refs) h = cc
  placed-ne_nil mode_unknown ref refs h = absurd (h refl)

  pub lookup-store_targets :
      (dst k : Bytes) (refs : List (BindTarget F Info)) (m : Map Bytes (List (BindTarget F Info)))
      → lookup k (store_targets dst refs m)
        ≡ (if dst == k then elim refs [ [] ↦ none | x ∷ xs ↦ some (x ∷ xs) ] else lookup k m)
  lookup-store_targets dst k [] m = lookup-delete dst k m
  lookup-store_targets dst k (x ∷ refs) m = lookup-put dst k (x ∷ refs) m

  add_target-NoEmpty :
      (m : BindMode) (ref : BindTarget F Info) (dst : Bytes) (ns : Ns F Info)
      → m ≢ mode_unknown
      → NoEmpty ns
      → NoEmpty (add_target m ref dst ns)
  unfolding add_target
  add_target-NoEmpty m ref dst ns known h k = rw lookup-put (elim (Bool-cases (dst == k)) [
    | inl same ↦ rw same (λ e. placed-ne_nil m ref (bound dst ns) known (cc e))
    | inr other ↦ rw other (h k)
  ])

  store_targets-NoEmpty :
      (dst : Bytes) (refs : List (BindTarget F Info)) (ns : Ns F Info)
      → NoEmpty ns
      → NoEmpty (record ns { bindings = store_targets dst refs ns.bindings })
  store_targets-NoEmpty dst [] ns h k = rw lookup-delete (ground (arith, h k))
  store_targets-NoEmpty dst (x ∷ refs) ns h k = rw lookup-put (ground (arith, h k))

  -- UnbindAll keeps the targets of the paths that start with # and takes those of all other paths.
  pub lookup-unbind_all :
      (k : Bytes) (ns : Ns F Info)
      → lookup k (unbind_all ns).bindings ≡ (if is_special k then lookup k ns.bindings else none)
  unfolding unbind_all
  lookup-unbind_all k ns = rw lookup-delete_if (ground arith)

module _ {F Info : Type 0} (b : Files F Info) where
  -- A `Bind` that succeeds has resolved its source to a target, and has added that target.
  pub bind-ok :
      (src : F) (src_path dst : Bytes) (mode : Option BindMode) (ns ns' : Ns F Info)
      → bind b (some src) src_path dst mode ns ≡ ok ns'
      → (ref : BindTarget F Info) × (bind_target b src src_path ns ≡ ok ref)
        × (is_known (bind_mode mode) ≡ true)
        × (valid_path src_path ≡ true)
        × (valid_path dst ≡ true)
        × (ns' ≡ add_target (bind_mode mode) ref dst ns)
  unfolding bind
  bind-ok src src_path dst mode ns ns' h = elim (Result-cases (bind_target b src src_path ns)) [
    | inl (ref, made) ↦ (ref, made, ground arith, ground arith, ground arith, ground arith)
    | inr (e, failed) ↦ absurd (ground arith)
  ]

  -- A Bind that succeeds leaves no path with an empty list of targets, if there was none.
  pub bind-NoEmpty :
      (src : F) (src_path dst : Bytes) (mode : Option BindMode) (ns ns' : Ns F Info)
      → NoEmpty ns
      → bind b (some src) src_path dst mode ns ≡ ok ns'
      → NoEmpty ns'
  bind-NoEmpty src src_path dst mode ns ns' h done =
      let (ref, made, known, v, w, same) = bind-ok src src_path dst mode ns ns' done in
      rw same (add_target-NoEmpty (bind_mode mode) ref dst ns (λ e. ground arith) h)

  -- An Unbind that succeeds leaves no path with an empty list of targets, if there was none.
  pub unbind-NoEmpty :
      (src : F) (src_path dst : Bytes) (ns ns' : Ns F Info)
      → NoEmpty ns
      → unbind b src src_path dst ns ≡ ok ns'
      → NoEmpty ns'
  unfolding unbind remove_target
  unbind-NoEmpty src src_path dst ns ns' h done =
      elim (Result-cases (b.resolve src ns.ctx src_path)) [
        | inl (at, made) ↦
            let same : ns' ≡ remove_target b at.0 at.1 dst ns = ground arith in
            rw same (store_targets-NoEmpty dst _ ns h)
        | inr (e, failed) ↦ absurd (ground arith)
      ]

  -- No target of a list is the file system and path of another.
  abbrev pub NotAmong : F → Bytes → List (BindTarget F Info) → Type 0
  NotAmong r n [] = Unit {0}
  NotAmong r n (ref ∷ refs) = (is_target b r n ref ≡ false) × NotAmong r n refs

  pub keep_if-NotAmong :
      (r : F) (n : Bytes) (refs : List (BindTarget F Info))
      → NotAmong r n refs
      → keep_if (λ ref. not (is_target b r n ref)) refs ≡ refs
  keep_if-NotAmong r n [] h = refl
  keep_if-NotAmong r n (ref ∷ refs) h = rw (h.0, keep_if-NotAmong r n refs h.1)

  pub keep_if-last :
      (r : F) (n : Bytes) (ref : BindTarget F Info) (refs : List (BindTarget F Info))
      → is_target b r n ref ≡ true
      → NotAmong r n refs
      → keep_if (λ ref. not (is_target b r n ref)) (refs ++ ref ∷ []) ≡ refs
  keep_if-last r n ref [] t h = rw t
  keep_if-last r n ref (x ∷ refs) t h = rw (h.0, keep_if-last r n ref refs t h.1)
