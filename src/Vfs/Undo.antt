-- ===== src/Vfs/Undo.antt =====
-- Unbind of fs/vfs/vfs.go as the inverse of Bind, and where it is not.
use wanix.Base.{
  Bytes, ◌≡◌, ◌≢◌, refl, ap, ◌∙◌, Bool, true, false, not, ◌&&◌, none, some, List, [], ◌∷◌, arith,
  ◌==◌, bytes_eq, eq_bytes, eq_bytes_iff, eq_refl, lookup, lookup-put, keep_if, Bool-cases,
  Option-cases, inl, inr,
}
use wanix.Errors.{Result, ok}
use wanix.Paths.{valid_path}
use wanix.Vfs.{
  Files, BindTarget, Ns, BindMode, mode_after, mode_replace, mode_before, mode_unknown, bound,
  placed, add_target, is_target, remove_target, unbind, bind_target, bind,
}
use wanix.Vfs.Bindings.{
  NoEmpty, bind-ok, NotAmong, keep_if-NotAmong, keep_if-last, lookup-store_targets,
}

-- The modes that keep the other targets of the path.
abbrev pub keeps_others : BindMode → Bool
keeps_others mode_after = true
keeps_others mode_before = true
keeps_others _ = false

module _ {F Info : Type 0} (b : Files F Info) where
  keep_if-placed :
      (m : BindMode) (ref : BindTarget F Info) (r : F) (n : Bytes) (refs : List (BindTarget F Info))
      → is_target b r n ref ≡ true
      → keeps_others m ≡ true
      → NotAmong b r n refs
      → keep_if (λ x. not (is_target b r n x)) (placed m ref refs) ≡ refs
  keep_if-placed mode_after ref r n refs t k h = rw (t, keep_if-NotAmong b r n refs h)
  keep_if-placed mode_before ref r n refs t k h = keep_if-last b r n ref refs t h
  keep_if-placed mode_replace ref r n refs t k h = cc
  keep_if-placed mode_unknown ref r n refs t k h = cc

  bound-add_target :
      (m : BindMode) (ref : BindTarget F Info) (dst : Bytes) (ns : Ns F Info)
      → bound dst (add_target m ref dst ns) ≡ placed m ref (bound dst ns)
  unfolding add_target bound
  bound-add_target m ref dst ns = simp (lookup-put, eq_refl)

  refill :
      (k : Bytes) (ns : Ns F Info)
      → NoEmpty ns
      → elim (bound k ns) [ [] ↦ none | x ∷ xs ↦ some (x ∷ xs) ] ≡ lookup k ns.bindings
  unfolding bound
  refill k ns h = elim (Option-cases (lookup k ns.bindings)) [
    | inl free ↦ rw free
    | inr (refs, used) ↦ rw used (shape refs (λ e. h k (used ∙ ap some e)))
  ]
    where
      shape :
          (refs : List (BindTarget F Info))
          → refs ≢ []
          → elim refs [ [] ↦ none | x ∷ xs ↦ some (x ∷ xs) ] ≡ some refs
      shape [] h = absurd (h refl)
      shape (x ∷ refs) h = refl

  remove_target-add_target :
      (m : BindMode) (ref : BindTarget F Info) (r : F) (n dst k : Bytes) (ns : Ns F Info)
      → is_target b r n ref ≡ true
      → keeps_others m ≡ true
      → NotAmong b r n (bound dst ns)
      → NoEmpty ns
      → lookup k (remove_target b r n dst (add_target m ref dst ns)).bindings ≡ lookup k ns.bindings
  unfolding remove_target
  remove_target-add_target m ref r n dst k ns t keeps fresh full =
      rw
        (
          bound-add_target m ref dst ns,
          keep_if-placed m ref r n (bound dst ns) t keeps fresh,
          lookup-store_targets dst k (bound dst ns),
        )
        (unfold add_target in
          rw lookup-put (elim (Bool-cases (eq_bytes dst k)) [
            | inl same ↦
                rw same (let e : dst ≡ k = (eq_bytes_iff dst k).0 same in rw e (refill k ns full))
            | inr other ↦ rw other
          ]))

  ctx-add_target :
      (m : BindMode) (ref : BindTarget F Info) (dst : Bytes) (ns : Ns F Info)
      → (add_target m ref dst ns).ctx ≡ ns.ctx
  unfolding add_target
  ctx-add_target m ref dst ns = refl

  -- A Bind before or after the other targets that succeeded is undone by Unbind with the same
  -- source, which succeeds: every path has the targets that it had, if the bound target was not
  -- among those of the path, no path had an empty list of targets, and the bound file system is
  -- equal to itself and does not allocate another one for the binding.
  pub unbind-bind :
      (src r : F) (src_path n dst : Bytes) (m : BindMode) (ns ns' : Ns F Info)
      → NoEmpty ns
      → b.resolve src ns.ctx src_path ≡ ok (r, n)
      → b.allocator r ≡ none
      → b.same r r ≡ true
      → NotAmong b r n (bound dst ns)
      → keeps_others m ≡ true
      → bind b (some src) src_path dst (some m) ns ≡ ok ns'
      → (back : Ns F Info) × (unbind b src src_path dst ns' ≡ ok back)
        × ((k : Bytes) → lookup k back.bindings ≡ lookup k ns.bindings)
  unfolding unbind
  unbind-bind src r src_path n dst m ns ns' full found plain s fresh keeps done =
      let (ref, made, known, v, w, same) = bind-ok b src src_path dst (some m) ns ns' done in
      let t : is_target b r n ref ≡ true = made_at ref made in
      let c : ns'.ctx ≡ ns.ctx = rw same (ctx-add_target m ref dst ns) in
      (
        remove_target b r n dst ns',
        rw (v, w, c, found),
        λ k. rw same (remove_target-add_target m ref r n dst k ns t keeps fresh full),
      )
    where
      made_at :
          (ref : BindTarget F Info)
          → bind_target b src src_path ns ≡ ok ref
          → is_target b r n ref ≡ true
      made_at ref made = unfold bind_target in ground (arith, eq_refl n)

  remove_target-absent :
      (r : F) (n dst k : Bytes) (ns : Ns F Info) (x : BindTarget F Info)
      (xs : List (BindTarget F Info))
      → lookup dst ns.bindings ≡ some (x ∷ xs)
      → NotAmong b r n (x ∷ xs)
      → lookup k (remove_target b r n dst ns).bindings ≡ lookup k ns.bindings
  unfolding remove_target bound
  remove_target-absent r n dst k ns x xs found h =
      rw (found, keep_if-NotAmong b r n (x ∷ xs) h, lookup-put)
        (elim (Bool-cases (eq_bytes dst k)) [
          | inl same ↦ rw (same, ← (eq_bytes_iff dst k).0 same, found)
          | inr other ↦ rw other
        ])

  -- A binding of a file system that allocates another one stays after Unbind of the same source,
  -- which succeeds: every path keeps its targets; where the allocated file system is not equal to
  -- the one that allocated it, the names are valid, and the source was not bound to the path
  -- before.
  pub unbind-allocated :
      (src r allocated_fs : F) (src_path n dst : Bytes) (alloc : Bytes → Result F) (fi : Info)
      (ns : Ns F Info)
      → b.resolve src ns.ctx src_path ≡ ok (r, n)
      → b.allocator r ≡ some alloc
      → alloc src_path ≡ ok allocated_fs
      → b.open_stat allocated_fs n ≡ ok fi
      → b.same allocated_fs r ≡ false
      → NotAmong b r n (bound dst ns)
      → valid_path src_path ≡ true
      → valid_path dst ≡ true
      → (ns' : Ns F Info) × (back : Ns F Info) × (bind b (some src) src_path dst none ns ≡ ok ns')
        × (unbind b src src_path dst ns' ≡ ok back)
        × ((k : Bytes) → lookup k back.bindings ≡ lookup k ns'.bindings)
  unfolding unbind bind
  unbind-allocated src r allocated_fs src_path n dst alloc fi ns found a made opened differs fresh v
        w =
      let ref : BindTarget F Info = record { fs = allocated_fs; path = n; fi = fi } in
      let ns' : Ns F Info = add_target mode_after ref dst ns in
      (
        ns',
        remove_target b r n dst ns',
        rw (v, w, target_of) refl,
        rw (v, w, ctx-add_target mode_after ref dst ns, found),
        λ k. remove_target-absent r n dst k ns' ref (bound dst ns) (used ref) (differs_at, fresh),
      )
    where
      target_of :
          bind_target b src src_path ns ≡ ok (record { fs = allocated_fs; path = n; fi = fi })
      target_of = unfold bind_target in rw (found, a, made, opened)

      used :
          (ref : BindTarget F Info)
          → lookup dst (add_target mode_after ref dst ns).bindings ≡ some (ref ∷ bound dst ns)
      used ref = unfold add_target in simp (lookup-put, eq_refl)

      differs_at : (b.same allocated_fs r && (n == n)) ≡ false
      differs_at = rw differs
