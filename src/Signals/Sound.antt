-- ===== src/Signals/Sound.antt =====
-- What holds of a Broadcaster of fs/signal/broadcaster.go whatever its goroutines do.
use wanix.Base.{
  ℕ, ◌+◌, ◌≤◌, ◌<◌, ◌≡◌, refl, sym, ap, ◌∙◌, Bytes, Bool, true, false, not, ◌&&◌, Option, none,
  some, List, [], ◌∷◌, ◌++◌, arith, if◌then◌else◌, ◌==◌, ltb, nat_eq, eq_nat_iff, length,
  length-append, keep_if, some-injective, Map, lookup, put, lookup-put, Bool-cases, Option-cases,
  inl, inr,
}
use wanix.Signals.{
  Broadcaster, Chan, Step, Reaches, added, began, sent, received, removed, closed_all, here, also,
  new, room, has_id, add_reader, remove_reader, close, close_chan, close_chans, begin, send,
  send_to, receive, rest,
}

-- How many frames wait in a channel.
abbrev pub waiting : Option Chan → ℕ
waiting none = 0
waiting (some c) = length c.queue

pub record IsSound (b : Broadcaster) : Type 0 where
  pub subscribed :
      (id : ℕ)
      → has_id id b.readers ≡ true
      → (c : Chan) × (lookup id b.chans ≡ some c) × (c.closed ≡ false)
  pub bounded : (id : ℕ) → waiting (lookup id b.chans) ≤ room
  pub fresh : (id : ℕ) → b.next_id < id → lookup id b.chans ≡ none

has_id-keep_if :
    (id k : ℕ) (rs : List ℕ)
    → has_id k (keep_if (λ r. not (r == id)) rs) ≡ (not (k == id) && has_id k rs)
unfolding has_id
has_id-keep_if id k [] = ground arith
has_id-keep_if id k (r ∷ rs) =
    ground (arith, has_id-keep_if id k rs, eq_nat_iff r id, eq_nat_iff r k, eq_nat_iff k id)

abbrev close_opt : Option Chan → Option Chan
close_opt none = none
close_opt (some c) = some (record c { closed = true })

lookup-close_chan :
    (id k : ℕ) (m : Map ℕ Chan)
    → lookup k (close_chan id m) ≡ (if id == k then close_opt (lookup k m) else lookup k m)
unfolding close_chan
lookup-close_chan id k m = elim (Option-cases (lookup id m)) [
  | inl absent ↦ rw absent (elim (Bool-cases (id == k)) [
    | inl same ↦ rw (same, ← (eq_nat_iff id k).0 same, absent) refl
    | inr other ↦ rw other refl
  ])
  | inr (c, there) ↦ rw there (
      lookup-put id k (record c { closed = true }) m ∙ elim (Bool-cases (id == k)) [
        | inl same ↦ rw (same, ← (eq_nat_iff id k).0 same, there) refl
        | inr other ↦ rw other refl
      ])
]

abbrev is_closed : Option Chan → Bool
is_closed none = false
is_closed (some c) = c.closed

-- A channel that is replaced by an open one with a queue that is short enough.
put-IsSound :
    (b : Broadcaster) (id : ℕ) (c d : Chan)
    → IsSound b
    → lookup id b.chans ≡ some c
    → d.closed ≡ c.closed
    → length d.queue ≤ room
    → IsSound (record b { chans = put id d b.chans })
put-IsSound b id c d h there same short = record {
  subscribed = λ k reads. elim (Bool-cases (id == k)) [
    | inl at_k ↦
        let path = (eq_nat_iff id k).0 at_k in
        let s = h.subscribed k reads in
        let one : some c ≡ some s.0 = sym there ∙ rw path s.1 in
        (d, lookup-put id k d b.chans ∙ rw at_k refl, same ∙ ap is_closed one ∙ s.2)
    | inr other ↦
        let s = h.subscribed k reads in (s.0, lookup-put id k d b.chans ∙ rw other s.1, s.2)
  ];
  bounded = λ k. rw (lookup-put id k d b.chans) (elim (Bool-cases (id == k)) [
    | inl at_k ↦ rw at_k short
    | inr other ↦ rw other (h.bounded k)
  ]);
  fresh = λ k far. ground (arith, lookup-put id k d b.chans, h.fresh k far, there, eq_nat_iff id k);
}

add_reader-IsSound : (b : Broadcaster) → IsSound b → IsSound (add_reader b).1
unfolding add_reader has_id
add_reader-IsSound b h = record {
  subscribed = λ k reads. elim (Bool-cases ((b.next_id + 1) == k)) [
    | inl at_k ↦ (
      record { queue = []; closed = false },
      lookup-put (b.next_id + 1) k (record { queue = []; closed = false }) b.chans ∙ rw at_k refl,
      refl,
    )
    | inr other ↦
        let s = h.subscribed k (rw other at reads) in
        (
          s.0,
          lookup-put (b.next_id + 1) k (record { queue = []; closed = false }) b.chans
              ∙ rw other s.1,
          s.2,
        )
  ];
  bounded = λ k.
      rw (lookup-put (b.next_id + 1) k (record { queue = []; closed = false }) b.chans)
        (elim (Bool-cases ((b.next_id + 1) == k)) [
          | inl at_k ↦ rw at_k (omega arith)
          | inr other ↦ rw other (h.bounded k)
        ]);
  fresh = λ k far. ground (
    arith,
    lookup-put (b.next_id + 1) k (record { queue = []; closed = false }) b.chans,
    h.fresh k (omega (arith, far)),
    eq_nat_iff (b.next_id + 1) k,
    far,
  );
}

waiting-close_opt : (o : Option Chan) → waiting (close_opt o) ≡ waiting o
waiting-close_opt none = refl
waiting-close_opt (some c) = refl

-- Closing a channel leaves the frames that wait in it.
waiting-close_chan :
    (id k : ℕ) (m : Map ℕ Chan) → waiting (lookup k (close_chan id m)) ≡ waiting (lookup k m)
waiting-close_chan id k m = rw (lookup-close_chan id k m) (elim (Bool-cases (id == k)) [
  | inl same ↦ rw same (waiting-close_opt (lookup k m))
  | inr other ↦ rw other refl
])

-- Closing makes no channel.
none-close_chan :
    (id k : ℕ) (m : Map ℕ Chan) → lookup k m ≡ none → lookup k (close_chan id m) ≡ none
none-close_chan id k m absent = lookup-close_chan id k m ∙ rw absent (ground arith)

remove_reader-IsSound : (id : ℕ) (b : Broadcaster) → IsSound b → IsSound (remove_reader id b)
unfolding remove_reader
remove_reader-IsSound id b h = elim (Bool-cases (has_id id b.readers)) [
  | inl there ↦ rw there (record {
    subscribed = λ k reads.
        let left : (not (k == id) && has_id k b.readers) ≡ true =
          sym (has_id-keep_if id k b.readers) ∙ reads in
        let s = h.subscribed k (ground (arith, left)) in
        let other : (id == k) ≡ false = ground (arith, left, eq_nat_iff k id, eq_nat_iff id k) in
        (s.0, lookup-close_chan id k b.chans ∙ rw other s.1, s.2);
    bounded = λ k. rw (waiting-close_chan id k b.chans) (h.bounded k);
    fresh = λ k far. none-close_chan id k b.chans (h.fresh k far);
  })
  | inr absent ↦ rw absent h
]

close_chans-bounded :
    (ids : List ℕ) (k : ℕ) (m : Map ℕ Chan)
    → (waiting (lookup k (close_chans ids m)) ≡ waiting (lookup k m))
      × (lookup k m ≡ none → lookup k (close_chans ids m) ≡ none)
unfolding close_chans
close_chans-bounded [] k m = (refl, λ h. h)
close_chans-bounded (id ∷ ids) k m =
    let r = close_chans-bounded ids k (close_chan id m) in
    (r.0 ∙ waiting-close_chan id k m, λ h. r.1 (none-close_chan id k m h))

close-IsSound : (b : Broadcaster) → IsSound b → IsSound (close b)
unfolding close has_id
close-IsSound b h = record {
  subscribed = λ k reads. cc;
  bounded = λ k. rw (close_chans-bounded b.readers k b.chans).0 (h.bounded k);
  fresh = λ k far. (close_chans-bounded b.readers k b.chans).1 (h.fresh k far);
}

send_to-IsSound :
    (payload : Bytes) (id : ℕ) (o : Option Chan) (b c : Broadcaster)
    → IsSound b
    → lookup id b.chans ≡ o
    → send_to payload id o b ≡ some c
    → IsSound c
send_to-IsSound payload id none b c h at done = cc
send_to-IsSound payload id (some ch) b c h at done = elim (Bool-cases ch.closed) [
  | inl shut_down ↦
      let same : record b { panicked = true } ≡ c = some-injective _ c (rw shut_down at done) in
      rw (← same) (record { subscribed = h.subscribed; bounded = h.bounded; fresh = h.fresh })
  | inr live ↦ elim (Bool-cases (ltb (length ch.queue) room)) [
    | inl fits ↦
        let d : Chan = record { queue = ch.queue ++ payload ∷ []; closed = false } in
        let same : record b { chans = put id d b.chans } ≡ c =
          some-injective _ c (rw (live, fits) at done) in
        rw (← same) (
          put-IsSound b id ch d h at (sym live)
            (ground (arith, length-append ch.queue (payload ∷ []), fits)))
    | inr full ↦ absurd (ground (arith, rw (live, full) at done))
  ]
]

receive-IsSound : (id : ℕ) (b : Broadcaster) → IsSound b → IsSound (receive id b)
unfolding receive
receive-IsSound id b h = elim (Option-cases (lookup id b.chans)) [
  | inl absent ↦ rw absent h
  | inr (c, there) ↦
      rw there (put-IsSound b id c _ h there refl (shorter c.queue (rw there at (h.bounded id))))
]
  where
    shorter : (q : List Bytes) → length q ≤ room → length (rest q) ≤ room
    shorter [] short = short
    shorter (x ∷ xs) short = ground (arith, short)

-- Every step keeps it so.
pub Step-IsSound : {leaving : Bool} {b c : Broadcaster} → Step leaving b c → IsSound b → IsSound c
unfolding begin send
Step-IsSound (added b) h = add_reader-IsSound b h
Step-IsSound (began frame exclude b) h = record {
  subscribed = h.subscribed;
  bounded = h.bounded;
  fresh = h.fresh;
}
Step-IsSound (sent before after payload id ids b c at done) h =
    let s = send_to-IsSound payload id (lookup id b.chans) b c h refl done in
    record { subscribed = s.subscribed; bounded = s.bounded; fresh = s.fresh }
Step-IsSound (received id b) h = receive-IsSound id b h
Step-IsSound (removed id b) h = remove_reader-IsSound id b h
Step-IsSound (closed_all b) h = close-IsSound b h

new-IsSound : IsSound new
unfolding has_id lookup
new-IsSound = record {
  subscribed = λ id h. cc;
  bounded = λ id. omega arith;
  fresh = λ id far. refl;
}

-- Whatever the goroutines do with a new broadcaster, and in whatever order: each subscriber has an
-- open channel, no channel holds more than 64 frames, and no number above the last one given has a
-- channel.
pub Reaches-IsSound : {b : Broadcaster} → Reaches new b → IsSound b
Reaches-IsSound here = new-IsSound
Reaches-IsSound (also r step) = Step-IsSound step (Reaches-IsSound r)
