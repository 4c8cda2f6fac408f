-- ===== src/Signals/Calm.antt =====
-- When a Broadcast of fs/signal/broadcaster.go sends to a closed channel, which panics.
use wanix.Base.{
  ℕ, ◌+◌, ◌≡◌, refl, sym, ap, ◌∙◌, Bytes, Bool, true, false, none, some, List, [], ◌∷◌, ◌++◌, arith,
  ltb, nat_eq, eq_refl, length, keep_if, some-injective, lookup, lookup-put, Bool-cases,
  Option-cases, inl, inr,
}
use wanix.Signals.{
  Broadcaster, Chan, Frame, Step, Reaches, added, began, sent, received, removed, here, also, room,
  has_id, add_reader, is_target, begin, send, send_to, receive, remove_reader, close_chan,
}
use wanix.Signals.Sound.{IsSound, Step-IsSound}

-- Every subscriber of the one list is in the other.
abbrev pub Covered : List ℕ → List ℕ → Type 0
Covered readers ids = (k : ℕ) → has_id k ids ≡ true → has_id k readers ≡ true

abbrev pub AllCovered : List ℕ → List Frame → Type 0
AllCovered readers [] = Unit {0}
AllCovered readers (f ∷ fs) = Covered readers f.1 × AllCovered readers fs

-- Nobody has left whom a frame is still to reach, and nothing has panicked.
pub record IsCalm (b : Broadcaster) : Type 0 where
  pub sound : IsSound b
  pub covered : AllCovered b.readers b.pending
  pub quiet : b.panicked ≡ false

AllCovered-append :
    (rs : List ℕ) (fs gs : List Frame)
    → AllCovered rs fs
    → AllCovered rs gs
    → AllCovered rs (fs ++ gs)
AllCovered-append rs [] gs h k = k
AllCovered-append rs (f ∷ fs) gs h k = (h.0, AllCovered-append rs fs gs h.1 k)

-- One send less.
AllCovered-sent :
    (rs : List ℕ) (before after : List Frame) (payload : Bytes) (id : ℕ) (ids : List ℕ)
    → AllCovered rs (before ++ (payload, id ∷ ids) ∷ after)
    → (has_id id rs ≡ true) × AllCovered rs (before ++ (payload, ids) ∷ after)
unfolding has_id
AllCovered-sent rs [] after payload id ids h =
    (h.0 id (rw (eq_refl id) refl), ((λ k there. h.0 k (ground (arith, there))), h.1))
AllCovered-sent rs (f ∷ fs) after payload id ids h =
    let r = AllCovered-sent rs fs after payload id ids h.1 in (r.0, (h.0, r.1))

AllCovered-more :
    (r : ℕ) (rs : List ℕ) (fs : List Frame) → AllCovered rs fs → AllCovered (r ∷ rs) fs
unfolding has_id
AllCovered-more r rs [] h = tt
AllCovered-more r rs (f ∷ fs) h =
    ((λ k there. ground (arith, h.0 k there)), AllCovered-more r rs fs h.1)

Covered-keep_if : (p : ℕ → Bool) (rs : List ℕ) → Covered rs (keep_if p rs)
unfolding has_id
Covered-keep_if p [] k h = h
Covered-keep_if p (r ∷ rs) k h = ground (arith, h, Covered-keep_if p rs k)

-- A send to an open channel.
send_to-quiet :
    (payload : Bytes) (id : ℕ) (ch : Chan) (b c : Broadcaster)
    → ch.closed ≡ false
    → send_to payload id (some ch) b ≡ some c
    → (c.readers ≡ b.readers) × (c.panicked ≡ b.panicked)
send_to-quiet payload id ch b c live done = elim (Bool-cases (ltb (length ch.queue) room)) [
  | inl fits ↦
      let same = some-injective _ c (rw (live, fits) at done) in
      (sym (ap (λ x. x.readers) same), sym (ap (λ x. x.panicked) same))
  | inr full ↦ absurd (ground (arith, rw (live, full) at done))
]

receive-quiet :
    (id : ℕ) (b : Broadcaster)
    → ((receive id b).readers ≡ b.readers)
      × ((receive id b).panicked ≡ b.panicked)
      × ((receive id b).pending ≡ b.pending)
unfolding receive
receive-quiet id b = elim (Option-cases (lookup id b.chans)) [
  | inl absent ↦ rw absent (refl, refl, refl)
  | inr (c, there) ↦ rw there (refl, refl, refl)
]

-- While nobody whom a frame is still to reach has left and nothing has panicked, a step in which
-- no subscriber leaves keeps it so: no send goes to a closed channel.
pub Step-IsCalm : {b c : Broadcaster} → Step false b c → IsCalm b → IsCalm c
unfolding begin send add_reader
Step-IsCalm (added b) h = record {
  sound = Step-IsSound (added b) h.sound;
  covered = AllCovered-more (b.next_id + 1) b.readers b.pending h.covered;
  quiet = h.quiet;
}
Step-IsCalm (began frame exclude b) h = record {
  sound = Step-IsSound (began frame exclude b) h.sound;
  covered =
      AllCovered-append b.readers b.pending ((frame, keep_if (is_target exclude) b.readers) ∷ [])
        h.covered (Covered-keep_if (is_target exclude) b.readers, tt);
  quiet = h.quiet;
}
Step-IsCalm (sent before after payload id ids b c at done) h =
    let r = AllCovered-sent b.readers before after payload id ids (rw at at h.covered) in
    let s = h.sound.subscribed id r.0 in
    let q = send_to-quiet payload id s.0 b c s.2 (rw s.1 at done) in
    record {
      sound = Step-IsSound (sent before after payload id ids b c at done) h.sound;
      covered = rw q.0 r.1;
      quiet = q.1 ∙ h.quiet;
    }
Step-IsCalm (received id b) h =
    let r = receive-quiet id b in
    record {
      sound = Step-IsSound (received id b) h.sound;
      covered = rw (r.0, r.2) h.covered;
      quiet = r.1 ∙ h.quiet;
    }

-- A channel that is closed.
send_to-panics :
    (payload : Bytes) (id : ℕ) (ch : Chan) (b : Broadcaster)
    → lookup id b.chans ≡ some ch
    → ch.closed ≡ true
    → send payload id b ≡ some (record b { panicked = true })
unfolding send
send_to-panics payload id ch b there shut_down = rw (there, shut_down) refl

-- What RemoveReader leaves.
removed_lem :
    (id : ℕ) (b : Broadcaster) (ch : Chan)
    → has_id id b.readers ≡ true
    → lookup id b.chans ≡ some ch
    → (lookup id (remove_reader id b).chans ≡ some (record ch { closed = true }))
      × ((remove_reader id b).pending ≡ b.pending)
unfolding remove_reader close_chan
removed_lem id b ch reads there =
    rw (reads, there)
      (lookup-put id id (record ch { closed = true }) b.chans ∙ rw (eq_refl id) refl, refl)

has_first : (id : ℕ) (rs : List ℕ) → has_id id (id ∷ rs) ≡ true
unfolding has_id
has_first id rs = rw (eq_refl id) refl

-- A Broadcast can panic: if its first subscriber leaves after the channels were chosen and before
-- the send, the send goes to a closed channel; for a broadcaster with a subscriber and no frame
-- under way.
pub broadcast-panics :
    (frame : Bytes) (id : ℕ) (rs : List ℕ) (b : Broadcaster)
    → IsSound b
    → b.readers ≡ id ∷ rs
    → b.pending ≡ []
    → (c : Broadcaster) × Reaches b c × (c.panicked ≡ true)
unfolding begin
broadcast-panics frame id rs b h first idle =
    let b' = begin frame none b in
    let left = remove_reader id b' in
    let there = h.subscribed id (rw first (has_first id rs)) in
    let gone = removed_lem id b' there.0 (rw first (has_first id rs)) there.1 in
    let ks = keep_if (is_target none) rs in
    let under_way : left.pending ≡ (frame, id ∷ ks) ∷ [] = gone.1 ∙ rw (idle, first) refl in
    let step =
      sent [] [] frame id ks left (record left { panicked = true }) under_way
        (send_to-panics frame id (record there.0 { closed = true }) left gone.0 refl) in
    (
      record left { panicked = true; pending = (frame, ks) ∷ [] },
      also (also (also here (began frame none b)) (removed id b')) step,
      refl,
    )
