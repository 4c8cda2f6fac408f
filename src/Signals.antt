-- ===== src/Signals.antt =====
-- fs/signal/broadcaster.go: frames for many subscribers. A channel is known by the number of its
-- subscriber. What runs under the lock is one step; the sends of a Broadcast come after it, one by
-- one, so that `pending` has the frames under way with the channels that they are still to reach.
pub mod Sound
pub mod Calm
pub mod Tests
use wanix.Base.{
  ℕ, zero, suc, ◌+◌, ◌≡◌, Bytes, Bool, true, false, not, ◌&&◌, Option, none, some, List, [], ◌∷◌,
  ◌++◌, if◌then◌else◌, ◌==◌, ltb, nat_eq, length, keep_if, Map, lookup, put,
}

pub record Chan : Type 0 where
  pub queue : List Bytes
  pub closed : Bool

abbrev pub Frame : Type 0
Frame = Bytes × List ℕ

pub record Broadcaster : Type 0 where
  pub readers : List ℕ
  pub next_id : ℕ
  pub chans : Map ℕ Chan
  pub pending : List Frame
  pub panicked : Bool

-- make(chan []byte, 64)
abbrev pub room : ℕ
room = 64

abbrev pub new : Broadcaster
new = record { readers = []; next_id = 0; chans = []; pending = []; panicked = false }

unfoldable pub has_id : ℕ → List ℕ → Bool
has_id id [] = false
has_id id (r ∷ rs) = if r == id then true else has_id id rs

unfoldable pub add_reader : Broadcaster → ℕ × Broadcaster
unfolding put
add_reader b =
    let id = b.next_id + 1 in
    (
      id,
      record b {
        readers = id ∷ b.readers;
        next_id = id;
        chans = put id (record { queue = []; closed = false }) b.chans;
      },
    )

abbrev pub shut : Option Chan → ℕ → Map ℕ Chan → Map ℕ Chan
shut none id m = m
shut (some c) id m = put id (record c { closed = true }) m

unfoldable pub close_chan : ℕ → Map ℕ Chan → Map ℕ Chan
unfolding lookup put
close_chan id m = shut (lookup id m) id m

unfoldable pub remove_reader : ℕ → Broadcaster → Broadcaster
unfolding has_id close_chan
remove_reader id b =
    if has_id id b.readers
    then record b {
      readers = keep_if (λ r. not (r == id)) b.readers;
      chans = close_chan id b.chans;
    }
    else b

unfoldable pub close_chans : List ℕ → Map ℕ Chan → Map ℕ Chan
unfolding close_chan
close_chans [] m = m
close_chans (id ∷ ids) m = close_chans ids (close_chan id m)

unfoldable pub close : Broadcaster → Broadcaster
unfolding close_chans
close b = record b { readers = []; chans = close_chans b.readers b.chans }

-- An exclude below 0 is none.
abbrev pub is_target : Option ℕ → ℕ → Bool
is_target none id = true
is_target (some exclude) id = not (id == exclude)

-- The part of Broadcast under the lock: the channels of the frame.
unfoldable pub begin : Bytes → Option ℕ → Broadcaster → Broadcaster
begin frame exclude b = record b {
  pending = b.pending ++ (frame, keep_if (is_target exclude) b.readers) ∷ [];
}

-- A send to a channel: none where it waits. A send to a closed channel panics.
abbrev pub send_to : Bytes → ℕ → Option Chan → Broadcaster → Option Broadcaster
send_to payload id none b = none
send_to payload id (some c) b =
    if c.closed
    then some (record b { panicked = true })
    else if ltb (length c.queue) room
    then some (record b { chans = put id (record c { queue = c.queue ++ payload ∷ [] }) b.chans })
    else none

unfoldable pub send : Bytes → ℕ → Broadcaster → Option Broadcaster
unfolding lookup put
send payload id b = send_to payload id (lookup id b.chans) b

abbrev then_send : (Broadcaster → Option Broadcaster) → Option Broadcaster → Option Broadcaster
then_send next none = none
then_send next (some b) = next b

-- The sends of a Broadcast that nothing comes between.
unfoldable pub send_all : Bytes → List ℕ → Broadcaster → Option Broadcaster
unfolding send
send_all payload [] b = some b
send_all payload (id ∷ ids) b = then_send (send_all payload ids) (send payload id b)

unfoldable pub broadcast : Bytes → Option ℕ → Broadcaster → Option Broadcaster
unfolding send_all
broadcast frame exclude b = send_all frame (keep_if (is_target exclude) b.readers) b

-- What a subscriber leaves in its channel.
abbrev pub rest : List Bytes → List Bytes
rest [] = []
rest (x ∷ xs) = xs

abbrev pub taken : ℕ → Option Chan → Broadcaster → Broadcaster
taken id none b = b
taken id (some c) b = record b { chans = put id (record c { queue = rest c.queue }) b.chans }

unfoldable pub receive : ℕ → Broadcaster → Broadcaster
unfolding lookup put
receive id b = taken id (lookup id b.chans) b

unfoldable pub subscriber_count : Broadcaster → ℕ
subscriber_count b = length b.readers

-- One step of any of the goroutines; the flag says whether a subscriber goes away in it.
pub data Step : Bool → Broadcaster → Broadcaster → Type 0 where
  added : (b : Broadcaster) → Step false b (add_reader b).1
  began :
      (frame : Bytes) (exclude : Option ℕ) (b : Broadcaster) → Step false b (begin frame exclude b)
  sent :
      (before after : List Frame) (payload : Bytes) (id : ℕ) (ids : List ℕ) (b c : Broadcaster)
      → b.pending ≡ before ++ (payload, id ∷ ids) ∷ after
      → send payload id b ≡ some c
      → Step false b (record c { pending = before ++ (payload, ids) ∷ after })
  received : (id : ℕ) (b : Broadcaster) → Step false b (receive id b)
  removed : (id : ℕ) (b : Broadcaster) → Step true b (remove_reader id b)
  closed_all : (b : Broadcaster) → Step true b (close b)

pub data Reaches (a : Broadcaster) : Broadcaster → Type 0 where
  here : Reaches a a
  also : {leaving : Bool} {b c : Broadcaster} → Reaches a b → Step leaving b c → Reaches a c
