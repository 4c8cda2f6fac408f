-- ===== src/Signals/Tests.antt =====
-- Runs of a broadcaster with two subscribers.
use wanix.Base.{◌≡◌, refl, Bytes, codes, true, false, none, some, [], ◌∷◌, nat_eq}
use wanix.Signals.{
  Broadcaster, Chan, Reaches, added, began, here, also, new, add_reader, begin, broadcast,
  subscriber_count, close, receive,
}
use wanix.Signals.Sound.{IsSound, Reaches-IsSound}
use wanix.Signals.Calm.{IsCalm, Step-IsCalm, broadcast-panics}

abbrev open_chan : Chan
open_chan = record { queue = []; closed = false }

abbrev holding : Bytes → Chan
holding frame = record { queue = frame ∷ []; closed = false }

abbrev two : Broadcaster
two = record {
  readers = 2 ∷ 1 ∷ [];
  next_id = 2;
  chans = (1, open_chan) ∷ (2, open_chan) ∷ [];
  pending = [];
  panicked = false;
}

two_added : (add_reader (add_reader new).1).1 ≡ two
unfolding add_reader
two_added = refl

two_counted : subscriber_count two ≡ 2
unfolding subscriber_count
two_counted = refl

-- The first subscriber is left out.
delivered_to_one :
    broadcast (codes "x") (some 1) two
    ≡ some (record two { chans = (1, open_chan) ∷ (2, holding (codes "x")) ∷ [] })
unfolding broadcast
delivered_to_one = refl

received_one :
    (receive 2 (record two { chans = (1, open_chan) ∷ (2, holding (codes "x")) ∷ [] })).chans
    ≡ two.chans
unfolding receive
received_one = refl

closed_two :
    (close two).chans
    ≡ (1, record open_chan { closed = true }) ∷ (2, record open_chan { closed = true }) ∷ []
unfolding close
closed_two = refl

two-Reaches : Reaches new two
unfolding add_reader
two-Reaches = also (also here (added new)) (added (add_reader new).1)

Reaches-IsSound_example : IsSound two
Reaches-IsSound_example = Reaches-IsSound two-Reaches

two-IsCalm : IsCalm two
two-IsCalm = record { sound = Reaches-IsSound two-Reaches; covered = tt; quiet = refl }

Step-IsCalm_example : IsCalm (begin (codes "x") none two)
Step-IsCalm_example = Step-IsCalm (began (codes "x") none two) two-IsCalm

broadcast-panics_example : (c : Broadcaster) × Reaches two c × (c.panicked ≡ true)
broadcast-panics_example =
    broadcast-panics (codes "x") 2 (1 ∷ []) two (Reaches-IsSound two-Reaches) refl refl
