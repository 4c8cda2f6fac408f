-- ===== src/Pipe/Fifo.antt =====
-- A buffer of fs/pipe/buffer.go is a first-in first-out queue of bytes.

use wanix.Base.{
  ℕ, zero, suc, ◌≤◌, ◌≡◌, ◌↔◌, refl, ap, sym, ◌∙◌, true, false, not, ◌&&◌, none, some, Bytes, List,
  [], ◌∷◌, ◌++◌, append-nil, append_assoc, arith, if◌then◌else◌, is_empty, length, take, drop,
  take-append-drop, length-drop, Bool-cases, inl, inr,
}
use wanix.Errors.{eof, closed_pipe}
use wanix.Pipe.{Buffer, write, read, close, Reading, waiting, returned}

-- A call of a buffer's method, by anyone who holds it.
pub data Call : Type 0 where
  writing : Bytes → Call
  reading : ℕ → Call
  closing : Call

-- The buffer after a call, with the bytes that the call put in and those that it took out.
pub record Effect : Type 0 where
  pub after : Buffer
  pub put_in : Bytes
  pub taken : Bytes

abbrev bytes_read : Reading → Bytes
bytes_read waiting = []
bytes_read (returned p e) = p

unfoldable pub call : Call → Buffer → Effect
unfolding write read close
call (writing p) bp = record {
  after = (write p bp).1;
  put_in = take (write p bp).0.0 p;
  taken = [];
}
call (reading n) bp = record {
  after = (read n bp).1;
  put_in = [];
  taken = bytes_read (read n bp).0;
}
call closing bp = record { after = close bp; put_in = []; taken = [] }

unfoldable pub run : List Call → Buffer → Effect
run [] bp = record { after = bp; put_in = []; taken = [] }
run (c ∷ cs) bp =
    let e = call c bp in
    let rest = run cs e.after in
    record { after = rest.after; put_in = e.put_in ++ rest.put_in; taken = e.taken ++ rest.taken }

take-length : (p : Bytes) → take (length p) p ≡ p
take-length [] = refl
take-length (c ∷ p) = rw (take-length p)

is_empty-nil : (p : Bytes) → is_empty p ≡ true → p ≡ []
is_empty-nil [] h = refl
is_empty-nil (c ∷ p) h = cc

call-fifo :
    (c : Call) (bp : Buffer)
    → (call c bp).taken ++ (call c bp).after.buffer ≡ bp.buffer ++ (call c bp).put_in
unfolding call
call-fifo (writing p) bp = elim (Bool-cases bp.closed) [
  | inl e ↦ rw (e, append-nil)
  | inr e ↦ rw (e, take-length p)
]
call-fifo (reading n) bp = rw append-nil (elim (Bool-cases (is_empty bp.buffer)) [
  | inl e ↦ ground (arith, is_empty-nil bp.buffer e)
  | inr e ↦ ground (arith, take-append-drop n bp.buffer)
])
call-fifo closing bp = rw append-nil

-- Whatever the calls on a buffer and their order, the bytes taken out, followed by those still in
-- the buffer, are the bytes that were in the buffer, followed by those put in: none is lost,
-- doubled or moved.
pub run-fifo :
    (cs : List Call) (bp : Buffer)
    → (run cs bp).taken ++ (run cs bp).after.buffer ≡ bp.buffer ++ (run cs bp).put_in
unfolding run
run-fifo [] bp = rw append-nil
run-fifo (c ∷ cs) bp =
    let e = call c bp in
    rw (append_assoc, run-fifo cs e.after, ← append_assoc)
      (ap (λ (q : Bytes). q ++ (run cs e.after).put_in) (call-fifo c bp)
        ∙ append_assoc bp.buffer e.put_in (run cs e.after).put_in)

-- A read waits exactly when the buffer blocks, is empty and is open.
read-waiting_iff :
    (n : ℕ) (bp : Buffer)
    → ((read n bp).0 ≡ waiting) ↔ ((bp.block && is_empty bp.buffer && not bp.closed) ≡ true)
unfolding read
read-waiting_iff n bp = ground arith

-- On a closed buffer every write is refused and changes nothing, no read waits or opens it, and a
-- read reports the end exactly when nothing is left.
pub closed_lem :
    (n : ℕ) (p : Bytes) (bp : Buffer)
    → bp.closed ≡ true
    → ((write p bp).0 ≡ (0, some closed_pipe))
      × ((write p bp).1 ≡ bp)
      × ((read n bp).1.closed ≡ true)
      × ((read n bp).0 ≡ (
          if is_empty bp.buffer then returned [] (some eof) else returned (take n bp.buffer) none))
unfolding write read
closed_lem n p bp h = ground arith

read-closed_more :
    (n : ℕ) (bp : Buffer)
    → bp.closed ≡ true
    → is_empty bp.buffer ≡ false
    → read n bp ≡ (returned (take n bp.buffer) none, record bp { buffer = drop n bp.buffer })
unfolding read
read-closed_more n bp h more = ground arith

read-closed_over :
    (n : ℕ) (bp : Buffer)
    → bp.closed ≡ true
    → is_empty bp.buffer ≡ true
    → read n bp ≡ (returned [] (some eof), bp)
unfolding read
read-closed_over n bp h over = ground arith

length-nil : (p : Bytes) → length p ≤ 0 → p ≡ []
length-nil [] h = refl
length-nil (c ∷ p) h = absurd (omega arith)

-- A reader that reads `n` bytes at a time.
pub drain : ℕ → ℕ → Buffer → Bytes
drain zero n bp = []
drain (suc rounds) n bp = bytes_read (read n bp).0 ++ drain rounds n (read n bp).1

-- A closed buffer gives up all it holds to a reader that reads a positive number of bytes at a
-- time, in at most as many rounds as there are bytes.
pub drain-closed :
    (rounds n : ℕ) (bp : Buffer)
    → bp.closed ≡ true
    → length bp.buffer ≤ rounds
    → drain rounds (suc n) bp ≡ bp.buffer
unfolding drain
drain-closed zero n bp h enough = sym (length-nil bp.buffer enough)
drain-closed (suc rounds) n bp h enough = elim (Bool-cases (is_empty bp.buffer)) [
  | inl over ↦ rw (read-closed_over (suc n) bp h over) (
      drain-closed rounds n bp h
        (let e : bp.buffer ≡ [] = is_empty-nil bp.buffer over in rw e (omega arith)))
  | inr more ↦
      rw
        (
          read-closed_more (suc n) bp h more,
          drain-closed rounds n (record bp { buffer = drop (suc n) bp.buffer }) h
              (omega (arith, length-drop (suc n) bp.buffer)),
        )
        (take-append-drop (suc n) bp.buffer)
]
