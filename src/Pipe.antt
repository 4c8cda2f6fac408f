-- ===== src/Pipe.antt =====
-- fs/pipe/buffer.go, pipe.go and portfile.go: the in-memory pipe with two ends.
-- Each method of `Buffer` runs under its lock, so it is one step. A `Read` that would wait on the
-- condition variable is a value, `waiting`: it changes nothing, and is tried again after a signal.
pub mod Fifo
pub mod Duplex
pub mod Tests
use wanix.Base.{
  ℕ, Bool, true, false, not, ◌&&◌, Option, none, some, Bytes, [], ◌∷◌, ◌++◌, if◌then◌else◌, eq_nat,
  is_empty, length, take, drop,
}
use wanix.Errors.{Errno, eof, closed_pipe}

pub record Buffer : Type 0 where
  pub buffer : Bytes
  pub closed : Bool
  pub block : Bool

unfoldable pub new_buffer : Bool → Buffer
new_buffer block = record { buffer = []; closed = false; block = block }

-- The number of bytes written, or the error.
unfoldable pub write : Bytes → Buffer → (ℕ × Option Errno) × Buffer
write p bp =
    if bp.closed
    then ((0, some closed_pipe), bp)
    else ((length p, none), record bp { buffer = bp.buffer ++ p })

-- What a `Read` into `n` bytes comes to: the bytes and the error, or the wait for a signal.
pub data Reading : Type 0 where
  waiting : Reading
  returned : Bytes → Option Errno → Reading

-- bytes.Buffer.Read
unfoldable pub buffer_read : ℕ → Buffer → Reading × Buffer
buffer_read n bp =
    if is_empty bp.buffer
    then (returned [] (if eq_nat n 0 then none else some eof), bp)
    else (returned (take n bp.buffer) none, record bp { buffer = drop n bp.buffer })

unfoldable pub read : ℕ → Buffer → Reading × Buffer
unfolding buffer_read
read n bp =
    if bp.block && is_empty bp.buffer && not bp.closed
    then (waiting, bp)
    else if bp.closed && is_empty bp.buffer
    then (returned [] (some eof), bp)
    else buffer_read n bp

unfoldable pub close : Buffer → Buffer
close bp = record bp { closed = true }

unfoldable pub size : Buffer → ℕ
size bp = length bp.buffer

-- The two buffers of `New`, which its two ports share.
pub record Pipe : Type 0 where
  pub p1 : Buffer
  pub p2 : Buffer

unfoldable pub new : Bool → Pipe
unfolding new_buffer
new block = record { p1 = new_buffer block; p2 = new_buffer block }

-- The ports: `c1` reads from `p1` and writes to `p2`, `c2` the other way round.
pub data Port : Type 0 where
  c1 c2 : Port

abbrev pub peer : Port → Port
peer c1 = c2
peer c2 = c1

abbrev pub reader : Port → Pipe → Buffer
reader c1 s = s.p1
reader c2 s = s.p2

abbrev pub writer : Port → Pipe → Buffer
writer p s = reader (peer p) s

abbrev pub with_reader : Port → Buffer → Pipe → Pipe
with_reader c1 b s = record s { p1 = b }
with_reader c2 b s = record s { p2 = b }

unfoldable pub port_read : Port → ℕ → Pipe → Reading × Pipe
unfolding read
port_read p n s = let (r, b) = read n (reader p s) in (r, with_reader p b s)

unfoldable pub port_write : Port → Bytes → Pipe → (ℕ × Option Errno) × Pipe
unfolding write
port_write p bs s = let (r, b) = write bs (writer p s) in (r, with_reader (peer p) b s)

unfoldable pub port_close : Port → Pipe → Pipe
unfolding close
port_close p s =
    let t = with_reader p (close (reader p s)) s in with_reader (peer p) (close (writer p t)) t

unfoldable pub port_size : Port → Pipe → ℕ
unfolding size
port_size p s = size (reader p s)

-- A port as a file: the offset of `ReadAt` and `WriteAt` is ignored, and closing does nothing.
unfoldable pub file_read_at : Port → ℕ → ℕ → Pipe → Reading × Pipe
unfolding port_read
file_read_at p n off s = port_read p n s

unfoldable pub file_write_at : Port → Bytes → ℕ → Pipe → (ℕ × Option Errno) × Pipe
unfolding port_write
file_write_at p bs off s = port_write p bs s

unfoldable pub file_close : Port → Pipe → Pipe
file_close p s = s
