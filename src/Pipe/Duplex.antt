-- ===== src/Pipe/Duplex.antt =====
-- The two ports of fs/pipe/pipe.go: each direction is a queue of its own, which the other
-- direction does not disturb.
use wanix.Base.{ℕ, ◌≡◌, ◌∙◌, refl, Bool, Bytes, List, [], ◌∷◌, ◌++◌}
use wanix.Pipe.{Pipe, new, Port, c1, c2, reader, port_read, port_write, port_close}
use wanix.Pipe.Fifo.{Call, writing, reading, closing, call, run, run-fifo}

-- A call of a method of one of the ports.
pub data PortCall : Type 0 where
  port_writing : Port → Bytes → PortCall
  port_reading : Port → ℕ → PortCall
  port_closing : Port → PortCall

unfoldable pub port_call : PortCall → Pipe → Pipe
unfolding port_write port_read port_close
port_call (port_writing p bs) s = (port_write p bs s).1
port_call (port_reading p n) s = (port_read p n s).1
port_call (port_closing p) s = port_close p s

unfoldable pub port_run : List PortCall → Pipe → Pipe
port_run [] s = s
port_run (c ∷ cs) s = port_run cs (port_call c s)

-- What the calls are to the buffer that a port reads: its own reads, the writes of the other port,
-- and the closing of either.
pub calls_at : Port → List PortCall → List Call
calls_at p [] = []
calls_at c1 (port_writing c2 bs ∷ cs) = writing bs ∷ calls_at c1 cs
calls_at c2 (port_writing c1 bs ∷ cs) = writing bs ∷ calls_at c2 cs
calls_at c1 (port_reading c1 n ∷ cs) = reading n ∷ calls_at c1 cs
calls_at c2 (port_reading c2 n ∷ cs) = reading n ∷ calls_at c2 cs
calls_at p (port_closing q ∷ cs) = closing ∷ calls_at p cs
calls_at p (_ ∷ cs) = calls_at p cs

-- Whatever is called on the two ports of a pipe, the buffer that a port reads ends as the one
-- queue that only the calls on that buffer make of it.
pub port_run-refines :
    (p : Port) (cs : List PortCall) (s : Pipe)
    → reader p (port_run cs s) ≡ (run (calls_at p cs) (reader p s)).after
unfolding port_run calls_at run port_call call
port_run-refines p [] s = refl
port_run-refines c1 (port_writing c1 bs ∷ cs) s =
    port_run-refines c1 cs (port_call (port_writing c1 bs) s)
port_run-refines c1 (port_reading c1 n ∷ cs) s =
    port_run-refines c1 cs (port_call (port_reading c1 n) s)
port_run-refines c1 (port_closing c1 ∷ cs) s =
    port_run-refines c1 cs (port_call (port_closing c1) s)
port_run-refines c2 (port_writing c1 bs ∷ cs) s =
    port_run-refines c2 cs (port_call (port_writing c1 bs) s)
port_run-refines c2 (port_reading c1 n ∷ cs) s =
    port_run-refines c2 cs (port_call (port_reading c1 n) s)
port_run-refines c2 (port_closing c1 ∷ cs) s =
    port_run-refines c2 cs (port_call (port_closing c1) s)
port_run-refines p (c ∷ cs) s = port_run-refines p cs (port_call c s)

-- What was read from a fresh pipe at a port, followed by what is still to be read there, is what
-- was put in for it.
pub port_run-stream :
    (p : Port) (cs : List PortCall) (block : Bool)
    → (run (calls_at p cs) (reader p (new block))).taken
        ++ (reader p (port_run cs (new block))).buffer
      ≡ (run (calls_at p cs) (reader p (new block))).put_in
port_run-stream p cs block =
    rw (port_run-refines p cs (new block))
      (run-fifo (calls_at p cs) (reader p (new block)) ∙ start p block)
  where
    start :
        (p : Port) (block : Bool)
        → (reader p (new block)).buffer ++ (run (calls_at p cs) (reader p (new block))).put_in
          ≡ (run (calls_at p cs) (reader p (new block))).put_in
    start c1 block = unfold new in refl
    start c2 block = unfold new in refl
