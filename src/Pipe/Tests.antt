-- ===== src/Pipe/Tests.antt =====
-- Runs of the pipe, and the theorems at them.
use wanix.Base.{◌≡◌, refl, Bool, true, false, codes, List, [], ◌∷◌, ◌++◌, arith}
use wanix.Pipe.{Buffer, c1, c2, new, reader}
use wanix.Pipe.Fifo.{Call, writing, reading, closing, run, call, run-fifo, drain, drain-closed}
use wanix.Pipe.Duplex.{
  PortCall, port_writing, port_reading, port_closing, port_run, port_call, calls_at,
  port_run-refines,
}

abbrev holding : Bool → Buffer
holding closed = record { buffer = codes "abc"; closed = closed; block = true }

abbrev script : List Call
script = writing (codes "de") ∷ reading 4 ∷ closing ∷ writing (codes "x") ∷ reading 9 ∷ []

script_runs : (run script (holding false)).taken ≡ codes "abcde"
unfolding run call
script_runs = refl

run-fifo_example :
    (run script (holding false)).taken ++ (run script (holding false)).after.buffer
    ≡ codes "abc" ++ (run script (holding false)).put_in
run-fifo_example = run-fifo script (holding false)

drain-closed_example : drain 3 2 (holding true) ≡ codes "abc"
drain-closed_example = drain-closed 3 1 (holding true) refl (omega arith)

abbrev exchange : List PortCall
exchange =
    port_writing c1 (codes "ping")
    ∷ port_reading c2 2
    ∷ port_writing c2 (codes "pong")
    ∷ port_reading c1 9
    ∷ port_closing c1
    ∷ port_writing c1 (codes "!")
    ∷ []

exchange_runs : (reader c2 (port_run exchange (new true))).buffer ≡ codes "ng"
unfolding port_run port_call new
exchange_runs = refl

port_run-refines_example :
    reader c2 (port_run exchange (new true))
    ≡ (run (calls_at c2 exchange) (reader c2 (new true))).after
port_run-refines_example = port_run-refines c2 exchange (new true)
