-- ===== src/Multinet/Tests.antt =====
-- Multinet frames at concrete values.
use cppdecnet.Prelude.{◌≡◌, refl, List, [], ◌∷◌, ◌++◌, arith}
use cppdecnet.Multinet
use cppdecnet.Multinet.Cuts.{receive_loop-wire, wire}
use cppdecnet.Multinet.Send
use cppdecnet.Multinet.Send.InFull.{run, run-stream, receive_loop-run}

split_header :
    Multinet.receive_loop [] ((2 ∷ []) ∷ (0 ∷ 0 ∷ 0 ∷ 7 ∷ []) ∷ (9 ∷ 1 ∷ 0 ∷ []) ∷ [])
    ≡ ((7 ∷ 9 ∷ []) ∷ [], 1 ∷ 0 ∷ [])
unfolding Multinet.receive_loop Multinet.read_frames Multinet.whole_frames Multinet.pass_up
    Multinet.take_frame Multinet.take_body
split_header = refl

-- Two messages, the second one empty; a read ends within the header of each.
receive_loop-wire_example :
    Multinet.receive_loop []
      ((2 ∷ []) ∷ (0 ∷ 0 ∷ 0 ∷ 7 ∷ []) ∷ (9 ∷ 0 ∷ 0 ∷ []) ∷ (0 ∷ 0 ∷ []) ∷ [])
    ≡ ((7 ∷ 9 ∷ []) ∷ [] ∷ [], [])
unfolding Multinet.frame
receive_loop-wire_example =
    receive_loop-wire ((7 ∷ 9 ∷ []) ∷ [] ∷ [])
      ((2 ∷ []) ∷ (0 ∷ 0 ∷ 0 ∷ 7 ∷ []) ∷ (9 ∷ 0 ∷ 0 ∷ []) ∷ (0 ∷ 0 ∷ []) ∷ [])
      (omega arith, (omega arith, tt)) refl

-- Two messages, the first one of them written in two goes with the connection full between them.
abbrev two_writes : List Send.Event
two_writes =
    Send.send_message (7 ∷ []) []
    ∷ Send.posted_flush (Send.took 3 ∷ Send.would_block ∷ [])
    ∷ Send.send_message (8 ∷ 9 ∷ []) []
    ∷ Send.writable (Send.interrupted ∷ Send.took 100 ∷ [])
    ∷ []

run-stream_example :
    (run two_writes Send.new_tx).1.written ++ Send.waiting (run two_writes Send.new_tx).1
    ≡ wire (run two_writes Send.new_tx).0
run-stream_example = run-stream two_writes

receive_loop-run_example :
    Multinet.receive_loop [] ((1 ∷ 0 ∷ 0 ∷ 0 ∷ 7 ∷ 2 ∷ []) ∷ (0 ∷ 0 ∷ 0 ∷ 8 ∷ 9 ∷ []) ∷ [])
    ≡ ((7 ∷ []) ∷ (8 ∷ 9 ∷ []) ∷ [], [])
unfolding Multinet.frame Send.new_tx Send.waiting Send.step Send.send Send.accepted
    Send.append_frame Send.dispatch_frame Send.sent Send.flush_posted Send.flushed Send.flush
    Send.after_write Send.wrote Send.full Send.emptied Send.wake_if
receive_loop-run_example =
    receive_loop-run two_writes ((1 ∷ 0 ∷ 0 ∷ 0 ∷ 7 ∷ 2 ∷ []) ∷ (0 ∷ 0 ∷ 0 ∷ 8 ∷ 9 ∷ []) ∷ []) refl
      refl
