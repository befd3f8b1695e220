-- ===== src/Nsp/Tests.antt =====
-- Runs of the link at concrete inputs, and the theorems applied to them. The numbers of the
-- round trip estimate are natural here.
use cppdecnet.Prelude.{
  ℕ, suc, ◌+◌, ◌-◌, ◌*◌, ◌/◌, ◌%◌, ◌^◌, ◌≤◌, ◌<◌, ◌≡◌, ◌≢◌, refl, ◌⊎◌, inl, inr, true, false, none,
  some, List, [], ◌∷◌, ltb, arith,
}
use cppdecnet.Nsp.Packets.{DataSeg, data_seg}
use cppdecnet.Nsp.Link.{Link, Env, Double, TxEntry, State, Upcall, Call, new_link}
use cppdecnet.Nsp.Transmit.{send_segments, in_flight, count_sent}
use cppdecnet.Nsp.Acks.{process_ack, process_nak, resend}
use cppdecnet.Nsp.Receive.{handle_data}
use cppdecnet.Nsp.States.{timeout}
use cppdecnet.Nsp.Reassembly.{absorbed}
use cppdecnet.Nsp.InOrder.{Rx, handle_data-Rx}
use cppdecnet.Nsp.Segments.{fed_queue, completed, send_segments-round_trip}
use cppdecnet.Nsp.Window.{Window, width, count_data}
use cppdecnet.Nsp.Window.Sending.{send_segments-Window}
use cppdecnet.Nsp.Window.Acks.{WindowFrom, process_ack-Window}
use cppdecnet.Nsp.Window.Resent.{Resent, timeout-Resent}
use cppdecnet.Nsp.Window.Gap.{Due, Sends, process_nak-Sends, process_nak-twice}
use cppdecnet.Nsp.Window.Reached.{Reached, Reached-bounded}
use cppdecnet.Nsp.Closing.{Waiting, timeouts, timeouts-close}

abbrev pub nat_double : Double ℕ
nat_double = record {
  of_ℕ = λ n. n;
  plus = λ a b. a + b;
  minus = λ a b. a - b;
  times = λ a b. a * b;
  divide = λ a b. a / b;
  less = ltb;
  truncate = λ n. n;
  seconds = λ n. n;
}

abbrev quiet : Upcall → Link ℕ → List Call
quiet u c = []

abbrev env : Env ℕ
env = record {
  double = nat_double;
  qmax = 8;
  delay_weight = 3;
  delay_factor = 2;
  min_delay = 1;
  retransmit_limit = 2;
  nsp_version = 2;
  phase = 4;
  session = some quiet;
}

has_session : env.session ≢ none
has_session e = cc

abbrev running : Link ℕ
running = record (new_link env 8 0) { state = State.run }

-- A stream of one message in two segments, and its first segment.
abbrev segment : ℕ → DataSeg
segment i = record {
  msgflag = 0x20;
  dstaddr = 8;
  srcaddr = 9;
  acknum = none;
  acknum2 = none;
  segnum_bits = i % 4096;
  dly = false;
  payload = i ∷ [];
}

abbrev number_one : ℕ
number_one = 1

running-Rx : Rx env has_session segment 0 1 running
unfolding new_link absorbed
running-Rx = record { expects = refl; taken = refl; held = tt }

handle_data-Rx_example :
    (n' : ℕ) × (0 ≤ n')
    × ((number_one ≢ 1) ⊎ (1 ≤ n'))
    × Rx env has_session segment n' (suc n') (handle_data env (segment 1) running)
handle_data-Rx_example =
    handle_data-Rx env has_session segment 0 1 (segment 1) running running-Rx (refl, refl) refl
      (omega arith) (omega arith)

send_segments-round_trip_example :
    fed_queue
      (send_segments env (1 ∷ 2 ∷ 3 ∷ []) (record running { segsize = 2 })).txq
      (record { buffer = []; started = false; messages = [] })
    ≡ completed true (1 ∷ 2 ∷ 3 ∷ []) (
        fed_queue
          (record running { segsize = 2 }).txq
          (record { buffer = []; started = false; messages = [] }))
send_segments-round_trip_example =
    send_segments-round_trip env (1 ∷ 2 ∷ 3 ∷ []) (record running { segsize = 2 })
      (record { buffer = []; started = false; messages = [] })

running-Window : Window 1 running
unfolding new_link
running-Window = record { numbered = refl; below = tt; small = omega arith }

running_room : running.next_segnum + 4 + width running ≤ 2 ^ 32
unfolding new_link
running_room = omega arith

send_segments-Window_example : Window 1 (send_segments env (1 ∷ 2 ∷ 3 ∷ []) running)
send_segments-Window_example =
    send_segments-Window env 1 (1 ∷ 2 ∷ 3 ∷ []) running running-Window running_room

-- A link with one segment of two on the wire.
abbrev entry : ℕ → TxEntry
entry i = record {
  seq = i;
  segnum = i;
  msgnum = 1;
  frame = data_seg (segment i);
  sent = true;
  is_data = true;
  txtime = 0;
}

abbrev waiting : Link ℕ
waiting = record running {
  txq = entry 1 ∷ entry 2 ∷ [];
  next_segnum = 3;
  next_send = 3;
  timer_is_retransmit = true;
}

waiting-Window : Window 1 waiting
unfolding new_link
waiting-Window = record {
  numbered = inl (refl, refl, inl (refl, refl, refl));
  below = (inr (inr (omega arith)), (inr (inr (omega arith)), tt));
  small = omega arith;
}

process_ack-Window_example : WindowFrom env 1 (process_ack env 1 waiting)
process_ack-Window_example = process_ack-Window env 1 1 waiting waiting-Window

waiting-Due : Due (entry 1) waiting
unfolding new_link
waiting-Due = record {
  sent = refl;
  is_data = refl;
  xon = refl;
  segments = inl (λ e. omega arith);
  messages = inl (λ e. omega arith);
}

new_gap : waiting.nak_from ≢ some 1
unfolding new_link
new_gap e = cc

process_nak-Sends_example :
    Sends (entry 1).frame waiting (process_nak env waiting) × Window 1 (process_nak env waiting)
process_nak-Sends_example =
    process_nak-Sends env 1 (entry 1) (entry 2 ∷ []) waiting waiting-Window refl new_gap waiting-Due

process_nak-twice_example : process_nak env (process_nak env waiting) ≡ process_nak env waiting
process_nak-twice_example = process_nak-twice env waiting

waiting_untried : waiting.retries < 2
unfolding new_link
waiting_untried = omega arith

timeout-Resent_example :
    Resent env (entry 1) waiting (timeout env waiting)
    × ((timeout env waiting).retries ≡ waiting.retries + 1)
timeout-Resent_example =
    timeout-Resent env (entry 1) waiting refl refl waiting_untried (omega arith)

Reached-bounded_example :
    count_data (process_nak env (resend env waiting)).txq
    ≤ width (process_nak env (resend env waiting))
Reached-bounded_example =
    Reached-bounded env 1 waiting _ waiting-Window (Reached.missed (Reached.resent Reached.begun))

waiting-Waiting : Waiting env 0 waiting
unfolding in_flight count_sent new_link
waiting-Waiting = record { retransmits = refl; outstanding = omega arith; tried = refl }

timeouts-close_example : (timeouts env 3 waiting).state ≡ State.cl
timeouts-close_example = timeouts-close env 2 0 waiting (omega arith) refl waiting-Waiting
