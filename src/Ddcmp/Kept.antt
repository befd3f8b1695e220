-- ===== src/Ddcmp/Kept.antt =====
-- The operations of the DDCMP engine (src/datalink/ddcmp.cc) on the messages that are outstanding.
use cppdecnet.Prelude.{
  ℕ, zero, suc, ◌+◌, ◌≤◌, ◌≡◌, refl, Bool, true, false, not, Option, none, some, List, [], ◌∷◌,
  ◌++◌, ltb, ltb→lt, ◌==◌, if-cases, arith,
}
use cppdecnet.Ddcmp.Message.{
  Message, MsgKind, sets_resp, seq_next, distance, make_rep, make_start, make_stack,
}
use cppdecnet.Ddcmp.Protocol.{
  Protocol, State, down, emit, init_state, new_protocol, send_msg, send_acked, send_startup,
  send_loop, send_queued, process_ack, cansend, retransmit_loop, retransmit, ack_timer, is_nak,
  connected, halt, restart, report_down, enter_running, flush_ack, count_nak, reset,
}
use cppdecnet.Ddcmp.Receive.{
  to_maintenance, take_data, answer_rep, answer_nak, receive_istart, follow, receive_astart,
  ack_partial, error_counters, receive, receive_error, receive_in, receive_error_in, timeout_in,
  send_in, timeout, send, send_maintenance, receive_maintenance, receive_running,
}
use cppdecnet.Ddcmp.Outstanding.{
  Outstanding, Same-Outstanding, init_state-Outstanding, send_one-Outstanding, release-Outstanding,
}

alike :
    (p q : Protocol)
    → p.a ≡ q.a
    → p.n ≡ q.n
    → p.qmax ≡ q.qmax
    → p.unack ≡ q.unack
    → Outstanding p
    → Outstanding q
alike p q a n m u = Same-Outstanding p q (record { a = a; n = n; qmax = m; unack = u })

send_loop-Outstanding :
    (b : Bool) (ps : List (List ℕ)) (p : Protocol) → Outstanding p → Outstanding (send_loop b ps p)
unfolding send_loop
send_loop-Outstanding b [] p o = alike p _ refl refl refl refl o
send_loop-Outstanding b (x ∷ ps) p o =
    if-cases Outstanding (cansend p)
      (λ h. send_loop-Outstanding b ps _ (send_one-Outstanding b x p (ltb→lt _ _ h) o))
      (λ _. alike p _ refl refl refl refl o)

send_queued-Outstanding : (b : Bool) (p : Protocol) → Outstanding p → Outstanding (send_queued b p)
unfolding send_queued
send_queued-Outstanding b p o = send_loop-Outstanding b p.notsent p o

send_msg-Outstanding :
    (m : Message) (t : ℕ) (p : Protocol) → Outstanding p → Outstanding (send_msg m t p)
unfolding send_msg
send_msg-Outstanding m t p o =
    if-cases Outstanding (ltb 0 t) (λ _. alike p _ refl refl refl refl o)
      (λ _. alike p _ refl refl refl refl o)

send_acked-Outstanding : (m : Message) (p : Protocol) → Outstanding p → Outstanding (send_acked m p)
unfolding send_acked
send_acked-Outstanding m p o = send_msg-Outstanding m _ _ (alike p _ refl refl refl refl o)

send_startup-Outstanding :
    (m : Message) (p : Protocol) → Outstanding p → Outstanding (send_startup m p)
unfolding send_startup
send_startup-Outstanding m p o = send_msg-Outstanding m _ _ (alike p _ refl refl refl refl o)

ack_timer-Outstanding : (p : Protocol) → Outstanding p → Outstanding (ack_timer p)
unfolding ack_timer
ack_timer-Outstanding p o =
    if-cases Outstanding (not (p.a == p.n)) (λ _. alike p _ refl refl refl refl o)
      (λ _. alike p _ refl refl refl refl o)

pub process_ack-Outstanding :
    (m : Message) (p : Protocol) → Outstanding p → Outstanding (process_ack m p).0
unfolding process_ack
process_ack-Outstanding m p o =
    if-cases {A = Protocol × Bool} (λ r. Outstanding r.0)
      (ltb (distance p.a p.n) (distance p.a m.resp)) (λ _. o)
      (λ h.
        send_queued-Outstanding (is_nak m) _
          (ack_timer-Outstanding _ (release-Outstanding (distance p.a m.resp) p (ground arith) o)))

retransmit_loop-Outstanding :
    (k t : ℕ) (p : Protocol) → Outstanding p → Outstanding (retransmit_loop k t p)
unfolding retransmit_loop
retransmit_loop-Outstanding zero t p o = o
retransmit_loop-Outstanding (suc k) t p o =
    retransmit_loop-Outstanding k (seq_next t) _ (go (p.unack (seq_next t)))
  where
    go : (x : Option Message) → Outstanding (elim x [ none ↦ p | some m ↦ send_acked m p ])
    go none = o
    go (some m) = send_acked-Outstanding m p o

retransmit-Outstanding : (p : Protocol) → Outstanding p → Outstanding (retransmit p)
unfolding retransmit
retransmit-Outstanding p o = retransmit_loop-Outstanding (distance p.a p.n) p.a p o

report_down-Outstanding : (p : Protocol) → Outstanding p → Outstanding (report_down p)
unfolding report_down
report_down-Outstanding p o =
    elim p.state
      as (λ s. Outstanding (elim s [ State.running ↦ record p { out = down ∷ p.out } | _ ↦ p ])) [
        | State.running ↦ alike p _ refl refl refl refl o
        | _ ↦ o
      ]

-- The engine with nothing outstanding and its two intervals at their start.
abbrev fresh : Protocol → Protocol
fresh p = let q = init_state p in record q { acktmr = reset q.acktmr; stacktmr = reset q.stacktmr }

connected-Outstanding : (p : Protocol) → p.qmax ≤ 255 → Outstanding (connected p)
unfolding connected
connected-Outstanding p h =
    let started =
      send_startup-Outstanding make_start (fresh p)
        (alike (init_state p) (fresh p) refl refl refl refl (init_state-Outstanding p h)) in
    alike (send_startup make_start (fresh p)) _ refl refl refl refl started

restart-Outstanding : (p : Protocol) → Outstanding p → Outstanding (restart p)
unfolding restart
restart-Outstanding p o =
    elim p.state
      as (λ s. Outstanding (elim s [ State.istart ↦ p | _ ↦ connected (report_down p) ])) [
        | State.istart ↦ o
        | _ ↦ connected-Outstanding (report_down p) (report_down-Outstanding p o).small
      ]

halt-Outstanding : (p : Protocol) → Outstanding p → Outstanding (halt p)
unfolding halt
halt-Outstanding p o =
    alike (init_state (report_down p)) _ refl refl refl refl
      (init_state-Outstanding (report_down p) (report_down-Outstanding p o).small)

enter_running-Outstanding :
    (b : Bool) (p : Protocol) → Outstanding p → Outstanding (enter_running b p)
unfolding enter_running send_msg
enter_running-Outstanding true p o = alike p _ refl refl refl refl o
enter_running-Outstanding false p o = alike p _ refl refl refl refl o

flush_ack-Outstanding : (p : Protocol) → Outstanding p → Outstanding (flush_ack p)
unfolding flush_ack send_msg
flush_ack-Outstanding p o =
    if-cases Outstanding p.ackflag (λ _. alike p _ refl refl refl refl o) (λ _. o)

receive_maintenance-Outstanding :
    (m : Message) (p : Protocol) → Outstanding p → Outstanding (receive_maintenance m p)
unfolding receive_maintenance
receive_maintenance-Outstanding m p o =
    elim m.kind as (λ k. Outstanding (elim k [ MsgKind.start ↦ restart p | _ ↦ p ])) [
      | MsgKind.start ↦ restart-Outstanding p o
      | _ ↦ o
    ]

to_maintenance-Outstanding :
    (m : Message) (p : Protocol) → Outstanding p → Outstanding (to_maintenance m p)
unfolding to_maintenance
to_maintenance-Outstanding m p o = receive_maintenance-Outstanding m _ (
    alike (init_state p) (record (init_state p) { state = State.in_maintenance }) refl refl refl
      refl (init_state-Outstanding p o.small))

take_data-Outstanding : (m : Message) (p : Protocol) → Outstanding p → Outstanding (take_data m p)
unfolding take_data
take_data-Outstanding m p o =
    if-cases Outstanding (m.num == seq_next p.r) (λ _. alike p _ refl refl refl refl o) (λ _. o)

answer_rep-Outstanding : (m : Message) (p : Protocol) → Outstanding p → Outstanding (answer_rep m p)
unfolding answer_rep send_msg
answer_rep-Outstanding m p o =
    if-cases Outstanding (m.num == p.r) (λ _. alike p _ refl refl refl refl o)
      (λ _. alike p _ refl refl refl refl o)

answer_nak-Outstanding : (m : Message) (p : Protocol) → Outstanding p → Outstanding (answer_nak m p)
unfolding answer_nak
answer_nak-Outstanding m p o =
    let counted = record p { counters = count_nak m.subtype p.counters } in
    let q = process_ack-Outstanding m counted (alike p counted refl refl refl refl o) in
    if-cases Outstanding (process_ack m counted).1 (λ _. retransmit-Outstanding _ q) (λ _. q)

receive_running-Outstanding :
    (k : MsgKind) (m : Message) (p : Protocol) → Outstanding p → Outstanding (receive_running k m p)
unfolding receive_running
receive_running-Outstanding MsgKind.payload_data m p o =
    flush_ack-Outstanding _ (take_data-Outstanding m _ (process_ack-Outstanding m p o))
receive_running-Outstanding MsgKind.ack m p o =
    flush_ack-Outstanding _ (process_ack-Outstanding m p o)
receive_running-Outstanding MsgKind.nak m p o =
    flush_ack-Outstanding _ (answer_nak-Outstanding m p o)
receive_running-Outstanding MsgKind.rep m p o =
    flush_ack-Outstanding _ (answer_rep-Outstanding m p o)
receive_running-Outstanding MsgKind.maintenance m p o = receive_maintenance-Outstanding m _ (
    alike (init_state p) (record (emit down (init_state p)) { state = State.in_maintenance }) refl
      refl refl refl (init_state-Outstanding p o.small))
receive_running-Outstanding MsgKind.start m p o = restart-Outstanding p o
receive_running-Outstanding MsgKind.stack m p o =
    flush_ack-Outstanding _ (alike p (record p { ackflag = true }) refl refl refl refl o)

receive_istart-Outstanding :
    (k : MsgKind) (m : Message) (p : Protocol) → Outstanding p → Outstanding (receive_istart k m p)
unfolding receive_istart
receive_istart-Outstanding MsgKind.start m p o =
    let q = record p { stacktmr = reset p.stacktmr } in
    alike (send_startup make_stack q) _ refl refl refl refl
      (send_startup-Outstanding make_stack q (alike p q refl refl refl refl o))
receive_istart-Outstanding MsgKind.stack m p o = enter_running-Outstanding true p o
receive_istart-Outstanding MsgKind.maintenance m p o = to_maintenance-Outstanding m p o
receive_istart-Outstanding MsgKind.ack m p o = o
receive_istart-Outstanding MsgKind.nak m p o = o
receive_istart-Outstanding MsgKind.rep m p o = o
receive_istart-Outstanding MsgKind.payload_data m p o = o

follow-Outstanding : (m : Message) (p : Protocol) → Outstanding p → Outstanding (follow m p)
unfolding follow
follow-Outstanding m p o =
    if-cases Outstanding (m.resp == 0)
      (λ _. receive_running-Outstanding m.kind m _ (enter_running-Outstanding false p o)) (λ _. o)

receive_astart-Outstanding :
    (k : MsgKind) (m : Message) (p : Protocol) → Outstanding p → Outstanding (receive_astart k m p)
unfolding receive_astart
receive_astart-Outstanding MsgKind.start m p o = send_startup-Outstanding make_stack p o
receive_astart-Outstanding MsgKind.stack m p o = enter_running-Outstanding true p o
receive_astart-Outstanding MsgKind.maintenance m p o = to_maintenance-Outstanding m p o
receive_astart-Outstanding MsgKind.ack m p o = follow-Outstanding m p o
receive_astart-Outstanding MsgKind.nak m p o = o
receive_astart-Outstanding MsgKind.rep m p o = o
receive_astart-Outstanding MsgKind.payload_data m p o = follow-Outstanding m p o

receive_in-Outstanding :
    (s : State) (m : Message) (p : Protocol) → Outstanding p → Outstanding (receive_in s m p)
unfolding receive_in
receive_in-Outstanding State.halted m p o = o
receive_in-Outstanding State.istart m p o = receive_istart-Outstanding m.kind m p o
receive_in-Outstanding State.astart m p o = receive_astart-Outstanding m.kind m p o
receive_in-Outstanding State.in_maintenance m p o = receive_maintenance-Outstanding m p o
receive_in-Outstanding State.running m p o = receive_running-Outstanding m.kind m p o

ack_partial-Outstanding :
    (partial : Option Message) (p : Protocol) → Outstanding p → Outstanding (ack_partial partial p)
unfolding ack_partial
ack_partial-Outstanding none p o = o
ack_partial-Outstanding (some m) p o =
    if-cases Outstanding (sets_resp m) (λ _. process_ack-Outstanding m p o) (λ _. o)

receive_error_in-Outstanding :
    (s : State) (reason : ℕ) (partial : Option Message) (p : Protocol)
    → Outstanding p
    → Outstanding (receive_error_in s reason partial p)
unfolding receive_error_in
receive_error_in-Outstanding State.running reason partial p o =
    let counted = record p { counters = error_counters reason p.counters } in
    send_msg-Outstanding _ 0 _
      (ack_partial-Outstanding partial counted (alike p counted refl refl refl refl o))
receive_error_in-Outstanding State.halted reason partial p o = o
receive_error_in-Outstanding State.istart reason partial p o = o
receive_error_in-Outstanding State.astart reason partial p o = o
receive_error_in-Outstanding State.in_maintenance reason partial p o = o

timeout_in-Outstanding : (s : State) (p : Protocol) → Outstanding p → Outstanding (timeout_in s p)
unfolding timeout_in
timeout_in-Outstanding State.istart p o = send_startup-Outstanding make_start p o
timeout_in-Outstanding State.astart p o = send_startup-Outstanding make_stack p o
timeout_in-Outstanding State.running p o =
    let counted = record p {
      counters = record (p.counters) { local_reply_timeouts = p.counters.local_reply_timeouts + 1 };
    } in
    send_acked-Outstanding (make_rep p.n) counted (alike p counted refl refl refl refl o)
timeout_in-Outstanding State.halted p o = o
timeout_in-Outstanding State.in_maintenance p o = o

send_in-Outstanding :
    (s : State) (payload : List ℕ) (p : Protocol)
    → Outstanding p
    → Outstanding (send_in s payload p)
unfolding send_in
send_in-Outstanding State.running payload p o =
    let q = record p { notsent = p.notsent ++ payload ∷ [] } in
    send_queued-Outstanding false q (alike p q refl refl refl refl o)
send_in-Outstanding State.halted payload p o = o
send_in-Outstanding State.istart payload p o = o
send_in-Outstanding State.astart payload p o = o
send_in-Outstanding State.in_maintenance payload p o = o

-- What happens to the engine: the calls that its carrier makes.
pub data Step : Type 0 where
  connects restarts halts times_out : Step
  receives : Message → Step
  fails : ℕ → Option Message → Step
  sends maintains : List ℕ → Step

unfoldable pub run_step : Step → Protocol → Protocol
unfolding connected restart halt timeout receive receive_error send send_maintenance
run_step connects p = connected p
run_step restarts p = restart p
run_step halts p = halt p
run_step times_out p = timeout p
run_step (receives m) p = receive m p
run_step (fails reason partial) p = receive_error reason partial p
run_step (sends payload) p = send payload p
run_step (maintains payload) p = send_maintenance payload p

unfoldable pub run_steps : List Step → Protocol → Protocol
unfolding run_step
run_steps [] p = p
run_steps (s ∷ ss) p = run_steps ss (run_step s p)

step-Outstanding : (s : Step) (p : Protocol) → Outstanding p → Outstanding (run_step s p)
unfolding run_step connected restart halt timeout receive receive_error send send_maintenance
step-Outstanding connects p o = connected-Outstanding p o.small
step-Outstanding restarts p o = restart-Outstanding p o
step-Outstanding halts p o = halt-Outstanding p o
step-Outstanding times_out p o = timeout_in-Outstanding p.state p o
step-Outstanding (receives m) p o = receive_in-Outstanding p.state m p o
step-Outstanding (fails reason partial) p o =
    receive_error_in-Outstanding p.state reason partial p o
step-Outstanding (sends payload) p o = send_in-Outstanding p.state payload p o
step-Outstanding (maintains payload) p o = send_msg-Outstanding _ 0 p o

steps-Outstanding : (ss : List Step) (p : Protocol) → Outstanding p → Outstanding (run_steps ss p)
unfolding run_steps
steps-Outstanding [] p o = o
steps-Outstanding (s ∷ ss) p o = steps-Outstanding ss _ (step-Outstanding s p o)

new_protocol-Outstanding : (qmax : ℕ) → qmax ≤ 255 → Outstanding (new_protocol qmax)
unfolding new_protocol
new_protocol-Outstanding qmax h = record {
  a_byte = omega arith;
  n_byte = omega arith;
  small = ground arith;
  inside = omega arith;
  held = λ i b l k. absurd (omega arith);
}

-- Whatever sequence of calls a carrier makes on a new DDCMP engine of a window of at most 255,
-- restarts included, no more messages than the window are outstanding, and every outstanding
-- number has its message held for retransmission.
pub run_steps-Outstanding :
    (qmax : ℕ) (ss : List Step) → qmax ≤ 255 → Outstanding (run_steps ss (new_protocol qmax))
run_steps-Outstanding qmax ss h = steps-Outstanding ss _ (new_protocol-Outstanding qmax h)
