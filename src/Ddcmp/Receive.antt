-- ===== src/Ddcmp/Receive.antt =====
-- src/datalink/ddcmp.cc: what the DDCMP engine does with a message, an error, its timer and a payload
-- to be sent.
use cppdecnet.Prelude.{
  ℕ, ◌+◌, true, false, Option, none, some, List, [], ◌∷◌, ◌++◌, ◌==◌, if◌then◌else◌,
}
use cppdecnet.Ddcmp.Message.{
  Message, MsgKind, seq_next, sets_resp, make_nak, make_rep, make_start, make_stack,
  make_maintenance,
}
use cppdecnet.Ddcmp.Protocol.{
  Counters, Protocol, State, init_state, count_inbound, count_nak, delivered, down, emit,
  enter_running, flush_ack, nak_counter, process_ack, reset, restart, retransmit, send_acked,
  send_msg, send_queued, send_startup,
}

-- `receive` in the maintenance state.
unfoldable pub receive_maintenance : Message → Protocol → Protocol
unfolding restart
receive_maintenance m p = elim m.kind [ MsgKind.start ↦ restart p | _ ↦ p ]

-- A maintenance message where the engine is not in maintenance.
unfoldable pub to_maintenance : Message → Protocol → Protocol
unfolding init_state receive_maintenance
to_maintenance m p = receive_maintenance m (record (init_state p) { state = State.in_maintenance })

-- A data message in the running behind `process_ack`.
unfoldable pub take_data : Message → Protocol → Protocol
take_data m p =
    if m.num == seq_next p.r
    then emit (delivered m.payload) (record p { r = seq_next p.r; ackflag = true })
    else p

unfoldable pub answer_rep : Message → Protocol → Protocol
unfolding count_inbound send_msg make_nak
answer_rep m p =
    let counted = record p {
      counters = record (p.counters) {
        remote_reply_timeouts = p.counters.remote_reply_timeouts + 1;
      };
    } in
    if m.num == p.r
    then record counted { ackflag = true }
    else send_msg (make_nak p.r 3) 0
        (record counted { counters = count_inbound 2 counted.counters })

unfoldable pub answer_nak : Message → Protocol → Protocol
unfolding count_nak process_ack retransmit
answer_nak m p =
    let (q, inside) = process_ack m (record p { counters = count_nak m.subtype p.counters }) in
    if inside then retransmit q else q

-- `receive` in the running state, by the kind of the message.
unfoldable pub receive_running : MsgKind → Message → Protocol → Protocol
unfolding process_ack take_data answer_nak answer_rep to_maintenance restart flush_ack init_state
receive_running MsgKind.payload_data m p = flush_ack (take_data m (process_ack m p).0)
receive_running MsgKind.ack m p = flush_ack (process_ack m p).0
receive_running MsgKind.nak m p = flush_ack (answer_nak m p)
receive_running MsgKind.rep m p = flush_ack (answer_rep m p)
receive_running MsgKind.maintenance m p =
    receive_maintenance m (record (emit down (init_state p)) { state = State.in_maintenance })
receive_running MsgKind.start m p = restart p
receive_running MsgKind.stack m p = flush_ack (record p { ackflag = true })

unfoldable pub receive_istart : MsgKind → Message → Protocol → Protocol
unfolding send_startup make_stack enter_running to_maintenance reset
receive_istart MsgKind.start m p =
    record (send_startup make_stack (record p { stacktmr = reset p.stacktmr })) {
      state = State.astart;
    }
receive_istart MsgKind.stack m p = enter_running true p
receive_istart MsgKind.maintenance m p = to_maintenance m p
receive_istart _ m p = p

unfoldable pub follow : Message → Protocol → Protocol
unfolding enter_running receive_running
follow m p = if m.resp == 0 then receive_running m.kind m (enter_running false p) else p

unfoldable pub receive_astart : MsgKind → Message → Protocol → Protocol
unfolding send_startup make_stack enter_running to_maintenance follow
receive_astart MsgKind.start m p = send_startup make_stack p
receive_astart MsgKind.stack m p = enter_running true p
receive_astart MsgKind.maintenance m p = to_maintenance m p
receive_astart MsgKind.ack m p = follow m p
receive_astart MsgKind.payload_data m p = follow m p
receive_astart _ m p = p

-- `receive`, by the state.
unfoldable pub receive_in : State → Message → Protocol → Protocol
unfolding receive_istart receive_astart receive_maintenance receive_running
receive_in State.halted m p = p
receive_in State.istart m p = receive_istart m.kind m p
receive_in State.astart m p = receive_astart m.kind m p
receive_in State.in_maintenance m p = receive_maintenance m p
receive_in State.running m p = receive_running m.kind m p

unfoldable pub receive : Message → Protocol → Protocol
unfolding receive_in
receive m p = receive_in p.state m p

unfoldable pub error_counters : ℕ → Counters → Counters
unfolding nak_counter count_inbound
error_counters reason c = elim (nak_counter reason) [ some (true, b) ↦ count_inbound b c | _ ↦ c ]

unfoldable pub ack_partial : Option Message → Protocol → Protocol
unfolding process_ack
ack_partial none p = p
ack_partial (some m) p = if sets_resp m then (process_ack m p).0 else p

-- `receive_error`, by the state; the message is the header that was good, if there was one.
unfoldable pub receive_error_in : State → ℕ → Option Message → Protocol → Protocol
unfolding error_counters send_msg make_nak ack_partial
receive_error_in State.running reason partial p =
    let acked = ack_partial partial (record p { counters = error_counters reason p.counters }) in
    send_msg (make_nak acked.r reason) 0 acked
receive_error_in _ reason partial p = p

unfoldable pub receive_error : ℕ → Option Message → Protocol → Protocol
unfolding receive_error_in
receive_error reason partial p = receive_error_in p.state reason partial p

unfoldable pub timeout_in : State → Protocol → Protocol
unfolding send_startup send_acked make_start make_stack make_rep
timeout_in State.istart p = send_startup make_start p
timeout_in State.astart p = send_startup make_stack p
timeout_in State.running p = send_acked (make_rep p.n) (record p {
  counters = record (p.counters) { local_reply_timeouts = p.counters.local_reply_timeouts + 1 };
})
timeout_in _ p = p

unfoldable pub timeout : Protocol → Protocol
unfolding timeout_in
timeout p = timeout_in p.state p

unfoldable pub send_in : State → List ℕ → Protocol → Protocol
unfolding send_queued
send_in State.running payload p =
    send_queued false (record p { notsent = p.notsent ++ payload ∷ [] })
send_in _ payload p = p

unfoldable pub send : List ℕ → Protocol → Protocol
unfolding send_in
send payload p = send_in p.state payload p

unfoldable pub send_maintenance : List ℕ → Protocol → Protocol
unfolding send_msg make_maintenance
send_maintenance payload p = send_msg (make_maintenance payload) 0 p
