-- ===== src/Nsp/States.antt =====
-- src/nsp/nsp.cc: the states of a link, its state machine, its timer, and how it starts. A state
-- action returns the link and the next state, or none to stay.
use cppdecnet.Prelude.{
  ℕ, ◌+◌, min, true, false, not, ◌&&◌, Option, none, some, List, [], ltb, ◌==◌, if◌then◌else◌,
}
use cppdecnet.Nsp.Packets.{
  Packet, Conn, ack_data, ack_other, ack_conn, data_seg, int_msg, link_svc, conn_init, conn_conf,
  disc_conf, disc_init, svc_none,
}
use cppdecnet.Nsp.Link.{
  Link, Env, State, send, send_ack, arm_timer, set_phase, mss, u32, inact_time, conn_timeout,
  connect_received, connect_confirmed, connect_rejected, run_state,
}
use cppdecnet.Nsp.Transmit.{in_flight, acktimeout}
use cppdecnet.Nsp.Acks.{process_ack, route_ack, resend}
use cppdecnet.Nsp.Api.{notify, close_quietly, close_told, do_reject, push_control}
use cppdecnet.Nsp.Receive.{handle_data, handle_interrupt, handle_link_service}

-- What the state machine is given: a packet for the link, or a Timeout.
pub data Input : Type 0 where
  packet : Packet → Input
  expired : Input

-- The reason codes of `enum DiscReason`, and DiscConf's.
abbrev pub disc_obj_fail : ℕ
disc_obj_fail = 38

abbrev pub disc_complete : ℕ
disc_complete = 42

abbrev pub disc_no_link : ℕ
disc_no_link = 41

abbrev pub no_resources : ℕ
no_resources = 1

module _ {D : Type 0} where
  -- The answer to a disconnect initiate.
  unfoldable pub confirm_disconnect : Link D → Link D
  unfolding send
  confirm_disconnect c =
      send (disc_conf (record { dstaddr = c.dstaddr; srcaddr = c.srcaddr; reason = disc_complete }))
        c

  unfoldable pub acknowledge_connect : Link D → Link D
  unfolding send
  acknowledge_connect c =
      if ltb 2 c.cphase then send (ack_conn (record { dstaddr = c.dstaddr; payload = [] })) c else c

  unfoldable pub count_no_resources : ℕ → Link D → Link D
  count_no_resources reason c =
      if reason == no_resources
      then record c { counters = record (c.counters) { no_res_rcv = c.counters.no_res_rcv + 1 } }
      else c

  abbrev pub stay : Link D → Link D × Option State
  stay c = (c, none)

module _ {D : Type 0} (env : Env D) where
  abbrev pub closed_told : ℕ → List ℕ → Link D → Link D × Option State
  closed_told reason bytes c = (close_told env reason bytes c, some State.cl)

  abbrev pub closed_quietly : Link D → Link D × Option State
  closed_quietly c = (close_quietly env c, some State.cl)

  -- `cd`, on a connect confirm.
  unfoldable pub confirmed : Conn → Link D → Link D
  unfolding set_phase send_ack arm_timer
  confirmed p c =
      let learned = record (set_phase env p.info (record c { dstaddr = p.srcaddr })) {
        segsize = min p.segsize mss;
        flow = p.fcopt;
      } in
      let acked = process_ack env 0 learned in
      let answered = if ltb 2 acked.cphase then send_ack acked else acked in
      notify env (connect_confirmed p.body) (record (arm_timer (inact_time env) answered) {
        timer_is_retransmit = false;
        state = State.run;
      })

  unfoldable pub in_cd : Input → Link D → Link D × Option State
  unfolding confirmed confirm_disconnect count_no_resources
  in_cd expired c = closed_told disc_obj_fail [] c
  in_cd (packet (conn_conf p)) c = (confirmed p c, some State.run)
  in_cd (packet (disc_init d)) c = closed_quietly (
      notify env (connect_rejected d.reason d.data_ctl)
        (confirm_disconnect (record c { dstaddr = d.srcaddr })))
  in_cd (packet (disc_conf d)) c =
      closed_quietly (notify env (connect_rejected d.reason []) (count_no_resources d.reason c))
  in_cd (packet p) c = stay c

  unfoldable pub in_ci : Input → Link D → Link D × Option State
  unfolding in_cd arm_timer
  in_ci (packet (ack_conn a)) c =
      let acked = process_ack env 0 c in
      (record (arm_timer (conn_timeout env) acked) { timer_is_retransmit = false }, some State.cd)
  in_ci i c = in_cd i c

  unfoldable pub in_cr : Input → Link D → Link D × Option State
  unfolding acknowledge_connect
  in_cr expired c = stay (do_reject env disc_obj_fail [] c)
  in_cr (packet (conn_init p)) c = stay (acknowledge_connect c)
  in_cr (packet p) c = stay c

  -- `run`, on a packet, with the inactivity timer already armed again.
  unfoldable pub run_packet : Packet → Link D → Link D × Option State
  unfolding confirm_disconnect
  run_packet (data_seg s) c = stay (handle_data env s c)
  run_packet (ack_data a) c = stay (route_ack env a.acknum2 true (route_ack env a.acknum true c))
  run_packet (ack_other a) c = stay (route_ack env a.acknum2 false (route_ack env a.acknum false c))
  run_packet (link_svc l) c = stay (handle_link_service env l c)
  run_packet (int_msg m) c = stay (handle_interrupt env m c)
  run_packet (disc_init d) c = closed_told d.reason d.data_ctl (confirm_disconnect c)
  run_packet (disc_conf d) c = closed_told 0 [] c
  run_packet p c = stay c

  unfoldable pub in_run : Input → Link D → Link D × Option State
  unfolding run_packet arm_timer send_ack
  in_run expired c = stay (arm_timer (inact_time env) (send_ack c))
  in_run (packet p) c =
      let heard = ltb 2 c.cphase && not c.timer_is_retransmit in
      run_packet p (if heard then arm_timer (inact_time env) c else c)

  -- Anything on either subchannel shows that the far end has our confirm.
  unfoldable pub started : Packet → Link D → Link D × Option State
  unfolding in_run
  started p c =
      in_run (packet p) (notify env run_state (record (process_ack env 0 c) { state = State.run }))

  unfoldable pub in_cc : Input → Link D → Link D × Option State
  unfolding started confirm_disconnect
  in_cc expired c = closed_told disc_obj_fail [] c
  in_cc (packet (data_seg s)) c = started (data_seg s) c
  in_cc (packet (ack_data a)) c = started (ack_data a) c
  in_cc (packet (int_msg m)) c = started (int_msg m) c
  in_cc (packet (link_svc l)) c = started (link_svc l) c
  in_cc (packet (ack_other a)) c = started (ack_other a) c
  in_cc (packet (disc_init d)) c = closed_told d.reason d.data_ctl (confirm_disconnect c)
  in_cc (packet p) c = stay c

  unfoldable pub in_di : Input → Link D → Link D × Option State
  in_di expired c = closed_told 0 [] c
  in_di (packet (disc_conf d)) c = closed_told 0 [] c
  in_di (packet (disc_init d)) c = closed_told 0 [] c
  in_di (packet p) c = stay c

  -- The action of the state that the link is in.
  unfoldable pub act : State → Input → Link D → Link D × Option State
  unfolding in_ci in_cr in_cc in_di
  act State.s0 i c = stay c
  act State.ci i c = in_ci i c
  act State.cd i c = in_cd i c
  act State.cr i c = in_cr i c
  act State.cc i c = in_cc i c
  act State.run i c = in_run i c
  act State.di i c = in_di i c
  act State.cl i c = stay c

  -- `set_state` ignores an empty state.
  abbrev pub set_state : Link D × Option State → Link D
  set_state r = elim r.1 [ none ↦ r.0 | some s ↦ record (r.0) { state = s } ]

  unfoldable pub dispatch : Input → Link D → Link D
  dispatch i c = set_state (act c.state i c)

  unfoldable pub receive : Packet → Link D → Link D
  receive p c = dispatch (packet p) c

  unfoldable pub retransmit : Link D → Link D
  retransmit c =
      if in_flight c == 0
      then c
      else let tried = record c {
        counters = record (c.counters) { timeouts = c.counters.timeouts + 1 };
        retries = u32 (c.retries + 1);
      } in
        if ltb env.retransmit_limit tried.retries
        then record (close_told env disc_no_link [] tried) { state = State.cl }
        else resend env tried

  -- The timer expires: it is no longer armed.
  unfoldable pub timeout : Link D → Link D
  unfolding retransmit dispatch
  timeout c =
      let fired = record c { timer = none } in
      if c.timer_is_retransmit then retransmit fired else dispatch expired fired

  unfoldable pub start_outbound : List ℕ → Link D → Link D
  unfolding send arm_timer acktimeout
  start_outbound bytes c =
      let counted = record c {
        counters = record (c.counters) { con_xmt = c.counters.con_xmt + 1 };
        state = State.ci;
      } in
      let queued = send frame (push_control frame c.now counted) in
      arm_timer (acktimeout env c) (record queued { retries = 0; timer_is_retransmit = true })
    where
      frame : Packet
      frame = conn_init (record {
        dstaddr = 0;
        srcaddr = c.srcaddr;
        fcopt = svc_none;
        info = env.nsp_version;
        segsize = mss;
        body = bytes;
      })

  unfoldable pub start_inbound : Conn → Link D → Link D
  unfolding set_phase acknowledge_connect arm_timer
  start_inbound p c =
      let counted = record c {
        counters = record (c.counters) { con_rcv = c.counters.con_rcv + 1 };
        dstaddr = p.srcaddr;
      } in
      let learned = record (set_phase env p.info counted) {
        segsize = min p.segsize mss;
        flow = p.fcopt;
      } in
      notify env (connect_received p.body) (
        arm_timer (conn_timeout env)
          (record (acknowledge_connect learned) { state = State.cr; timer_is_retransmit = false }))
