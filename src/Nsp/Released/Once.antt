-- ===== src/Nsp/Released/Once.antt =====
-- How often a link gives its address back to NSP: the states of a link, its timers and its start.
use cppdecnet.Prelude.{
  ℕ, ◌+◌, ◌≤◌, refl, min, true, false, Bool, [], Option, none, some, List, arith, if◌then◌else◌,
  if-cases, not, ltb, ◌==◌, ◌&&◌,
}
use cppdecnet.Nsp.Packets.{
  Packet, Conn, ack_data, ack_other, ack_conn, data_seg, int_msg, link_svc, conn_init, conn_conf,
  disc_conf, disc_init,
}
use cppdecnet.Nsp.Link.{
  Link, Env, State, Call, send_ack, ack_holdoff, arm_timer, inact_time, connect_received,
  connect_confirmed, connect_rejected, disconnected, run_state, send, set_phase, mss, conn_timeout,
  u32,
}
use cppdecnet.Nsp.Transmit.{in_flight}
use cppdecnet.Nsp.Acks.{process_ack, resend, resend_loop}
use cppdecnet.Nsp.Api.{notify, close_down, close_told, close_quietly, call, do_reject, release}
use cppdecnet.Nsp.States.{
  Input, packet, expired, act, set_state, dispatch, receive, retransmit, timeout, confirmed, in_cd,
  in_ci, in_cr, run_packet, in_run, in_cc, in_di, start_outbound, start_inbound, confirm_disconnect,
  acknowledge_connect, no_resources, disc_no_link, count_no_resources, started,
}
use cppdecnet.Nsp.Released
use cppdecnet.Nsp.Released.Events

module _ {D : Type 0} where
  -- One release more at most.
  pub record Once (c d : Link D) : Type 0 where
    pub le : Released.releases d.out ≤ 1 + Released.releases c.out

  Silent-Once : {c d : Link D} → Events.Silent c d → Once c d
  Silent-Once h = let a = h.le in record { le = omega arith }

  Once-Silent : {c d e : Link D} → Once d e → Events.Silent c d → Once c e
  Once-Silent h k = let a = h.le in let b = k.le in record { le = omega arith }

module _ {D : Type 0} (env : Env D) (polite : Released.Polite env) where
  close_told-Once :
      (reason : ℕ) (bytes : List ℕ) (c : Link D) → Once c (close_told env reason bytes c)
  unfolding close_told release close_down
  close_told-Once reason bytes c =
      let k =
        (Events.notify-Silent env polite (disconnected reason bytes) refl (close_down c)).le in
      record { le = omega arith }

  close_quietly-Once : (c : Link D) → Once c (close_quietly env c)
  unfolding close_quietly release close_down
  close_quietly-Once c = record { le = omega arith }

  send_ack-Silent : (c : Link D) → Events.Silent c (send_ack c)
  unfolding send_ack
  send_ack-Silent c = record { le = omega arith }

  -- What comes before session control is told of the confirm.
  answered-Silent :
      (test : Bool) (b c : Link D)
      → Events.Silent c b
      → Events.Silent c (arm_timer (inact_time env) (if test then send_ack b else b))
  unfolding arm_timer
  answered-Silent true b c h = record { le = (Events.Silent-trans (send_ack-Silent b) h).le }
  answered-Silent false b c h = record { le = h.le }

  confirmed-Silent : (p : Conn) (c : Link D) → Events.Silent c (confirmed env p c)
  unfolding confirmed set_phase
  confirmed-Silent p c =
      let learned = record (set_phase env p.info (record c { dstaddr = p.srcaddr })) {
        segsize = min p.segsize mss;
        flow = p.fcopt;
      } in
      let acked = process_ack env 0 learned in
      let k : Events.Silent c acked = record {
        le = (Events.Quiet-Silent (Released.process_ack-Quiet env 0 learned)).le;
      } in
      Events.Silent-trans (Events.notify-Silent env polite (connect_confirmed p.body) refl _)
        (record { le = (answered-Silent (ltb 2 acked.cphase) acked c k).le })

  in_cd-Once : (i : Input) (c : Link D) → Once c (in_cd env i c).0
  unfolding in_cd confirm_disconnect send count_no_resources
  in_cd-Once expired c = close_told-Once _ [] c
  in_cd-Once (packet (conn_conf p)) c = Silent-Once (confirmed-Silent p c)
  in_cd-Once (packet (disc_init d)) c = Once-Silent (close_quietly-Once _) (
      Events.Silent-trans
        (Events.notify-Silent env polite (connect_rejected d.reason d.data_ctl) refl _)
        (record { le = omega arith }))
  in_cd-Once (packet (disc_conf d)) c = Once-Silent (close_quietly-Once _) (
      Events.Silent-trans (Events.notify-Silent env polite (connect_rejected d.reason []) refl _) (
        if-cases (λ l. Events.Silent c l) (d.reason == no_resources)
          (λ e. record { le = omega arith }) (λ e. Events.Silent-refl c)))
  in_cd-Once (packet (ack_data a)) c = Silent-Once (Events.Silent-refl c)
  in_cd-Once (packet (ack_other a)) c = Silent-Once (Events.Silent-refl c)
  in_cd-Once (packet (ack_conn a)) c = Silent-Once (Events.Silent-refl c)
  in_cd-Once (packet (data_seg a)) c = Silent-Once (Events.Silent-refl c)
  in_cd-Once (packet (int_msg a)) c = Silent-Once (Events.Silent-refl c)
  in_cd-Once (packet (link_svc a)) c = Silent-Once (Events.Silent-refl c)
  in_cd-Once (packet (conn_init a)) c = Silent-Once (Events.Silent-refl c)

  in_ci-Once : (i : Input) (c : Link D) → Once c (in_ci env i c).0
  unfolding in_ci arm_timer
  in_ci-Once (packet (ack_conn a)) c = record {
    le = (Silent-Once (Events.Quiet-Silent (Released.process_ack-Quiet env 0 c))).le;
  }
  in_ci-Once expired c = in_cd-Once expired c
  in_ci-Once (packet (conn_conf p)) c = in_cd-Once (packet (conn_conf p)) c
  in_ci-Once (packet (disc_init d)) c = in_cd-Once (packet (disc_init d)) c
  in_ci-Once (packet (disc_conf d)) c = in_cd-Once (packet (disc_conf d)) c
  in_ci-Once (packet (ack_data a)) c = in_cd-Once (packet (ack_data a)) c
  in_ci-Once (packet (ack_other a)) c = in_cd-Once (packet (ack_other a)) c
  in_ci-Once (packet (data_seg a)) c = in_cd-Once (packet (data_seg a)) c
  in_ci-Once (packet (int_msg a)) c = in_cd-Once (packet (int_msg a)) c
  in_ci-Once (packet (link_svc a)) c = in_cd-Once (packet (link_svc a)) c
  in_ci-Once (packet (conn_init a)) c = in_cd-Once (packet (conn_init a)) c

  acknowledge_connect-Silent : (c : Link D) → Events.Silent c (acknowledge_connect c)
  unfolding acknowledge_connect send
  acknowledge_connect-Silent c =
      if-cases (λ d. Events.Silent c d) (ltb 2 c.cphase) (λ e. record { le = omega arith })
        (λ e. Events.Silent-refl c)

  confirm_disconnect-Silent : (c : Link D) → Events.Silent c (confirm_disconnect c)
  unfolding confirm_disconnect send
  confirm_disconnect-Silent c = record { le = omega arith }

  run_packet-Once : (p : Packet) (c : Link D) → Once c (run_packet env p c).0
  unfolding run_packet
  run_packet-Once (data_seg s) c = Silent-Once (Events.handle_data-Silent env polite s c)
  run_packet-Once (ack_data a) c = Silent-Once (
      Events.Silent-trans (Events.route_ack-Silent env polite a.acknum2 true _)
        (Events.route_ack-Silent env polite a.acknum true c))
  run_packet-Once (ack_other a) c = Silent-Once (
      Events.Silent-trans (Events.route_ack-Silent env polite a.acknum2 false _)
        (Events.route_ack-Silent env polite a.acknum false c))
  run_packet-Once (link_svc l) c = Silent-Once (Events.handle_link_service-Silent env polite l c)
  run_packet-Once (int_msg m) c = Silent-Once (Events.handle_interrupt-Silent env polite m c)
  run_packet-Once (disc_init d) c =
      Once-Silent (close_told-Once d.reason d.data_ctl _) (confirm_disconnect-Silent c)
  run_packet-Once (disc_conf d) c = close_told-Once 0 [] c
  run_packet-Once (ack_conn a) c = Silent-Once (Events.Silent-refl c)
  run_packet-Once (conn_init a) c = Silent-Once (Events.Silent-refl c)
  run_packet-Once (conn_conf a) c = Silent-Once (Events.Silent-refl c)

  in_run-Once : (i : Input) (c : Link D) → Once c (in_run env i c).0
  unfolding in_run arm_timer
  in_run-Once expired c = record { le = (Silent-Once (send_ack-Silent c)).le }
  in_run-Once (packet p) c =
      if-cases (λ d. Once c (run_packet env p d).0) (ltb 2 c.cphase && not c.timer_is_retransmit)
        (λ e. record { le = (run_packet-Once p (arm_timer (inact_time env) c)).le })
        (λ e. run_packet-Once p c)

  started-Once : (p : Packet) (c : Link D) → Once c (started env p c).0
  unfolding started
  started-Once p c = Once-Silent (in_run-Once (packet p) _) (
      Events.Silent-trans (Events.notify-Silent env polite run_state refl _)
        (record { le = (Events.Quiet-Silent (Released.process_ack-Quiet env 0 c)).le }))

  in_cc-Once : (i : Input) (c : Link D) → Once c (in_cc env i c).0
  unfolding in_cc
  in_cc-Once expired c = close_told-Once _ [] c
  in_cc-Once (packet (data_seg s)) c = started-Once (data_seg s) c
  in_cc-Once (packet (ack_data a)) c = started-Once (ack_data a) c
  in_cc-Once (packet (int_msg m)) c = started-Once (int_msg m) c
  in_cc-Once (packet (link_svc l)) c = started-Once (link_svc l) c
  in_cc-Once (packet (ack_other a)) c = started-Once (ack_other a) c
  in_cc-Once (packet (disc_init d)) c =
      Once-Silent (close_told-Once d.reason d.data_ctl _) (confirm_disconnect-Silent c)
  in_cc-Once (packet (ack_conn a)) c = Silent-Once (Events.Silent-refl c)
  in_cc-Once (packet (conn_init a)) c = Silent-Once (Events.Silent-refl c)
  in_cc-Once (packet (conn_conf a)) c = Silent-Once (Events.Silent-refl c)
  in_cc-Once (packet (disc_conf a)) c = Silent-Once (Events.Silent-refl c)

  in_di-Once : (i : Input) (c : Link D) → Once c (in_di env i c).0
  unfolding in_di
  in_di-Once expired c = close_told-Once 0 [] c
  in_di-Once (packet (disc_conf d)) c = close_told-Once 0 [] c
  in_di-Once (packet (disc_init d)) c = close_told-Once 0 [] c
  in_di-Once (packet (ack_data a)) c = Silent-Once (Events.Silent-refl c)
  in_di-Once (packet (ack_other a)) c = Silent-Once (Events.Silent-refl c)
  in_di-Once (packet (ack_conn a)) c = Silent-Once (Events.Silent-refl c)
  in_di-Once (packet (data_seg a)) c = Silent-Once (Events.Silent-refl c)
  in_di-Once (packet (int_msg a)) c = Silent-Once (Events.Silent-refl c)
  in_di-Once (packet (link_svc a)) c = Silent-Once (Events.Silent-refl c)
  in_di-Once (packet (conn_init a)) c = Silent-Once (Events.Silent-refl c)
  in_di-Once (packet (conn_conf a)) c = Silent-Once (Events.Silent-refl c)

  do_reject-Once :
      (reason : ℕ) (bytes : List ℕ) (c : Link D) → Once c (do_reject env reason bytes c)
  unfolding do_reject close_quietly release close_down send
  do_reject-Once reason bytes c = record { le = omega arith }

  in_cr-Once : (i : Input) (c : Link D) → Once c (in_cr env i c).0
  unfolding in_cr
  in_cr-Once expired c = do_reject-Once _ [] c
  in_cr-Once (packet (conn_init p)) c = Silent-Once (acknowledge_connect-Silent c)
  in_cr-Once (packet (ack_data a)) c = Silent-Once (Events.Silent-refl c)
  in_cr-Once (packet (ack_other a)) c = Silent-Once (Events.Silent-refl c)
  in_cr-Once (packet (ack_conn a)) c = Silent-Once (Events.Silent-refl c)
  in_cr-Once (packet (data_seg a)) c = Silent-Once (Events.Silent-refl c)
  in_cr-Once (packet (int_msg a)) c = Silent-Once (Events.Silent-refl c)
  in_cr-Once (packet (link_svc a)) c = Silent-Once (Events.Silent-refl c)
  in_cr-Once (packet (conn_conf a)) c = Silent-Once (Events.Silent-refl c)
  in_cr-Once (packet (disc_init a)) c = Silent-Once (Events.Silent-refl c)
  in_cr-Once (packet (disc_conf a)) c = Silent-Once (Events.Silent-refl c)

  act-Once : (s : State) (i : Input) (c : Link D) → Once c (act env s i c).0
  unfolding act
  act-Once State.s0 i c = Silent-Once (Events.Silent-refl c)
  act-Once State.ci i c = in_ci-Once i c
  act-Once State.cd i c = in_cd-Once i c
  act-Once State.cr i c = in_cr-Once i c
  act-Once State.cc i c = in_cc-Once i c
  act-Once State.run i c = in_run-Once i c
  act-Once State.di i c = in_di-Once i c
  act-Once State.cl i c = Silent-Once (Events.Silent-refl c)

  set_state-Once : (c d : Link D) (s : Option State) → Once c d → Once c (set_state env (d, s))
  set_state-Once c d none h = h
  set_state-Once c d (some s) h = record { le = h.le }

  pub dispatch-Once : (i : Input) (c : Link D) → Once c (dispatch env i c)
  unfolding dispatch
  dispatch-Once i c =
      set_state-Once c (act env c.state i c).0 (act env c.state i c).1 (act-Once c.state i c)

  retransmit-Once : (c : Link D) → Once c (retransmit env c)
  unfolding retransmit resend arm_timer
  retransmit-Once c =
      let tried = record c {
        counters = record (c.counters) { timeouts = c.counters.timeouts + 1 };
        retries = u32 (c.retries + 1);
      } in
      let (q, frames) = resend_loop env true tried.txq in
      let s = (Released.send_all-Quiet env frames (record tried { txq = q })).same in
      let k = (close_told-Once disc_no_link [] tried).le in
      if-cases (λ d. Once c d) (in_flight c == 0) (λ e. Silent-Once (Events.Silent-refl c))
        (λ e.
          if-cases (λ d. Once c d) (ltb env.retransmit_limit tried.retries) (λ f. record { le = k })
            (λ f. record { le = omega arith }))

  pub timeout-Once : (c : Link D) → Once c (timeout env c)
  unfolding timeout
  timeout-Once c =
      let fired = record c { timer = none } in
      if-cases (λ d. Once c d) c.timer_is_retransmit
        (λ e. record { le = (retransmit-Once fired).le })
        (λ e. record { le = (dispatch-Once expired fired).le })

  pub start_inbound-Once : (p : Conn) (c : Link D) → Once c (start_inbound env p c)
  unfolding start_inbound set_phase arm_timer
  start_inbound-Once p c =
      let counted = record c {
        counters = record (c.counters) { con_rcv = c.counters.con_rcv + 1 };
        dstaddr = p.srcaddr;
      } in
      let learned = record (set_phase env p.info counted) {
        segsize = min p.segsize mss;
        flow = p.fcopt;
      } in
      let a = (acknowledge_connect-Silent learned).le in
      let b = record (acknowledge_connect learned) {
        state = State.cr;
        timer_is_retransmit = false;
        timer = some (conn_timeout env);
      } in
      let k : Released.releases (notify env (connect_received p.body) b).out
          ≤ 1 + Released.releases b.out =
        Released.notify-releases env (connect_received p.body) b polite in
      record { le = omega arith }

  pub receive-Once : (p : Packet) (c : Link D) → Once c (receive env p c)
  unfolding receive
  receive-Once p c = dispatch-Once (packet p) c

  -- In any state, a link that receives a packet and a link whose timer expires, for retransmission
  -- or not, give their address back once at most, where session control rejects a link at most
  -- once, when it is told of the connect.
  pub receive-timeout-Once :
      (p : Packet) (c : Link D) → Once c (receive env p c) × Once c (timeout env c)
  receive-timeout-Once p c = (receive-Once p c, timeout-Once c)

module _ {D : Type 0} where
  pub ack_holdoff-Once : (c : Link D) → Once c (ack_holdoff c)
  unfolding ack_holdoff send_ack
  ack_holdoff-Once c =
      if-cases (λ d. Once c d) c.ackpending (λ e. record { le = omega arith })
        (λ e. record { le = omega arith })

  pub call-Once : (env : Env D) (k : Call) (c : Link D) → Once c (call env k c)
  call-Once env k c =
      let e = Released.call-releases env k c in
      let f = Released.rejects-le k in record { le = omega arith }

  pub start_outbound-Once :
      (env : Env D) (bytes : List ℕ) (c : Link D) → Once c (start_outbound env bytes c)
  unfolding start_outbound send arm_timer
  start_outbound-Once env bytes c = record { le = omega arith }
