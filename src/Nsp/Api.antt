-- ===== src/Nsp/Api.antt =====
-- src/nsp/nsp.cc: the session control API of a link, how a link closes, and the calls that it makes
-- of session control. Session control answers a call by calls on the link, made before it returns.
use cppdecnet.Prelude.{
  Option, ℕ, ◌+◌, ◌%◌, ◌^◌, Bool, true, false, not, none, some, List, [], ◌∷◌, ◌++◌, ltb, leb,
  if◌then◌else◌, length,
}
use cppdecnet.Nsp.Packets.{Qual, Packet, IntMsg, int_msg, conn_conf, disc_init}
use cppdecnet.Nsp.Link.{
  Link, Env, TxEntry, State, Upcall, Call, send, arm_timer, stop_timer, stop_ack_holdoff, u32,
  seq_next, seq_prev, mss, notified, released, is_running, is_closed, max_interrupt, conn_timeout,
  accept, reject, send_data, disconnect, send_interrupt, disconnected,
}
use cppdecnet.Nsp.Transmit.{send_segments, acktimeout}

module _ {D : Type 0} where
  unfoldable pub can_interrupt : Link D → Bool
  can_interrupt c = leb c.int_next_msg c.int_max_msg

  -- The body of `send_interrupt` behind its guards.
  queue_interrupt : List ℕ → Link D → Link D
  queue_interrupt bytes c = send (int_msg msg) (record c {
    int_txq = c.int_txq ++ entry ∷ [];
    int_next_send = seq_next c.int_next_send;
    int_next_msg = u32 (c.int_next_msg + 1);
  })
    where
      msg : IntMsg
      msg = record {
        dstaddr = c.dstaddr;
        srcaddr = c.srcaddr;
        acknum = none;
        acknum2 = some (record { num = seq_prev c.next_expect; qual = Qual.xack });
        segnum = c.int_next_send;
        payload = bytes;
      }

      entry : TxEntry
      entry = record {
        seq = c.int_next_send;
        segnum = 0;
        msgnum = c.int_next_msg;
        frame = int_msg msg;
        sent = true;
        is_data = false;
        txtime = 0;
      }

  -- `false` is the answer that the interrupt was not sent.
  unfoldable pub do_send_interrupt : List ℕ → Link D → Link D × Bool
  unfolding queue_interrupt can_interrupt
  do_send_interrupt bytes c =
      if not (is_running c)
      then (c, false)
      else if ltb max_interrupt (length bytes)
      then (c, false)
      else if not (can_interrupt c)
      then (c, false)
      else (queue_interrupt bytes c, true)

  abbrev disc_init_of : ℕ → List ℕ → Link D → Packet
  disc_init_of reason bytes c = disc_init (record {
    dstaddr = c.dstaddr;
    srcaddr = c.srcaddr;
    reason = reason % 2 ^ 16;
    data_ctl = bytes;
  })

  -- The transmit queue with the entry of a connect initiate or confirm: number 0, sent at once.
  abbrev pub push_control : Packet → ℕ → Link D → Link D
  push_control frame txtime c = record c {
    txq =
        c.txq
        ++ (record {
          seq = 0;
          segnum = 0;
          msgnum = 0;
          frame = frame;
          sent = true;
          is_data = false;
          txtime = txtime;
        })
          ∷ [];
  }

  -- `close` up to the call of session control, and what it does behind that.
  unfoldable pub close_down : Link D → Link D
  unfolding stop_timer stop_ack_holdoff
  close_down c = record (stop_ack_holdoff (stop_timer c)) { txq = []; int_txq = []; ooo = [] }

  unfoldable pub release : Link D → Link D
  release c = record c { out = released ∷ c.out }

module _ {D : Type 0} (env : Env D) where
  -- `close (reason, {}, false)`; its caller sets the state.
  unfoldable pub close_quietly : Link D → Link D
  unfolding close_down release
  close_quietly c = release (close_down c)

  unfoldable pub do_accept : List ℕ → ℕ → Link D → Link D
  unfolding send arm_timer acktimeout
  do_accept bytes fcopt c = elim c.state [
    | State.cr ↦
        let queued = send frame (push_control frame 0 (record c { state = State.cc })) in
        arm_timer (acktimeout env c) (record queued { retries = 0; timer_is_retransmit = true })
    | _ ↦ c
  ]
    where
      frame : Packet
      frame = conn_conf (record {
        dstaddr = c.dstaddr;
        srcaddr = c.srcaddr;
        fcopt = fcopt;
        info = env.nsp_version;
        segsize = mss;
        body = bytes;
      })

  unfoldable pub do_reject : ℕ → List ℕ → Link D → Link D
  unfolding send close_quietly
  do_reject reason bytes c = record (close_quietly (send (disc_init_of reason bytes c) c)) {
    state = State.cl;
  }

  unfoldable pub do_disconnect : ℕ → List ℕ → Link D → Link D
  unfolding send arm_timer
  do_disconnect reason bytes c =
      if is_closed c
      then c
      else arm_timer (conn_timeout env) (record (send (disc_init_of reason bytes c) c) {
        state = State.di;
        timer_is_retransmit = false;
      })

  unfoldable pub do_send_data : List ℕ → Link D → Link D
  do_send_data bytes c =
      if not (is_running c)
      then c
      else send_segments env bytes (record c {
        counters = record (c.counters) {
          byt_xmt = c.counters.byt_xmt + length bytes;
          msg_xmt = c.counters.msg_xmt + 1;
        };
      })

  unfoldable pub call : Call → Link D → Link D
  call (accept bytes fcopt) c = do_accept bytes fcopt c
  call (reject reason bytes) c = do_reject reason bytes c
  call (send_data bytes) c = do_send_data bytes c
  call (disconnect reason bytes) c = do_disconnect reason bytes c
  call (send_interrupt bytes) c = (do_send_interrupt bytes c).0

  unfoldable pub calls : List Call → Link D → Link D
  calls [] c = c
  calls (k ∷ ks) c = calls ks (call k c)

  unfoldable pub tell : Option (Upcall → Link D → List Call) → Upcall → Link D → Link D
  tell none u c = c
  tell (some respond) u c = calls (respond u c) (record c { out = notified u ∷ c.out })

  -- `if (session ()) session ()->...`
  unfoldable pub notify : Upcall → Link D → Link D
  unfolding tell
  notify u c = tell env.session u c

  -- `close (reason, data, true)`
  unfoldable pub close_told : ℕ → List ℕ → Link D → Link D
  close_told reason bytes c = release (notify (disconnected reason bytes) (close_down c))
