-- ===== src/Nsp/Link.antt =====
-- include/decnet/nsp/nsp.h: the state of one logical link (class Connection), what it uses of its
-- surroundings, and the helpers that send, arm the timer and acknowledge.
use cppdecnet.Prelude.{
  ℕ, ◌-◌, ◌%◌, ◌^◌, min, max, Bool, true, false, Option, none, some, List, [], ◌∷◌, if◌then◌else◌,
}
use cppdecnet.Modulo
use cppdecnet.Nsp.Packets.{Qual, Packet, Ack, DataSeg, phase_of_version, svc_none, ack_data}

-- The `double` of the source: a type `D` with the operations that the link uses.
pub record Double (D : Type 0) : Type 0 where
  pub of_ℕ : ℕ → D
  pub plus : D → D → D
  pub minus : D → D → D
  pub times : D → D → D
  pub divide : D → D → D
  pub less : D → D → Bool
  -- static_cast<unsigned>
  pub truncate : D → ℕ
  -- A span of the steady clock in seconds.
  pub seconds : ℕ → D

pub data State : Type 0 where
  s0 ci cd cr cc run di cl : State

-- TxEntry. `txtime` is 0 where the packet is not timed, as the epoch is in the source.
pub record TxEntry : Type 0 where
  pub seq : ℕ
  pub segnum : ℕ
  pub msgnum : ℕ
  pub frame : Packet
  pub sent : Bool
  pub is_data : Bool
  pub txtime : ℕ

-- The calls of SessionControl that a link makes.
pub data Upcall : Type 0 where
  connect_received : List ℕ → Upcall
  connect_confirmed : List ℕ → Upcall
  connect_rejected : ℕ → List ℕ → Upcall
  data_received : List ℕ → Upcall
  interrupt_received : List ℕ → Upcall
  run_state : Upcall
  disconnected : ℕ → List ℕ → Upcall

-- The calls that session control may make on the link while it handles one of these.
pub data Call : Type 0 where
  accept : List ℕ → ℕ → Call
  reject : ℕ → List ℕ → Call
  send_data : List ℕ → Call
  disconnect : ℕ → List ℕ → Call
  send_interrupt : List ℕ → Call

-- What the link does to the outside: a packet handed to routing, a call of session control, and
-- `parent_->close_connection`.
pub data Output : Type 0 where
  transmitted : Packet → Output
  notified : Upcall → Output
  released : Output

-- The counters of the far node that a link updates.
pub record Counters : Type 0 where
  pub con_xmt : ℕ
  pub con_rcv : ℕ
  pub byt_xmt : ℕ
  pub msg_xmt : ℕ
  pub byt_rcv : ℕ
  pub msg_rcv : ℕ
  pub timeouts : ℕ
  pub no_res_rcv : ℕ

-- `timer` is the time for which the timer is armed; `delay` is the far node's round trip estimate;
-- `now` is what the steady clock reads in the event that is handled; `out` has the newest first.
pub record Link (D : Type 0) : Type 0 where
  pub srcaddr : ℕ
  pub dstaddr : ℕ
  pub rphase : ℕ
  pub cphase : ℕ
  pub segsize : ℕ
  pub next_send : ℕ
  pub highest_acked : ℕ
  pub next_expect : ℕ
  pub txq : List TxEntry
  pub next_segnum : ℕ
  pub next_msgnum : ℕ
  pub max_acked_seg : ℕ
  pub flow : ℕ
  pub max_seg : ℕ
  pub max_msg : ℕ
  pub xon : Bool
  pub qmax : ℕ
  pub cwnd : D
  pub ssthresh : D
  pub nak_from : Option ℕ
  pub ooo : List (ℕ × DataSeg)
  pub ackpending : Bool
  pub ack_timer : Bool
  pub int_next_send : ℕ
  pub int_next_expect : ℕ
  pub int_txq : List TxEntry
  pub int_next_msg : ℕ
  pub int_max_msg : ℕ
  pub assembly : List ℕ
  pub assembling : Bool
  pub retries : ℕ
  pub timer_is_retransmit : Bool
  pub timer : Option D
  pub delay : D
  pub counters : Counters
  pub state : State
  pub now : ℕ
  pub out : List Output

-- What the link reads of NSP, its node and session control (none before one is set).
pub record Env (D : Type 0) : Type 0 where
  pub double : Double D
  pub qmax : ℕ
  pub delay_weight : ℕ
  pub delay_factor : D
  pub min_delay : D
  pub retransmit_limit : ℕ
  pub nsp_version : ℕ
  pub phase : ℕ
  pub session : Option (Upcall → Link D → List Call)

-- common.MSS
abbrev pub mss : ℕ
mss = 576 - 13

abbrev pub max_interrupt : ℕ
max_interrupt = 16

abbrev pub u32 : ℕ → ℕ
u32 n = n % 2 ^ 32

-- The order of `Seq`, and `Seq` plus one.
abbrev pub seq_lt : ℕ → ℕ → Bool
seq_lt a b = Modulo.lt 4096 a b

abbrev pub seq_next : ℕ → ℕ
seq_next a = Modulo.add 4096 a 1

abbrev pub seq_prev : ℕ → ℕ
seq_prev a = Modulo.sub 4096 a 1

module _ {D : Type 0} where
  abbrev pub is_running : Link D → Bool
  is_running c = elim c.state [ State.run ↦ true | _ ↦ false ]

  abbrev pub is_closed : Link D → Bool
  is_closed c = elim c.state [ State.cl ↦ true | _ ↦ false ]

  unfoldable pub send : Packet → Link D → Link D
  send p c = record c { out = transmitted p ∷ c.out }

  unfoldable pub arm_timer : D → Link D → Link D
  arm_timer t c = record c { timer = some t }

  unfoldable pub stop_timer : Link D → Link D
  stop_timer c = record c { timer = none }

  unfoldable pub delay_ack : Link D → Link D
  delay_ack c = record c { ackpending = true; ack_timer = true }

  unfoldable pub stop_ack_holdoff : Link D → Link D
  stop_ack_holdoff c = record c { ackpending = false; ack_timer = false }

  unfoldable pub send_ack : Link D → Link D
  unfolding stop_ack_holdoff send
  send_ack c = send (ack_data ack) (stop_ack_holdoff c)
    where
      ack : Ack
      ack = record {
        dstaddr = c.dstaddr;
        srcaddr = c.srcaddr;
        acknum = some (record { num = seq_prev c.next_expect; qual = Qual.ackq });
        acknum2 = none;
      }

  -- The holdoff timer expires: it is no longer linked.
  unfoldable pub ack_holdoff : Link D → Link D
  unfolding send_ack
  ack_holdoff c =
      let fired = record c { ack_timer = false } in if c.ackpending then send_ack fired else fired

module _ {D : Type 0} (env : Env D) where
  abbrev pub number : ℕ → D
  number n = env.double.of_ℕ n

  abbrev pub conn_timeout : D
  conn_timeout = number 30

  abbrev pub inact_time : D
  inact_time = number 300

  -- The constructor; `delay` comes from the node database, and is 0 where nothing is known.
  unfoldable pub new_link : ℕ → D → Link D
  new_link srcaddr delay = record {
    srcaddr = srcaddr;
    dstaddr = 0;
    rphase = 4;
    cphase = 4;
    segsize = mss;
    next_send = 1;
    highest_acked = 0;
    next_expect = 1;
    txq = [];
    next_segnum = 1;
    next_msgnum = 1;
    max_acked_seg = 0;
    flow = svc_none;
    max_seg = 0;
    max_msg = 0;
    xon = true;
    qmax = env.qmax;
    cwnd = number 2;
    ssthresh = number env.qmax;
    nak_from = none;
    ooo = [];
    ackpending = false;
    ack_timer = false;
    int_next_send = 1;
    int_next_expect = 1;
    int_txq = [];
    int_next_msg = 1;
    int_max_msg = 1;
    assembly = [];
    assembling = false;
    retries = 0;
    timer_is_retransmit = false;
    timer = none;
    delay = delay;
    counters = record {
      con_xmt = 0;
      con_rcv = 0;
      byt_xmt = 0;
      msg_xmt = 0;
      byt_rcv = 0;
      msg_rcv = 0;
      timeouts = 0;
      no_res_rcv = 0;
    };
    state = State.s0;
    now = 0;
    out = [];
  }

  unfoldable pub window : Link D → ℕ
  window c = max 1 (min (env.double.truncate c.cwnd) c.qmax)

  unfoldable pub set_phase : ℕ → Link D → Link D
  unfolding phase_of_version
  set_phase info c =
      let r = phase_of_version (info % 4) in record c { rphase = r; cphase = min r env.phase }
