-- ===== src/Ddcmp/Protocol.antt =====
-- src/datalink/ddcmp.cc and include/decnet/datalink/ddcmp.h: the DDCMP protocol engine, and the
-- retry intervals of include/decnet/common/backoff.h, whose doubles are whole seconds here.
use cppdecnet.Prelude.{
  ℕ, zero, suc, ◌+◌, ◌*◌, ◌%◌, ◌^◌, Bool, true, false, not, Option, none, some, List, [], ◌∷◌, ltb,
  ◌==◌, if◌then◌else◌,
}
use Prim.Native.Nat.{bit_or}
use cppdecnet.Ddcmp.Message.{Message, MsgKind, seq_next, distance, make_ack, make_start, make_data}

pub record Backoff : Type 0 where
  pub low : ℕ
  pub high : ℕ
  pub current : ℕ
  pub tries : ℕ

unfoldable pub next_delay : Backoff → Backoff
next_delay b = record b {
  current = if ltb b.high (b.current * 2) then b.high else b.current * 2;
  tries = (b.tries + 1) % 2 ^ 32;
}

unfoldable pub reset : Backoff → Backoff
reset b = record b { current = b.low; tries = 0 }

pub data State : Type 0 where
  halted istart astart running in_maintenance : State

-- What the engine asks of its carrier: the calls of the hooks.
pub data Output : Type 0 where
  sent : Message → Output
  delivered : List ℕ → Output
  up down : Output

pub record Counters : Type 0 where
  pub data_errors_inbound : ℕ
  pub data_errors_inbound_map : ℕ
  pub data_errors_outbound : ℕ
  pub data_errors_outbound_map : ℕ
  pub remote_buffer_errors : ℕ
  pub remote_buffer_errors_map : ℕ
  pub remote_reply_timeouts : ℕ
  pub local_reply_timeouts : ℕ

-- `timer` is the time for which the timer runs, none when it is cancelled; `out` has the newest first.
pub record Protocol : Type 0 where
  pub state : State
  pub qmax : ℕ
  pub r : ℕ
  pub a : ℕ
  pub n : ℕ
  pub ackflag : Bool
  pub unack : ℕ → Option Message
  pub notsent : List (List ℕ)
  pub acktmr : Backoff
  pub stacktmr : Backoff
  pub counters : Counters
  pub timer : Option ℕ
  pub out : List Output

-- The counter and the bit of a NAK reason; `inl` is a data error and `inr` a buffer error.
unfoldable pub nak_counter : ℕ → Option (Bool × ℕ)
nak_counter reason =
    if reason == 1
    then some (true, 0)
    else if reason == 2
    then some (true, 1)
    else if reason == 3
    then some (true, 2)
    else if reason == 8
    then some (false, 0)
    else if reason == 16
    then some (false, 1)
    else none

abbrev pub emit : Output → Protocol → Protocol
emit o p = record p { out = o ∷ p.out }

-- `hooks_.set_timer`, where 0 cancels.
abbrev set_timer : ℕ → Protocol → Protocol
set_timer t p = record p { timer = if t == 0 then none else some t }

unfoldable pub init_state : Protocol → Protocol
init_state p = record p {
  r = 0;
  a = 0;
  n = 0;
  ackflag = false;
  unack = λ i. none;
  notsent = [];
  timer = none;
}

-- The constructor.
unfoldable pub new_protocol : ℕ → Protocol
new_protocol qmax = record {
  state = State.halted;
  qmax = if qmax == 0 then 7 else qmax;
  r = 0;
  a = 0;
  n = 0;
  ackflag = false;
  unack = λ i. none;
  notsent = [];
  acktmr = record { low = 1; high = 60; current = 1; tries = 0 };
  stacktmr = record { low = 3; high = 120; current = 3; tries = 0 };
  counters = record {
    data_errors_inbound = 0;
    data_errors_inbound_map = 0;
    data_errors_outbound = 0;
    data_errors_outbound_map = 0;
    remote_buffer_errors = 0;
    remote_buffer_errors_map = 0;
    remote_reply_timeouts = 0;
    local_reply_timeouts = 0;
  };
  timer = none;
  out = [];
}

unfoldable pub send_msg : Message → ℕ → Protocol → Protocol
send_msg m t p = let q = emit (sent m) p in if ltb 0 t then record q { timer = some t } else q

-- `send_msg (m, acktmr_.next ())` and `send_msg (m, stacktmr_.next ())`.
unfoldable pub send_acked : Message → Protocol → Protocol
unfolding send_msg next_delay
send_acked m p = send_msg m p.acktmr.current (record p { acktmr = next_delay p.acktmr })

unfoldable pub send_startup : Message → Protocol → Protocol
unfolding send_msg next_delay
send_startup m p = send_msg m p.stacktmr.current (record p { stacktmr = next_delay p.stacktmr })

unfoldable pub connected : Protocol → Protocol
unfolding init_state send_startup reset make_start
connected p =
    let q = init_state p in
    let ready = record q { acktmr = reset q.acktmr; stacktmr = reset q.stacktmr } in
    record (send_startup make_start ready) { state = State.istart }

-- `if (state_ == State::running && hooks_.down) hooks_.down ();`
unfoldable pub report_down : Protocol → Protocol
report_down p = elim p.state [ State.running ↦ emit down p | _ ↦ p ]

unfoldable pub halt : Protocol → Protocol
unfolding report_down init_state
halt p = record (init_state (report_down p)) { state = State.halted }

unfoldable pub restart : Protocol → Protocol
unfolding report_down connected
restart p = elim p.state [ State.istart ↦ p | _ ↦ connected (report_down p) ]

unfoldable pub enter_running : Bool → Protocol → Protocol
unfolding send_msg make_ack
enter_running ack p =
    let q = emit up (record p { state = State.running; timer = none }) in
    if ack then send_msg (make_ack q.r) 0 q else q

unfoldable pub flush_ack : Protocol → Protocol
unfolding send_msg make_ack
flush_ack p = if p.ackflag then send_msg (make_ack p.r) 0 (record p { ackflag = false }) else p

abbrev update : (ℕ → Option Message) → ℕ → Option Message → ℕ → Option Message
update f k v i = if i == k then v else f i

-- The window: `cansend`, and the loop of `send_queued` over the payloads that wait.
abbrev pub cansend : Protocol → Bool
cansend p = ltb (distance p.a p.n) p.qmax

unfoldable pub send_one : Bool → List ℕ → Protocol → Protocol
unfolding send_acked make_data
send_one queue_only payload p =
    let n' = seq_next p.n in
    let msg = make_data n' p.r payload in
    let kept = record p { n = n'; unack = update p.unack n' (some msg) } in
    if queue_only then kept else send_acked msg kept

unfoldable pub send_loop : Bool → List (List ℕ) → Protocol → Protocol
unfolding send_one
send_loop queue_only [] p = record p { notsent = [] }
send_loop queue_only (payload ∷ rest) p =
    let more = send_loop queue_only rest (send_one queue_only payload p) in
    if cansend p then more else record p { notsent = payload ∷ rest }

unfoldable pub send_queued : Bool → Protocol → Protocol
unfolding send_loop
send_queued queue_only p = send_loop queue_only p.notsent p

-- The loop of `process_ack` that lets go of the messages up to `resp`.
unfoldable pub release : ℕ → Protocol → Protocol
release zero p = p
release (suc k) p =
    let a' = seq_next p.a in release k (record p { a = a'; unack = update p.unack a' none })

unfoldable pub ack_timer : Protocol → Protocol
unfolding next_delay reset
ack_timer p =
    if not (p.a == p.n)
    then record p { timer = some p.acktmr.current; acktmr = next_delay p.acktmr }
    else record p { timer = none; acktmr = reset p.acktmr }

unfoldable pub is_nak : Message → Bool
is_nak m = elim m.kind [ MsgKind.nak ↦ true | _ ↦ false ]

unfoldable pub process_ack : Message → Protocol → Protocol × Bool
unfolding release ack_timer is_nak
process_ack m p =
    let count = distance p.a m.resp in
    if ltb (distance p.a p.n) count
    then (p, false)
    else (send_queued (is_nak m) (ack_timer (release count p)), true)

-- The loop of `retransmit`, from t on.
unfoldable pub resend : Message → Protocol → Protocol
unfolding send_acked
resend m p = send_acked m p

unfoldable pub retransmit_loop : ℕ → ℕ → Protocol → Protocol
unfolding resend
retransmit_loop zero t p = p
retransmit_loop (suc k) t p =
    let t' = seq_next t in
    retransmit_loop k t' (elim (p.unack t') [ none ↦ p | some m ↦ resend m p ])

unfoldable pub retransmit : Protocol → Protocol
unfolding retransmit_loop
retransmit p = retransmit_loop (distance p.a p.n) p.a p

unfoldable pub count_nak : ℕ → Counters → Counters
unfolding nak_counter
count_nak reason c = elim (nak_counter reason) [
  | none ↦ c
  | some (true, b) ↦ record c {
    data_errors_outbound = c.data_errors_outbound + 1;
    data_errors_outbound_map = bit_or c.data_errors_outbound_map (2 ^ b);
  }
  | some (false, b) ↦ record c {
    remote_buffer_errors = c.remote_buffer_errors + 1;
    remote_buffer_errors_map = bit_or c.remote_buffer_errors_map (2 ^ b);
  }
]

unfoldable pub count_inbound : ℕ → Counters → Counters
count_inbound b c = record c {
  data_errors_inbound = c.data_errors_inbound + 1;
  data_errors_inbound_map = bit_or c.data_errors_inbound_map (2 ^ b);
}
