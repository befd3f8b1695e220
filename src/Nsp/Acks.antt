-- ===== src/Nsp/Acks.antt =====
-- src/nsp/nsp.cc, the sending half of a link: acknowledgements, and what is sent again.
use cppdecnet.Prelude.{
  ℕ, zero, suc, ◌-◌, Bool, true, false, not, ◌&&◌, Option, none, some, List, [], ◌∷◌, ltb, ◌==◌,
  if◌then◌else◌,
}
use cppdecnet.Nsp.Packets.{AckNum, Packet, is_cross, is_nak}
use cppdecnet.Nsp.Link.{Link, Env, TxEntry, arm_timer, stop_timer, seq_lt, number}
use cppdecnet.Nsp.Transmit.{
  acktimeout, double_max, double_min, in_flight, send_all, send_blocked, start_retransmit_timer,
  update_delay,
}

module _ {D : Type 0} (env : Env D) where
  -- The first loop of `process_ack`: the link with the acknowledged entries gone, how many of them
  -- were data, and whether there were any.
  unfoldable pub ack_loop : ℕ → List TxEntry → Link D → ℕ → Bool → Link D × ℕ × Bool
  ack_loop num [] c acked progress = (record c { txq = [] }, acked, progress)
  ack_loop num (e ∷ q) c acked progress =
      let popped = update_delay env e.txtime (record c { max_acked_seg = e.segnum }) in
      let rest = ack_loop num q popped (if e.is_data then suc acked else acked) true in
      if e.sent && not (seq_lt num e.seq) then rest else (record c { txq = e ∷ q }, acked, progress)

  -- The congestion window opens by one segment, or by its inverse beyond the threshold.
  grow : D → D → D
  grow ssthresh cwnd =
      if env.double.less cwnd ssthresh
      then env.double.plus cwnd (number env 1)
      else env.double.plus cwnd (env.double.divide (number env 1) cwnd)

  grow_times : ℕ → D → D → D
  unfolding grow
  grow_times zero ssthresh cwnd = cwnd
  grow_times (suc n) ssthresh cwnd = grow_times n ssthresh (grow ssthresh cwnd)

  -- The timer after an acknowledgement.
  unfoldable pub ack_timers : Bool → Link D → Link D
  unfolding in_flight start_retransmit_timer stop_timer
  ack_timers true c =
      if ltb 0 (in_flight c)
      then start_retransmit_timer env c
      else if c.timer_is_retransmit
      then stop_timer c
      else c
  ack_timers false c = elim c.txq [
    | [] ↦ if c.timer_is_retransmit then stop_timer c else c
    | _ ∷ _ ↦ c
  ]

  -- What `process_ack` does between its loop and `send_blocked`.
  unfoldable pub ack_settle : ℕ → ℕ → Bool → Link D → Link D
  unfolding grow_times ack_timers
  ack_settle num acked progress c = ack_timers progress (record c {
    cwnd = double_min env (grow_times acked c.ssthresh c.cwnd) (number env c.qmax);
    highest_acked = num;
    nak_from = if progress then none else c.nak_from;
    retries = if progress then 0 else c.retries;
  })

  unfoldable pub process_ack : ℕ → Link D → Link D
  unfolding ack_settle
  process_ack num c =
      let (popped, acked, progress) = ack_loop num c.txq c 0 false in
      send_blocked env (ack_settle num acked progress popped)

  -- Everything on the wire that is data is to be sent again, and is not timed any more.
  unfoldable pub unsend : List TxEntry → List TxEntry
  unsend [] = []
  unsend (e ∷ q) =
      (if e.sent && e.is_data then record e { sent = false; txtime = 0 } else e) ∷ unsend q

  half : ℕ → D
  half n = double_max env (number env 2) (env.double.divide (number env n) (number env 2))

  unfoldable pub nak_resend : ℕ → Link D → Link D
  unfolding half unsend
  nak_resend seq c =
      let threshold = half (in_flight c) in
      send_blocked env (record c {
        nak_from = some seq;
        ssthresh = threshold;
        cwnd = threshold;
        txq = unsend c.txq;
      })

  -- `process_nak` on the queue and the gap that is being resent.
  unfoldable pub nak_front : List TxEntry → Option ℕ → Link D → Link D
  nak_front [] gap c = c
  nak_front (e ∷ q) none c = if not e.sent then c else nak_resend e.seq c
  nak_front (e ∷ q) (some s) c =
      if not e.sent then c else if s == e.seq then c else nak_resend e.seq c

  unfoldable pub process_nak : Link D → Link D
  unfolding nak_front
  process_nak c = nak_front c.txq c.nak_from c

  -- The entries of the other-data subchannel that an acknowledgement leaves.
  unfoldable pub int_acked : ℕ → List TxEntry → List TxEntry
  int_acked num [] = []
  int_acked num (e ∷ q) = if e.sent && not (seq_lt num e.seq) then int_acked num q else e ∷ q

  unfoldable pub process_int_ack : ℕ → Link D → Link D
  unfolding int_acked
  process_int_ack num c = record c { int_txq = int_acked num c.int_txq }

  unfoldable pub route_ack : Option AckNum → Bool → Link D → Link D
  route_ack none on_data c = c
  route_ack (some a) on_data c =
      let for_data = if is_cross a then not on_data else on_data in
      let acked = process_ack a.num c in
      if for_data then if is_nak a then process_nak acked else acked else process_int_ack a.num c

  -- The loop of `retransmit`: the first entry that is on the wire goes out again, and the data
  -- behind it waits for `send_blocked`.
  unfoldable pub resend_loop : Bool → List TxEntry → List TxEntry × List Packet
  resend_loop first [] = ([], [])
  resend_loop first (e ∷ q) =
      let kept = resend_loop first q in
      let others = resend_loop false q in
      let waiting =
        if e.is_data then record e { sent = false; txtime = 0 } else record e { txtime = 0 } in
      if not e.sent
      then (e ∷ kept.0, kept.1)
      else if first
      then (record e { txtime = 0 } ∷ others.0, e.frame ∷ others.1)
      else (waiting ∷ others.0, others.1)

  -- `for (unsigned i = 1; i < retries_ && t < 30.0; ++i) t *= 2.0;` for `retries - 1` rounds.
  double_up : ℕ → D → D
  double_up zero t = t
  double_up (suc n) t =
      let more = double_up n (env.double.times t (number env 2)) in
      if env.double.less t (number env 30) then more else t

  unfoldable pub backoff : ℕ → D → D
  unfolding double_up
  backoff retries t =
      let t' = double_up (retries - 1) t in
      if env.double.less (number env 30) t' then number env 30 else t'

  -- `retransmit` once it has decided to try again.
  unfoldable pub resend : Link D → Link D
  unfolding half backoff
  resend c =
      let (q, frames) = resend_loop true c.txq in
      let sent = send_all env frames (record c { txq = q }) in
      arm_timer (backoff c.retries (acktimeout env c)) (record sent {
        ssthresh = half (in_flight c);
        cwnd = number env 1;
        timer_is_retransmit = true;
      })
