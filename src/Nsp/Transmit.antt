-- ===== src/Nsp/Transmit.antt =====
-- src/nsp/nsp.cc, the sending half of a link: segmentation, the transmit queue, flow control and the
-- round trip estimate.
use cppdecnet.Prelude.{
  ℕ, zero, suc, ◌+◌, ◌-◌, min, Bool, true, false, not, ◌||◌, none, some, List, [], ◌∷◌, ◌++◌, ltb,
  leb, ◌==◌, if◌then◌else◌, length, take, drop,
}
use cppdecnet.Nsp.Packets.{Qual, Packet, DataSeg, data_seg, svc_seg, svc_msg}
use cppdecnet.Nsp.Link.{
  Link, Env, TxEntry, send, arm_timer, window, u32, seq_next, seq_prev, mss, number,
}

-- The entries that are on the wire and not acknowledged.
unfoldable pub count_sent : List TxEntry → ℕ
count_sent [] = 0
count_sent (e ∷ q) = if e.sent then suc (count_sent q) else count_sent q

module _ {D : Type 0} where
  unfoldable pub in_flight : Link D → ℕ
  unfolding count_sent
  in_flight c = count_sent c.txq

module _ {D : Type 0} (env : Env D) where
  abbrev pub double_min : D → D → D
  double_min a b = if env.double.less b a then b else a

  abbrev pub double_max : D → D → D
  double_max a b = if env.double.less a b then b else a

  unfoldable pub acktimeout : Link D → D
  acktimeout c =
      if env.double.less (number env 0) c.delay
      then env.double.times c.delay env.delay_factor
      else number env 2

  -- One measurement moves the estimate by its share, within the floor and the ceiling.
  measure : D → D → D
  measure delta delay =
      let moved =
        if env.double.less (number env 0) delay
        then env.double.plus delay (
            env.double.divide (env.double.minus delta delay)
              (number env (u32 (env.delay_weight + 1))))
        else delta in
      if env.double.less (number env 5) moved then number env 5 else moved

  unfoldable pub update_delay : ℕ → Link D → Link D
  unfolding measure
  update_delay txtime c =
      if txtime == 0
      then c
      else let delta = env.double.seconds (c.now - txtime) in
        let floored = if env.double.less delta env.min_delay then env.min_delay else delta in
        record c { delay = measure floored c.delay }

  -- The segment number up to which the window lets segments out, over the front of the queue.
  unfoldable pub max_queue : Link D → ℕ
  unfolding window
  max_queue c = elim c.txq [ [] ↦ window env c - 1 | e ∷ q ↦ u32 (e.segnum + window env c - 1) ]

  unfoldable pub flow_ok : Link D → TxEntry → Bool
  flow_ok c e =
      if not e.is_data
      then true
      else if not c.xon
      then false
      else if ltb (max_queue c) e.segnum
      then false
      else if c.flow == svc_seg
      then leb e.segnum c.max_seg
      else if c.flow == svc_msg
      then leb e.msgnum c.max_msg
      else true

  -- The loop of `send_blocked` over the queue: the queue after it and the frames sent, in order.
  unfoldable pub send_loop : Link D → Bool → List TxEntry → List TxEntry × List Packet
  send_loop c timing [] = ([], [])
  send_loop c timing (e ∷ q) =
      let started = if timing then e.txtime else c.now in
      let skipped = send_loop c timing q in
      let after = send_loop c true q in
      if e.sent
      then (e ∷ skipped.0, skipped.1)
      else if flow_ok c e
      then (record e { sent = true; txtime = started } ∷ after.0, e.frame ∷ after.1)
      else (e ∷ q, [])

  unfoldable pub any_timed : List TxEntry → Bool
  any_timed [] = false
  any_timed (e ∷ q) = not (e.txtime == 0) || any_timed q

  -- The frames go out in order.
  unfoldable pub send_all : List Packet → Link D → Link D
  unfolding send
  send_all [] c = c
  send_all (p ∷ ps) c = send_all ps (send p c)

  unfoldable pub start_retransmit_timer : Link D → Link D
  unfolding arm_timer acktimeout
  start_retransmit_timer c = arm_timer (acktimeout c) (record c { timer_is_retransmit = true })

  -- The tail of `send_blocked`, by whether anything was sent.
  unfoldable pub settle_send : List Packet → Link D → Link D
  unfolding start_retransmit_timer
  settle_send [] c = c
  settle_send (p ∷ ps) c = start_retransmit_timer (record c { retries = 0 })

  unfoldable pub send_blocked : Link D → Link D
  unfolding any_timed settle_send
  send_blocked c =
      let (q, frames) = send_loop c (any_timed c.txq) c.txq in
      settle_send frames (send_all frames (record c { txq = q }))

  -- One segment of a message goes on the queue.
  unfoldable pub queue_segment : List ℕ → Bool → Bool → Link D → Link D
  queue_segment payload first last c = record c {
    txq = c.txq ++ entry ∷ [];
    next_segnum = u32 (c.next_segnum + 1);
    next_msgnum = if last then u32 (c.next_msgnum + 1) else c.next_msgnum;
    next_send = seq_next c.next_send;
  }
    where
      seg : DataSeg
      seg = record {
        msgflag = (if first then 0x20 else 0) + (if last then 0x40 else 0);
        dstaddr = c.dstaddr;
        srcaddr = c.srcaddr;
        acknum = some (record { num = seq_prev c.next_expect; qual = Qual.ackq });
        acknum2 = none;
        segnum_bits = c.next_send;
        dly = false;
        payload = payload;
      }

      entry : TxEntry
      entry = record {
        seq = c.next_send;
        segnum = c.next_segnum;
        msgnum = c.next_msgnum;
        frame = data_seg seg;
        sent = false;
        is_data = true;
        txtime = 0;
      }

  -- The loop of `send_segments` on the data that is left. It is given more rounds than there are
  -- bytes, and each round but the last takes a byte at least.
  unfoldable pub segment_loop : ℕ → ℕ → List ℕ → Bool → Link D → Link D
  segment_loop zero limit rest first c = c
  segment_loop (suc fuel) limit rest first c =
      let n = min limit (length rest) in
      let last = leb (length rest) n in
      let queued = queue_segment (take n rest) first last c in
      let more = segment_loop fuel limit (drop n rest) false queued in if last then queued else more

  unfoldable pub send_segments : List ℕ → Link D → Link D
  send_segments bytes c =
      let limit = if c.segsize == 0 then mss else c.segsize in
      send_blocked (segment_loop (suc (length bytes)) limit bytes true c)
