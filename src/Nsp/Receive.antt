-- ===== src/Nsp/Receive.antt =====
-- src/nsp/nsp.cc, the receiving half of a link: data segments and their reassembly, interrupts and
-- link service messages.
use cppdecnet.Prelude.{
  ℕ, zero, suc, ◌+◌, true, false, not, ◌&&◌, Option, none, some, List, [], ◌∷◌, ◌++◌, ltb, leb,
  ◌==◌, if◌then◌else◌, length,
}
use cppdecnet.Prelude.Int.{ℤ, pos, negsuc, ◌+ℤ◌, ltb_ℤ, pos_part}
use cppdecnet.Nsp.Packets.{
  Qual, Packet, DataSeg, IntMsg, LinkSvcMsg, ack_other, bom, eom, segnum, valid, svc_seg, svc_msg,
}
use cppdecnet.Nsp.Link.{
  Link, Env, send, send_ack, delay_ack, u32, seq_lt, seq_next, seq_prev, is_running, data_received,
  interrupt_received,
}
use cppdecnet.Nsp.Transmit.{send_blocked}
use cppdecnet.Nsp.Acks.{route_ack}
use cppdecnet.Nsp.Api.{notify}

-- The map of segments that came ahead of their turn; `emplace` keeps an entry that is there.
unfoldable pub find : ℕ → List (ℕ × DataSeg) → Option DataSeg
find k [] = none
find k ((j, s) ∷ m) = if j == k then some s else find k m

unfoldable pub erase : ℕ → List (ℕ × DataSeg) → List (ℕ × DataSeg)
erase k [] = []
erase k ((j, s) ∷ m) = if j == k then erase k m else (j, s) ∷ erase k m

unfoldable pub emplace : ℕ → DataSeg → List (ℕ × DataSeg) → List (ℕ × DataSeg)
unfolding find
emplace k s m = elim (find k m) [ none ↦ (k, s) ∷ m | some _ ↦ m ]

module _ {D : Type 0} where
  unfoldable pub count_received : ℕ → Link D → Link D
  count_received n c = record c {
    counters = record (c.counters) {
      byt_rcv = c.counters.byt_rcv + n;
      msg_rcv = c.counters.msg_rcv + 1;
    };
  }

  -- The acknowledgement of a message on the other-data subchannel.
  abbrev ack_other_of : ℕ → Link D → Packet
  ack_other_of num c = ack_other (record {
    dstaddr = c.dstaddr;
    srcaddr = c.srcaddr;
    acknum = some (record { num = num; qual = Qual.ackq });
    acknum2 = none;
  })

  -- The payload joins the message that is being put together.
  unfoldable pub append_payload : DataSeg → Link D → Link D
  append_payload seg c =
      if bom seg
      then record c { assembly = seg.payload; assembling = true }
      else if c.assembling
      then record c { assembly = c.assembly ++ seg.payload }
      else c

module _ {D : Type 0} (env : Env D) where
  -- A message is complete: it goes up, and the buffer is cleared behind the call.
  unfoldable pub deliver_message : Link D → Link D
  unfolding count_received
  deliver_message c =
      let counted = count_received (length c.assembly) (record c { assembling = false }) in
      record (notify env (data_received c.assembly) counted) { assembly = [] }

  unfoldable pub accept_segment : DataSeg → Link D → Link D
  unfolding append_payload
  accept_segment seg c =
      let joined = append_payload seg c in
      if joined.assembling && eom seg then deliver_message joined else joined

  -- `accept_segment (seg); ++next_expect_;`
  unfoldable pub advance : DataSeg → Link D → Link D
  advance seg c =
      let taken = accept_segment seg c in record taken { next_expect = seq_next taken.next_expect }

  -- The loop of `handle_data` that takes the held segments which follow on. Each round erases an
  -- entry, and fuel above their number is enough where session control adds none: a call of it
  -- leaves the map alone or clears it.
  unfoldable pub drain : ℕ → Link D → Link D
  drain zero c = c
  drain (suc fuel) c = elim (find c.next_expect c.ooo) [
    | none ↦ c
    | some held ↦ drain fuel (advance held (record c { ooo = erase c.next_expect c.ooo }))
  ]

  -- A segment in sequence.
  unfoldable pub take_segment : DataSeg → Link D → Link D
  take_segment seg c = let taken = advance seg c in drain (suc (length taken.ooo)) taken

  -- A segment ahead of its turn is held, while there is room.
  unfoldable pub hold_segment : DataSeg → Link D → Link D
  hold_segment seg c =
      if ltb (length c.ooo) c.qmax then record c { ooo = emplace (segnum seg) seg c.ooo } else c

  -- `handle_data` behind the acknowledgement fields.
  unfoldable pub sequence : DataSeg → Link D → Link D
  unfolding take_segment hold_segment
  sequence seg c =
      if seq_lt (segnum seg) c.next_expect
      then send_ack c
      else if not (segnum seg == c.next_expect)
      then send_ack (hold_segment seg c)
      else let taken = take_segment seg c in
        if seg.dly && (leb 4 taken.cphase && is_running taken)
        then delay_ack taken
        else send_ack taken

  unfoldable pub handle_data : DataSeg → Link D → Link D
  handle_data seg c =
      sequence seg (route_ack env seg.acknum2 true (route_ack env seg.acknum true c))

  unfoldable pub handle_interrupt : IntMsg → Link D → Link D
  unfolding send count_received
  handle_interrupt msg c =
      if seq_lt msg.segnum c.int_next_expect
      then send (ack_other_of (seq_prev c.int_next_expect) c) c
      else let acked =
          send (ack_other_of msg.segnum c) (record c { int_next_expect = seq_next msg.segnum }) in
        notify env (interrupt_received msg.payload) (count_received (length msg.payload) acked)

  -- Credit for interrupts: a count that cannot be taken back.
  unfoldable pub int_credit : ℤ → Link D → Link D
  int_credit (pos d) c = record c { int_max_msg = u32 (c.int_max_msg + d) }
  int_credit (negsuc d) c = c

  -- Credit for data, by the flow control that the peer asked for; `none` is an invalid credit.
  unfoldable pub data_credit : ℤ → Link D → Option (Link D)
  data_credit delta c =
      if c.flow == svc_msg
      then if not (ltb_ℤ delta (pos 0))
          && ltb_ℤ (pos c.max_msg +ℤ delta) (pos (c.max_acked_seg + 128))
        then some (record c { max_msg = u32 (pos_part (pos c.max_msg +ℤ delta)) })
        else none
      else if c.flow == svc_seg
      then (let want = pos c.max_seg +ℤ delta in
          if not (ltb_ℤ want (pos c.max_acked_seg)) && ltb_ℤ want (pos (c.max_acked_seg + 128))
          then some (record c { max_seg = u32 (pos_part want) })
          else none)
      else some c

  -- XOFF is 1 and XON is 2; 0 leaves transmission as it was.
  unfoldable pub set_xon : ℕ → Link D → Link D
  set_xon fcmod c = if fcmod == 0 then c else record c { xon = fcmod == 2 }

  -- A link service message that is new: 1 is INT_REQ and 0 is DATA_REQ.
  unfoldable pub apply_credit : LinkSvcMsg → Link D → Link D
  unfolding set_xon int_credit data_credit
  apply_credit ls c =
      if ls.fcval_int == 1
      then int_credit ls.fcval c
      else if not (ls.fcval_int == 0)
      then c
      else elim (data_credit ls.fcval c) [
        | none ↦ c
        | some c' ↦ send_blocked env (set_xon ls.fcmod c')
      ]

  unfoldable pub handle_link_service : LinkSvcMsg → Link D → Link D
  unfolding send
  handle_link_service ls c =
      if not (valid ls)
      then c
      else let r = route_ack env ls.acknum2 false (route_ack env ls.acknum false c) in
        if seq_lt ls.segnum r.int_next_expect
        then send (ack_other_of (seq_prev r.int_next_expect) r) r
        else apply_credit ls
            (send (ack_other_of ls.segnum r) (record r { int_next_expect = seq_next ls.segnum }))
