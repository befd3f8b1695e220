-- ===== src/Nsp/Kept.antt =====
-- What the sending half of a link and the calls of session control leave alone in the receiving half.
use cppdecnet.Prelude.{
  ℕ, zero, suc, ◌+◌, ◌≡◌, refl, ◌⊎◌, ◌≢◌, Bool, true, false, Option, none, some, List, [], ◌∷◌,
  arith, if◌then◌else◌, length, take, drop, min, leb,
}
use cppdecnet.Nsp.Packets.{Packet, AckNum}
use cppdecnet.Nsp.Link.{
  Link, Env, Output, Upcall, Call, TxEntry, transmitted, notified, released, send, accept, reject,
  send_data, disconnect, send_interrupt, data_received,
}
use cppdecnet.Nsp.Transmit.{
  send_all, settle_send, send_blocked, segment_loop, queue_segment, send_segments, update_delay,
}
use cppdecnet.Nsp.Acks.{
  ack_loop, ack_settle, nak_front, nak_resend, process_ack, process_nak, process_int_ack, route_ack,
}
use cppdecnet.Nsp.Api.{
  call, calls, tell, notify, do_accept, do_reject, do_disconnect, do_send_data, do_send_interrupt,
}

-- The messages handed to session control, the newest first.
abbrev pub delivered : List Output → List (List ℕ)
delivered [] = []
delivered (notified (data_received m) ∷ os) = m ∷ delivered os
delivered (notified _ ∷ os) = delivered os
delivered (transmitted p ∷ os) = delivered os
delivered (released ∷ os) = delivered os

module _ {D : Type 0} where
  pub record Kept (c d : Link D) : Type 0 where
    pub assembly : d.assembly ≡ c.assembly
    pub assembling : d.assembling ≡ c.assembling
    pub messages : delivered d.out ≡ delivered c.out
    pub next_expect : d.next_expect ≡ c.next_expect
    pub ooo : (d.ooo ≡ c.ooo) ⊎ (d.ooo ≡ [])

  pub Kept-refl : (c : Link D) → Kept c c
  Kept-refl c = ground arith

  pub Kept-trans : (c d e : Link D) → Kept c d → Kept d e → Kept c e
  Kept-trans c d e h k = ground arith

module _ {D : Type 0} (env : Env D) where
  send_all-Kept : (ps : List Packet) (c : Link D) → Kept c (send_all env ps c)
  unfolding send_all
  send_all-Kept [] c = Kept-refl c
  send_all-Kept (p ∷ ps) c =
      Kept-trans c (send p c) _ (unfold send in ground arith) (send_all-Kept ps (send p c))

  settle_send-Kept : (ps : List Packet) (c : Link D) → Kept c (settle_send env ps c)
  unfolding settle_send
  settle_send-Kept [] c = Kept-refl c
  settle_send-Kept (p ∷ ps) c = ground arith

  -- A new queue, its frames sent.
  sent-Kept :
      (ps : List Packet) (q : List TxEntry) (c : Link D)
      → Kept c (settle_send env ps (send_all env ps (record c { txq = q })))
  sent-Kept ps q c =
      let d = record c { txq = q } in
      Kept-trans c d _ (ground arith)
        (Kept-trans d (send_all env ps d) _ (send_all-Kept ps d) (settle_send-Kept ps _))

  pub send_blocked-Kept : (c : Link D) → Kept c (send_blocked env c)
  unfolding send_blocked
  send_blocked-Kept c = sent-Kept _ _ c

  queue_segment-Kept :
      (payload : List ℕ) (first last : Bool) (c : Link D)
      → Kept c (queue_segment env payload first last c)
  unfolding queue_segment
  queue_segment-Kept payload first last c = ground arith

  segment_loop-Kept :
      (fuel limit : ℕ) (rest : List ℕ) (first : Bool) (c : Link D)
      → Kept c (segment_loop env fuel limit rest first c)
  unfolding segment_loop
  segment_loop-Kept zero limit rest first c = Kept-refl c
  segment_loop-Kept (suc fuel) limit rest first c =
      let n = min limit (length rest) in
      let last = leb (length rest) n in
      let queued = queue_segment env (take n rest) first last c in
      ground (
        arith,
        queue_segment-Kept (take n rest) first last c,
        segment_loop-Kept fuel limit (drop n rest) false queued,
      )

  send_segments-Kept : (bytes : List ℕ) (c : Link D) → Kept c (send_segments env bytes c)
  unfolding send_segments
  send_segments-Kept bytes c =
      Kept-trans c _ _ (segment_loop-Kept _ _ bytes true c) (send_blocked-Kept _)

  ack_loop-Kept :
      (num : ℕ) (q : List TxEntry) (c : Link D) (acked : ℕ) (progress : Bool)
      → Kept c (ack_loop env num q c acked progress).0
  unfolding ack_loop update_delay
  ack_loop-Kept num [] c acked progress = ground arith
  ack_loop-Kept num (e ∷ q) c acked progress = ground (
    arith,
    ack_loop-Kept num q (update_delay env e.txtime (record c { max_acked_seg = e.segnum }))
        (if e.is_data then suc acked else acked) true,
  )

  pub process_ack-Kept : (num : ℕ) (c : Link D) → Kept c (process_ack env num c)
  unfolding process_ack
  process_ack-Kept num c =
      Kept-trans c _ _ (ack_loop-Kept num c.txq c 0 false)
        (Kept-trans _ _ _ (unfold ack_settle in ground arith) (send_blocked-Kept _))

  nak_resend-Kept : (seq : ℕ) (c : Link D) → Kept c (nak_resend env seq c)
  unfolding nak_resend
  nak_resend-Kept seq c = Kept-trans c _ _ (ground arith) (send_blocked-Kept _)

  nak_front-Kept : (q : List TxEntry) (gap : Option ℕ) (c : Link D) → Kept c (nak_front env q gap c)
  unfolding nak_front
  nak_front-Kept [] gap c = Kept-refl c
  nak_front-Kept (e ∷ q) none c = ground (arith, Kept-refl c, nak_resend-Kept e.seq c)
  nak_front-Kept (e ∷ q) (some s) c = ground (arith, Kept-refl c, nak_resend-Kept e.seq c)

  process_nak-Kept : (c : Link D) → Kept c (process_nak env c)
  unfolding process_nak
  process_nak-Kept c = nak_front-Kept c.txq c.nak_from c

  pub route_ack-Kept :
      (a : Option AckNum) (on_data : Bool) (c : Link D) → Kept c (route_ack env a on_data c)
  unfolding route_ack process_int_ack
  route_ack-Kept none on_data c = Kept-refl c
  route_ack-Kept (some a) on_data c =
      let acked = process_ack env a.num c in
      let twice = Kept-trans c acked _ (process_ack-Kept a.num c) (process_nak-Kept acked) in
      ground (arith, twice, process_ack-Kept a.num c)

  do_send_data-Kept : (bytes : List ℕ) (c : Link D) → Kept c (do_send_data env bytes c)
  unfolding do_send_data
  do_send_data-Kept bytes c =
      let d = record c {
        counters = record (c.counters) {
          byt_xmt = c.counters.byt_xmt + length bytes;
          msg_xmt = c.counters.msg_xmt + 1;
        };
      } in
      ground (arith, Kept-refl c, Kept-trans c d _ (ground arith) (send_segments-Kept bytes d))

  call-Kept : (k : Call) (c : Link D) → Kept c (call env k c)
  unfolding call do_accept do_reject do_disconnect do_send_data do_send_interrupt
  call-Kept (accept bytes fcopt) c = ground arith
  call-Kept (reject reason bytes) c = ground arith
  call-Kept (send_data bytes) c = do_send_data-Kept bytes c
  call-Kept (disconnect reason bytes) c = ground arith
  call-Kept (send_interrupt bytes) c = ground arith

  calls-Kept : (ks : List Call) (c : Link D) → Kept c (calls env ks c)
  unfolding calls
  calls-Kept [] c = Kept-refl c
  calls-Kept (k ∷ ks) c = Kept-trans c _ _ (call-Kept k c) (calls-Kept ks (call env k c))

-- What session control is told shows in the output, and its answer keeps the receiving half.
tell-Kept :
    {D : Type 0} (env : Env D) (s : Option (Upcall → Link D → List Call)) (u : Upcall) (c : Link D)
    → s ≢ none
    → Kept (record c { out = notified u ∷ c.out }) (tell env s u c)
unfolding tell
tell-Kept env none u c h = absurd (h refl)
tell-Kept env (some respond) u c h =
    calls-Kept env (respond u c) (record c { out = notified u ∷ c.out })

pub notify-Kept :
    {D : Type 0} (env : Env D) (u : Upcall) (c : Link D)
    → env.session ≢ none
    → Kept (record c { out = notified u ∷ c.out }) (notify env u c)
unfolding notify
notify-Kept env u c h = tell-Kept env env.session u c h
