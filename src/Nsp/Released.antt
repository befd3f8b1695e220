-- ===== src/Nsp/Released.antt =====
-- How often a link gives its address back to NSP: the sending and the receiving half.
pub mod Events
pub mod Once
use cppdecnet.Prelude.{
  ℕ, zero, suc, ◌+◌, ◌≤◌, ◌≡◌, refl, ◌⊎◌, ◌≢◌, Bool, true, false, Option, none, some, List, [], ◌∷◌,
  arith, if◌then◌else◌, length, take, drop, min, leb, if-cases, ◌∙◌, not,
}
use cppdecnet.Prelude.Int.{ℤ, pos, negsuc}
use cppdecnet.Nsp.Packets.{Packet, AckNum, DataSeg, IntMsg, LinkSvcMsg}
use cppdecnet.Nsp.Link.{
  Link, Env, Output, is_running, Upcall, Call, TxEntry, transmitted, notified, released, send,
  accept, reject, send_data, disconnect, send_interrupt, data_received, connect_received, delay_ack,
  send_ack,
}
use cppdecnet.Nsp.Transmit.{
  send_all, send_loop, any_timed, settle_send, send_blocked, segment_loop, queue_segment,
  send_segments, update_delay,
}
use cppdecnet.Nsp.Acks.{
  ack_loop, ack_settle, ack_timers, nak_front, nak_resend, process_ack, process_nak,
  process_int_ack, route_ack,
}
use cppdecnet.Nsp.Api.{
  call, calls, tell, notify, do_accept, do_reject, do_disconnect, do_send_data, do_send_interrupt,
}
use cppdecnet.Nsp.Receive.{
  append_payload, deliver_message, accept_segment, advance, drain, take_segment, hold_segment,
  sequence, handle_data, handle_interrupt, apply_credit, handle_link_service, find, erase,
}

abbrev pub releases : List Output → ℕ
releases [] = 0
releases (released ∷ os) = suc (releases os)
releases (transmitted p ∷ os) = releases os
releases (notified u ∷ os) = releases os

-- The rejects among the calls of session control.
abbrev pub rejects : List Call → ℕ
rejects [] = 0
rejects (reject reason bytes ∷ ks) = suc (rejects ks)
rejects (accept bytes fcopt ∷ ks) = rejects ks
rejects (send_data bytes ∷ ks) = rejects ks
rejects (disconnect reason bytes ∷ ks) = rejects ks
rejects (send_interrupt bytes ∷ ks) = rejects ks

pub rejects-le : (k : Call) → rejects (k ∷ []) ≤ 1
rejects-le (accept bytes fcopt) = omega arith
rejects-le (reject reason bytes) = omega arith
rejects-le (send_data bytes) = omega arith
rejects-le (disconnect reason bytes) = omega arith
rejects-le (send_interrupt bytes) = omega arith

-- How often session control may reject a link while it is told.
abbrev pub rejectable : Upcall → ℕ
rejectable (connect_received bytes) = 1
rejectable _ = 0

-- Session control rejects a link once at most, when it is told of the connect.
abbrev pub Polite : {D : Type 0} → Env D → Type 0
Polite env =
    (respond : Upcall → Link _ → List Call) (u : Upcall) (c : Link _)
    → env.session ≡ some respond
    → rejects (respond u c) ≤ rejectable u

module _ {D : Type 0} where
  pub record Quiet (c d : Link D) : Type 0 where
    pub same : releases d.out ≡ releases c.out

  Quiet-refl : (c : Link D) → Quiet c c
  Quiet-refl c = record { same = refl }

  Quiet-trans : {c d e : Link D} → Quiet d e → Quiet c d → Quiet c e
  Quiet-trans h k = record { same = h.same ∙ k.same }

module _ {D : Type 0} (env : Env D) where
  pub send_all-Quiet : (ps : List Packet) (c : Link D) → Quiet c (send_all env ps c)
  unfolding send_all
  send_all-Quiet [] c = Quiet-refl c
  send_all-Quiet (p ∷ ps) c =
      Quiet-trans (send_all-Quiet ps (send p c)) (unfold send in record { same = refl })

  settle_send-Quiet : (ps : List Packet) (c : Link D) → Quiet c (settle_send env ps c)
  unfolding settle_send
  settle_send-Quiet [] c = Quiet-refl c
  settle_send-Quiet (p ∷ ps) c = record { same = refl }

  pub send_blocked-Quiet : (c : Link D) → Quiet c (send_blocked env c)
  unfolding send_blocked
  send_blocked-Quiet c =
      let (q, frames) = send_loop env c (any_timed env c.txq) c.txq in
      let d = send_all env frames (record c { txq = q }) in
      let sent = send_all-Quiet frames (record c { txq = q }) in
      Quiet-trans (settle_send-Quiet frames d) (record { same = sent.same })

  segment_loop-Quiet :
      (fuel limit : ℕ) (rest : List ℕ) (first : Bool) (c : Link D)
      → Quiet c (segment_loop env fuel limit rest first c)
  unfolding segment_loop queue_segment
  segment_loop-Quiet zero limit rest first c = Quiet-refl c
  segment_loop-Quiet (suc fuel) limit rest first c =
      let n = min limit (length rest) in
      let last = leb (length rest) n in
      let queued = queue_segment env (take n rest) first last c in
      if-cases (λ d. Quiet c d) last (λ e. record { same = refl })
        (λ e. record { same = (segment_loop-Quiet fuel limit (drop n rest) false queued).same })

  send_segments-Quiet : (bytes : List ℕ) (c : Link D) → Quiet c (send_segments env bytes c)
  unfolding send_segments
  send_segments-Quiet bytes c =
      Quiet-trans (send_blocked-Quiet _) (segment_loop-Quiet _ _ bytes true c)

  ack_loop-Quiet :
      (num : ℕ) (q : List TxEntry) (c : Link D) (acked : ℕ) (progress : Bool)
      → Quiet c (ack_loop env num q c acked progress).0
  unfolding ack_loop update_delay
  ack_loop-Quiet num [] c acked progress = record { same = refl }
  ack_loop-Quiet num (e ∷ q) c acked progress = ground (
    arith,
    ack_loop-Quiet num q (update_delay env e.txtime (record c { max_acked_seg = e.segnum }))
        (if e.is_data then suc acked else acked) true,
  )

  pub process_ack-Quiet : (num : ℕ) (c : Link D) → Quiet c (process_ack env num c)
  unfolding process_ack
  process_ack-Quiet num c =
      Quiet-trans (send_blocked-Quiet _)
        (unfold ack_settle ack_timers in ground (arith, ack_loop-Quiet num c.txq c 0 false))

  nak_resend-Quiet : (seq : ℕ) (c : Link D) → Quiet c (nak_resend env seq c)
  unfolding nak_resend
  nak_resend-Quiet seq c = Quiet-trans (send_blocked-Quiet _) (record { same = refl })

  nak_front-Quiet :
      (q : List TxEntry) (gap : Option ℕ) (c : Link D) → Quiet c (nak_front env q gap c)
  unfolding nak_front
  nak_front-Quiet [] gap c = Quiet-refl c
  nak_front-Quiet (e ∷ q) none c = ground (arith, Quiet-refl c, nak_resend-Quiet e.seq c)
  nak_front-Quiet (e ∷ q) (some s) c = ground (arith, Quiet-refl c, nak_resend-Quiet e.seq c)

  process_nak-Quiet : (c : Link D) → Quiet c (process_nak env c)
  unfolding process_nak
  process_nak-Quiet c = nak_front-Quiet c.txq c.nak_from c

  pub route_ack-Quiet :
      (a : Option AckNum) (on_data : Bool) (c : Link D) → Quiet c (route_ack env a on_data c)
  unfolding route_ack process_int_ack
  route_ack-Quiet none on_data c = Quiet-refl c
  route_ack-Quiet (some a) on_data c =
      ground (arith, process_ack-Quiet a.num c, process_nak-Quiet (process_ack env a.num c))

  do_send_data-Quiet : (bytes : List ℕ) (c : Link D) → Quiet c (do_send_data env bytes c)
  unfolding do_send_data
  do_send_data-Quiet bytes c =
      if-cases (λ d. Quiet c d) (not (is_running c)) (λ e. Quiet-refl c)
        (λ e. record { same = (send_segments-Quiet bytes _).same })

  -- A call releases the link if it is a reject.
  pub call-releases :
      (k : Call) (c : Link D) → releases (call env k c).out ≡ rejects (k ∷ []) + releases c.out
  unfolding call do_accept do_reject do_disconnect do_send_interrupt
  call-releases (accept bytes fcopt) c = ground arith
  call-releases (reject reason bytes) c = omega arith
  call-releases (send_data bytes) c = let e = (do_send_data-Quiet bytes c).same in omega arith
  call-releases (disconnect reason bytes) c = ground arith
  call-releases (send_interrupt bytes) c = ground arith

  rejects-append : (k : Call) (ks : List Call) → rejects (k ∷ ks) ≡ rejects (k ∷ []) + rejects ks
  rejects-append (accept bytes fcopt) ks = omega arith
  rejects-append (reject reason bytes) ks = omega arith
  rejects-append (send_data bytes) ks = omega arith
  rejects-append (disconnect reason bytes) ks = omega arith
  rejects-append (send_interrupt bytes) ks = omega arith

  calls-releases :
      (ks : List Call) (c : Link D) → releases (calls env ks c).out ≡ rejects ks + releases c.out
  unfolding calls
  calls-releases [] c = omega arith
  calls-releases (k ∷ ks) c =
      ground (arith, calls-releases ks (call env k c), call-releases k c, rejects-append k ks)

  tell-releases :
      (s : Option (Upcall → Link D → List Call)) (u : Upcall) (c : Link D)
      → env.session ≡ s
      → Polite env
      → releases (tell env s u c).out ≤ rejectable u + releases c.out
  unfolding tell
  tell-releases none u c e h = ground arith
  tell-releases (some respond) u c e h =
      let told = record c { out = notified u ∷ c.out } in
      let few : rejects (respond u c) ≤ rejectable u = h respond u c e in
      let total : releases (tell env (some respond) u c).out
          ≡ rejects (respond u c) + releases c.out =
        calls-releases (respond u c) told in
      omega arith

  pub notify-releases :
      (u : Upcall) (c : Link D)
      → Polite env
      → releases (notify env u c).out ≤ rejectable u + releases c.out
  unfolding notify
  notify-releases u c h = tell-releases env.session u c refl h
