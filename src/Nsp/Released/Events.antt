-- ===== src/Nsp/Released/Events.antt =====
-- How often a link gives its address back to NSP: once at most in an event.
use cppdecnet.Prelude.{
  ℕ, zero, suc, ◌+◌, ◌≤◌, ◌≡◌, refl, ap, ◌∙◌, Bool, true, false, Option, none, some, arith, length,
  if-cases, not, ◌==◌, Option-cases, inl, inr,
}
use cppdecnet.Prelude.Int.{ℤ, pos, negsuc}
use cppdecnet.Nsp.Packets.{DataSeg, IntMsg, LinkSvcMsg, valid}
use cppdecnet.Nsp.Link.{
  Link, Env, Upcall, delay_ack, send_ack, send, seq_lt, data_received, interrupt_received,
}
use cppdecnet.Nsp.Transmit.{send_blocked}
use cppdecnet.Nsp.Acks.{route_ack}
use cppdecnet.Nsp.Api.{notify}
use cppdecnet.Nsp.Receive.{
  count_received, int_credit, data_credit, set_xon, append_payload, deliver_message, accept_segment,
  advance, drain, take_segment, hold_segment, sequence, handle_data, handle_interrupt, apply_credit,
  handle_link_service, find, erase,
}
use cppdecnet.Nsp.Released

module _ {D : Type 0} where
  -- No release more.
  pub record Silent (c d : Link D) : Type 0 where
    pub le : Released.releases d.out ≤ Released.releases c.out

  pub Silent-refl : (c : Link D) → Silent c c
  Silent-refl c = record { le = omega arith }

  pub Silent-trans : {c d e : Link D} → Silent d e → Silent c d → Silent c e
  Silent-trans h k = let a = h.le in let b = k.le in record { le = omega arith }

  pub Quiet-Silent : {c d : Link D} → Released.Quiet c d → Silent c d
  Quiet-Silent h = let e = h.same in record { le = omega arith }

module _ {D : Type 0} (env : Env D) (polite : Released.Polite env) where
  pub route_ack-Silent :
      (a : _) (on_data : Bool) (c : Link D) → Silent c (route_ack env a on_data c)
  route_ack-Silent a on_data c = Quiet-Silent (Released.route_ack-Quiet env a on_data c)

  pub notify-Silent :
      (u : Upcall) → Released.rejectable u ≡ 0 → (c : Link D) → Silent c (notify env u c)
  notify-Silent u e c =
      let le : Released.releases (notify env u c).out
          ≤ Released.rejectable u + Released.releases c.out =
        Released.notify-releases env u c polite in
      record { le = omega arith }

  pub deliver_message-Silent : (c : Link D) → Silent c (deliver_message env c)
  unfolding deliver_message
  deliver_message-Silent c = record { le = (notify-Silent (data_received c.assembly) refl _).le }

  pub accept_segment-Silent : (seg : DataSeg) (c : Link D) → Silent c (accept_segment env seg c)
  unfolding accept_segment append_payload
  accept_segment-Silent seg c =
      let d = (deliver_message-Silent (append_payload seg c)).le in ground arith

  pub advance-Silent : (seg : DataSeg) (c : Link D) → Silent c (advance env seg c)
  unfolding advance
  advance-Silent seg c = record { le = (accept_segment-Silent seg c).le }

  -- By what stands next in the map of held segments.
  pub drain-Silent : (fuel : ℕ) (c : Link D) → Silent c (drain env fuel c)
  unfolding drain
  drain-Silent zero c = Silent-refl c
  drain-Silent (suc fuel) c = elim (Option-cases (find c.next_expect c.ooo)) [
    | inl e ↦ rw (drain, e) (Silent-refl c)
    | inr (s, e) ↦
        rw (drain, e)
          (Silent-trans (drain-Silent fuel _)
            (record { le = (advance-Silent s (record c { ooo = erase c.next_expect c.ooo })).le }))
  ]

  pub sequence-Silent : (seg : DataSeg) (c : Link D) → Silent c (sequence env seg c)
  unfolding sequence hold_segment take_segment send_ack delay_ack
  sequence-Silent seg c =
      let taken = advance env seg c in
      let k = (drain-Silent (suc (length taken.ooo)) taken).le in
      let j = (advance-Silent seg c).le in ground arith

  pub handle_data-Silent : (seg : DataSeg) (c : Link D) → Silent c (handle_data env seg c)
  unfolding handle_data
  handle_data-Silent seg c =
      Silent-trans (sequence-Silent seg _)
        (Silent-trans (route_ack-Silent seg.acknum2 true _) (route_ack-Silent seg.acknum true c))

  pub handle_interrupt-Silent : (msg : IntMsg) (c : Link D) → Silent c (handle_interrupt env msg c)
  unfolding handle_interrupt send count_received
  handle_interrupt-Silent msg c =
      if-cases (λ d. Silent c d) (seq_lt msg.segnum c.int_next_expect)
        (λ e. record { le = omega arith })
        (λ e. record { le = (notify-Silent (interrupt_received msg.payload) refl _).le })

  data_credit-out : (delta : ℤ) (c c' : Link D) → data_credit env delta c ≡ some c' → c'.out ≡ c.out
  unfolding data_credit
  data_credit-out delta c c' e = ground arith

  int_credit-out : (delta : ℤ) (c : Link D) → (int_credit env delta c).out ≡ c.out
  unfolding int_credit
  int_credit-out (pos d) c = refl
  int_credit-out (negsuc d) c = refl

  set_xon-out : (m : ℕ) (c : Link D) → (set_xon env m c).out ≡ c.out
  unfolding set_xon
  set_xon-out m c = ground arith

  given :
      (ls : LinkSvcMsg) (c : Link D) (o : Option (Link D))
      → ((c' : Link D) → o ≡ some c' → c'.out ≡ c.out)
      → Silent c (elim o [ none ↦ c | some c' ↦ send_blocked env (set_xon env ls.fcmod c') ])
  given ls c none h = Silent-refl c
  given ls c (some c') h =
      let e = ap Released.releases (set_xon-out ls.fcmod c' ∙ h c' refl) in
      Silent-trans (Quiet-Silent (Released.send_blocked-Quiet env _)) (record { le = omega arith })

  pub apply_credit-Silent : (ls : LinkSvcMsg) (c : Link D) → Silent c (apply_credit env ls c)
  unfolding apply_credit
  apply_credit-Silent ls c =
      let e = ap Released.releases (int_credit-out ls.fcval c) in
      if-cases (λ d. Silent c d) (ls.fcval_int == 1) (λ i. record { le = omega arith })
        (λ i.
          if-cases (λ d. Silent c d) (not (ls.fcval_int == 0)) (λ j. Silent-refl c)
            (λ j. given ls c (data_credit env ls.fcval c) (data_credit-out ls.fcval c)))

  pub handle_link_service-Silent :
      (ls : LinkSvcMsg) (c : Link D) → Silent c (handle_link_service env ls c)
  unfolding handle_link_service send
  handle_link_service-Silent ls c =
      let r = route_ack env ls.acknum2 false (route_ack env ls.acknum false c) in
      let acked =
        Silent-trans (route_ack-Silent ls.acknum2 false _) (route_ack-Silent ls.acknum false c) in
      if-cases (λ d. Silent c d) (not (valid ls)) (λ e. Silent-refl c)
        (λ e.
          if-cases (λ d. Silent c d) (seq_lt ls.segnum r.int_next_expect)
            (λ k. record { le = acked.le })
            (λ k. Silent-trans (apply_credit-Silent ls _) (record { le = acked.le })))
