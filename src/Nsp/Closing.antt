-- ===== src/Nsp/Closing.antt =====
-- src/nsp/nsp.cc: how a link comes to its end.
use cppdecnet.Prelude.{
  ℕ, zero, suc, ◌+◌, ◌-◌, ◌^◌, ◌<◌, ◌≡◌, refl, sym, ap, subst, ◌∙◌, Bool, true, false, none, List,
  [], ◌∷◌, ltb, ◌==◌, if◌then◌else◌, if-cases, arith,
}
use cppdecnet.Nsp.Packets.{Packet}
use cppdecnet.Nsp.Link.{Link, Env, TxEntry, State, arm_timer, send, u32}
use cppdecnet.Nsp.Transmit.{count_sent, in_flight, send_all}
use cppdecnet.Nsp.Acks.{resend_loop, resend}
use cppdecnet.Nsp.States.{retransmit, timeout}

if-true {ℓ} : {A : Type ℓ} (b : Bool) (x y : A) → b ≡ true → (if b then x else y) ≡ x
if-true true x y h = refl
if-true false x y h = absurd (ground (arith, h))

module _ {D : Type 0} (env : Env D) where
  resend_loop-count :
      (q : List TxEntry) → 0 < count_sent q → 0 < count_sent (resend_loop env true q).0
  unfolding count_sent resend_loop
  resend_loop-count [] h = h
  resend_loop-count (e ∷ q) h = ground (arith, resend_loop-count q)

  send_all-kept :
      (ps : List Packet) (c : Link D)
      → ((send_all env ps c).txq ≡ c.txq) × ((send_all env ps c).retries ≡ c.retries)
  unfolding send_all send
  send_all-kept [] c = (refl, refl)
  send_all-kept (p ∷ ps) c = let k = send_all-kept ps (send p c) in (k.0, k.1)

  -- A link that waits for an acknowledgement after n tries.
  pub record Waiting (n : ℕ) (c : Link D) : Type 0 where
    pub retransmits : c.timer_is_retransmit ≡ true
    pub outstanding : 0 < in_flight c
    pub tried : c.retries ≡ n

  resend-Waiting : (n : ℕ) (c : Link D) → Waiting n c → Waiting n (resend env c)
  unfolding resend arm_timer in_flight
  resend-Waiting n c w =
      let r = resend_loop env true c.txq in
      let k = send_all-kept r.1 (record c { txq = r.0 }) in
      record {
        retransmits = refl;
        outstanding =
            subst (λ q. 0 < count_sent q) (sym k.0) (resend_loop-count c.txq w.outstanding);
        tried = k.1 ∙ w.tried;
      }

  -- The timer expires while the link waits: one more try below the limit, and the end beyond.
  timeout-Waiting :
      (n : ℕ) (c : Link D)
      → env.retransmit_limit < 2 ^ 32 - 1
      → n < env.retransmit_limit
      → Waiting n c
      → Waiting (suc n) (timeout env c)
  unfolding timeout retransmit in_flight
  timeout-Waiting n c l h w =
      if-cases (Waiting (suc n)) c.timer_is_retransmit
        (λ _.
          if-cases (Waiting (suc n)) (in_flight c == 0)
            (λ z. absurd (ground (arith, w.outstanding)))
            (λ _.
              if-cases (Waiting (suc n)) (ltb env.retransmit_limit (u32 (c.retries + 1)))
                (λ g. absurd (ground (arith, w.tried)))
                (λ g. resend-Waiting (suc n) _ (record {
                  retransmits = w.retransmits;
                  outstanding = w.outstanding;
                  tried = omega (arith, w.tried);
                }))))
        (λ f. absurd (ground (arith, w.retransmits)))

  retransmit-closes :
      (c : Link D)
      → env.retransmit_limit < 2 ^ 32 - 1
      → Waiting env.retransmit_limit c
      → (retransmit env c).state ≡ State.cl
  unfolding retransmit
  retransmit-closes c l w =
      let some_left : (in_flight c == 0) ≡ false = ground (arith, w.outstanding) in
      let beyond : ltb env.retransmit_limit (u32 (c.retries + 1)) ≡ true =
        ground (arith, w.tried) in
      rw (some_left, beyond) refl

  expiry_lem :
      (c : Link D)
      → c.timer_is_retransmit ≡ true
      → timeout env c ≡ retransmit env (record c { timer = none })
  unfolding timeout
  expiry_lem c h = if-true c.timer_is_retransmit _ _ h

  timeout-closes :
      (c : Link D)
      → env.retransmit_limit < 2 ^ 32 - 1
      → Waiting env.retransmit_limit c
      → (timeout env c).state ≡ State.cl
  unfolding in_flight
  timeout-closes c l w =
      ap (λ d. d.state) (expiry_lem c w.retransmits)
      ∙ retransmit-closes (record c { timer = none }) l
          (record { retransmits = w.retransmits; outstanding = w.outstanding; tried = w.tried })

  unfoldable pub timeouts : ℕ → Link D → Link D
  timeouts zero c = c
  timeouts (suc n) c = timeouts n (timeout env c)

  -- A link that waits for an acknowledgement that never comes is closed by the expiry of the timer
  -- after as many tries as are left to the retransmit limit.
  pub timeouts-close :
      (left n : ℕ) (c : Link D)
      → env.retransmit_limit < 2 ^ 32 - 1
      → n + left ≡ env.retransmit_limit
      → Waiting n c
      → (timeouts (suc left) c).state ≡ State.cl
  unfolding timeouts
  timeouts-close zero n c l e w = timeout-closes c l (subst (λ k. Waiting k c) (omega arith) w)
  timeouts-close (suc left) n c l e w =
      timeouts-close left (suc n) _ l (omega arith) (timeout-Waiting n c l (omega arith) w)
