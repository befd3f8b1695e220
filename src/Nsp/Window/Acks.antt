-- ===== src/Nsp/Window/Acks.antt =====
-- `process_ack` against the transmit window.
use cppdecnet.Prelude.{
  ℕ, suc, ◌+◌, ◌^◌, ◌≤◌, ◌≡◌, refl, ◌∙◌, inl, inr, Bool, true, false, not, ◌&&◌, List, [], ◌∷◌,
  arith, if◌then◌else◌, if-cases, ◌==◌, ltb,
}
use cppdecnet.Nsp.Link.{Link, Env, TxEntry, arm_timer, stop_timer, seq_lt}
use cppdecnet.Nsp.Transmit.{start_retransmit_timer, update_delay, in_flight}
use cppdecnet.Nsp.Acks.{ack_timers, ack_loop, ack_settle, process_ack}
use cppdecnet.Nsp.Window.{
  Numbered, SentBelow, SentBelow-mono, width, Window, Same, Same-Window, kept_queue, trans-Same,
  Same-fields,
}
use cppdecnet.Nsp.Window.Sending.{send_blocked-Window}

module _ {D : Type 0} (env : Env D) where
  pub update_delay-Same : (t : ℕ) (c : Link D) → Same c (update_delay env t c)
  unfolding update_delay
  update_delay-Same t c =
      if-cases (Same c) (t == 0) (λ _. record { txq = refl; next_segnum = refl; qmax = refl })
        (λ _. record { txq = refl; next_segnum = refl; qmax = refl })

  -- A window whose front is at k or later.
  abbrev pub WindowFrom : ℕ → Link D → Type 0
  WindowFrom k c = (k' : ℕ) × (k ≤ k') × Window k' c

  pub from_suc : (k : ℕ) (c : Link D) → WindowFrom (suc k) c → WindowFrom k c
  from_suc k c (k', le, w) = (k', omega arith, w)

  pub ack_loop-Window :
      (num k : ℕ) (q : List TxEntry) (c d : Link D) (acked : ℕ) (progress : Bool)
      → c.next_segnum ≡ d.next_segnum
      → c.qmax ≡ d.qmax
      → Numbered k q d.next_segnum
      → SentBelow (k + width d) q
      → d.next_segnum + width d ≤ 2 ^ 32
      → WindowFrom k (ack_loop env num q c acked progress).0
  unfolding ack_loop
  ack_loop-Window num k [] c d acked progress e1 e2 n b small =
      (k, omega arith, kept_queue k [] c d e1 e2 n b small)
  ack_loop-Window num k (e ∷ q) c d acked progress e1 e2 (inl (x, s, n)) (b, bs) small =
      let r = update_delay-Same e.txtime (record c { max_acked_seg = e.segnum }) in
      if-cases {A = Link D × ℕ × Bool} (λ r. WindowFrom k r.0) (e.sent && not (seq_lt num e.seq))
        (λ _. from_suc k _ (
          ack_loop-Window num (suc k) q _ d _ true (r.next_segnum ∙ e1) (r.qmax ∙ e2) n
            (SentBelow-mono _ _ q (omega arith) bs) small))
        (λ _. (k, omega arith, kept_queue k (e ∷ q) c d e1 e2 (inl (x, s, n)) (b, bs) small))
  ack_loop-Window num k (e ∷ q) c d acked progress e1 e2 (inr (x, s, n)) (b, bs) small =
      let r = update_delay-Same e.txtime (record c { max_acked_seg = e.segnum }) in
      if-cases {A = Link D × ℕ × Bool} (λ r. WindowFrom k r.0) (e.sent && not (seq_lt num e.seq))
        (λ _. ack_loop-Window num k q _ d _ true (r.next_segnum ∙ e1) (r.qmax ∙ e2) n bs small)
        (λ _. (k, omega arith, kept_queue k (e ∷ q) c d e1 e2 (inr (x, s, n)) (b, bs) small))

  pub ack_timers-Same : (progress : Bool) (c : Link D) → Same c (ack_timers env progress c)
  unfolding ack_timers start_retransmit_timer arm_timer stop_timer
  ack_timers-Same true c =
      if-cases (Same c) (ltb 0 (in_flight c)) (λ _. Same-fields c _ refl refl refl)
        (λ _.
          if-cases (Same c) c.timer_is_retransmit (λ _. Same-fields c _ refl refl refl)
            (λ _. Same-fields c _ refl refl refl))
  ack_timers-Same false c = go c.txq
    where
      go :
          (q : List TxEntry)
          → Same c (elim q [ [] ↦ if c.timer_is_retransmit then stop_timer c else c | _ ∷ _ ↦ c ])
      go [] =
          if-cases (Same c) c.timer_is_retransmit (λ _. Same-fields c _ refl refl refl)
            (λ _. Same-fields c _ refl refl refl)
      go (e ∷ q) = Same-fields c _ refl refl refl

  pub ack_settle-Same :
      (num acked : ℕ) (progress : Bool) (c : Link D) → Same c (ack_settle env num acked progress c)
  unfolding ack_settle
  ack_settle-Same num acked progress c =
      trans-Same c _ _ (Same-fields c _ refl refl refl) (ack_timers-Same progress _)

  -- process_ack keeps the queue numbered without a gap and the data on the wire below the end of
  -- the window, whose front only moves on.
  pub process_ack-Window :
      (num k : ℕ) (c : Link D) → Window k c → WindowFrom k (process_ack env num c)
  unfolding process_ack
  process_ack-Window num k c w =
      let r = ack_loop env num c.txq c 0 false in
      let (k', le, w') =
        ack_loop-Window num k c.txq c c 0 false refl refl w.numbered w.below w.small in
      (
        k',
        le,
        send_blocked-Window env k' _ (Same-Window k' r.0 _ (ack_settle-Same num r.1 r.2 r.0) w'),
      )
