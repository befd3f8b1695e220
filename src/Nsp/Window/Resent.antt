-- ===== src/Nsp/Window/Resent.antt =====
-- What goes out again when the retransmit timer expires.
use cppdecnet.Prelude.{
  ℕ, ◌+◌, ◌^◌, ◌<◌, ◌≡◌, refl, ap, ap₂, ◌∙◌, inl, inr, Bool, true, false, not, Option, none, some,
  List, [], ◌∷◌, if-cases, ◌==◌, ltb, arith, map, Bool-cases, if◌then◌else◌,
}
use cppdecnet.Nsp.Packets.{Packet}
use cppdecnet.Nsp.Link.{Link, Env, TxEntry, Output, send, arm_timer, number, u32}
use cppdecnet.Nsp.Transmit.{count_sent, in_flight, send_all}
use cppdecnet.Nsp.Acks.{resend_loop, resend}
use cppdecnet.Nsp.States.{retransmit, timeout}
use cppdecnet.Nsp.Window.{count_data}

-- The first entry that is on the wire.
abbrev pub oldest : List TxEntry → Option TxEntry
oldest [] = none
oldest (e ∷ q) = if e.sent then some e else oldest q

-- What an entry keeps as long as it is queued.
abbrev pub identity : TxEntry → ℕ × ℕ × ℕ × Bool × Packet
identity e = (e.seq, e.segnum, e.msgnum, e.is_data, e.frame)

module _ {D : Type 0} (env : Env D) where
  -- The link d is c with the entry e, and nothing else, sent again.
  pub record Resent (e : TxEntry) (c d : Link D) : Type 0 where
    pub out : d.out ≡ Output.transmitted e.frame ∷ c.out
    pub queue : map identity d.txq ≡ map identity c.txq
    pub alone : count_data d.txq ≡ (if e.is_data then 1 else 0)
    pub window_closed : d.cwnd ≡ number env 1
    pub timed : d.timer_is_retransmit ≡ true
    pub state : d.state ≡ c.state

  later_silent : (q : List TxEntry) → (resend_loop env false q).1 ≡ []
  unfolding resend_loop
  later_silent [] = refl
  later_silent (e ∷ q) = ground (arith, later_silent q)

  later_off : (q : List TxEntry) → count_data (resend_loop env false q).0 ≡ 0
  unfolding resend_loop count_data
  later_off [] = refl
  later_off (e ∷ q) = ground (arith, later_off q)

  resend_loop-queue :
      (first : Bool) (q : List TxEntry) → map identity (resend_loop env first q).0 ≡ map identity q
  unfolding resend_loop
  resend_loop-queue first [] = refl
  resend_loop-queue first (e ∷ q) =
      let kept = resend_loop-queue first q in
      let others = resend_loop-queue false q in
      if-cases {A = List TxEntry × List Packet} (λ r. map identity r.0 ≡ map identity (e ∷ q))
        (not e.sent) (λ _. ap (λ l. identity e ∷ l) kept)
        (λ _.
          if-cases {A = List TxEntry × List Packet} (λ r. map identity r.0 ≡ map identity (e ∷ q))
            first (λ _. ap (λ l. identity e ∷ l) others)
            (λ _.
              if-cases
                (λ f. identity f ∷ map identity (resend_loop env false q).0 ≡ map identity (e ∷ q))
                e.is_data (λ _. ap (λ l. identity e ∷ l) others)
                (λ _. ap (λ l. identity e ∷ l) others)))

  count_lem : (a b : Bool) (n : ℕ) → a ≡ b → n ≡ 0 → (if a then 1 else 0) + n ≡ (if b then 1 else 0)
  count_lem a b n e z = ap₂ (λ x m. (if x then 1 else 0) + m) e z ∙ omega arith

  resend_loop-oldest :
      (q : List TxEntry) (f : TxEntry)
      → oldest q ≡ some f
      → ((resend_loop env true q).1 ≡ f.frame ∷ [])
        × (count_data (resend_loop env true q).0 ≡ (if f.is_data then 1 else 0))
  unfolding resend_loop count_data
  resend_loop-oldest [] f h = cc
  resend_loop-oldest (e ∷ q) f h = elim (Bool-cases e.sent) [
    | inl t ↦
        let same : e ≡ f = cc (rw t at h) in
        rw t (
          ap₂ (λ x xs. x ∷ xs) (ap (λ x. x.frame) same) (later_silent q),
          count_lem e.is_data f.is_data (count_data (resend_loop env false q).0)
              (ap (λ x. x.is_data) same) (later_off q),
        )
    | inr t ↦
        let rest = resend_loop-oldest q f (rw t at h) in
        let same : 0 + count_data (resend_loop env true q).0
            ≡ count_data (resend_loop env true q).0 =
          omega arith in
        rw t (rest.0, same ∙ rest.1)
  ]

  oldest-count : (q : List TxEntry) (e : TxEntry) → oldest q ≡ some e → 0 < count_sent q
  unfolding count_sent
  oldest-count [] e h = cc
  oldest-count (x ∷ q) e h = elim (Bool-cases x.sent) [
    | inl t ↦ rw t (omega arith)
    | inr t ↦ rw t (oldest-count q e (rw t at h))
  ]

  pub send_all-queue :
      (ps : List Packet) (c : Link D)
      → ((send_all env ps c).txq ≡ c.txq)
        × ((send_all env ps c).state ≡ c.state)
        × ((send_all env ps c).retries ≡ c.retries)
  unfolding send_all send
  send_all-queue [] c = (refl, refl, refl)
  send_all-queue (p ∷ ps) c = let k = send_all-queue ps (send p c) in (k.0, k.1, k.2)

  resend-Resent :
      (e : TxEntry) (c : Link D)
      → oldest c.txq ≡ some e
      → Resent e c (resend env c) × ((resend env c).retries ≡ c.retries)
  unfolding resend arm_timer send_all send
  resend-Resent e c h =
      let r = resend_loop env true c.txq in
      let l = resend_loop-oldest c.txq e h in
      let k = send_all-queue r.1 (record c { txq = r.0 }) in
      (
        record {
          out = ap (λ ps. (send_all env ps (record c { txq = r.0 })).out) l.0;
          queue = ap (λ q. map identity q) k.0 ∙ resend_loop-queue true c.txq;
          alone = ap count_data k.0 ∙ l.1;
          window_closed = refl;
          timed = refl;
          state = k.1;
        },
        k.2,
      )

  retransmit-Resent :
      (e : TxEntry) (c : Link D)
      → oldest c.txq ≡ some e
      → c.retries < env.retransmit_limit
      → env.retransmit_limit < 2 ^ 32
      → Resent e c (retransmit env c) × ((retransmit env c).retries ≡ c.retries + 1)
  unfolding retransmit in_flight
  retransmit-Resent e c h l m =
      let tried = record c {
        counters = record (c.counters) { timeouts = c.counters.timeouts + 1 };
        retries = u32 (c.retries + 1);
      } in
      let k = resend-Resent e tried h in
      let n = oldest-count c.txq e h in
      let outstanding : (count_sent c.txq == 0) ≡ false = ground (arith, n) in
      let within : ltb env.retransmit_limit (u32 (c.retries + 1)) ≡ false = ground arith in
      rw (outstanding, within)
        (
          record {
            out = k.0.out;
            queue = k.0.queue;
            alone = k.0.alone;
            window_closed = k.0.window_closed;
            timed = k.0.timed;
            state = k.0.state;
          },
          k.1 ∙ omega arith,
        )

  -- When the retransmit timer of a link expires with tries left, for a limit below 2^32, and e is
  -- the oldest packet on the wire, exactly e is sent; the queue keeps its packets, their numbers
  -- and their order; no data but e stays counted as on the wire; one more try is counted, the
  -- window is closed to one, the timer is one for retransmission and the state is as before.
  pub timeout-Resent :
      (e : TxEntry) (c : Link D)
      → c.timer_is_retransmit ≡ true
      → oldest c.txq ≡ some e
      → c.retries < env.retransmit_limit
      → env.retransmit_limit < 2 ^ 32
      → Resent e c (timeout env c) × ((timeout env c).retries ≡ c.retries + 1)
  unfolding timeout
  timeout-Resent e c t h l m =
      let k = retransmit-Resent e (record c { timer = none }) h l m in
      if-cases (λ d. Resent e c d × (d.retries ≡ c.retries + 1)) c.timer_is_retransmit
        (λ _. (
          record {
            out = k.0.out;
            queue = k.0.queue;
            alone = k.0.alone;
            window_closed = k.0.window_closed;
            timed = k.0.timed;
            state = k.0.state;
          },
          k.1,
        ))
        (λ f. absurd (ground (arith, t)))
