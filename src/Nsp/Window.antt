-- ===== src/Nsp/Window.antt =====
-- The transmit window of a link: how the queue is numbered, and how far ahead of its oldest
-- unacknowledged segment data may be on the wire.
pub mod Sending
pub mod Acks
pub mod Again
pub mod Resent
pub mod Gap
pub mod Reached
use cppdecnet.Prelude.{
  ℕ, zero, suc, ◌+◌, ◌-◌, ◌%◌, ◌^◌, ◌≤◌, ◌<◌, ◌≡◌, refl, sym, ap, subst, ◌∙◌, ◌⊎◌, inl, inr, Bool,
  true, false, not, ◌&&◌, Option, none, some, List, [], ◌∷◌, ◌++◌, arith, if◌then◌else◌, length,
  leb, min, max, take, drop, length-drop, if-cases, ◌==◌, ltb,
}
use cppdecnet.Nsp.Packets.{Packet, AckNum, is_cross, is_nak}
use cppdecnet.Nsp.Link.{
  Link, Env, TxEntry, send, arm_timer, stop_timer, mss, u32, seq_lt, is_running, window,
}
use cppdecnet.Nsp.Transmit.{
  any_timed, start_retransmit_timer, queue_segment, segment_loop, send_segments, send_blocked,
  send_loop, send_all, settle_send, flow_ok, max_queue, update_delay, in_flight, count_sent,
}
use cppdecnet.Nsp.Acks.{
  ack_timers, ack_loop, ack_settle, process_ack, unsend, nak_resend, nak_front, process_nak,
  process_int_ack, route_ack, resend_loop, resend,
}
use cppdecnet.Nsp.Api.{do_send_data}

-- The data in the queue is numbered from k on, up to the next number to be given; the entries of the
-- connect handshake have number 0.
abbrev pub Numbered : ℕ → List TxEntry → ℕ → Type 0
Numbered k [] next = k ≡ next
Numbered k (e ∷ q) next =
    ((e.is_data ≡ true) × (e.segnum ≡ k) × Numbered (suc k) q next)
    ⊎ ((e.is_data ≡ false) × (e.segnum ≡ 0) × Numbered k q next)

-- The data on the wire has numbers below m.
abbrev pub SentBelow : ℕ → List TxEntry → Type 0
SentBelow m [] = Unit {0}
SentBelow m (e ∷ q) = ((e.sent ≡ false) ⊎ ((e.is_data ≡ false) ⊎ (e.segnum < m))) × SentBelow m q

pub Numbered-le : (k next : ℕ) (q : List TxEntry) → Numbered k q next → k ≤ next
Numbered-le k next [] h = omega arith
Numbered-le k next (e ∷ q) (inl (d, s, h)) = omega (arith, Numbered-le (suc k) next q h)
Numbered-le k next (e ∷ q) (inr (d, s, h)) = Numbered-le k next q h

pub SentBelow-mono : (m m' : ℕ) (q : List TxEntry) → m ≤ m' → SentBelow m q → SentBelow m' q
SentBelow-mono m m' [] h b = tt
SentBelow-mono m m' (e ∷ q) h (inl s, b) = (inl s, SentBelow-mono m m' q h b)
SentBelow-mono m m' (e ∷ q) h (inr (inl d), b) = (inr (inl d), SentBelow-mono m m' q h b)
SentBelow-mono m m' (e ∷ q) h (inr (inr s), b) =
    (inr (inr (omega arith)), SentBelow-mono m m' q h b)

-- The data on the wire.
unfoldable pub count_data : List TxEntry → ℕ
count_data [] = 0
count_data (e ∷ q) = (if e.sent && e.is_data then 1 else 0) + count_data q

pub count_data-zero :
    (k next m : ℕ) (q : List TxEntry) → Numbered k q next → SentBelow m q → m ≤ k → count_data q ≡ 0
unfolding count_data
count_data-zero k next m [] n b h = refl
count_data-zero k next m (e ∷ q) (inl (d, s, n)) (b, bs) h =
    ground (arith, count_data-zero (suc k) next m q n bs)
count_data-zero k next m (e ∷ q) (inr (d, s, n)) (b, bs) h =
    ground (arith, count_data-zero k next m q n bs)

pub count_data-le :
    (w k next : ℕ) (q : List TxEntry) → Numbered k q next → SentBelow (k + w) q → count_data q ≤ w
unfolding count_data
count_data-le w k next [] n b = omega arith
count_data-le zero k next (e ∷ q) n b =
    omega (arith, count_data-zero k next (k + 0) (e ∷ q) n b (omega arith))
count_data-le (suc w) k next (e ∷ q) (inl (d, s, n)) (b, bs) =
    ground (arith, count_data-le w (suc k) next q n (SentBelow-mono _ _ q (omega arith) bs))
count_data-le (suc w) k next (e ∷ q) (inr (d, s, n)) (b, bs) =
    ground (arith, count_data-le (suc w) k next q n bs)

module _ {D : Type 0} where
  abbrev pub width : Link D → ℕ
  width c = max 1 c.qmax

  -- The oldest unacknowledged segment has number k. The segment counter does not come to wrap.
  pub record Window (k : ℕ) (c : Link D) : Type 0 where
    pub numbered : Numbered k c.txq c.next_segnum
    pub below : SentBelow (k + width c) c.txq
    pub small : c.next_segnum + width c ≤ 2 ^ 32

  pub record Same (c d : Link D) : Type 0 where
    pub txq : d.txq ≡ c.txq
    pub next_segnum : d.next_segnum ≡ c.next_segnum
    pub qmax : d.qmax ≡ c.qmax

  -- A link with the same queue, counter and window.
  pub Same-Window : (k : ℕ) (c d : Link D) → Same c d → Window k c → Window k d
  Same-Window k c d s w = record {
    numbered =
        subst (λ n. Numbered k d.txq n) (sym s.next_segnum)
          (subst (λ q. Numbered k q c.next_segnum) (sym s.txq) w.numbered);
    below =
        subst (λ m. SentBelow (k + max 1 m) d.txq) (sym s.qmax)
          (subst (λ q. SentBelow (k + width c) q) (sym s.txq) w.below);
    small = omega (arith, w.small, s.next_segnum, s.qmax);
  }

  pub kept_queue :
      (k : ℕ) (q : List TxEntry) (c d : Link D)
      → c.next_segnum ≡ d.next_segnum
      → c.qmax ≡ d.qmax
      → Numbered k q d.next_segnum
      → SentBelow (k + width d) q
      → d.next_segnum + width d ≤ 2 ^ 32
      → Window k (record c { txq = q })
  kept_queue k q c d e1 e2 n b small =
      Same-Window k (record d { txq = q }) _ (record { txq = refl; next_segnum = e1; qmax = e2 })
        (record { numbered = n; below = b; small = small })

  pub trans-Same : (c d e : Link D) → Same c d → Same d e → Same c e
  trans-Same c d e s t = record {
    txq = t.txq ∙ s.txq;
    next_segnum = t.next_segnum ∙ s.next_segnum;
    qmax = t.qmax ∙ s.qmax;
  }

  pub Same-fields :
      (c d : Link D) → c.txq ≡ d.txq → c.next_segnum ≡ d.next_segnum → c.qmax ≡ d.qmax → Same c d
  Same-fields c d a b e = record { txq = sym a; next_segnum = sym b; qmax = sym e }
