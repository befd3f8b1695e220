-- ===== src/Nsp/Window/Again.antt =====
-- What is sent again, against the transmit window.
use cppdecnet.Prelude.{
  ℕ, suc, ◌+◌, refl, inl, inr, Bool, true, false, not, ◌&&◌, Option, none, some, List, [], ◌∷◌,
  if-cases, ◌==◌,
}
use cppdecnet.Nsp.Packets.{Packet}
use cppdecnet.Nsp.Link.{Link, Env, TxEntry, arm_timer}
use cppdecnet.Nsp.Acks.{unsend, nak_resend, nak_front, process_nak, resend_loop, resend}
use cppdecnet.Nsp.Window.{Numbered, SentBelow, width, Window, Same-Window}
use cppdecnet.Nsp.Window.Sending.{send_blocked-Window, send_all-Same}

module _ {D : Type 0} (env : Env D) where
  pub SentBelow-unsend : (m : ℕ) (q : List TxEntry) → SentBelow m q → SentBelow m (unsend env q)
  unfolding unsend
  SentBelow-unsend m [] b = tt
  SentBelow-unsend m (e ∷ q) (b, bs) =
      if-cases (λ f. SentBelow m (f ∷ unsend env q)) (e.sent && e.is_data)
        (λ _. (inl refl, SentBelow-unsend m q bs)) (λ _. (b, SentBelow-unsend m q bs))

  pub Numbered-unsend :
      (k next : ℕ) (q : List TxEntry) → Numbered k q next → Numbered k (unsend env q) next
  unfolding unsend
  Numbered-unsend k next [] n = n
  Numbered-unsend k next (e ∷ q) (inl (d, s, n)) =
      if-cases (λ f. Numbered k (f ∷ unsend env q) next) (e.sent && e.is_data)
        (λ _. inl (d, s, Numbered-unsend (suc k) next q n))
        (λ _. inl (d, s, Numbered-unsend (suc k) next q n))
  Numbered-unsend k next (e ∷ q) (inr (d, s, n)) =
      if-cases (λ f. Numbered k (f ∷ unsend env q) next) (e.sent && e.is_data)
        (λ _. inr (d, s, Numbered-unsend k next q n)) (λ _. inr (d, s, Numbered-unsend k next q n))

  pub nak_resend-Window : (k seq : ℕ) (c : Link D) → Window k c → Window k (nak_resend env seq c)
  unfolding nak_resend
  nak_resend-Window k seq c w = send_blocked-Window env k _ (record {
    numbered = Numbered-unsend k _ c.txq w.numbered;
    below = SentBelow-unsend _ c.txq w.below;
    small = w.small;
  })

  pub nak_front-Window :
      (k : ℕ) (q : List TxEntry) (gap : Option ℕ) (c : Link D)
      → Window k c
      → Window k (nak_front env q gap c)
  unfolding nak_front
  nak_front-Window k [] gap c w = w
  nak_front-Window k (e ∷ q) none c w =
      if-cases (Window k) (not e.sent) (λ _. w) (λ _. nak_resend-Window k e.seq c w)
  nak_front-Window k (e ∷ q) (some s) c w =
      if-cases (Window k) (not e.sent) (λ _. w)
        (λ _. if-cases (Window k) (s == e.seq) (λ _. w) (λ _. nak_resend-Window k e.seq c w))

  pub process_nak-Window : (k : ℕ) (c : Link D) → Window k c → Window k (process_nak env c)
  unfolding process_nak
  process_nak-Window k c w = nak_front-Window k c.txq c.nak_from c w

  pub resend_loop-SentBelow :
      (m : ℕ) (first : Bool) (q : List TxEntry)
      → SentBelow m q
      → SentBelow m (resend_loop env first q).0
  unfolding resend_loop
  resend_loop-SentBelow m first [] b = tt
  resend_loop-SentBelow m first (e ∷ q) (b, bs) =
      let others = resend_loop-SentBelow m false q bs in
      if-cases {A = List TxEntry × List Packet} (λ r. SentBelow m r.0) (not e.sent)
        (λ _. (b, resend_loop-SentBelow m first q bs))
        (λ _.
          if-cases {A = List TxEntry × List Packet} (λ r. SentBelow m r.0) first (λ _. (b, others))
            (λ _.
              if-cases (λ f. SentBelow m (f ∷ (resend_loop env false q).0)) e.is_data
                (λ _. (inl refl, others)) (λ _. (b, others))))

  pub resend_loop-Numbered :
      (k next : ℕ) (first : Bool) (q : List TxEntry)
      → Numbered k q next
      → Numbered k (resend_loop env first q).0 next
  unfolding resend_loop
  resend_loop-Numbered k next first [] n = n
  resend_loop-Numbered k next first (e ∷ q) (inl (d, s, n)) =
      let others = resend_loop-Numbered (suc k) next false q n in
      if-cases {A = List TxEntry × List Packet} (λ r. Numbered k r.0 next) (not e.sent)
        (λ _. inl (d, s, resend_loop-Numbered (suc k) next first q n))
        (λ _.
          if-cases {A = List TxEntry × List Packet} (λ r. Numbered k r.0 next) first
            (λ _. inl (d, s, others))
            (λ _.
              if-cases (λ f. Numbered k (f ∷ (resend_loop env false q).0) next) e.is_data
                (λ _. inl (d, s, others)) (λ _. inl (d, s, others))))
  resend_loop-Numbered k next first (e ∷ q) (inr (d, s, n)) =
      let others = resend_loop-Numbered k next false q n in
      if-cases {A = List TxEntry × List Packet} (λ r. Numbered k r.0 next) (not e.sent)
        (λ _. inr (d, s, resend_loop-Numbered k next first q n))
        (λ _.
          if-cases {A = List TxEntry × List Packet} (λ r. Numbered k r.0 next) first
            (λ _. inr (d, s, others))
            (λ _.
              if-cases (λ f. Numbered k (f ∷ (resend_loop env false q).0) next) e.is_data
                (λ _. inr (d, s, others)) (λ _. inr (d, s, others))))

  pub resend-Window : (k : ℕ) (c : Link D) → Window k c → Window k (resend env c)
  unfolding resend arm_timer
  resend-Window k c w =
      let r = resend_loop env true c.txq in
      let d = record c { txq = r.0 } in
      let sent = send_all-Same env r.1 d in
      Same-Window k d _
        (record { txq = sent.txq; next_segnum = sent.next_segnum; qmax = sent.qmax })
        (record {
          numbered = resend_loop-Numbered k c.next_segnum true c.txq w.numbered;
          below = resend_loop-SentBelow (k + width c) true c.txq w.below;
          small = w.small;
        })
