-- ===== src/Ddcmp/Outstanding.antt =====
-- The DDCMP transmit window (src/datalink/ddcmp.cc): the messages held for retransmission.
use cppdecnet.Prelude.{
  ℕ, zero, suc, ◌+◌, ◌≤◌, ◌<◌, ◌≡◌, refl, sym, subst, ◌∙◌, Bool, true, false, Option, some, List,
  ltb, ◌==◌, ==_iff, if◌then◌else◌, arith, if-cases, ◌≢◌,
}
use cppdecnet.Ddcmp.Message.{Message, seq_next, distance, make_data}
use cppdecnet.Ddcmp.Protocol.{Protocol, init_state, send_msg, send_acked, send_one, release}

abbrev pub Holds : (ℕ → Option Message) → ℕ → Type 0
Holds unack i = (m : Message) × (unack i ≡ some m) × (m.num ≡ i)

-- No more is outstanding than the window lets, and each number behind the last one acknowledged, up
-- to the last one given, has its message.
pub record Outstanding (p : Protocol) : Type 0 where
  pub a_byte : p.a < 256
  pub n_byte : p.n < 256
  pub small : p.qmax ≤ 255
  pub inside : distance p.a p.n ≤ p.qmax
  pub held :
      (i : ℕ) → i < 256 → 1 ≤ distance p.a i → distance p.a i ≤ distance p.a p.n → Holds p.unack i

pub record Same (p q : Protocol) : Type 0 where
  pub a : p.a ≡ q.a
  pub n : p.n ≡ q.n
  pub qmax : p.qmax ≡ q.qmax
  pub unack : p.unack ≡ q.unack

pub Same-Outstanding : (p q : Protocol) → Same p q → Outstanding p → Outstanding q
Same-Outstanding p q s o = record {
  a_byte = omega (arith, s.a, o.a_byte);
  n_byte = omega (arith, s.n, o.n_byte);
  small = omega (arith, s.qmax, o.small);
  inside =
      subst (λ k. distance q.a q.n ≤ k) s.qmax
        (subst (λ k. distance q.a k ≤ p.qmax) s.n
          (subst (λ k. distance k p.n ≤ p.qmax) s.a o.inside));
  held = λ i b l h.
      subst (λ u. Holds u i) s.unack
        (o.held i b (subst (λ k. 1 ≤ distance k i) (sym s.a) l) (
          subst (λ k. distance p.a i ≤ distance p.a k) (sym s.n)
            (subst (λ k. distance k i ≤ distance k q.n) (sym s.a) h)));
}

-- Nothing is outstanding after a start.
pub init_state-Outstanding : (p : Protocol) → p.qmax ≤ 255 → Outstanding (init_state p)
unfolding init_state
init_state-Outstanding p h = record {
  a_byte = omega arith;
  n_byte = omega arith;
  small = h;
  inside = omega arith;
  held = λ i b l k. absurd (omega arith);
}

distance_next :
    (a n : ℕ) → a < 256 → n < 256 → distance a n < 255 → distance a (seq_next n) ≡ distance a n + 1
distance_next a n x y h = omega arith

distance_injective : (a n i : ℕ) → a < 256 → n < 256 → i < 256 → distance a i ≡ distance a n → i ≡ n
distance_injective a n i x y z h = omega arith

not_next :
    (a n i : ℕ)
    → a < 256
    → n < 256
    → i < 256
    → distance a n < 255
    → distance a i ≤ distance a (seq_next n)
    → i ≢ seq_next n
    → distance a i ≤ distance a n
not_next a n i x y z h k ne = omega arith

back :
    (a n i : ℕ)
    → a < 256
    → n < 256
    → i < 256
    → 1 ≤ distance (seq_next a) i
    → distance (seq_next a) i ≤ distance (seq_next a) n
    → 1 ≤ distance a n
    → distance a i ≤ distance a n
back a n i x y z l h k = omega arith

queued-Outstanding :
    (m : Message) (p : Protocol)
    → m.num ≡ seq_next p.n
    → distance p.a p.n < p.qmax
    → Outstanding p
    → Outstanding (record p {
      n = seq_next p.n;
      unack = λ i. if i == seq_next p.n then some m else p.unack i;
    })
queued-Outstanding m p e h o = record {
  a_byte = o.a_byte;
  n_byte = omega arith;
  small = o.small;
  inside = omega (arith, h, o.a_byte, o.n_byte, o.small);
  held = λ i b l k.
      if-cases (λ u. (x : Message) × (u ≡ some x) × (x.num ≡ i)) (i == seq_next p.n)
        (λ f. (m, refl, e ∙ sym ((==_iff i _).0 f)))
        (λ f. o.held i b l (before i b l k (λ g. cc (sym f ∙ (==_iff i (seq_next p.n)).1 g))));
}
  where
    before :
        (i : ℕ)
        → i < 256
        → 1 ≤ distance p.a i
        → distance p.a i ≤ distance p.a (seq_next p.n)
        → i ≢ seq_next p.n
        → distance p.a i ≤ distance p.a p.n
    before i b l k ne = not_next p.a p.n i o.a_byte o.n_byte b (omega (arith, o.small, h)) k ne

pub send_one-Outstanding :
    (queue_only : Bool) (payload : List ℕ) (p : Protocol)
    → distance p.a p.n < p.qmax
    → Outstanding p
    → Outstanding (send_one queue_only payload p)
unfolding send_one send_acked send_msg make_data
send_one-Outstanding true payload p h o =
    queued-Outstanding (make_data (seq_next p.n) p.r payload) p refl h o
send_one-Outstanding false payload p h o =
    if-cases Outstanding (ltb 0 p.acktmr.current)
      (λ _.
        Same-Outstanding _ _ (record { a = refl; n = refl; qmax = refl; unack = refl })
          (queued-Outstanding (make_data (seq_next p.n) p.r payload) p refl h o))
      (λ _.
        Same-Outstanding _ _ (record { a = refl; n = refl; qmax = refl; unack = refl })
          (queued-Outstanding (make_data (seq_next p.n) p.r payload) p refl h o))

pub release-Outstanding :
    (k : ℕ) (p : Protocol) → k ≤ distance p.a p.n → Outstanding p → Outstanding (release k p)
unfolding release
release-Outstanding zero p h o = o
release-Outstanding (suc k) p h o =
    release-Outstanding k _ (omega (arith, o.a_byte, o.n_byte)) (record {
      a_byte = omega arith;
      n_byte = o.n_byte;
      small = o.small;
      inside = omega (arith, o.a_byte, o.n_byte, o.inside);
      held = λ i b l h'.
          if-cases (λ u. (x : Message) × (u ≡ some x) × (x.num ≡ i)) (i == seq_next p.a)
            (λ f. absurd (gone i b l ((==_iff i _).0 f)))
            (λ f. o.held i b (omega (arith, o.a_byte)) (later i b l h'));
    })
  where
    gone : (i : ℕ) → i < 256 → 1 ≤ distance (seq_next p.a) i → i ≡ seq_next p.a → ⊥
    gone i b l e = omega (arith, o.a_byte)

    later :
        (i : ℕ)
        → i < 256
        → 1 ≤ distance (seq_next p.a) i
        → distance (seq_next p.a) i ≤ distance (seq_next p.a) p.n
        → distance p.a i ≤ distance p.a p.n
    later i b l h' = back p.a p.n i o.a_byte o.n_byte b l h' (omega (arith, h))
