-- ===== src/Ddcmp/InOrder.antt =====
-- The receiving half of the DDCMP engine: what it delivers of the far end's stream of messages.
use cppdecnet.Prelude.{
  ℕ, zero, suc, ◌+◌, ◌%◌, ◌≤◌, ◌≡◌, refl, sym, ap, ap₂, subst, ◌∙◌, ◌⊎◌, ◌≢◌, inl, inr, Bool, true,
  false, not, List, [], ◌∷◌, ltb, ◌==◌, ==_iff, if-cases, arith,
}
use cppdecnet.Ddcmp.Message.{Message, MsgKind, seq_next, distance, make_data}
use cppdecnet.Ddcmp.Protocol.{
  Protocol, State, Output, sent, delivered, up, down, send_msg, send_acked, send_one, send_loop,
  send_queued, release, process_ack, cansend, ack_timer, is_nak, flush_ack,
}
use cppdecnet.Ddcmp.Receive.{take_data, receive, receive_in, receive_running}

-- The payloads handed to the upper layer, the newest first.
abbrev pub payloads : List Output → List (List ℕ)
payloads [] = []
payloads (delivered x ∷ os) = x ∷ payloads os
payloads (sent m ∷ os) = payloads os
payloads (up ∷ os) = payloads os
payloads (down ∷ os) = payloads os

-- Nothing is delivered and nothing new is expected.
record Kept (p q : Protocol) : Type 0 where
  r : q.r ≡ p.r
  passed : payloads q.out ≡ payloads p.out

chain : (p q s : Protocol) → Kept p q → Kept q s → Kept p s
chain p q s k l = record { r = l.r ∙ k.r; passed = l.passed ∙ k.passed }

send_msg-Kept : (m : Message) (t : ℕ) (p : Protocol) → Kept p (send_msg m t p)
unfolding send_msg
send_msg-Kept m t p =
    if-cases (Kept p) (ltb 0 t) (λ _. record { r = refl; passed = refl })
      (λ _. record { r = refl; passed = refl })

send_acked-Kept : (m : Message) (p : Protocol) → Kept p (send_acked m p)
unfolding send_acked
send_acked-Kept m p =
    let k = send_msg-Kept m p.acktmr.current _ in record { r = k.r; passed = k.passed }

send_one-Kept : (b : Bool) (x : List ℕ) (p : Protocol) → Kept p (send_one b x p)
unfolding send_one
send_one-Kept true x p = record { r = refl; passed = refl }
send_one-Kept false x p =
    let k = send_acked-Kept (make_data (seq_next p.n) p.r x) _ in
    record { r = k.r; passed = k.passed }

send_loop-Kept : (b : Bool) (ps : List (List ℕ)) (p : Protocol) → Kept p (send_loop b ps p)
unfolding send_loop
send_loop-Kept b [] p = record { r = refl; passed = refl }
send_loop-Kept b (x ∷ ps) p =
    if-cases (Kept p) (cansend p)
      (λ _. chain p (send_one b x p) _ (send_one-Kept b x p) (send_loop-Kept b ps (send_one b x p)))
      (λ _. record { r = refl; passed = refl })

release-Kept : (k : ℕ) (p : Protocol) → Kept p (release k p)
unfolding release
release-Kept zero p = record { r = refl; passed = refl }
release-Kept (suc k) p = let l = release-Kept k _ in record { r = l.r; passed = l.passed }

ack_timer-Kept : (p : Protocol) → Kept p (ack_timer p)
unfolding ack_timer
ack_timer-Kept p =
    if-cases (Kept p) (not (p.a == p.n)) (λ _. record { r = refl; passed = refl })
      (λ _. record { r = refl; passed = refl })

process_ack-Kept : (m : Message) (p : Protocol) → Kept p (process_ack m p).0
unfolding process_ack send_queued
process_ack-Kept m p =
    let freed = release (distance p.a m.resp) p in
    let timed = ack_timer freed in
    if-cases {A = Protocol × Bool} (λ r. Kept p r.0) (ltb (distance p.a p.n) (distance p.a m.resp))
      (λ _. record { r = refl; passed = refl })
      (λ _. chain p freed _ (release-Kept (distance p.a m.resp) p) (
        chain freed timed _ (ack_timer-Kept freed) (send_loop-Kept (is_nak m) timed.notsent timed)))

flush_ack-Kept : (p : Protocol) → Kept p (flush_ack p)
unfolding flush_ack send_msg
flush_ack-Kept p =
    if-cases (Kept p) p.ackflag (λ _. record { r = refl; passed = refl })
      (λ _. record { r = refl; passed = refl })

-- The messages 1 to n of a stream, the newest first.
abbrev pub first : (ℕ → List ℕ) → ℕ → List (List ℕ)
first stream zero = []
first stream (suc n) = stream (suc n) ∷ first stream n

-- The first n messages are delivered, and no more.
pub record Received (stream : ℕ → List ℕ) (n : ℕ) (p : Protocol) : Type 0 where
  pub last : p.r ≡ n % 256
  pub passed : payloads p.out ≡ first stream n

Kept-Received :
    (stream : ℕ → List ℕ) (n : ℕ) (p q : Protocol)
    → Kept p q
    → Received stream n p
    → Received stream n q
Kept-Received stream n p q k v = record { last = k.r ∙ v.last; passed = k.passed ∙ v.passed }

-- The next message is delivered, and any other is not.
abbrev pub Outcome : (ℕ → List ℕ) → ℕ → ℕ → Protocol → Type 0
Outcome stream n k p =
    ((k ≡ suc n) × Received stream (suc n) p) ⊎ ((k ≢ suc n) × Received stream n p)

flushed :
    (stream : ℕ → List ℕ) (n k : ℕ) (p : Protocol)
    → Outcome stream n k p
    → Outcome stream n k (flush_ack p)
flushed stream n k p (inl (e, v)) = inl (e, Kept-Received stream (suc n) p _ (flush_ack-Kept p) v)
flushed stream n k p (inr (e, v)) = inr (e, Kept-Received stream n p _ (flush_ack-Kept p) v)

take_data-Received :
    (stream : ℕ → List ℕ) (n k : ℕ) (m : Message) (p : Protocol)
    → Received stream n p
    → m.num ≡ k % 256
    → m.payload ≡ stream k
    → k ≤ n + 256
    → n ≤ k + 254
    → Outcome stream n k (take_data m p)
unfolding take_data
take_data-Received stream n k m p v e f lo hi =
    if-cases (Outcome stream n k) (m.num == seq_next p.r)
      (λ h.
        let here : k ≡ suc n = same ((==_iff m.num (seq_next p.r)).0 h) in
        inl (
          here,
          record {
            last = omega (arith, v.last);
            passed = ap₂ (λ x xs. x ∷ xs) (f ∙ ap stream here) v.passed;
          },
        ))
      (λ h. inr ((λ g. ground (arith, e, v.last)), v))
  where
    same : m.num ≡ seq_next p.r → k ≡ suc n
    same g = omega (arith, v.last)

-- A running DDCMP engine that has delivered the messages 1 to n of a stream and receives number k
-- of it, k from n - 254 to n + 256, delivers it if k is n + 1 and nothing otherwise, so what is
-- delivered stays a prefix of the stream.
pub receive-Received :
    (stream : ℕ → List ℕ) (n k : ℕ) (m : Message) (p : Protocol)
    → Received stream n p
    → p.state ≡ State.running
    → m.kind ≡ MsgKind.payload_data
    → m.num ≡ k % 256
    → m.payload ≡ stream k
    → k ≤ n + 256
    → n ≤ k + 254
    → Outcome stream n k (receive m p)
unfolding receive receive_in receive_running
receive-Received stream n k m p v running kind e f lo hi =
    let acked = (process_ack m p).0 in
    let taken =
      take_data-Received stream n k m acked
        (Kept-Received stream n p acked (process_ack-Kept m p) v) e f lo hi in
    subst (Outcome stream n k)
      (sym (ap (λ s. receive_in s m p) running ∙ ap (λ x. receive_running x m p) kind))
      (flushed stream n k (take_data m acked) taken)
