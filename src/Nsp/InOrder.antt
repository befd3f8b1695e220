-- ===== src/Nsp/InOrder.antt =====
-- The receiving half of a link (handle_data of src/nsp/nsp.cc) against the far end's stream of
-- segments.
use cppdecnet.Prelude.{
  ℕ, zero, suc, ◌+◌, ◌%◌, ◌≤◌, ◌<◌, ◌≡◌, ◌≢◌, refl, sym, ap, ap₂, subst, ◌∙◌, ◌⊎◌, inl, inr, Bool,
  true, false, none, some, List, [], arith, if◌then◌else◌, length, leb, leb→le, ltb, ◌==◌, ==_iff,
  Bool-cases, Option-cases,
}
use cppdecnet.Modulo.Order.{lt-mod_of_lt, lt-mod_of_le}
use cppdecnet.Nsp.Packets.{DataSeg, segnum}
use cppdecnet.Nsp.Link.{Link, Env, seq_lt, seq_next, send_ack, delay_ack}
use cppdecnet.Nsp.Acks.{route_ack}
use cppdecnet.Nsp.Receive.{
  find, erase, emplace, accept_segment, advance, drain, take_segment, hold_segment, sequence,
  handle_data,
}
use cppdecnet.Nsp.Kept.{Kept, Kept-trans, route_ack-Kept}
use cppdecnet.Nsp.Reassembly.{Reassembly, feed, absorbed, view, accept_segment-Fed}
use cppdecnet.Nsp.Held.{
  Carries, Held, erase-Held, beyond, find-Carries, length-erase-lt, keep-Held, seq_next-mod, differ,
  numbers_differ,
}

module _ {D : Type 0} (env : Env D) (h : env.session ≢ none) (stream : ℕ → DataSeg) where
  -- The first n segments are absorbed, n + 1 is expected, and what is held is beyond m.
  pub record Rx (n m : ℕ) (c : Link D) : Type 0 where
    pub expects : c.next_expect ≡ suc n % 4096
    pub taken : view c ≡ absorbed stream n
    pub held : Held stream m c.ooo

  feed-Carries :
      (k : ℕ) (s : DataSeg) (r : Reassembly) → Carries stream k s → feed s r ≡ feed (stream k) r
  feed-Carries k s r c = ground arith

  -- One segment in sequence.
  advance-Rx :
      (n m : ℕ) (s : DataSeg) (c : Link D)
      → Rx n m c
      → Carries stream (suc n) s
      → Rx (suc n) m (advance env s c)
  unfolding absorbed advance
  advance-Rx n m s c rx carries =
      let fed = accept_segment-Fed env h s c in
      record {
        expects = ap seq_next (fed.next_expect ∙ rx.expects) ∙ seq_next-mod (suc n);
        taken =
            fed.fed ∙ feed-Carries (suc n) s (view c) carries ∙ ap (feed (stream (suc n))) rx.taken;
        held = keep-Held stream m c.ooo (accept_segment env s c).ooo rx.held fed.ooo;
      }

  length-advance : (s : DataSeg) (c : Link D) → length (advance env s c).ooo ≤ length c.ooo
  unfolding advance
  length-advance s c = shorter (accept_segment-Fed env h s c).ooo
    where
      shorter :
          ((accept_segment env s c).ooo ≡ c.ooo) ⊎ ((accept_segment env s c).ooo ≡ [])
          → length (accept_segment env s c).ooo ≤ length c.ooo
      shorter (inl e) = omega (arith, ap length e)
      shorter (inr e) = omega (arith, ap length e)

  -- The loop that takes what follows on ends, with nothing held under the number expected.
  drain-Rx :
      (fuel n : ℕ) (c : Link D)
      → Rx n n c
      → length c.ooo < fuel
      → (n' : ℕ) × (n ≤ n') × Rx n' (suc n') (drain env fuel c)
  unfolding drain
  drain-Rx zero n c rx room = absurd (omega arith)
  drain-Rx (suc fuel) n c rx room = elim (Option-cases (find c.next_expect c.ooo)) [
    | inl e ↦
        rw (e, drain)
          (
            n,
            omega arith,
            record {
              expects = rx.expects;
              taken = rx.taken;
              held = beyond stream n c.ooo (ap (λ k. find k c.ooo) (sym rx.expects) ∙ e) rx.held;
            },
          )
    | inr (t, e) ↦
        let found : find (suc n % 4096) c.ooo ≡ some t =
          ap (λ k. find k c.ooo) (sym rx.expects) ∙ e in
        let d = record c { ooo = erase c.next_expect c.ooo } in
        let left : Rx n (suc n) d = record {
          expects = rx.expects;
          taken = rx.taken;
          held =
              subst (λ k. Held stream (suc n) (erase k c.ooo)) (sym rx.expects)
                (erase-Held stream n c.ooo rx.held);
        } in
        let next =
          drain-Rx fuel (suc n) (advance env t d)
            (advance-Rx n (suc n) t d left (find-Carries stream n c.ooo t found rx.held))
            (omega (arith, length-advance t d, length-erase-lt c.next_expect c.ooo t e)) in
        rw (e, drain) (next.0, omega (arith, next.1), next.2)
  ]

  take_segment-Rx :
      (n : ℕ) (s : DataSeg) (c : Link D)
      → Rx n (suc n) c
      → Carries stream (suc n) s
      → (n' : ℕ) × (n < n') × Rx n' (suc n') (take_segment env s c)
  unfolding take_segment
  take_segment-Rx n s c rx carries =
      drain-Rx _ (suc n) (advance env s c) (advance-Rx n (suc n) s c rx carries) (omega arith)

  -- A link whose receiving half is as before.
  Kept-Rx : (n m : ℕ) (c d : Link D) → Rx n m c → Kept c d → Rx n m d
  Kept-Rx n m c d rx k = record {
    expects = k.next_expect ∙ rx.expects;
    taken = ground (arith, rx.taken);
    held = keep-Held stream m c.ooo d.ooo rx.held k.ooo;
  }

  emplace-Held :
      (n k : ℕ) (s : DataSeg) (m : List (ℕ × DataSeg))
      → n < k
      → k ≤ n + 2048
      → Carries stream k s
      → Held stream n m
      → Held stream n (emplace (k % 4096) s m)
  unfolding emplace
  emplace-Held n k s m lo hi c hs = elim (Option-cases (find (k % 4096) m)) [
    | inl e ↦ rw (e, emplace) ((k, lo, hi, refl, c), hs)
    | inr (t, e) ↦ rw (e, emplace) hs
  ]

  send_ack-Kept : (c : Link D) → Kept c (send_ack c)
  unfolding send_ack
  send_ack-Kept c = ground arith

  delay_ack-Kept : (c : Link D) → Kept c (delay_ack c)
  unfolding delay_ack
  delay_ack-Kept c = ground arith

  hold_segment-Rx :
      (n k : ℕ) (s : DataSeg) (c : Link D)
      → Rx n (suc n) c
      → Carries stream k s
      → segnum s ≡ k % 4096
      → suc n < k
      → k ≤ n + 2048
      → Rx n (suc n) (hold_segment env s c)
  unfolding hold_segment
  hold_segment-Rx n k s c rx carries number lo hi = elim (Bool-cases (ltb (length c.ooo) c.qmax)) [
    | inl room ↦ rw room (record {
      expects = rx.expects;
      taken = rx.taken;
      held = rw number (emplace-Held (suc n) k s c.ooo lo (omega arith) carries rx.held);
    })
    | inr full ↦ rw full rx
  ]

  answered-Rx :
      (n m : ℕ) (b : Bool) (c : Link D) → Rx n m c → Rx n m (if b then delay_ack c else send_ack c)
  answered-Rx n m true c rx = Kept-Rx n m c _ rx (delay_ack-Kept c)
  answered-Rx n m false c rx = Kept-Rx n m c _ rx (send_ack-Kept c)

  -- The tests of `sequence` on segment k where n + 1 is expected.
  test_old :
      (n k : ℕ) (s : DataSeg) (c : Link D)
      → c.next_expect ≡ suc n % 4096
      → segnum s ≡ k % 4096
      → seq_lt (segnum s) c.next_expect ≡ seq_lt (k % 4096) (suc n % 4096)
  test_old n k s c e number = ap₂ seq_lt number e

  -- One data segment, number k of the stream, less than half the sequence space from the number
  -- n + 1 that is expected: the receiver goes on from where it is, and takes k if that was expected.
  pub sequence-Rx :
      (n k : ℕ) (s : DataSeg) (c : Link D)
      → Rx n (suc n) c
      → Carries stream k s
      → segnum s ≡ k % 4096
      → k ≤ n + 2048
      → n ≤ k + 2046
      → (n' : ℕ) × (n ≤ n') × ((k ≢ suc n) ⊎ (k ≤ n')) × Rx n' (suc n') (sequence env s c)
  unfolding sequence
  sequence-Rx n k s c rx carries number hi lo = elim (Bool-cases (leb k n)) [
    | inl old ↦
        let test : seq_lt (segnum s) c.next_expect ≡ true =
          test_old n k s c rx.expects number
          ∙ lt-mod_of_lt k (suc n) (omega (arith, leb→le k n old)) (omega arith) in
        rw test (n, omega arith, inr (leb→le k n old), Kept-Rx n (suc n) c _ rx (send_ack-Kept c))
    | inr new ↦
        let above : n < k = ground arith in
        let test : seq_lt (segnum s) c.next_expect ≡ false =
          test_old n k s c rx.expects number ∙ lt-mod_of_le k (suc n) above (omega arith) in
        elim (Bool-cases (k == suc n)) [
          | inl due ↦
              let same : k ≡ suc n = (==_iff k (suc n)).0 due in
              let hit : (segnum s == c.next_expect) ≡ true =
                (==_iff (segnum s) c.next_expect).1
                  (number ∙ ap (λ (j : ℕ). j % 4096) same ∙ sym rx.expects) in
              let t = take_segment-Rx n s c rx (subst (λ j. Carries stream j s) same carries) in
              rw (test, hit)
                (
                  t.0,
                  omega (arith, t.1),
                  inr (omega (arith, t.1)),
                  answered-Rx t.0 (suc t.0) _ (take_segment env s c) t.2,
                )
          | inr ahead ↦
              let miss : (segnum s == c.next_expect) ≡ false =
                numbers_differ n k (segnum s) c.next_expect number rx.expects above hi ahead in
              rw (test, miss)
                (
                  n,
                  omega arith,
                  inl (differ k (suc n) ahead),
                  Kept-Rx n (suc n) _ _
                      (hold_segment-Rx n k s c rx carries number
                        (omega (arith, differ k (suc n) ahead)) hi)
                      (send_ack-Kept _),
                )
        ]
  ]

  -- Where a receiving link with session control has taken the segments 1 to n of the far end's
  -- stream, segment k of it, with k at most n + 2048 and n at most k + 2046, keeps the link at a
  -- prefix of the stream: what it has put together and delivered is the reassembly of the segments
  -- 1 to n' with n' at least n, and at least k if k is n + 1.
  pub handle_data-Rx :
      (n k : ℕ) (s : DataSeg) (c : Link D)
      → Rx n (suc n) c
      → Carries stream k s
      → segnum s ≡ k % 4096
      → k ≤ n + 2048
      → n ≤ k + 2046
      → (n' : ℕ) × (n ≤ n') × ((k ≢ suc n) ⊎ (k ≤ n')) × Rx n' (suc n') (handle_data env s c)
  unfolding handle_data
  handle_data-Rx n k s c rx carries number hi lo =
      let first = route_ack-Kept env s.acknum true c in
      let second = route_ack-Kept env s.acknum2 true (route_ack env s.acknum true c) in
      sequence-Rx n k s _ (Kept-Rx n (suc n) c _ rx (Kept-trans c _ _ first second)) carries number
        hi lo
