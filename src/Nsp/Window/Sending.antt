-- ===== src/Nsp/Window/Sending.antt =====
-- `send_blocked` and `send_segments` against the transmit window.
use cppdecnet.Prelude.{
  ℕ, zero, suc, ◌+◌, ◌^◌, ◌≤◌, ◌<◌, ◌≡◌, refl, sym, ap, subst, ◌∙◌, ◌⊎◌, inl, inr, Bool, true,
  false, List, [], ◌∷◌, ◌++◌, arith, length, leb, min, take, drop, if-cases,
}
use cppdecnet.Nsp.Packets.{Packet}
use cppdecnet.Nsp.Link.{Link, Env, TxEntry, send, u32, window}
use cppdecnet.Nsp.Transmit.{
  any_timed, queue_segment, segment_loop, send_segments, send_blocked, send_loop, send_all,
  settle_send, flow_ok, max_queue,
}
use cppdecnet.Nsp.Window.{
  Numbered, SentBelow, Numbered-le, width, Window, Same, Same-Window, trans-Same,
}

module _ {D : Type 0} (env : Env D) where
  pub send_all-Same : (ps : List Packet) (c : Link D) → Same c (send_all env ps c)
  unfolding send_all send
  send_all-Same [] c = record { txq = refl; next_segnum = refl; qmax = refl }
  send_all-Same (p ∷ ps) c =
      let s = send_all-Same ps (send p c) in
      record { txq = s.txq; next_segnum = s.next_segnum; qmax = s.qmax }

  pub settle_send-Same : (ps : List Packet) (c : Link D) → Same c (settle_send env ps c)
  unfolding settle_send
  settle_send-Same [] c = record { txq = refl; next_segnum = refl; qmax = refl }
  settle_send-Same (p ∷ ps) c = record { txq = refl; next_segnum = refl; qmax = refl }

  -- What the window lets out is below its end.
  pub flow_ok-le :
      (c : Link D) (e : TxEntry)
      → flow_ok env c e ≡ true
      → (e.is_data ≡ false) ⊎ (e.segnum ≤ max_queue env c)
  unfolding flow_ok
  flow_ok-le c e h = ground arith

  pub allowed :
      (m : ℕ) (c : Link D) (e : TxEntry)
      → max_queue env c < m
      → flow_ok env c e ≡ true
      → (e.is_data ≡ false) ⊎ (e.segnum < m)
  allowed m c e h f = elim (flow_ok-le c e f) [ inl d ↦ inl d | inr l ↦ inr (omega arith) ]

  pub send_loop-SentBelow :
      (m : ℕ) (c : Link D) (timing : Bool) (q : List TxEntry)
      → max_queue env c < m
      → SentBelow m q
      → SentBelow m (send_loop env c timing q).0
  unfolding send_loop
  send_loop-SentBelow m c timing [] h b = tt
  send_loop-SentBelow m c timing (e ∷ q) h (b, bs) =
      let skipped = send_loop-SentBelow m c timing q h bs in
      let after = send_loop-SentBelow m c true q h bs in
      if-cases {A = List TxEntry × List Packet} (λ r. SentBelow m r.0) e.sent (λ _. (b, skipped))
        (λ _.
          if-cases {A = List TxEntry × List Packet} (λ r. SentBelow m r.0) (flow_ok env c e)
            (λ f. (inr (allowed m c e h f), after)) (λ _. (b, bs)))

  pub send_loop-Numbered :
      (k next : ℕ) (c : Link D) (timing : Bool) (q : List TxEntry)
      → Numbered k q next
      → Numbered k (send_loop env c timing q).0 next
  unfolding send_loop
  send_loop-Numbered k next c timing [] n = n
  send_loop-Numbered k next c timing (e ∷ q) (inl (d, s, n)) =
      if-cases {A = List TxEntry × List Packet} (λ r. Numbered k r.0 next) e.sent
        (λ _. inl (d, s, send_loop-Numbered (suc k) next c timing q n))
        (λ _.
          if-cases {A = List TxEntry × List Packet} (λ r. Numbered k r.0 next) (flow_ok env c e)
            (λ _. inl (d, s, send_loop-Numbered (suc k) next c true q n)) (λ _. inl (d, s, n)))
  send_loop-Numbered k next c timing (e ∷ q) (inr (d, s, n)) =
      if-cases {A = List TxEntry × List Packet} (λ r. Numbered k r.0 next) e.sent
        (λ _. inr (d, s, send_loop-Numbered k next c timing q n))
        (λ _.
          if-cases {A = List TxEntry × List Packet} (λ r. Numbered k r.0 next) (flow_ok env c e)
            (λ _. inr (d, s, send_loop-Numbered k next c true q n)) (λ _. inr (d, s, n)))

  -- The end of the window over a queue.
  pub queue_end :
      (k w next : ℕ) (q : List TxEntry) (c : Link D)
      → Numbered k q next
      → next + w ≤ 2 ^ 32
      → window env c ≤ w
      → 1 ≤ window env c
      → c.txq ≡ q
      → max_queue env c < k + w
  unfolding max_queue
  queue_end k w next [] c n small le pos e = rw e (omega arith)
  queue_end k w next (f ∷ q) c (inl (d, s, n)) small le pos e =
      rw e (omega (arith, Numbered-le (suc k) next q n))
  queue_end k w next (f ∷ q) c (inr (d, s, n)) small le pos e =
      rw e (omega (arith, Numbered-le k next q n))

  pub window-le : (c : Link D) → window env c ≤ width c
  unfolding window
  window-le c = ground arith

  pub window-pos : (c : Link D) → 1 ≤ window env c
  unfolding window
  window-pos c = ground arith

  pub max_queue-lt :
      (k : ℕ) (c : Link D)
      → Numbered k c.txq c.next_segnum
      → c.next_segnum + width c ≤ 2 ^ 32
      → max_queue env c < k + width c
  max_queue-lt k c n small =
      queue_end k (width c) c.next_segnum c.txq c n small (window-le c) (window-pos c) refl

  -- `send_blocked` keeps to the window.
  pub send_blocked-Window : (k : ℕ) (c : Link D) → Window k c → Window k (send_blocked env c)
  unfolding send_blocked
  send_blocked-Window k c w =
      let r = send_loop env c (any_timed env c.txq) c.txq in
      let d = record c { txq = r.0 } in
      Same-Window k d _ (trans-Same d _ _ (send_all-Same r.1 d) (settle_send-Same r.1 _)) (record {
        numbered = send_loop-Numbered k c.next_segnum c _ c.txq w.numbered;
        below =
            send_loop-SentBelow (k + width c) c _ c.txq (max_queue-lt k c w.numbered w.small)
              w.below;
        small = w.small;
      })

  pub Numbered-snoc :
      (k next : ℕ) (q : List TxEntry) (e : TxEntry)
      → e.is_data ≡ true
      → e.segnum ≡ next
      → Numbered k q next
      → Numbered k (q ++ e ∷ []) (suc next)
  Numbered-snoc k next [] e d s n = inl (d, s ∙ sym n, ap suc n)
  Numbered-snoc k next (f ∷ q) e d s (inl (d', s', n)) =
      inl (d', s', Numbered-snoc (suc k) next q e d s n)
  Numbered-snoc k next (f ∷ q) e d s (inr (d', s', n)) =
      inr (d', s', Numbered-snoc k next q e d s n)

  pub SentBelow-snoc :
      (m : ℕ) (q : List TxEntry) (e : TxEntry)
      → e.sent ≡ false
      → SentBelow m q
      → SentBelow m (q ++ e ∷ [])
  SentBelow-snoc m [] e s b = (inl s, tt)
  SentBelow-snoc m (f ∷ q) e s (b, bs) = (b, SentBelow-snoc m q e s bs)

  pub queue_segment-Window :
      (k : ℕ) (payload : List ℕ) (first last : Bool) (c : Link D)
      → c.next_segnum + 1 + width c ≤ 2 ^ 32
      → Window k c
      → Window k (queue_segment env payload first last c)
  unfolding queue_segment
  queue_segment-Window k payload first last c h w = record {
    numbered =
        subst (λ m. Numbered k (queue_segment env payload first last c).txq m) (next_lem c h)
          (Numbered-snoc k c.next_segnum c.txq _ refl refl w.numbered);
    below = SentBelow-snoc (k + width c) c.txq _ refl w.below;
    small = omega (arith, next_lem c h);
  }
    where
      next_lem :
          (c : Link D)
          → c.next_segnum + 1 + width c ≤ 2 ^ 32
          → suc c.next_segnum ≡ u32 (c.next_segnum + 1)
      next_lem c h = omega arith

  pub segment_loop-Window :
      (fuel k limit : ℕ) (rest : List ℕ) (first : Bool) (c : Link D)
      → c.next_segnum + fuel + width c ≤ 2 ^ 32
      → Window k c
      → Window k (segment_loop env fuel limit rest first c)
  unfolding segment_loop queue_segment
  segment_loop-Window zero k limit rest first c h w = w
  segment_loop-Window (suc fuel) k limit rest first c h w =
      let n = min limit (length rest) in
      let last = leb (length rest) n in
      let q = queue_segment env (take n rest) first last c in
      let w' = queue_segment-Window k (take n rest) first last c (omega (arith, h)) w in
      if-cases (Window k) last (λ _. w')
        (λ _. segment_loop-Window fuel k limit (drop n rest) false q (omega (arith, h)) w')

  -- send_segments keeps the queue numbered without a gap and the data on the wire below the end of
  -- the window, while the segment counter does not come to wrap.
  pub send_segments-Window :
      (k : ℕ) (bytes : List ℕ) (c : Link D)
      → Window k c
      → c.next_segnum + suc (length bytes) + width c ≤ 2 ^ 32
      → Window k (send_segments env bytes c)
  unfolding send_segments
  send_segments-Window k bytes c w h =
      send_blocked-Window k _ (segment_loop-Window (suc (length bytes)) k _ bytes true c h w)
