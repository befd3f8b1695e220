-- ===== src/Nsp/Window/Gap.antt =====
-- What goes out again when the far end reports a gap.
use cppdecnet.Prelude.{
  ℕ, suc, ◌+◌, ◌^◌, ◌≤◌, ◌≡◌, ◌≢◌, refl, sym, ap, ap₂, subst, ◌∙◌, ◌⊎◌, inl, inr, Bool, true, false,
  not, ◌&&◌, ◌||◌, Option, none, some, List, [], ◌∷◌, ◌++◌, if-cases, ◌==◌, ==_iff, arith,
  if◌then◌else◌, Bool-cases,
}
use cppdecnet.Nsp.Packets.{Packet, svc_seg, svc_msg}
use cppdecnet.Nsp.Link.{Link, Env, TxEntry, Output, send, arm_timer}
use cppdecnet.Nsp.Transmit.{
  send_all, send_blocked, send_loop, settle_send, start_retransmit_timer, flow_ok, max_queue,
  any_timed,
}
use cppdecnet.Nsp.Acks.{unsend, nak_resend, nak_front, process_nak}
use cppdecnet.Nsp.Window.{Window, width, Numbered, Numbered-le}
use cppdecnet.Nsp.Window.Sending.{window-le, window-pos}
use cppdecnet.Nsp.Window.Again.{process_nak-Window}

-- The packets that are data or are not on the wire.
abbrev pub to_send : List TxEntry → List Packet
to_send [] = []
to_send (e ∷ q) = if e.is_data || not e.sent then e.frame ∷ to_send q else to_send q

-- The packets that are not on the wire.
abbrev pub unsent : List TxEntry → List Packet
unsent [] = []
unsent (e ∷ q) = if e.sent then unsent q else e.frame ∷ unsent q

-- Packets handed to routing one after the other.
abbrev pub transmitting : List Packet → List Output → List Output
transmitting [] out = out
transmitting (p ∷ ps) out = transmitting ps (Output.transmitted p ∷ out)

-- The first entry, if any, has the number s.
abbrev Starts : ℕ → List TxEntry → Type 0
Starts s [] = Unit {0}
Starts s (e ∷ q) = e.seq ≡ s

module _ {D : Type 0} where
  -- The first entry of the queue is data on the wire, and the far end's flow control does not
  -- hold it up.
  pub record Due (e : TxEntry) (c : Link D) : Type 0 where
    pub sent : e.sent ≡ true
    pub is_data : e.is_data ≡ true
    pub xon : c.xon ≡ true
    pub segments : (c.flow ≢ svc_seg) ⊎ (e.segnum ≤ c.max_seg)
    pub messages : (c.flow ≢ svc_msg) ⊎ (e.msgnum ≤ c.max_msg)

  -- What a link has sent, where it had the packets from p on to send: p and some that follow.
  abbrev pub Sends : Packet → Link D → Link D → Type 0
  Sends p c d =
      (first : List Packet) × (rest : List Packet) × (d.out ≡ transmitting (p ∷ first) c.out)
      × (to_send c.txq ≡ p ∷ first ++ rest)

module _ {D : Type 0} (env : Env D) where
  unsent-unsend : (q : List TxEntry) → unsent (unsend env q) ≡ to_send q
  unfolding unsend
  unsent-unsend [] = refl
  unsent-unsend (e ∷ q) = ground (arith, unsent-unsend q)

  Starts-unsend : (s : ℕ) (q : List TxEntry) → Starts s q → Starts s (unsend env q)
  unfolding unsend
  Starts-unsend s [] h = tt
  Starts-unsend s (e ∷ q) h =
      if-cases {A = TxEntry} (λ f. f.seq ≡ s) (e.sent && e.is_data) (λ _. h) (λ _. h)

  Starts-send_loop :
      (s : ℕ) (c : Link D) (timing : Bool) (q : List TxEntry)
      → Starts s q
      → Starts s (send_loop env c timing q).0
  unfolding send_loop
  Starts-send_loop s c timing [] h = tt
  Starts-send_loop s c timing (e ∷ q) h =
      if-cases {A = List TxEntry × List Packet} (λ r. Starts s r.0) e.sent (λ _. h)
        (λ _.
          if-cases {A = List TxEntry × List Packet} (λ r. Starts s r.0) (flow_ok env c e) (λ _. h)
            (λ _. h))

  -- What `send_blocked` sends is what waits, from the front on.
  send_loop-front :
      (c : Link D) (timing : Bool) (q : List TxEntry)
      → (rest : List Packet) × (unsent q ≡ (send_loop env c timing q).1 ++ rest)
  unfolding send_loop flow_ok
  send_loop-front c timing [] = ([], refl)
  send_loop-front c timing (e ∷ q) = elim (Bool-cases e.sent) [
    | inl t ↦ rw t (send_loop-front c timing q)
    | inr t ↦ elim (Bool-cases (flow_ok env c e)) [
      | inl f ↦ let r = send_loop-front c true q in rw (t, f) (r.0, ap (λ l. e.frame ∷ l) r.1)
      | inr f ↦ rw (t, f) (e.frame ∷ unsent q, refl)
    ]
  ]

  -- What a link keeps as it sends.
  record Keeps (ps : List Packet) (c d : Link D) : Type 0 where
    out : d.out ≡ transmitting ps c.out
    txq : d.txq ≡ c.txq
    nak_from : d.nak_from ≡ c.nak_from

  send_all-Keeps : (ps : List Packet) (c : Link D) → Keeps ps c (send_all env ps c)
  unfolding send_all send
  send_all-Keeps [] c = record { out = refl; txq = refl; nak_from = refl }
  send_all-Keeps (p ∷ ps) c =
      let k = send_all-Keeps ps (send p c) in
      record { out = k.out; txq = k.txq; nak_from = k.nak_from }

  settle_send-Keeps : (ps : List Packet) (c : Link D) → Keeps [] c (settle_send env ps c)
  unfolding settle_send start_retransmit_timer arm_timer
  settle_send-Keeps [] c = record { out = refl; txq = refl; nak_from = refl }
  settle_send-Keeps (p ∷ ps) c = record { out = refl; txq = refl; nak_from = refl }

  abbrev loop_of : Link D → List TxEntry × List Packet
  loop_of c = send_loop env c (any_timed env c.txq) c.txq

  send_blocked-Keeps :
      (c : Link D) → Keeps (loop_of c).1 (record c { txq = (loop_of c).0 }) (send_blocked env c)
  unfolding send_blocked
  send_blocked-Keeps c =
      let r = loop_of c in
      let a = send_all-Keeps r.1 (record c { txq = r.0 }) in
      let b = settle_send-Keeps r.1 (send_all env r.1 (record c { txq = r.0 })) in
      record { out = b.out ∙ a.out; txq = b.txq ∙ a.txq; nak_from = b.nak_from ∙ a.nak_from }

  front_settled :
      (q : List TxEntry) (g : Option ℕ) (s : ℕ) (c : Link D)
      → g ≡ some s
      → Starts s q
      → nak_front env q g c ≡ c
  unfolding nak_front
  front_settled [] g s c e h = refl
  front_settled (x ∷ q) none s c e h = cc
  front_settled (x ∷ q) (some t) s c e h =
      let same : t ≡ x.seq = cc in
      if-cases (λ d. d ≡ c) (not x.sent) (λ _. refl)
        (λ _. if-cases (λ d. d ≡ c) (t == x.seq) (λ _. refl) (λ n. absurd (ground (arith, same))))

  resend_settled :
      (s : ℕ) (c : Link D)
      → Starts s c.txq
      → process_nak env (nak_resend env s c) ≡ nak_resend env s c
  unfolding process_nak nak_resend
  resend_settled s c h =
      let k = send_blocked-Keeps _ in
      front_settled _ _ s _ k.nak_from
        (subst (Starts s) (sym k.txq) (Starts-send_loop s _ _ _ (Starts-unsend s c.txq h)))

  idle :
      (q : List TxEntry) (g : Option ℕ) (c : Link D)
      → c.txq ≡ q
      → c.nak_from ≡ g
      → nak_front env q g c ≡ c
      → process_nak env c ≡ c
  unfolding process_nak
  idle q g c e f h = ap₂ (λ a b. nak_front env a b c) e f ∙ h

  front_twice :
      (q : List TxEntry) (g : Option ℕ) (c : Link D)
      → c.txq ≡ q
      → c.nak_from ≡ g
      → process_nak env (nak_front env q g c) ≡ nak_front env q g c
  unfolding nak_front
  front_twice [] g c e f = idle [] g c e f refl
  front_twice (x ∷ q) none c e f =
      if-cases (λ d. process_nak env d ≡ d) (not x.sent)
        (λ u.
          idle (x ∷ q) none c e f
            (if-cases (λ d. d ≡ c) (not x.sent) (λ _. refl) (λ n. absurd (ground (arith, u)))))
        (λ _. resend_settled x.seq c (subst (Starts x.seq) (sym e) refl))
  front_twice (x ∷ q) (some t) c e f =
      if-cases (λ d. process_nak env d ≡ d) (not x.sent)
        (λ u.
          idle (x ∷ q) (some t) c e f
            (if-cases (λ d. d ≡ c) (not x.sent) (λ _. refl) (λ n. absurd (ground (arith, u)))))
        (λ _.
          if-cases (λ d. process_nak env d ≡ d) (t == x.seq)
            (λ u. idle (x ∷ q) (some t) c e f (
              if-cases (λ d. d ≡ c) (not x.sent) (λ _. refl)
                (λ _.
                  if-cases (λ d. d ≡ c) (t == x.seq) (λ _. refl)
                    (λ n. absurd (ground (arith, u))))))
            (λ _. resend_settled x.seq c (subst (Starts x.seq) (sym e) refl)))

  -- A second negative acknowledgement of the same gap changes nothing: process_nak twice is
  -- process_nak once, for any link.
  pub process_nak-twice : (c : Link D) → process_nak env (process_nak env c) ≡ process_nak env c
  unfolding process_nak
  process_nak-twice c = front_twice c.txq c.nak_from c refl refl

  front_inside :
      (e : TxEntry) (q : List TxEntry) (c : Link D)
      → c.txq ≡ e ∷ q
      → e.segnum + width c ≤ 2 ^ 32
      → e.segnum ≤ max_queue env c
  unfolding max_queue
  front_inside e q c t small = rw t (omega (arith, window-pos env c, window-le env c))

  flow_ok-admits :
      (e : TxEntry) (q : List TxEntry) (c : Link D)
      → c.txq ≡ e ∷ q
      → c.xon ≡ true
      → (c.flow ≢ svc_seg) ⊎ (e.segnum ≤ c.max_seg)
      → (c.flow ≢ svc_msg) ⊎ (e.msgnum ≤ c.max_msg)
      → e.segnum + width c ≤ 2 ^ 32
      → flow_ok env c e ≡ true
  unfolding flow_ok
  flow_ok-admits e q c t x seg msg small = ground (arith, front_inside e q c t small)

  loop_starts :
      (c : Link D) (timing : Bool) (x : TxEntry) (q : List TxEntry)
      → x.sent ≡ false
      → flow_ok env c x ≡ true
      → (send_loop env c timing (x ∷ q)).1 ≡ x.frame ∷ (send_loop env c true q).1
  unfolding send_loop
  loop_starts c timing x q u f =
      if-cases {A = List TxEntry × List Packet} (λ r. r.1 ≡ x.frame ∷ (send_loop env c true q).1)
        x.sent (λ t. absurd (ground (arith, u)))
        (λ _.
          if-cases {A = List TxEntry × List Packet}
            (λ r. r.1 ≡ x.frame ∷ (send_loop env c true q).1) (flow_ok env c x) (λ _. refl)
            (λ n. absurd (ground (arith, f, n))))

  -- Where the packet at the front waits and may go, it goes, and the ones that follow go in order.
  blocked_sends :
      (x : TxEntry) (q : List TxEntry) (c : Link D)
      → c.txq ≡ x ∷ q
      → x.sent ≡ false
      → flow_ok env c x ≡ true
      → (first : List Packet) × (rest : List Packet) × ((send_blocked env c).out
          ≡ transmitting (x.frame ∷ first) c.out)
        × (unsent c.txq ≡ x.frame ∷ first ++ rest)
  blocked_sends x q c t u f =
      let loop =
        ap (λ l. (send_loop env c (any_timed env c.txq) l).1) t ∙ loop_starts c _ x q u f in
      let r = send_loop-front c (any_timed env c.txq) c.txq in
      (
        (send_loop env c true q).1,
        r.0,
        (send_blocked-Keeps c).out ∙ ap (λ ps. transmitting ps c.out) loop,
        r.1 ∙ ap (λ ps. ps ++ r.0) loop,
      )

  unsend-front :
      (e : TxEntry) (q l : List TxEntry)
      → l ≡ e ∷ q
      → e.sent ≡ true
      → e.is_data ≡ true
      → unsend env l ≡ record e { sent = false; txtime = 0 } ∷ unsend env q
  unfolding unsend
  unsend-front e q l t s d =
      ap (unsend env) t
      ∙ if-cases (λ f. f ∷ unsend env q ≡ record e { sent = false; txtime = 0 } ∷ unsend env q)
          (e.sent && e.is_data) (λ _. refl) (λ n. absurd (ground (arith, s, d, n)))

  nak_resend-Sends :
      (e : TxEntry) (q : List TxEntry) (c : Link D)
      → c.txq ≡ e ∷ q
      → Due e c
      → e.segnum + width c ≤ 2 ^ 32
      → Sends e.frame c (nak_resend env e.seq c)
  unfolding nak_resend
  nak_resend-Sends e q c t due small =
      let front = unsend-front e q c.txq t due.sent due.is_data in
      let r =
        blocked_sends _ (unsend env q) _ front refl
          (flow_ok-admits _ (unsend env q) _ front due.xon due.segments due.messages small) in
      (r.0, r.1, r.2, sym (unsent-unsend c.txq) ∙ r.3)

  front_small :
      (k next : ℕ) (e : TxEntry) (q : List TxEntry)
      → e.is_data ≡ true
      → Numbered k (e ∷ q) next
      → e.segnum ≤ next
  front_small k next e q d (inl (x, s, n)) = omega (arith, Numbered-le (suc k) next q n)
  front_small k next e q d (inr (x, s, n)) = absurd (ground (arith, d, x))

  front-Sends :
      (g : Option ℕ) (e : TxEntry) (q : List TxEntry) (c : Link D)
      → e.sent ≡ true
      → g ≢ some e.seq
      → Sends e.frame c (nak_resend env e.seq c)
      → Sends e.frame c (nak_front env (e ∷ q) g c)
  unfolding nak_front
  front-Sends none e q c s n r =
      if-cases (Sends e.frame c) (not e.sent) (λ u. absurd (ground (arith, s, u))) (λ _. r)
  front-Sends (some t) e q c s n r =
      if-cases (Sends e.frame c) (not e.sent) (λ u. absurd (ground (arith, s, u)))
        (λ _.
          if-cases (Sends e.frame c) (t == e.seq) (λ u. absurd (n (ap some ((==_iff t e.seq).0 u))))
            (λ _. r))

  -- Where the window invariant holds and the first packet of the queue is data on the wire that
  -- the far end's flow control lets out, and that is not the gap resent already, process_nak sends
  -- it again, and behind it, in order and without a gap, none or more of the packets that follow
  -- in the queue and are data or not on the wire; and it keeps to the window.
  pub process_nak-Sends :
      (k : ℕ) (e : TxEntry) (q : List TxEntry) (c : Link D)
      → Window k c
      → c.txq ≡ e ∷ q
      → c.nak_from ≢ some e.seq
      → Due e c
      → Sends e.frame c (process_nak env c) × Window k (process_nak env c)
  unfolding process_nak
  process_nak-Sends k e q c w t n due =
      let numbered = subst (λ l. Numbered k l c.next_segnum) t w.numbered in
      let bound = front_small k c.next_segnum e q due.is_data numbered in
      let small : e.segnum + width c ≤ 2 ^ 32 = omega (arith, bound, w.small) in
      (
        subst (λ l. Sends e.frame c (nak_front env l c.nak_from c)) (sym t)
            (front-Sends c.nak_from e q c due.sent n (nak_resend-Sends e q c t due small)),
        process_nak-Window env k c w,
      )
