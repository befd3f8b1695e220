-- ===== src/Nsp/Segments.antt =====
-- Segmentation (send_segments of src/nsp/nsp.cc) against reassembly.
use cppdecnet.Prelude.{
  ℕ, zero, suc, ◌≤◌, ◌<◌, ◌≡◌, refl, ap, ◌∙◌, ◌⊎◌, inl, inr, Bool, true, false, List, [], ◌∷◌, ◌++◌,
  arith, if◌then◌else◌, length, leb, leb→le, min, take, drop, take-append-drop, length-drop,
  Bool-cases, ◌==◌,
}
use cppdecnet.Nsp.Packets.{Packet, data_seg}
use cppdecnet.Nsp.Link.{Link, Env, TxEntry, mss}
use cppdecnet.Nsp.Transmit.{
  queue_segment, segment_loop, send_segments, send_blocked, send_loop, send_all, settle_send,
}
use cppdecnet.Nsp.Reassembly.{Reassembly, feed}
use mathlib.Core.List.{append_assoc}

-- The frames of a queue, in order, in the hands of the far end's reassembly.
abbrev pub feed_packet : Packet → Reassembly → Reassembly
feed_packet (data_seg s) r = feed s r
feed_packet _ r = r

pub fed_queue : List TxEntry → Reassembly → Reassembly
fed_queue [] r = r
fed_queue (e ∷ q) r = fed_queue q (feed_packet e.frame r)

fed_queue-append :
    (q t : List TxEntry) (r : Reassembly) → fed_queue (q ++ t) r ≡ fed_queue t (fed_queue q r)
unfolding fed_queue
fed_queue-append [] t r = refl
fed_queue-append (e ∷ q) t r = fed_queue-append q t (feed_packet e.frame r)

-- What is left of the message completes what has been put together of it.
abbrev pub completed : Bool → List ℕ → Reassembly → Reassembly
completed first rest r = record {
  buffer = [];
  started = false;
  messages = ((if first then [] else r.buffer) ++ rest) ∷ r.messages;
}

take_all : (n : ℕ) (xs : List ℕ) → length xs ≤ n → take n xs ≡ xs
take_all zero [] h = refl
take_all zero (x ∷ xs) h = absurd (omega arith)
take_all (suc n) [] h = refl
take_all (suc n) (x ∷ xs) h = ap (◌∷◌ x) (take_all n xs (omega arith))

not_le : (a b : ℕ) → leb a b ≡ false → b < a
not_le a b h = ground arith

module _ {D : Type 0} (env : Env D) where
  queue_segment_last :
      (payload : List ℕ) (first : Bool) (c : Link D) (r : Reassembly)
      → (first ≡ true) ⊎ ((fed_queue c.txq r).started ≡ true)
      → fed_queue (queue_segment env payload first true c).txq r
        ≡ completed first payload (fed_queue c.txq r)
  queue_segment_last payload first c r ok =
      unfold queue_segment in (fed_queue-append c.txq _ r ∙ unfold fed_queue in ground arith)

  queue_segment_more :
      (payload : List ℕ) (first : Bool) (c : Link D) (r : Reassembly)
      → (first ≡ true) ⊎ ((fed_queue c.txq r).started ≡ true)
      → let before = fed_queue c.txq r in
        fed_queue (queue_segment env payload first false c).txq r ≡ record before {
          buffer = (if first then [] else before.buffer) ++ payload;
          started = true;
        }
  queue_segment_more payload first c r ok =
      unfold queue_segment in (fed_queue-append c.txq _ r ∙ unfold fed_queue in ground arith)

  segment_loop-completed :
      (fuel limit : ℕ) (rest : List ℕ) (first : Bool) (c : Link D) (r : Reassembly)
      → length rest < fuel
      → 0 < limit
      → (first ≡ true) ⊎ ((fed_queue c.txq r).started ≡ true)
      → fed_queue (segment_loop env fuel limit rest first c).txq r
        ≡ completed first rest (fed_queue c.txq r)
  unfolding segment_loop
  segment_loop-completed zero limit rest first c r room pos ok = absurd (omega arith)
  segment_loop-completed (suc fuel) limit rest first c r room pos ok =
      let n = min limit (length rest) in
      let before = fed_queue c.txq r in
      elim (Bool-cases (leb (length rest) n)) [
        | inl last ↦ rw last (
            queue_segment_last (take n rest) first c r ok
            ∙ ap (λ p. completed first p before) (take_all n rest (leb→le (length rest) n last)))
        | inr more ↦ rw more (
            segment_loop-completed fuel limit (drop n rest) false
              (queue_segment env (take n rest) first false c) r
              (omega (arith, length-drop n rest, not_le (length rest) n more)) pos
              (inr (
                ap (λ (x : Reassembly). x.started) (queue_segment_more (take n rest) first c r ok)))
            ∙ ap (completed false (drop n rest)) (queue_segment_more (take n rest) first c r ok)
            ∙ ap
                (λ (m : List ℕ). record {
                  buffer = [];
                  started = false;
                  messages = m ∷ before.messages;
                })
                (append_assoc (if first then [] else before.buffer) (take n rest) (drop n rest)
                  ∙ ap (λ (l : List ℕ). (if first then [] else before.buffer) ++ l)
                      (take-append-drop n rest)))
      ]

  -- Sending changes no frame of the queue and none of its order.
  send_loop-fed :
      (c : Link D) (timing : Bool) (q : List TxEntry) (r : Reassembly)
      → fed_queue (send_loop env c timing q).0 r ≡ fed_queue q r
  unfolding send_loop fed_queue
  send_loop-fed c timing [] r = refl
  send_loop-fed c timing (e ∷ q) r = ground (
    arith,
    send_loop-fed c timing q (feed_packet e.frame r),
    send_loop-fed c true q (feed_packet e.frame r),
  )

  settle_send-txq : (ps : List Packet) (c : Link D) → (settle_send env ps c).txq ≡ c.txq
  unfolding settle_send
  settle_send-txq [] c = refl
  settle_send-txq (p ∷ ps) c = refl

  send_all-txq : (ps : List Packet) (c : Link D) → (send_all env ps c).txq ≡ c.txq
  unfolding send_all
  send_all-txq [] c = refl
  send_all-txq (p ∷ ps) c = send_all-txq ps _

  send_blocked-fed :
      (c : Link D) (r : Reassembly) → fed_queue (send_blocked env c).txq r ≡ fed_queue c.txq r
  unfolding send_blocked
  send_blocked-fed c r =
      ap (λ q. fed_queue q r) (settle_send-txq _ _ ∙ send_all-txq _ _) ∙ send_loop-fed c _ c.txq r

  -- The frames that send_segments leaves in the transmit queue, reassembled at the far end,
  -- complete exactly the message that was sent, however it is cut and whatever flow control lets
  -- out now.
  pub send_segments-round_trip :
      (bytes : List ℕ) (c : Link D) (r : Reassembly)
      → fed_queue (send_segments env bytes c).txq r ≡ completed true bytes (fed_queue c.txq r)
  unfolding send_segments
  send_segments-round_trip bytes c r =
      let limit = if c.segsize == 0 then mss else c.segsize in
      send_blocked-fed _ r
      ∙ segment_loop-completed (suc (length bytes)) limit bytes true c r (omega arith)
          (ground arith) (inl refl)
