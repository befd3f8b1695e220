-- ===== src/Multinet/Cuts.antt =====
-- Multinet messages across the reads that carry them.
use cppdecnet.Prelude.{
  ℕ, zero, suc, ◌+◌, ◌*◌, ◌%◌, ◌/◌, ◌<◌, ◌≤◌, ◌≡◌, refl, sym, ap, ap₂, subst, ◌∙◌, Option, none,
  some, List, [], ◌∷◌, ◌++◌, ltb, if-cases, arith, length, take, drop, length-append,
}
use cppdecnet.Multinet

abbrev pub wire : List (List ℕ) → List ℕ
wire [] = []
wire (m ∷ ms) = Multinet.frame m ++ wire ms

-- Each message is one that `send` accepts.
abbrev pub AllFit : List (List ℕ) → Type 0
AllFit [] = Unit {0}
AllFit (m ∷ ms) = (length m < 65536) × AllFit ms

abbrev pub joined : List (List ℕ) → List ℕ
joined [] = []
joined (r ∷ rs) = r ++ joined rs

append-cut :
    (q s m w : List ℕ)
    → q ++ s ≡ m ++ w
    → length m ≤ length q
    → (take (length m) q ≡ m) × (drop (length m) q ++ s ≡ w)
append-cut q s [] w e h = (refl, e)
append-cut [] s (x ∷ m) w e h = absurd (omega arith)
append-cut (y ∷ q) s (x ∷ m) w e h =
    let ih = append-cut q s m w (cc) (omega arith) in (ap₂ (λ a l. a ∷ l) (cc) ih.0, ih.1)

-- What a round leaves, where a frame of m and then w are what it was to find: q, short of n bytes.
abbrev pub Taken : ℕ → List ℕ → List ℕ → List ℕ → Option (List ℕ × List ℕ) → Type 0
Taken n m s w none = Unit {0}
Taken n m s w (some (msg, q)) = (msg ≡ m) × (q ++ s ≡ w) × (length q < n)

length-drop : (n : ℕ) (xs : List ℕ) → length (drop n xs) ≤ length xs
length-drop zero xs = omega arith
length-drop (suc n) [] = omega arith
length-drop (suc n) (x ∷ xs) = omega (arith, length-drop n xs)

take_body-Taken :
    (q s m w : List ℕ)
    → q ++ s ≡ m ++ w
    → Taken (suc (length q)) m s w (Multinet.take_body (length m) q)
unfolding Multinet.take_body
take_body-Taken q s m w e =
    if-cases (λ o. Taken (suc (length q)) m s w o) (ltb (length q) (length m)) (λ r. tt)
      (λ r.
        let c = append-cut q s m w e (ground arith) in
        (c.0, c.1, omega (arith, length-drop (length m) q)))

Taken-more :
    (n k : ℕ) (m s w : List ℕ) (o : Option (List ℕ × List ℕ))
    → n ≤ k
    → Taken n m s w o
    → Taken k m s w o
Taken-more n k m s w none h t = tt
Taken-more n k m s w (some (msg, q)) h t = (t.0, t.1, omega arith)

take_frame-Taken :
    (p s m w : List ℕ)
    → length m < 65536
    → p ++ s ≡ Multinet.frame m ++ w
    → Taken (length p) m s w (Multinet.take_frame p)
unfolding Multinet.take_frame Multinet.frame
take_frame-Taken [] s m w h e = tt
take_frame-Taken (b0 ∷ []) s m w h e = tt
take_frame-Taken (b0 ∷ b1 ∷ []) s m w h e = tt
take_frame-Taken (b0 ∷ b1 ∷ b2 ∷ []) s m w h e = tt
take_frame-Taken (b0 ∷ b1 ∷ b2 ∷ b3 ∷ q) s m w h e =
    let low : b0 ≡ length m % 256 = cc in
    let high : b1 ≡ length m / 256 % 256 = cc in
    let same : q ++ s ≡ m ++ w = cc in
    let count : length m ≡ b0 + b1 * 256 = omega arith in
    subst (λ n. Taken (suc (suc (suc (suc (length q))))) m s w (Multinet.take_body n q)) count
      (Taken-more (suc (length q)) (suc (suc (suc (suc (length q))))) m s w
        (Multinet.take_body (length m) q) (omega arith) (take_body-Taken q s m w same))

-- What a read leaves of the messages to come: the ones it passed up, and the others, which the tail
-- and the rest of the stream hold.
pub record Split (s : List ℕ) (msgs : List (List ℕ)) (r : List (List ℕ) × List ℕ) : Type 0 where
  later : List (List ℕ)
  both : msgs ≡ r.0 ++ later
  held : r.1 ++ s ≡ wire later
  part : Multinet.take_frame r.1 ≡ none

pass_up-Split :
    (more : List ℕ → List (List ℕ) × List ℕ) (n : ℕ) (p s m : List ℕ) (ms : List (List ℕ))
    (o : Option (List ℕ × List ℕ))
    → ((q : List ℕ) → length q ≤ n → q ++ s ≡ wire ms → Split s ms (more q))
    → length p ≤ suc n
    → p ++ s ≡ wire (m ∷ ms)
    → Multinet.take_frame p ≡ o
    → Taken (length p) m s (wire ms) o
    → Split s (m ∷ ms) (Multinet.pass_up more p o)
unfolding Multinet.pass_up
pass_up-Split more n p s m ms none ih h e t k = record {
  later = m ∷ ms;
  both = refl;
  held = e;
  part = t;
}
pass_up-Split more n p s m ms (some (msg, q)) ih h e t k =
    let r = ih q (let l = k.2 in omega arith) k.1 in
    record {
      later = r.later;
      both = ap₂ (λ a l. a ∷ l) (sym k.0) r.both;
      held = r.held;
      part = r.part;
    }

whole_frames-Split :
    (n : ℕ) (p s : List ℕ) (msgs : List (List ℕ))
    → length p ≤ n
    → AllFit msgs
    → p ++ s ≡ wire msgs
    → Split s msgs (Multinet.whole_frames n p)
unfolding Multinet.whole_frames Multinet.take_frame Multinet.pass_up
whole_frames-Split zero [] s msgs h f e = record {
  later = msgs;
  both = refl;
  held = e;
  part = refl;
}
whole_frames-Split zero (b ∷ p) s msgs h f e = absurd (omega arith)
whole_frames-Split (suc n) [] s [] h f e = record { later = []; both = refl; held = e; part = refl }
whole_frames-Split (suc n) (b ∷ p) s [] h f e = absurd (let l = ap length e in omega arith)
whole_frames-Split (suc n) p s (m ∷ ms) h f e =
    pass_up-Split (Multinet.whole_frames n) n p s m ms (Multinet.take_frame p)
      (λ q l k. whole_frames-Split n q s ms l f.1 k) h e refl
      (take_frame-Taken p s m (wire ms) f.0 e)

AllFit-later : (done bs : List (List ℕ)) → AllFit (done ++ bs) → AllFit bs
AllFit-later [] bs f = f
AllFit-later (a ∷ done) bs f = AllFit-later done bs f.1

pub append_assoc : (xs ys zs : List ℕ) → (xs ++ ys) ++ zs ≡ xs ++ (ys ++ zs)
append_assoc [] ys zs = refl
append_assoc (x ∷ xs) ys zs = ap (λ l. x ∷ l) (append_assoc xs ys zs)

pub append_nil : (xs : List ℕ) → xs ++ [] ≡ xs
append_nil [] = refl
append_nil (x ∷ xs) = ap (λ l. x ∷ l) (append_nil xs)

-- A tail that is the frames of the messages to come is no frame's part: there are none.
wire-nil : (msgs : List (List ℕ)) → AllFit msgs → Multinet.take_frame (wire msgs) ≡ none → msgs ≡ []
unfolding Multinet.take_frame Multinet.frame Multinet.take_body
wire-nil [] f e = refl
wire-nil (m ∷ ms) f e =
    let short = length m in
    if-cases (λ o. o ≡ none → m ∷ ms ≡ [])
      (ltb (length (m ++ wire ms)) (short % 256 + short / 256 % 256 * 256))
      (λ b n. absurd (let l = length-append m (wire ms) in let k = f.0 in ground arith))
      (λ b n. absurd (cc)) e

receive_loop-tail :
    (tail : List ℕ) (reads : List (List ℕ)) (msgs : List (List ℕ))
    → AllFit msgs
    → Multinet.take_frame tail ≡ none
    → tail ++ joined reads ≡ wire msgs
    → Multinet.receive_loop tail reads ≡ (msgs, [])
unfolding Multinet.receive_loop Multinet.read_frames
receive_loop-tail tail [] msgs f t e =
    let same = sym (append_nil tail) ∙ e in
    let nil = wire-nil msgs f (ap Multinet.take_frame (sym same) ∙ t) in
    ap₂ (λ a b. (a, b)) (sym nil) (same ∙ ap wire nil)
receive_loop-tail tail (got ∷ reads) msgs f t e =
    let p = tail ++ got in
    let c =
      whole_frames-Split (length p) p (joined reads) msgs (omega arith) f
        (append_assoc tail got (joined reads) ∙ e) in
    let r = Multinet.whole_frames (length p) p in
    let i =
      receive_loop-tail r.1 reads c.later (AllFit-later r.0 c.later (subst AllFit c.both f)) c.part
        c.held in
    ap (λ x. (r.0 ++ x.0, x.1)) i ∙ ap (λ l. (l, [])) (sym c.both)

-- Messages of less than 2^16 bytes each, framed one behind another and read in pieces of any
-- sizes, headers cut or not, are passed up whole and in order, each once, and nothing is left
-- over.
pub receive_loop-wire :
    (msgs reads : List (List ℕ))
    → AllFit msgs
    → joined reads ≡ wire msgs
    → Multinet.receive_loop [] reads ≡ (msgs, [])
unfolding Multinet.take_frame
receive_loop-wire msgs reads f e = receive_loop-tail [] reads msgs f refl e
