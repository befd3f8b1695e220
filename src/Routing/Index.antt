-- ===== src/Routing/Index.antt =====
-- The checksum as the key of a routing message's format, and the message read back.
use cppdecnet.Prelude.{
  ℕ, zero, suc, ◌+◌, ◌-◌, ◌*◌, ◌/◌, ◌%◌, ◌^◌, ◌≤◌, ◌<◌, ◌≡◌, refl, sym, ap, ◌∙◌, Bool, true, false,
  some, List, [], ◌∷◌, ◌++◌, ltb, ◌==◌, if◌then◌else◌, length, take, drop, arith, length-append,
}
use cppdecnet.Routing.Message.{
  Header, RouteSegment, ok, sum_words, ones_complement_sum, to_words, of_words, payload_words,
  complement_last, index_key, encode_header, decode_flags, drop_last, decode_header, append_body,
  decode_segments, decode_ph4, segment_words, encode_ph4, encode_ph3, decode_ph3, fold_carry,
}
use native.Mathlib.Nat.{add_comm}

abbrev pub total : List ℕ → ℕ
total [] = 0
total (w ∷ ws) = w + total ws

sum_words_lem : (ws : List ℕ) (s : ℕ) → s + total ws < 2 ^ 32 → sum_words ws s ≡ s + total ws
unfolding sum_words
sum_words_lem [] s h = omega arith
sum_words_lem (w ∷ ws) s h =
    let e : (s + w) % 2 ^ 32 ≡ s + w = omega arith in
    rw e (sum_words_lem ws (s + w) (omega arith) ∙ omega arith)

total-append : (ws : List ℕ) (c : ℕ) → total (ws ++ c ∷ []) ≡ total ws + c
total-append [] c = omega arith
total-append (w ∷ ws) c = omega (arith, total-append ws c)

complement_last-append :
    (ws : List ℕ) (c : ℕ) → complement_last (ws ++ c ∷ []) ≡ ws ++ (0xffff - c) ∷ []
unfolding complement_last
complement_last-append [] c = refl
complement_last-append (w ∷ []) c = refl
complement_last-append (w ∷ x ∷ ws) c = ap (λ l. w ∷ l) (complement_last-append (x ∷ ws) c)

drop_last-append : (ws : List ℕ) (c : ℕ) → drop_last (ws ++ c ∷ []) ≡ ws
unfolding drop_last
drop_last-append [] c = refl
drop_last-append (w ∷ []) c = refl
drop_last-append (w ∷ x ∷ ws) c = ap (λ l. w ∷ l) (drop_last-append (x ∷ ws) c)

word_lem : (w : ℕ) → w % 256 + w / 256 * 256 ≡ w
word_lem w = omega arith

to_words-of_words : (ws : List ℕ) → to_words (of_words ws) ≡ some ws
unfolding to_words of_words
to_words-of_words [] = refl
to_words-of_words (w ∷ ws) =
    let e : w % 256 + w / 256 * 256 ≡ w = omega arith in rw (to_words-of_words ws, e) refl

of_words-append : (ws vs : List ℕ) → of_words (ws ++ vs) ≡ of_words ws ++ of_words vs
unfolding of_words
of_words-append [] vs = refl
of_words-append (w ∷ ws) vs = ap (λ l. w % 256 ∷ w / 256 ∷ l) (of_words-append ws vs)

-- The fold of a sum with the complement of the sum's own fold, for either seed.
key_one :
    (s : ℕ)
    → s + 1 < 2 ^ 32
    → fold_carry (fold_carry (s + (0xffff - fold_carry (fold_carry (s + 1)) % 0x1_0000))) % 0x1_0000
      ≡ 0xfffe
key_one s h = omega arith

key_zero :
    (s : ℕ)
    → s < 2 ^ 32
    → fold_carry (fold_carry (s + (0xffff - fold_carry (fold_carry s) % 0x1_0000))) % 0x1_0000
      ≡ 0xffff
key_zero s h = omega arith

abbrev seal : List ℕ → ℕ → List ℕ
seal ws seed = ws ++ ones_complement_sum ws seed ∷ []

append_body_lem : (ws : List ℕ) (seed : ℕ) → append_body ws seed ≡ of_words (seal ws seed)
unfolding append_body
append_body_lem ws seed = sym (of_words-append ws (ones_complement_sum ws seed ∷ []))

payload_words-lem :
    (a b c d : ℕ) (ws : List ℕ) (e : ℕ)
    → payload_words (a ∷ b ∷ c ∷ d ∷ of_words (ws ++ e ∷ [])) ≡ ok (ws ++ e ∷ [])
unfolding payload_words of_words to_words
payload_words-lem a b c d [] e = rw (word_lem e) refl
payload_words-lem a b c d (w ∷ ws) e = rw (to_words-of_words (ws ++ e ∷ []), word_lem w) refl

words_lem :
    (h : Header) (ws : List ℕ) (seed : ℕ)
    → payload_words (encode_header h ++ append_body ws seed) ≡ ok (seal ws seed)
unfolding encode_header
words_lem h ws seed = rw (append_body_lem ws seed) (payload_words-lem _ _ _ _ ws _)

sealed_key :
    (ws : List ℕ) (seed : ℕ)
    → total ws + seed + 0xffff < 2 ^ 32
    → ones_complement_sum (complement_last (seal ws seed)) 0
      ≡ fold_carry
          (fold_carry (total ws + (0xffff - fold_carry (fold_carry (total ws + seed)) % 0x1_0000)))
        % 0x1_0000
unfolding ones_complement_sum
sealed_key ws seed h =
    let c = ones_complement_sum ws seed in
    let f = fold_carry (fold_carry (total ws + seed)) % 0x1_0000 in
    let e : sum_words (ws ++ (0xffff - f) ∷ []) 0 ≡ total ws + (0xffff - f) =
      sum_words_lem (ws ++ (0xffff - f) ∷ []) 0 (omega (arith, total-append ws (0xffff - f)))
      ∙ omega (arith, total-append ws (0xffff - f)) in
    rw
      (
        complement_last-append ws c,
        sum_words_lem ws seed (omega arith) ∙ add_comm seed (total ws),
        e,
      )
      refl

-- The key of an encoded Phase IV routing message is 0xfffe and of an encoded Phase III message
-- 0xffff, so the key tells the formats apart, where the words add up to less than the 32-bit sum
-- holds.
pub index_key-encode :
    (h : Header) (segs : List RouteSegment) (entries : List ℕ)
    → total (segment_words segs) + 0x1_0000 < 2 ^ 32
    → total entries + 0xffff < 2 ^ 32
    → (index_key (encode_ph4 h segs) ≡ ok 0xfffe) × (index_key (encode_ph3 h entries) ≡ ok 0xffff)
unfolding index_key encode_ph4 encode_ph3
index_key-encode h segs entries a b = (
  rw (words_lem h (segment_words segs) 1) (
      ap ok (
        sealed_key (segment_words segs) 1 (omega arith)
        ∙ key_one (total (segment_words segs)) (omega arith))),
  rw (words_lem h entries 0) (ap ok (sealed_key entries 0 (omega arith) ∙ rest entries b)),
)
  where
    rest :
        (es : List ℕ)
        → total es + 0xffff < 2 ^ 32
        → fold_carry
              (fold_carry (total es + (0xffff - fold_carry (fold_carry (total es + 0)) % 0x1_0000)))
            % 0x1_0000
          ≡ 0xffff
    rest es l = omega (arith, key_zero (total es) (omega arith))

abbrev flags_of : Bool → Bool → ℕ → ℕ → ℕ
flags_of control pf t x =
    (if control then 1 else 0) + t % 8 * 2 + x % 8 * 16 + (if pf then 0x80 else 0)

control_bit : (c p : Bool) (t x : ℕ) → flags_of c p t x % 2 == 1 ≡ c
control_bit true p t x = ground arith
control_bit false p t x = ground arith

pf_bit : (c p : Bool) (t x : ℕ) → flags_of c p t x / 0x80 % 2 == 1 ≡ p
pf_bit c true t x = ground arith
pf_bit c false t x = ground arith

type_bits : (c p : Bool) (t x : ℕ) → t < 8 → flags_of c p t x / 2 % 8 ≡ t
type_bits c p t x h = ground arith

ext_bits : (c p : Bool) (t x : ℕ) → x < 8 → flags_of c p t x / 16 % 8 ≡ x
ext_bits c p t x h = ground arith

flags_lem :
    (h : Header)
    → h.type < 8
    → h.ext_type < 8
    → decode_flags (flags_of h.control h.pf h.type h.ext_type) (h.srcnode % 256) (h.srcnode / 256)
      ≡ h
unfolding decode_flags
flags_lem h a b =
    rw
      (
        control_bit h.control h.pf h.type h.ext_type,
        type_bits h.control h.pf h.type h.ext_type a,
        ext_bits h.control h.pf h.type h.ext_type b,
        pf_bit h.control h.pf h.type h.ext_type,
        word_lem h.srcnode,
      )
      refl

take-append {ℓ} : {A : Type ℓ} (xs ys : List A) → take (length xs) (xs ++ ys) ≡ xs
take-append [] ys = refl
take-append (x ∷ xs) ys = ap (λ l. x ∷ l) (take-append xs ys)

drop-append {ℓ} : {A : Type ℓ} (xs ys : List A) → drop (length xs) (xs ++ ys) ≡ ys
drop-append [] ys = refl
drop-append (x ∷ xs) ys = drop-append xs ys

-- A segment that the router accepts, with as many entries as its count holds.
abbrev pub All {ℓ} : {A : Type ℓ} → (A → Type 0) → List A → Type 0
All P [] = Unit {0}
All P (x ∷ xs) = P x × All P xs

abbrev pub Fits : (RouteSegment → Bool) → RouteSegment → Type 0
Fits valid s = (valid s ≡ true) × (length s.entries < 2 ^ 16)

segments_lem :
    (valid : RouteSegment → Bool) (segs : List RouteSegment) (fuel : ℕ)
    → length (segment_words segs) ≤ fuel
    → All (Fits valid) segs
    → decode_segments valid fuel (segment_words segs) ≡ ok segs
unfolding decode_segments segment_words
segments_lem valid [] fuel h all = refl
segments_lem valid (s ∷ segs) zero h all = absurd (omega arith)
segments_lem valid (s ∷ segs) (suc fuel) h ((v, l), all) =
    let m : length s.entries % 2 ^ 16 ≡ length s.entries = omega arith in
    let n : length (s.entries ++ segment_words segs)
        ≡ length s.entries + length (segment_words segs) =
      length-append s.entries _ in
    let e : ltb (length (s.entries ++ segment_words segs)) (length s.entries) ≡ false =
      ground (arith, n) in
    let later = segments_lem valid segs fuel (omega (arith, n)) all in
    rw
      (
        m,
        e,
        take-append s.entries (segment_words segs),
        drop-append s.entries (segment_words segs),
        v,
        later,
      )
      refl

decode_lem :
    (h : Header) (w : ℕ) (ws : List ℕ) (seed : ℕ)
    → h.type < 8
    → h.ext_type < 8
    → decode_header (encode_header h ++ append_body (w ∷ ws) seed) ≡ ok (h, w ∷ ws)
unfolding decode_header
decode_lem h w ws seed a b =
    rw (words_lem h (w ∷ ws) seed, drop_last-append (w ∷ ws) (ones_complement_sum (w ∷ ws) seed))
      (unfold encode_header in rw (flags_lem h a b) refl)

-- A Phase IV routing message of at least one segment, each valid and of fewer entries than its
-- count holds, reads back as its header and its segments.
pub decode_ph4-encode_ph4 :
    (valid : RouteSegment → Bool) (h : Header) (s : RouteSegment) (segs : List RouteSegment)
    → h.type < 8
    → h.ext_type < 8
    → All (Fits valid) (s ∷ segs)
    → decode_ph4 valid (encode_ph4 h (s ∷ segs)) ≡ ok (h, s ∷ segs)
unfolding decode_ph4 encode_ph4 segment_words
decode_ph4-encode_ph4 valid h s segs a b all =
    rw
      (
        decode_lem h _ _ 1 a b,
        segments_lem valid (s ∷ segs) (length (segment_words (s ∷ segs))) (omega arith) all,
      )
      refl

-- A Phase III routing message of at least one entry reads back as its header and its entries.
pub decode_ph3-encode_ph3 :
    (h : Header) (e : ℕ) (entries : List ℕ)
    → h.type < 8
    → h.ext_type < 8
    → decode_ph3 (encode_ph3 h (e ∷ entries)) ≡ ok (h, e ∷ entries)
unfolding decode_ph3 encode_ph3
decode_ph3-encode_ph3 h e entries a b = decode_lem h e entries 0 a b
