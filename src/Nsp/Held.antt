-- ===== src/Nsp/Held.antt =====
-- Segments that are held out of order.
use cppdecnet.Prelude.{
  ℕ, suc, ◌+◌, ◌%◌, ◌≤◌, ◌<◌, ◌≡◌, ◌≢◌, sym, ap, subst, ◌⊎◌, inl, inr, false, none, some, List, [],
  ◌∷◌, arith, length, ◌==◌, Bool-cases,
}
use cppdecnet.Modulo.{add}
use cppdecnet.Nsp.Packets.{DataSeg}
use cppdecnet.Nsp.Link.{seq_next}
use cppdecnet.Nsp.Receive.{find, erase}

abbrev pub Carries : (ℕ → DataSeg) → ℕ → DataSeg → Type 0
Carries stream k s = (s.msgflag ≡ (stream k).msgflag) × (s.payload ≡ (stream k).payload)

-- What is held is ahead of the first n segments, by less than half the sequence space.
abbrev pub Held : (ℕ → DataSeg) → ℕ → List (ℕ × DataSeg) → Type 0
Held stream n [] = Unit {0}
Held stream n ((key, s) ∷ m) =
    ((k : ℕ) × (n < k) × (k ≤ n + 2048) × (key ≡ k % 4096) × Carries stream k s) × Held stream n m

pub erase-Held :
    (stream : ℕ → DataSeg) (n : ℕ) (m : List (ℕ × DataSeg))
    → Held stream n m
    → Held stream (suc n) (erase (suc n % 4096) m)
unfolding erase
erase-Held stream n [] hs = tt
erase-Held stream n ((key, s) ∷ m) ((k, lo, hi, e, c), hs) =
    elim (Bool-cases (key == suc n % 4096)) [
      | inl hit ↦ rw hit (erase-Held stream n m hs)
      | inr miss ↦ rw miss ((k, ground arith, omega arith, e, c), erase-Held stream n m hs)
    ]

-- Nothing is held under the number that is expected: all of it is beyond.
pub beyond :
    (stream : ℕ → DataSeg) (n : ℕ) (m : List (ℕ × DataSeg))
    → find (suc n % 4096) m ≡ none
    → Held stream n m
    → Held stream (suc n) m
unfolding find
beyond stream n [] f hs = tt
beyond stream n ((key, s) ∷ m) f ((k, lo, hi, e, c), hs) = elim (Bool-cases (key == suc n % 4096)) [
  | inl hit ↦ cc (rw hit at f)
  | inr miss ↦ ((k, ground arith, omega arith, e, c), beyond stream n m (rw miss at f) hs)
]

pub find-Carries :
    (stream : ℕ → DataSeg) (n : ℕ) (m : List (ℕ × DataSeg)) (t : DataSeg)
    → find (suc n % 4096) m ≡ some t
    → Held stream n m
    → Carries stream (suc n) t
unfolding find
find-Carries stream n [] t f hs = cc
find-Carries stream n ((key, s) ∷ m) t f ((k, lo, hi, e, c), hs) =
    elim (Bool-cases (key == suc n % 4096)) [
      | inl hit ↦
          let same : k ≡ suc n = ground arith in
          let found : some s ≡ some t = rw hit at f in ground (arith, found, ap stream same)
      | inr miss ↦ find-Carries stream n m t (rw miss at f) hs
    ]

pub length-erase-le : (k : ℕ) (m : List (ℕ × DataSeg)) → length (erase k m) ≤ length m
unfolding erase
length-erase-le k [] = omega arith
length-erase-le k ((j, s) ∷ m) = ground (arith, length-erase-le k m)

pub length-erase-lt :
    (k : ℕ) (m : List (ℕ × DataSeg)) (t : DataSeg)
    → find k m ≡ some t
    → length (erase k m) < length m
unfolding find erase
length-erase-lt k [] t f = cc
length-erase-lt k ((j, s) ∷ m) t f = ground (arith, length-erase-le k m, length-erase-lt k m t)

pub keep-Held :
    (stream : ℕ → DataSeg) (m : ℕ) (old new : List (ℕ × DataSeg))
    → Held stream m old
    → (new ≡ old) ⊎ (new ≡ [])
    → Held stream m new
keep-Held stream m old new hs (inl e) = subst (Held stream m) (sym e) hs
keep-Held stream m old new hs (inr e) = subst (Held stream m) (sym e) tt

pub seq_next-mod : (n : ℕ) → seq_next (n % 4096) ≡ suc n % 4096
unfolding add
seq_next-mod n = omega arith

pub differ : (a b : ℕ) → (a == b) ≡ false → a ≢ b
differ a b h e = ground arith

pub numbers_differ :
    (n k number expected : ℕ)
    → number ≡ k % 4096
    → expected ≡ suc n % 4096
    → n < k
    → k ≤ n + 2048
    → (k == suc n) ≡ false
    → (number == expected) ≡ false
numbers_differ n k number expected a b lo hi ne = ground arith
