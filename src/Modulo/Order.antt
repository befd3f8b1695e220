-- ===== src/Modulo/Order.antt =====
-- The order of modulo.h against that of plain numbers.
use cppdecnet.Prelude.{
  ℕ, ◌+◌, ◌-◌, ◌%◌, ◌^◌, ◌≤◌, ◌<◌, ◌≡◌, refl, arith, leb, leb→le, if◌then◌else◌, Bool-cases, ltb,
  ltb→lt, if-cases, ◌∙◌, ap, inl, inr, true, false,
}
use cppdecnet.Modulo.{PartialOrdering, forward, order, lt, wrap}
use native.Mathlib.Nat.{mod-eq_of_lt, mod-eq-sub-mod}

-- The forward distance without a remainder.
pub forward_lem :
    (m a b : ℕ)
    → a < m
    → b < m
    → m ≤ 2 ^ 31
    → forward m a b ≡ (if leb a b then b - a else b + m - a)
unfolding forward
forward_lem m a b ha hb hm = elim (Bool-cases (leb a b)) [
  | inl h ↦ rw (h, inner, mod-eq-sub-mod (le_b h), small h) refl
  | inr h ↦ rw (h, inner, mod-eq_of_lt (lt_m h)) refl
]
  where
    inner : ((b + m) % 2 ^ 32 + 2 ^ 32 - a) % 2 ^ 32 ≡ b + m - a
    inner = omega arith

    le_b : leb a b ≡ true → m ≤ b + m - a
    le_b h = omega (arith, leb→le a b h)

    small : leb a b ≡ true → (b + m - a - m) % m ≡ b - a
    small h = rw (fix h) (mod-eq_of_lt (omega (arith, leb→le a b h)))
      where
        fix : leb a b ≡ true → b + m - a - m ≡ b - a
        fix h = omega (arith, leb→le a b h)

    lt_m : leb a b ≡ false → b + m - a < m
    lt_m h = ground arith

-- Swapping the arguments swaps `less` and `greater`, and keeps the rest.
abbrev pub flip : PartialOrdering → PartialOrdering
flip PartialOrdering.less = PartialOrdering.greater
flip PartialOrdering.equivalent = PartialOrdering.equivalent
flip PartialOrdering.greater = PartialOrdering.less
flip PartialOrdering.unordered = PartialOrdering.unordered

-- Swapping two sequence numbers swaps less and greater and keeps equivalent and unordered, for
-- every modulus from 2 to 2^31.
pub order-flip : (m a b : ℕ) → 2 ≤ m → m ≤ 2 ^ 31 → a < m → b < m → order m b a ≡ flip (order m a b)
unfolding order
order-flip m a b h2 hm ha hb = ground (arith, forward_lem m a b, forward_lem m b a)

-- Absolute numbers at most `maxdelta` apart compare as their remainders do.
pub order-wrap_less :
    (i j : ℕ) → i < j → j ≤ i + 2047 → order 4096 (wrap 4096 i) (wrap 4096 j) ≡ PartialOrdering.less
unfolding order forward wrap
order-wrap_less i j h k = ground arith

pub order-wrap_greater :
    (i j : ℕ)
    → j < i
    → i ≤ j + 2047
    → order 4096 (wrap 4096 i) (wrap 4096 j) ≡ PartialOrdering.greater
unfolding order forward wrap
order-wrap_greater i j h k = ground arith

pub lt-mod_of_lt : (i j : ℕ) → i < j → j ≤ i + 2047 → lt 4096 (i % 4096) (j % 4096) ≡ true
unfolding lt wrap
lt-mod_of_lt i j h k = rw (order-wrap_less i j h k, lt)

pub lt-mod_of_le : (i j : ℕ) → j ≤ i → i ≤ j + 2047 → lt 4096 (i % 4096) (j % 4096) ≡ false
unfolding lt wrap
lt-mod_of_le i j h k = elim (Bool-cases (leb i j)) [
  | inl e ↦ same (omega (arith, leb→le i j e))
  | inr e ↦ rw (order-wrap_greater i j (ground arith) k, lt)
]
  where
    same : i ≡ j → lt 4096 (i % 4096) (j % 4096) ≡ false
    same e = rw e (unfold order in ground arith)

abbrev pub order_of : ℕ → ℕ → PartialOrdering
order_of i j =
    if ltb i j
    then PartialOrdering.less
    else if ltb j i
    then PartialOrdering.greater
    else PartialOrdering.equivalent

order_same : (a : ℕ) → order 4096 a a ≡ PartialOrdering.equivalent
unfolding order
order_same a = ground arith

-- Absolute numbers at most 2047 apart compare, when they are taken modulo 4096, as they do
-- themselves.
pub order-wrap :
    (i j : ℕ) → i ≤ j + 2047 → j ≤ i + 2047 → order 4096 (wrap 4096 i) (wrap 4096 j) ≡ order_of i j
order-wrap i j h k =
    if-cases (λ o. order 4096 (wrap 4096 i) (wrap 4096 j) ≡ o) (ltb i j)
      (λ l. order-wrap_less i j (ltb→lt i j l) k)
      (λ l.
        if-cases (λ o. order 4096 (wrap 4096 i) (wrap 4096 j) ≡ o) (ltb j i)
          (λ g. order-wrap_greater i j (ltb→lt j i g) h)
          (λ g.
            ap (λ x. order 4096 (wrap 4096 i) (wrap 4096 x)) (same i j l g)
            ∙ order_same (wrap 4096 i)))
  where
    same : (i j : ℕ) → ltb i j ≡ false → ltb j i ≡ false → j ≡ i
    same i j l g = ground arith
