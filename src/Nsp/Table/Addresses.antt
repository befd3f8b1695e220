-- ===== src/Nsp/Table/Addresses.antt =====
-- The addresses of links: how many of those that are free or open have the same low bits.
use cppdecnet.Prelude.{
  ℕ, zero, suc, ◌+◌, ◌*◌, ◌%◌, ◌^◌, ◌<◌, ◌≤◌, ◌≡◌, ap, ◌∙◌, Bool, some, List, [], ◌∷◌, ◌++◌, leb,
  ◌==◌, if◌then◌else◌, if-cases, arith, lookup, assign, remove, keys,
}
use native.Mathlib.Nat.{add-mul-mod_self_right, add-mod_right, mod-eq_of_lt, mod-mod_of_dvd}
use Prim.Native.Nat.{◌∣◌}
use cppdecnet.Nsp.Table

abbrev pub count : (ℕ → Bool) → List ℕ → ℕ
count p [] = 0
count p (a ∷ xs) = (if p a then 1 else 0) + count p xs

-- How many addresses have the low bits r, modulo c.
abbrev pub hit : ℕ → ℕ → ℕ → ℕ
hit c r a = if a % c == r then 1 else 0

abbrev pub tally : ℕ → ℕ → List ℕ → ℕ
tally c r xs = count (λ a. a % c == r) xs

pub tally-append : (c r : ℕ) (xs ys : List ℕ) → tally c r (xs ++ ys) ≡ tally c r xs + tally c r ys
tally-append c r [] ys = omega arith
tally-append c r (x ∷ xs) ys = let e = tally-append c r xs ys in omega arith

module _ {ℓ} {A : Type ℓ} where
  pub tally-assign :
      (c r a : ℕ) (v : A) (m : List (ℕ × A))
      → tally c r (keys (assign a v m)) ≤ hit c r a + tally c r (keys m)
  unfolding keys assign
  tally-assign c r a v [] = omega arith
  tally-assign c r a v ((j, w) ∷ m) = let e = tally-assign c r a v m in ground arith

  remove-le : (c r a : ℕ) (m : List (ℕ × A)) → tally c r (keys (remove a m)) ≤ tally c r (keys m)
  unfolding keys remove
  remove-le c r a [] = omega arith
  remove-le c r a ((j, w) ∷ m) = let e = remove-le c r a m in ground arith

  pub tally-remove :
      (c r a : ℕ) (v : A) (m : List (ℕ × A))
      → lookup a m ≡ some v
      → hit c r a + tally c r (keys (remove a m)) ≤ tally c r (keys m)
  unfolding keys remove lookup
  tally-remove c r a v [] e = absurd (ground (arith, e))
  tally-remove c r a v ((j, w) ∷ m) e =
      let k = remove-le c r a m in
      if-cases
        (λ o.
          o ≡ some v
          → hit c r a + tally c r (keys (remove a ((j, w) ∷ m))) ≤ tally c r (keys ((j, w) ∷ m)))
        (j == a) (λ h. λ i. ground arith)
        (λ h. λ i. let l = tally-remove c r a v m i in ground arith) e

-- An address comes back with the same low bits.
pub hit-return : (c r a : ℕ) → c ∣ 2 ^ 16 → hit c r ((a + c) % 2 ^ 16) ≡ hit c r a
hit-return c r a d =
    ap (λ x. if x == r then 1 else 0) (mod-mod_of_dvd c (a + c) d ∙ add-mod_right a c)

low_bits : (c i h : ℕ) → i < c → c ∣ 2 ^ 16 → (i + h * c) % 2 ^ 16 % c ≡ i
low_bits c i h l d = mod-mod_of_dvd c (i + h * c) d ∙ add-mul-mod_self_right i h c ∙ mod-eq_of_lt l

-- The addresses that NSP starts with.
pub ids_from-tally :
    (c r i n : ℕ) (high : ℕ → ℕ)
    → i + n ≤ c
    → c ∣ 2 ^ 16
    → tally c r (Table.ids_from i n c high) ≤ (if leb i r then 1 else 0)
unfolding Table.ids_from
ids_from-tally c r i zero high l d = ground arith
ids_from-tally c r i (suc n) high l d =
    let k = ids_from-tally c r (suc i) n high (omega arith) d in
    let e = low_bits c i (high i) (omega arith) d in ground arith
