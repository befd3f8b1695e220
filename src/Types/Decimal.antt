-- ===== src/Types/Decimal.antt =====
-- Decimal numbers as text: what `print_uint` writes is read back, and holds no dot.
use cppdecnet.Prelude.{
  ℕ, zero, suc, ◌+◌, ◌-◌, ◌*◌, ◌/◌, ◌%◌, ◌^◌, ◌<◌, ◌≡◌, ◌≢◌, refl, ap, ◌∙◌, true, false, none, some,
  List, [], ◌∷◌, ◌++◌, ltb, ◌==◌, if◌then◌else◌, if-cases, Bool-cases, inl, inr, arith,
}
use cppdecnet.Types.{
  is_digit, read_digits, parse_uint, print_digits, print_uint, split_dot, dot, ◌>>=◌,
}

abbrev pub bound : ℕ → ℕ
bound zero = 1
bound (suc n) = 10 * bound n

read_digits-snoc :
    (v d : ℕ) (xs : List ℕ)
    → d < 10
    → read_digits v (xs ++ (48 + d) ∷ []) ≡ (read_digits v xs >>= λ w. some (w * 10 + d))
unfolding read_digits
read_digits-snoc v d [] h = ground arith
read_digits-snoc v d (x ∷ xs) h =
    let ih = read_digits-snoc (v * 10 + (x - 48)) d xs h in
    elim (Bool-cases (is_digit x)) [ inl e ↦ rw (e) ih | inr e ↦ rw (e) refl ]

-- The last digit behind the ones before it.
last_digit :
    (v : ℕ) (before : List ℕ)
    → read_digits 0 before ≡ some (v / 10)
    → read_digits 0 (before ++ (48 + v % 10) ∷ []) ≡ some v
last_digit v before e =
    let whole : v / 10 * 10 + v % 10 ≡ v = omega arith in
    read_digits-snoc 0 (v % 10) before (omega arith) ∙ rw e (ap some whole)

read_digits-print_digits :
    (fuel v : ℕ) → v < bound fuel → 0 < fuel → read_digits 0 (print_digits fuel v) ≡ some v
unfolding print_digits read_digits
read_digits-print_digits zero v h p = absurd (omega arith)
read_digits-print_digits (suc fuel) v h p =
    if-cases (λ before. read_digits 0 (before ++ (48 + v % 10) ∷ []) ≡ some v) (ltb v 10)
      (λ e. last_digit v [] (ap some (ground arith)))
      (λ e.
        last_digit v (print_digits fuel (v / 10))
          (read_digits-print_digits fuel (v / 10) (omega arith) (more fuel v h e)))
  where
    more : (fuel v : ℕ) → v < 10 * bound fuel → ltb v 10 ≡ false → 0 < fuel
    more zero v h e = ground arith
    more (suc fuel) v h e = omega arith

abbrev pub Digits : List ℕ → Type 0
Digits [] = Unit {0}
Digits (c ∷ cs) = (is_digit c ≡ true) × Digits cs

Digits-append : (xs ys : List ℕ) → Digits xs → Digits ys → Digits (xs ++ ys)
Digits-append [] ys h k = k
Digits-append (x ∷ xs) ys (d, h) k = (d, Digits-append xs ys h k)

print_digits-Digits : (fuel v : ℕ) → Digits (print_digits fuel v)
unfolding print_digits
print_digits-Digits zero v = tt
print_digits-Digits (suc fuel) v =
    Digits-append (if ltb v 10 then [] else print_digits fuel (v / 10)) _
      (if-cases Digits (ltb v 10) (λ _. tt) (λ _. print_digits-Digits fuel (v / 10)))
      (ground arith, tt)

not_dot : (c : ℕ) → is_digit c ≡ true → (c == dot) ≡ false
not_dot c h = ground arith

pub split_dot-Digits : (xs : List ℕ) → Digits xs → split_dot xs ≡ none
unfolding split_dot
split_dot-Digits [] h = refl
split_dot-Digits (x ∷ xs) (d, h) = rw (not_dot x d, split_dot-Digits xs h) refl

pub split_dot-append :
    (xs rest : List ℕ) → Digits xs → split_dot (xs ++ dot ∷ rest) ≡ some (xs, rest)
unfolding split_dot
split_dot-append [] rest h = refl
split_dot-append (x ∷ xs) rest (d, h) = rw (not_dot x d, split_dot-append xs rest h) refl

parse_uint-lem :
    (xs : List ℕ) (v : ℕ)
    → read_digits 0 xs ≡ some v
    → xs ≢ []
    → v < 2 ^ 32
    → parse_uint xs ≡ some v
unfolding parse_uint
parse_uint-lem [] v e ne h = absurd (ne refl)
parse_uint-lem (x ∷ xs) v e ne h =
    let small : ltb v (2 ^ 32) ≡ true = ground arith in rw (e, small) refl

snoc-ne : (xs : List ℕ) (c : ℕ) → xs ++ c ∷ [] ≢ []
snoc-ne [] c e = cc
snoc-ne (x ∷ xs) c e = cc

-- A number that `unsigned` holds is read back as it was written.
pub parse_uint-print_uint : (v : ℕ) → v < 2 ^ 32 → parse_uint (print_uint v) ≡ some v
unfolding print_uint print_digits
parse_uint-print_uint v h =
    parse_uint-lem (print_digits 10 v) v (read_digits-print_digits 10 v (omega arith) (omega arith))
      (snoc-ne _ _) h

pub print_uint-Digits : (v : ℕ) → Digits (print_uint v)
unfolding print_uint
print_uint-Digits v = print_digits-Digits 10 v
