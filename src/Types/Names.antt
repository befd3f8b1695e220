-- ===== src/Types/Names.antt =====
-- Node and circuit names: what is accepted, and that a canonical name stays as it is.
use cppdecnet.Prelude.{
  ℕ, ◌≤◌, ◌≡◌, refl, ap, ◌∙◌, Bool, true, false, ◌||◌, none, some, List, [], ◌∷◌, ◌++◌, map, ltb,
  ◌==◌, if◌then◌else◌, Bool-cases, Option-cases, inl, inr, ap₂, subst, arith, length, length-map,
}
use cppdecnet.Types.{is_digit, is_upper, is_alpha, to_upper, scan_name, nodename}

-- Upper case letters and digits.
abbrev pub Canonical : List ℕ → Type 0
Canonical [] = Unit {0}
Canonical (c ∷ cs) = ((is_upper c || is_digit c) ≡ true) × Canonical cs

upper_twice : (c : ℕ) → to_upper (to_upper c) ≡ to_upper c
upper_twice c = ground arith

alpha_upper : (c : ℕ) → is_alpha (to_upper c) ≡ is_alpha c
alpha_upper c = ground arith

digit_upper : (c : ℕ) → is_digit (to_upper c) ≡ is_digit c
digit_upper c = ground arith

upper_canonical :
    (c : ℕ)
    → (is_alpha c || is_digit c) ≡ true
    → (is_upper (to_upper c) || is_digit (to_upper c)) ≡ true
upper_canonical c h = ground arith

scan_name-Canonical :
    (s : List ℕ) (seen b : Bool) → scan_name seen s ≡ some b → Canonical (map to_upper s)
unfolding scan_name
scan_name-Canonical [] seen b e = tt
scan_name-Canonical (c ∷ cs) seen b e = elim (Bool-cases (is_alpha c || is_digit c)) [
  | inl h ↦ (upper_canonical c h, scan_name-Canonical cs (seen || is_alpha c) b (rw h at e))
  | inr h ↦ cc (rw h at e)
]

map-to_upper : (s : List ℕ) → map to_upper (map to_upper s) ≡ map to_upper s
map-to_upper [] = refl
map-to_upper (c ∷ cs) = ap₂ (λ x xs. x ∷ xs) (upper_twice c) (map-to_upper cs)

scan_name-map : (s : List ℕ) (seen : Bool) → scan_name seen (map to_upper s) ≡ scan_name seen s
unfolding scan_name
scan_name-map [] seen = refl
scan_name-map (c ∷ cs) seen =
    rw (alpha_upper c, digit_upper c, scan_name-map cs (seen || is_alpha c)) refl

-- What an accepted name went through.
nodename_cases :
    (s t : List ℕ)
    → nodename s ≡ some t
    → (scan_name false s ≡ some true) × (1 ≤ length s) × (length s ≤ 6) × (map to_upper s ≡ t)
unfolding nodename
nodename_cases s t e = elim (Option-cases (scan_name false s)) [
  | inl n ↦ cc (rw n at e)
  | inr (true, n) ↦ guarded n (rw n at e)
  | inr (false, n) ↦ cc (rw n at e)
]
  where
    guarded :
        scan_name false s ≡ some true
        → (if length s == 0 || ltb 6 (length s) then none else some (map to_upper s)) ≡ some t
        → (scan_name false s ≡ some true) × (1 ≤ length s) × (length s ≤ 6) × (map to_upper s ≡ t)
    guarded n g = ground (arith, n, g)

nodename_lem :
    (s : List ℕ)
    → scan_name false s ≡ some true
    → 1 ≤ length s
    → length s ≤ 6
    → nodename s ≡ some (map to_upper s)
unfolding nodename
nodename_lem s e lo hi =
    let inside : (length s == 0 || ltb 6 (length s)) ≡ false = ground arith in rw (e, inside) refl

-- A node name that is accepted has one to six upper case letters and digits, and is accepted again
-- as it is.
pub nodename-Canonical :
    (s t : List ℕ)
    → nodename s ≡ some t
    → (1 ≤ length t) × (length t ≤ 6) × Canonical t × (nodename t ≡ some t)
nodename-Canonical s t e =
    let (n, lo, hi, m) = nodename_cases s t e in
    let size : length (map to_upper s) ≡ length s = length-map s to_upper in
    subst (λ u. (1 ≤ length u) × (length u ≤ 6) × Canonical u × (nodename u ≡ some u)) m
      (
        omega arith,
        omega arith,
        scan_name-Canonical s false true n,
        nodename_lem (map to_upper s) (scan_name-map s false ∙ n) (omega arith) (omega arith)
            ∙ ap some (map-to_upper s),
      )

-- A circuit name: letters, at least one, and then digits and hyphens.
abbrev pub Letters : List ℕ → Type 0
Letters [] = Unit {0}
Letters (c ∷ cs) = (is_alpha c ≡ true) × Letters cs

abbrev pub Tail : List ℕ → Type 0
Tail [] = Unit {0}
Tail (c ∷ cs) = ((is_digit c || c == 45) ≡ true) × Tail cs

abbrev pub CircuitName : List ℕ → Type 0
CircuitName s =
    (letters : List ℕ) × (tail : List ℕ) × (1 ≤ length letters)
    × Letters letters
    × Tail tail
    × (s ≡ letters ++ tail)

abbrev Split : List ℕ → Type 0
Split s = (letters : List ℕ) × (tail : List ℕ) × Letters letters × Tail tail × (s ≡ letters ++ tail)
