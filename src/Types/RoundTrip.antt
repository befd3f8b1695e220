-- ===== src/Types/RoundTrip.antt =====
-- Node addresses and versions as text.
use cppdecnet.Prelude.{
  ℕ, ◌+◌, ◌*◌, ◌%◌, ◌^◌, ◌≤◌, ◌<◌, ◌≡◌, ◌⊎◌, refl, ap, ◌∙◌, false, ◌||◌, some, ◌∷◌, ◌++◌, ltb, ◌==◌,
  if-cases, arith,
}
use cppdecnet.Types.{
  area, tid, make_nodeid, print_uint, dot, parse_parts, parse_bare, parse_pair, parse_nodeid,
  print_nodeid, Version, parse_version, print_version,
}
use cppdecnet.Types.Decimal.{
  parse_uint-print_uint, print_uint-Digits, split_dot-append, split_dot-Digits,
}

bare : (n : ℕ) → n < 1024 → parse_nodeid (print_uint n) ≡ some n
unfolding parse_nodeid parse_parts parse_bare
bare n h =
    let held : ltb 1023 n ≡ false = ground arith in
    let same : make_nodeid 0 n ≡ n = omega arith in
    rw
      (
        split_dot-Digits (print_uint n) (print_uint-Digits n),
        parse_uint-print_uint n (omega arith),
        held,
        same,
      )
      refl

pair :
    (a t : ℕ)
    → 1 ≤ a
    → a < 64
    → 1 ≤ t
    → t < 1024
    → parse_nodeid (print_uint a ++ dot ∷ print_uint t) ≡ some (a * 1024 + t)
unfolding parse_nodeid parse_parts parse_pair
pair a t ha ha' ht ht' =
    let low : (ltb a 1 || ltb 63 a) ≡ false = ground arith in
    let high : (ltb t 1 || ltb 1023 t) ≡ false = ground arith in
    let same : make_nodeid a t ≡ a * 1024 + t = omega arith in
    rw
      (
        split_dot-append (print_uint a) (print_uint t) (print_uint-Digits a),
        parse_uint-print_uint a (omega arith),
        parse_uint-print_uint t (omega arith),
        low,
        high,
        same,
      )
      refl

-- A node address of 16 bits is read back as it was written, unless its area is not 0 and its node
-- number is.
pub parse_nodeid-print_nodeid :
    (n : ℕ) → n < 2 ^ 16 → (area n ≡ 0) ⊎ (1 ≤ tid n) → parse_nodeid (print_nodeid n) ≡ some n
unfolding print_nodeid
parse_nodeid-print_nodeid n h k =
    if-cases (λ s. parse_nodeid s ≡ some n) (area n == 0)
      (λ z. bare (tid n) (omega arith) ∙ ap some (ground arith))
      (λ z.
        pair (area n) (tid n) (ground arith) (omega arith) (ground arith) (omega arith)
        ∙ ap some (omega arith))

-- A version whose parts are bytes is read back as it was written.
pub parse_version-print_version :
    (v : Version) → v.v1 < 256 → v.v2 < 256 → v.v3 < 256 → parse_version (print_version v) ≡ some v
unfolding parse_version print_version
parse_version-print_version v a b c =
    let x : v.v1 % 256 ≡ v.v1 = omega arith in
    let y : v.v2 % 256 ≡ v.v2 = omega arith in
    let z : v.v3 % 256 ≡ v.v3 = omega arith in
    rw
      (
        split_dot-append (print_uint v.v1) (print_uint v.v2 ++ dot ∷ print_uint v.v3)
            (print_uint-Digits v.v1),
        split_dot-append (print_uint v.v2) (print_uint v.v3) (print_uint-Digits v.v2),
        parse_uint-print_uint v.v1 (omega arith),
        parse_uint-print_uint v.v2 (omega arith),
        parse_uint-print_uint v.v3 (omega arith),
        x,
        y,
        z,
      )
      refl
