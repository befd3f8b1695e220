-- ===== src/Types/Hex.antt =====
-- Bytes as hexadecimal text: what `print_macaddr` writes is read back.
use cppdecnet.Prelude.{
  ℕ, ◌+◌, ◌*◌, ◌/◌, ◌%◌, ◌<◌, ◌≡◌, refl, sym, ap, ◌∙◌, some, List, [], ◌∷◌, ◌++◌, length, arith,
}
use cppdecnet.Types.{
  hexval, hex_digit, parse_byte, parse_separator, parse_bytes, parse_macaddr, print_byte,
  print_bytes, print_macaddr,
}

abbrev pub AllBytes : List ℕ → Type 0
AllBytes [] = Unit {0}
AllBytes (b ∷ bs) = (b < 256) × AllBytes bs

hexval-hex_digit : (v : ℕ) → v < 16 → hexval (hex_digit v) ≡ some v
unfolding hexval
hexval-hex_digit v h = ground arith

parse_byte-print_byte :
    (b : ℕ) (rest : List ℕ) → b < 256 → parse_byte (print_byte b ++ rest) ≡ some (b, rest)
unfolding parse_byte print_byte
parse_byte-print_byte b rest h =
    let whole : b / 16 * 16 + b % 16 ≡ b = omega arith in
    rw (hexval-hex_digit (b / 16) (omega arith), hexval-hex_digit (b % 16) (omega arith), whole)
      refl

parse_bytes-print_bytes :
    (bs : List ℕ) → AllBytes bs → parse_bytes (length bs) (print_bytes bs) ≡ some bs
unfolding parse_bytes print_bytes parse_separator
parse_bytes-print_bytes [] h = refl
parse_bytes-print_bytes (b ∷ bs) (h, hs) =
    rw (parse_byte-print_byte b (print_bytes bs) h, parse_bytes-print_bytes bs hs) refl

-- A LAN address, which has six bytes, is read back as it was written.
pub parse_macaddr-print_macaddr :
    (mac : List ℕ) → length mac ≡ 6 → AllBytes mac → parse_macaddr (print_macaddr mac) ≡ some mac
unfolding parse_macaddr print_macaddr
parse_macaddr-print_macaddr [] e h = absurd (omega arith)
parse_macaddr-print_macaddr (b ∷ bs) e (h, hs) =
    let five : length bs ≡ 5 = omega arith in
    let rest : parse_bytes 5 (print_bytes bs) ≡ some bs =
      ap (λ n. parse_bytes n (print_bytes bs)) (sym five) ∙ parse_bytes-print_bytes bs hs in
    rw (parse_byte-print_byte b (print_bytes bs) h, rest) refl
