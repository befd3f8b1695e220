-- ===== src/Types.antt =====
-- include/decnet/common/types.h and src/common/types.cc: node addresses, LAN addresses, versions and
-- names, and their text. A text is the list of its bytes, and `none` is std::invalid_argument.
pub mod Decimal
pub mod Hex
pub mod RoundTrip
pub mod Names
mod Tests
use cppdecnet.Prelude.{
  ℕ, zero, suc, ◌+◌, ◌-◌, ◌*◌, ◌/◌, ◌%◌, ◌^◌, Bool, true, false, not, ◌&&◌, ◌||◌, Option, none,
  some, List, [], ◌∷◌, ◌++◌, map, ltb, leb, ◌==◌, if◌then◌else◌, length,
}

infixl 5 ◌>>=◌
abbrev pub ◌>>=◌ {ℓ κ} : {A : Type ℓ} {B : Type κ} → Option A → (A → Option B) → Option B
none >>= f = none
some a >>= f = f a

abbrev pub is_digit : ℕ → Bool
is_digit c = leb 48 c && leb c 57

abbrev pub is_lower : ℕ → Bool
is_lower c = leb 97 c && leb c 122

abbrev pub is_upper : ℕ → Bool
is_upper c = leb 65 c && leb c 90

abbrev pub is_alpha : ℕ → Bool
is_alpha c = is_lower c || is_upper c

abbrev pub to_upper : ℕ → ℕ
to_upper c = if is_lower c then c - 32 else c

-- The digits of std::from_chars on top of what is read so far; `none` where another byte stands.
unfoldable pub read_digits : ℕ → List ℕ → Option ℕ
read_digits v [] = some v
read_digits v (c ∷ cs) =
    let rest = read_digits (v * 10 + (c - 48)) cs in if is_digit c then rest else none

-- A value that `unsigned` does not hold is refused.
unfoldable pub parse_uint : List ℕ → Option ℕ
unfolding read_digits
parse_uint [] = none
parse_uint (c ∷ cs) = read_digits 0 (c ∷ cs) >>= λ v. if ltb v (2 ^ 32) then some v else none

-- "%u", of a number below 10 ^ fuel.
unfoldable pub print_digits : ℕ → ℕ → List ℕ
print_digits zero v = []
print_digits (suc fuel) v =
    let more = print_digits fuel (v / 10) in (if ltb v 10 then [] else more) ++ (48 + v % 10) ∷ []

unfoldable pub print_uint : ℕ → List ℕ
unfolding print_digits
print_uint v = print_digits 10 v

abbrev pub dot : ℕ
dot = 46

-- What stands before the first dot, and behind it.
unfoldable pub split_dot : List ℕ → Option (List ℕ × List ℕ)
split_dot [] = none
split_dot (c ∷ cs) =
    let later = split_dot cs in
    if c == dot then some ([], cs) else later >>= λ p. some (c ∷ p.0, p.1)

-- Nodeid, as its 16 bits; the two-part constructor is called with a node number below 1024.
abbrev pub area : ℕ → ℕ
area n = n / 1024

abbrev pub tid : ℕ → ℕ
tid n = n % 1024

abbrev pub make_nodeid : ℕ → ℕ → ℕ
make_nodeid a t = (a * 1024 + t) % 2 ^ 16

unfoldable pub parse_bare : List ℕ → Option ℕ
unfolding parse_uint
parse_bare s = parse_uint s >>= λ t. if ltb 1023 t then none else some (make_nodeid 0 t)

unfoldable pub parse_pair : List ℕ × List ℕ → Option ℕ
unfolding parse_uint
parse_pair (before, behind) = do
  a ← parse_uint before
  t ← parse_uint behind
  if ltb a 1 || ltb 63 a
      then none
      else if ltb t 1 || ltb 1023 t
      then none
      else some (make_nodeid a t)

-- By what the search for a dot gives.
unfoldable pub parse_parts : List ℕ → Option (List ℕ × List ℕ) → Option ℕ
unfolding parse_bare parse_pair
parse_parts s none = parse_bare s
parse_parts s (some p) = parse_pair p

unfoldable pub parse_nodeid : List ℕ → Option ℕ
unfolding split_dot parse_parts
parse_nodeid s = parse_parts s (split_dot s)

unfoldable pub print_nodeid : ℕ → List ℕ
unfolding print_uint
print_nodeid n =
    if area n == 0 then print_uint (tid n) else print_uint (area n) ++ dot ∷ print_uint (tid n)

-- Macaddr
unfoldable pub hexval : ℕ → Option ℕ
hexval c =
    if is_digit c
    then some (c - 48)
    else if leb 97 c && leb c 102
    then some (c - 97 + 10)
    else if leb 65 c && leb c 70
    then some (c - 65 + 10)
    else none

-- A byte of two digits, and the text behind it.
unfoldable pub parse_byte : List ℕ → Option (ℕ × List ℕ)
unfolding hexval
parse_byte (h ∷ l ∷ rest) = do hi ← hexval h; lo ← hexval l; some (hi * 16 + lo, rest)
parse_byte _ = none

-- The separator in front of each byte but the first.
unfoldable pub parse_separator : List ℕ → Option (List ℕ)
parse_separator [] = none
parse_separator (c ∷ cs) = if c == 45 || c == 58 then some cs else none

-- The bytes behind the first.
unfoldable pub parse_bytes : ℕ → List ℕ → Option (List ℕ)
unfolding parse_separator parse_byte
parse_bytes zero [] = some []
parse_bytes zero (c ∷ cs) = none
parse_bytes (suc n) s = do
  t ← parse_separator s
  (b, rest) ← parse_byte t
  bs ← parse_bytes n rest
  some (b ∷ bs)

unfoldable pub parse_macaddr : List ℕ → Option (List ℕ)
unfolding parse_byte parse_bytes
parse_macaddr s = do (b, rest) ← parse_byte s; bs ← parse_bytes 5 rest; some (b ∷ bs)

abbrev pub hex_digit : ℕ → ℕ
hex_digit v = if ltb v 10 then 48 + v else 87 + v

-- "%02x"
unfoldable pub print_byte : ℕ → List ℕ
print_byte b = hex_digit (b / 16) ∷ hex_digit (b % 16) ∷ []

unfoldable pub print_bytes : List ℕ → List ℕ
unfolding print_byte
print_bytes [] = []
print_bytes (b ∷ bs) = 45 ∷ (print_byte b ++ print_bytes bs)

unfoldable pub print_macaddr : List ℕ → List ℕ
unfolding print_byte print_bytes
print_macaddr [] = []
print_macaddr (b ∷ bs) = print_byte b ++ print_bytes bs

unfoldable pub macaddr_of : ℕ → List ℕ
macaddr_of n = 0xaa ∷ 0x00 ∷ 0x04 ∷ 0x00 ∷ n % 256 ∷ n / 256 ∷ []

-- Version
pub record Version : Type 0 where
  pub v1 : ℕ
  pub v2 : ℕ
  pub v3 : ℕ

unfoldable pub parse_version : List ℕ → Option Version
unfolding split_dot parse_uint
parse_version s = do
  (first, rest) ← split_dot s
  (second, third) ← split_dot rest
  a ← parse_uint first
  b ← parse_uint second
  c ← parse_uint third
  some (record { v1 = a % 256; v2 = b % 256; v3 = c % 256 })

unfoldable pub print_version : Version → List ℕ
unfolding print_uint
print_version v = print_uint v.v1 ++ dot ∷ (print_uint v.v2 ++ dot ∷ print_uint v.v3)

-- The loop of `nodename`: whether there was a letter, `none` where a byte is neither letter nor digit.
unfoldable pub scan_name : Bool → List ℕ → Option Bool
scan_name seen [] = some seen
scan_name seen (c ∷ cs) =
    let rest = scan_name (seen || is_alpha c) cs in if is_alpha c || is_digit c then rest else none

unfoldable pub nodename : List ℕ → Option (List ℕ)
unfolding scan_name
nodename s = do
  seen ← scan_name false s
  if not seen || (length s == 0 || ltb 6 (length s)) then none else some (map to_upper s)

-- The second loop of `circname`, and the first.
unfoldable pub scan_tail : List ℕ → Bool
scan_tail [] = true
scan_tail (c ∷ cs) = (is_digit c || c == 45) && scan_tail cs

unfoldable pub scan_letters : List ℕ → Bool
unfolding scan_tail
scan_letters [] = true
scan_letters (c ∷ cs) =
    let more = scan_letters cs in if is_alpha c then more else scan_tail (c ∷ cs)

unfoldable pub circname : List ℕ → Option (List ℕ)
circname [] = none
circname (c ∷ cs) =
    if is_alpha c && scan_letters (c ∷ cs) then some (map to_upper (c ∷ cs)) else none

pub data Phase : Type 0 where
  ph2 ph3 ph4 : Phase

pub data NodeType : Type 0 where
  l2router l1router endnode phase3router phase3endnode phase2 : NodeType

unfoldable pub phase_of : NodeType → Phase
phase_of NodeType.phase2 = Phase.ph2
phase_of NodeType.phase3router = Phase.ph3
phase_of NodeType.phase3endnode = Phase.ph3
phase_of _ = Phase.ph4
