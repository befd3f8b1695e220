-- ===== src/Routing/Message.antt =====
-- src/routing/routing_messages.cc and include/decnet/routing/packets.h: routing messages, their
-- checksum and their two formats. A word is a number below 2 ^ 16.
use cppdecnet.Prelude.{
  ℕ, zero, suc, ◌+◌, ◌-◌, ◌*◌, ◌/◌, ◌%◌, ◌^◌, Bool, not, ◌&&◌, Option, none, some, List, [], ◌∷◌,
  ◌++◌, ltb, leb, ◌==◌, if◌then◌else◌, length, take, drop,
}

abbrev pub infhops : ℕ
infhops = 31

abbrev pub infcost : ℕ
infcost = 1023

-- The entry of a destination: hops in the top six bits and cost in the low ten.
unfoldable pub route_entry : ℕ → ℕ → ℕ
route_entry hops cost = (hops * 1024 + cost % 1024) % 2 ^ 16

unfoldable pub entry_hops : ℕ → ℕ
entry_hops e = e / 1024

unfoldable pub entry_cost : ℕ → ℕ
entry_cost e = e % 1024

pub record RouteSegment : Type 0 where
  pub startid : ℕ
  pub entries : List ℕ

pub record RouteUpdate : Type 0 where
  pub id : ℕ
  pub hops : ℕ
  pub cost : ℕ

-- The first byte of the header in its fields, and the sender.
pub record Header : Type 0 where
  pub control : Bool
  pub type : ℕ
  pub ext_type : ℕ
  pub pf : Bool
  pub srcnode : ℕ

-- MissingData and FormatError.
pub data Error : Type 0 where
  missing_data format_error : Error

pub data Result {ℓ} (A : Type ℓ) : Type ℓ where
  ok : A → Result A
  err : Error → Result A

infixl 5 ◌>>=◌
abbrev pub ◌>>=◌ {ℓ κ} : {A : Type ℓ} {B : Type κ} → Result A → (A → Result B) → Result B
ok a >>= f = f a
err e >>= f = err e

-- The 32-bit sum of the words on top of the seed.
unfoldable pub sum_words : List ℕ → ℕ → ℕ
sum_words [] s = s
sum_words (w ∷ ws) s = sum_words ws ((s + w) % 2 ^ 32)

abbrev pub fold_carry : ℕ → ℕ
fold_carry s = s % 0x1_0000 + s / 0x1_0000

unfoldable pub ones_complement_sum : List ℕ → ℕ → ℕ
unfolding sum_words
ones_complement_sum ws seed = fold_carry (fold_carry (sum_words ws seed)) % 0x1_0000

-- Bytes to words; `none` where a byte is left over.
unfoldable pub to_words : List ℕ → Option (List ℕ)
to_words [] = some []
to_words (b ∷ []) = none
to_words (lo ∷ hi ∷ rest) = elim (to_words rest) [
  | none ↦ none
  | some ws ↦ some ((lo + hi * 256) ∷ ws)
]

unfoldable pub of_words : List ℕ → List ℕ
of_words [] = []
of_words (w ∷ ws) = w % 256 ∷ w / 256 ∷ of_words ws

unfoldable pub payload_words : List ℕ → Result (List ℕ)
unfolding to_words
payload_words (b0 ∷ b1 ∷ b2 ∷ b3 ∷ payload) = elim payload [
  | [] ↦ err format_error
  | b ∷ bs ↦ elim (to_words (b ∷ bs)) [ none ↦ err format_error | some ws ↦ ok ws ]
]
payload_words _ = err missing_data

-- The words with the last complemented.
unfoldable pub complement_last : List ℕ → List ℕ
complement_last [] = []
complement_last (w ∷ []) = (0xffff - w) ∷ []
complement_last (w ∷ x ∷ ws) = w ∷ complement_last (x ∷ ws)

unfoldable pub index_key : List ℕ → Result ℕ
unfolding payload_words complement_last ones_complement_sum
index_key b = do words ← payload_words b; ok (ones_complement_sum (complement_last words) 0)

abbrev pub flag : ℕ → Bool → ℕ
flag w b = if b then w else 0

unfoldable pub encode_header : Header → List ℕ
encode_header h =
    (flag 1 h.control + h.type % 8 * 2 + h.ext_type % 8 * 16 + flag 0x80 h.pf)
    ∷ h.srcnode % 256
    ∷ h.srcnode / 256
    ∷ 0
    ∷ []

unfoldable pub decode_flags : ℕ → ℕ → ℕ → Header
decode_flags flags lo hi = record {
  control = flags % 2 == 1;
  type = flags / 2 % 8;
  ext_type = flags / 16 % 8;
  pf = flags / 0x80 % 2 == 1;
  srcnode = lo + hi * 256;
}

-- `words.pop_back ()`
unfoldable pub drop_last : List ℕ → List ℕ
drop_last [] = []
drop_last (w ∷ []) = []
drop_last (w ∷ x ∷ ws) = w ∷ drop_last (x ∷ ws)

unfoldable pub header_of : List ℕ → Header
unfolding decode_flags
header_of (flags ∷ lo ∷ hi ∷ rest) = decode_flags flags lo hi
header_of _ = decode_flags 0 0 0

unfoldable pub decode_header : List ℕ → Result (Header × List ℕ)
unfolding payload_words drop_last header_of
decode_header b = do
  words ← payload_words b
  elim (drop_last words) [ [] ↦ err format_error | w ∷ ws ↦ ok (header_of b, w ∷ ws) ]

-- The words, and the checksum behind them.
unfoldable pub append_body : List ℕ → ℕ → List ℕ
unfolding of_words ones_complement_sum
append_body words seed = of_words words ++ of_words (ones_complement_sum words seed ∷ [])

-- `L1Routing::valid_segment` and `L2Routing::valid_segment`.
unfoldable pub valid_l1 : RouteSegment → Bool
valid_l1 s = not (length s.entries == 0) && leb (length s.entries + s.startid) 1024

unfoldable pub valid_l2 : RouteSegment → Bool
valid_l2 s =
    not (length s.entries == 0) && (not (s.startid == 0) && leb (length s.entries + s.startid) 64)

-- The loop of `Ph4RoutingMessage::decode_into`. A round takes two words at least, so as many rounds
-- as there are words are enough.
unfoldable pub decode_segments : (RouteSegment → Bool) → ℕ → List ℕ → Result (List RouteSegment)
decode_segments valid fuel [] = ok []
decode_segments valid zero (w ∷ ws) = err format_error
decode_segments valid (suc fuel) (w ∷ []) = err format_error
decode_segments valid (suc fuel) (count ∷ startid ∷ ws) =
    let seg : RouteSegment = record { startid = startid; entries = take count ws } in
    let later = decode_segments valid fuel (drop count ws) in
    if ltb (length ws) count
    then err format_error
    else if not (valid seg)
    then err format_error
    else later >>= λ segs. ok (seg ∷ segs)

unfoldable pub decode_ph4 : (RouteSegment → Bool) → List ℕ → Result (Header × List RouteSegment)
unfolding decode_header decode_segments
decode_ph4 valid b = do
  (header, words) ← decode_header b
  segs ← decode_segments valid (length words) words
  ok (header, segs)

unfoldable pub segment_words : List RouteSegment → List ℕ
segment_words [] = []
segment_words (s ∷ segs) =
    (length s.entries % 2 ^ 16) ∷ s.startid ∷ (s.entries ++ segment_words segs)

unfoldable pub encode_ph4 : Header → List RouteSegment → List ℕ
unfolding encode_header segment_words append_body
encode_ph4 h segs = encode_header h ++ append_body (segment_words segs) 1

-- The updates of the entries from id on.
unfoldable pub entry_updates : ℕ → ℕ → List ℕ → List RouteUpdate
unfolding entry_hops entry_cost
entry_updates circuit_cost id [] = []
entry_updates circuit_cost id (e ∷ es) =
    record { id = id; hops = entry_hops e + 1; cost = (entry_cost e + circuit_cost) % 2 ^ 32 }
    ∷ entry_updates circuit_cost (id + 1) es

unfoldable pub updates : ℕ → List RouteSegment → List RouteUpdate
unfolding entry_updates
updates circuit_cost [] = []
updates circuit_cost (s ∷ segs) =
    entry_updates circuit_cost s.startid s.entries ++ updates circuit_cost segs

-- PhaseIIIRouting
unfoldable pub encode_ph3 : Header → List ℕ → List ℕ
unfolding encode_header append_body
encode_ph3 h entries = encode_header h ++ append_body entries 0

unfoldable pub decode_ph3 : List ℕ → Result (Header × List ℕ)
unfolding decode_header
decode_ph3 b = decode_header b

unfoldable pub updates_ph3 : ℕ → List ℕ → List RouteUpdate
unfolding entry_updates
updates_ph3 circuit_cost entries = entry_updates circuit_cost 1 entries
