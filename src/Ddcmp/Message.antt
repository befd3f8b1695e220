-- ===== src/Ddcmp/Message.antt =====
-- include/decnet/datalink/ddcmp.h and src/datalink/ddcmp_packets.cc: DDCMP messages and their
-- framing. A sequence number `Seq` is a number below 256.
use cppdecnet.Prelude.{
  ℕ, ◌+◌, ◌-◌, ◌*◌, ◌/◌, ◌%◌, ◌^◌, Bool, true, false, not, ◌||◌, Option, none, some, List, [], ◌∷◌,
  ◌++◌, ◌==◌, if◌then◌else◌, length,
}
use cppdecnet.Crc.{crc16, compute, update_all, initial, good}

pub data MsgKind : Type 0 where
  maintenance start stack ack nak rep payload_data : MsgKind

pub record Message : Type 0 where
  pub kind : MsgKind
  pub count : ℕ
  pub type : ℕ
  pub subtype : ℕ
  pub qsync : Bool
  pub select : Bool
  pub resp : ℕ
  pub num : ℕ
  pub addr : ℕ
  pub payload : List ℕ
  pub crcok : Bool

abbrev pub is_data : Message → Bool
is_data m = elim m.kind [ MsgKind.payload_data ↦ true | MsgKind.maintenance ↦ true | _ ↦ false ]

abbrev pub sets_resp : Message → Bool
sets_resp m = elim m.kind [
  | MsgKind.payload_data ↦ true
  | MsgKind.ack ↦ true
  | MsgKind.nak ↦ true
  | _ ↦ false
]

-- `Seq::operator++` and `Seq::distance`.
abbrev pub seq_next : ℕ → ℕ
seq_next a = (a + 1) % 256

abbrev pub distance : ℕ → ℕ → ℕ
distance a b = (b + 256 - a) % 256

-- SOH, DLE and ENQ.
abbrev pub soh : ℕ
soh = 0o201

abbrev pub dle : ℕ
dle = 0o220

abbrev pub enq : ℕ
enq = 0o5

start_byte : MsgKind → ℕ
start_byte MsgKind.payload_data = soh
start_byte MsgKind.maintenance = dle
start_byte _ = enq

unfoldable pub ctl_type : MsgKind → ℕ
ctl_type MsgKind.ack = 1
ctl_type MsgKind.nak = 2
ctl_type MsgKind.rep = 3
ctl_type MsgKind.start = 6
ctl_type MsgKind.stack = 7
ctl_type _ = 0

-- Two bytes, the low one first.
abbrev put16 : ℕ → List ℕ
put16 v = v % 256 ∷ v / 256 ∷ []

abbrev bit : ℕ → Bool → ℕ
bit w b = if b then w else 0

-- The header without its CRC.
header_fields : Message → List ℕ
unfolding start_byte ctl_type
header_fields m =
    let tail = m.resp ∷ m.num ∷ m.addr ∷ [] in
    start_byte m.kind
    ∷ (if is_data m
        then put16 (m.count % 0x4000 + bit 0x4000 m.qsync + bit 0x8000 m.select) ++ tail
        else ctl_type m.kind ∷ (m.subtype % 0x40 + bit 0x40 m.qsync + bit 0x80 m.select) ∷ tail)

unfoldable pub encode_header : Message → List ℕ
unfolding header_fields
encode_header m = header_fields m ++ put16 (compute crc16 (header_fields m))

unfoldable pub encode : Message → List ℕ
unfolding encode_header
encode m =
    if is_data m
    then encode_header m ++ (m.payload ++ put16 (compute crc16 m.payload))
    else encode_header m

-- A message of no bytes, as the default constructor leaves it.
abbrev blank : MsgKind → Message
blank k = record {
  kind = k;
  count = 0;
  type = 0;
  subtype = 0;
  qsync = false;
  select = false;
  resp = 0;
  num = 0;
  addr = 1;
  payload = [];
  crcok = true;
}

is_startup : MsgKind → Bool
is_startup MsgKind.start = true
is_startup MsgKind.stack = true
is_startup _ = false

control : MsgKind → Message
unfolding ctl_type is_startup
control k = record (blank k) { type = ctl_type k; qsync = is_startup k; select = is_startup k }

unfoldable pub make_ack : ℕ → Message
unfolding control
make_ack resp = record (control MsgKind.ack) { resp = resp }

unfoldable pub make_nak : ℕ → ℕ → Message
unfolding control
make_nak resp reason = record (control MsgKind.nak) { resp = resp; subtype = reason }

unfoldable pub make_rep : ℕ → Message
unfolding control
make_rep num = record (control MsgKind.rep) { num = num }

unfoldable pub make_start : Message
unfolding control
make_start = control MsgKind.start

unfoldable pub make_stack : Message
unfolding control
make_stack = control MsgKind.stack

unfoldable pub make_data : ℕ → ℕ → List ℕ → Message
make_data num resp payload = record (blank MsgKind.payload_data) {
  count = length payload % 2 ^ 16;
  resp = resp;
  num = num;
  payload = payload;
}

unfoldable pub make_maintenance : List ℕ → Message
make_maintenance payload = record (blank MsgKind.maintenance) {
  count = length payload % 2 ^ 16;
  qsync = true;
  select = true;
  payload = payload;
}

pub data HdrError : Type 0 where
  too_short bad_start bad_crc : HdrError

-- `HdrError::none` comes with the message.
pub data Decoded : Type 0 where
  ok : Message → Decoded
  err : HdrError → Decoded

-- The kind of a control message, by its type byte.
unfoldable pub control_kind : ℕ → Option MsgKind
control_kind t =
    if t == 1
    then some MsgKind.ack
    else if t == 2
    then some MsgKind.nak
    else if t == 3
    then some MsgKind.rep
    else if t == 6
    then some MsgKind.start
    else if t == 7
    then some MsgKind.stack
    else none

-- The seven bytes behind the start byte, of a data or maintenance message and of a control message.
decode_data : MsgKind → ℕ → ℕ → ℕ → ℕ → ℕ → Message
decode_data k lo hi resp num addr =
    let w = lo + hi * 256 in
    record (blank k) {
      count = w % 0x4000;
      qsync = w / 0x4000 % 2 == 1;
      select = w / 0x8000 % 2 == 1;
      resp = resp;
      num = num;
      addr = addr;
    }

decode_control : ℕ → ℕ → ℕ → ℕ → ℕ → Decoded
unfolding control_kind
decode_control type flags resp num addr = elim (control_kind type) [
  | none ↦ err HdrError.bad_start
  | some k ↦ ok (record (blank k) {
    type = type;
    subtype = flags % 0x40;
    qsync = flags / 0x40 % 2 == 1;
    select = flags / 0x80 % 2 == 1;
    resp = resp;
    num = num;
    addr = addr;
  })
]

-- `decode_header`, where `check` says whether the CRC is looked at.
unfoldable pub decode_header : Bool → List ℕ → Decoded
unfolding decode_data decode_control
decode_header check (b0 ∷ b1 ∷ b2 ∷ b3 ∷ b4 ∷ b5 ∷ b6 ∷ b7 ∷ rest) =
    let sound =
      not check
      || good crc16
          (update_all crc16 (b0 ∷ b1 ∷ b2 ∷ b3 ∷ b4 ∷ b5 ∷ b6 ∷ b7 ∷ []) (initial crc16)) in
    if b0 == soh
    then (if sound
        then ok (decode_data MsgKind.payload_data b1 b2 b3 b4 b5)
        else err HdrError.bad_crc)
    else if b0 == dle
    then (if sound
        then ok (decode_data MsgKind.maintenance b1 b2 b3 b4 b5)
        else err HdrError.bad_crc)
    else if b0 == enq
    then (if sound then decode_control b1 b2 b3 b4 b5 else err HdrError.bad_crc)
    else err HdrError.bad_start
decode_header check _ = err HdrError.too_short

-- `find_header`: the first offset, counted from i, at which a header begins.
find_from : ℕ → List ℕ → Option ℕ
unfolding decode_header
find_from i [] = none
find_from i (b ∷ bs) =
    let later = find_from (i + 1) bs in
    elim (decode_header true (b ∷ bs)) [
      | ok m ↦ some i
      | err HdrError.too_short ↦ none
      | err _ ↦ later
    ]

unfoldable pub find_header : List ℕ → Option ℕ
unfolding find_from
find_header buf = find_from 0 buf
