-- ===== src/Ddcmp/Framing.antt =====
-- The header of a DDCMP message read back.
use cppdecnet.Prelude.{
  ℕ, ◌+◌, ◌%◌, ◌/◌, ◌<◌, ◌*◌, ◌≡◌, refl, Bool, true, false, [], ◌∷◌, ◌==◌, if◌then◌else◌, arith,
}
use cppdecnet.Crc.Residue.{good-compute}
use cppdecnet.Ddcmp.Message.{
  Message, MsgKind, encode_header, decode_header, ok, ctl_type, control_kind, soh, dle, enq,
}

-- The fields that a message of the kind leaves out of its header are 0.
abbrev pub IsFramed : MsgKind → Message → Type 0
IsFramed MsgKind.payload_data m = (m.count < 0x4000) × (m.type ≡ 0) × (m.subtype ≡ 0)
IsFramed MsgKind.maintenance m = (m.count < 0x4000) × (m.type ≡ 0) × (m.subtype ≡ 0)
IsFramed k m = (m.count ≡ 0) × (m.type ≡ ctl_type k) × (m.subtype < 0x40)

abbrev bit : ℕ → Bool → ℕ
bit w b = if b then w else 0

-- A word of two bytes read back.
word_lem : (w : ℕ) → w % 256 + w / 256 * 256 ≡ w
word_lem w = omega arith

count_lem :
    (n : ℕ) (q s : Bool) → n < 0x4000 → (n % 0x4000 + bit 0x4000 q + bit 0x8000 s) % 0x4000 ≡ n
count_lem n q s h = ground arith

qsync_lem : (n : ℕ) (q s : Bool) → (n % 0x4000 + bit 0x4000 q + bit 0x8000 s) / 0x4000 % 2 == 1 ≡ q
qsync_lem n true s = ground arith
qsync_lem n false s = ground arith

select_lem : (n : ℕ) (q s : Bool) → (n % 0x4000 + bit 0x4000 q + bit 0x8000 s) / 0x8000 % 2 == 1 ≡ s
select_lem n q true = ground arith
select_lem n q false = ground arith

subtype_lem : (n : ℕ) (q s : Bool) → n < 0x40 → (n % 0x40 + bit 0x40 q + bit 0x80 s) % 0x40 ≡ n
subtype_lem n q s h = ground arith

qsync_control : (n : ℕ) (q s : Bool) → (n % 0x40 + bit 0x40 q + bit 0x80 s) / 0x40 % 2 == 1 ≡ q
qsync_control n true s = ground arith
qsync_control n false s = ground arith

select_control : (n : ℕ) (q s : Bool) → (n % 0x40 + bit 0x40 q + bit 0x80 s) / 0x80 % 2 == 1 ≡ s
select_control n q true = ground arith
select_control n q false = ground arith

framed_data :
    (m : Message)
    → m.kind ≡ MsgKind.payload_data
    → IsFramed MsgKind.payload_data m
    → decode_header true (encode_header m) ≡ ok (record m { payload = []; crcok = true })
unfolding encode_header decode_header
framed_data m e (c, t, s) =
    let w = m.count % 0x4000 + bit 0x4000 m.qsync + bit 0x8000 m.select in
    rw
      (
        e,
        good-compute (soh ∷ w % 256 ∷ w / 256 ∷ m.resp ∷ m.num ∷ m.addr ∷ []),
        word_lem w,
        count_lem m.count m.qsync m.select c,
        qsync_lem m.count m.qsync m.select,
        select_lem m.count m.qsync m.select,
        t,
        s,
      )
      refl

framed_maintenance :
    (m : Message)
    → m.kind ≡ MsgKind.maintenance
    → IsFramed MsgKind.maintenance m
    → decode_header true (encode_header m) ≡ ok (record m { payload = []; crcok = true })
unfolding encode_header decode_header
framed_maintenance m e (c, t, s) =
    let w = m.count % 0x4000 + bit 0x4000 m.qsync + bit 0x8000 m.select in
    rw
      (
        e,
        good-compute (dle ∷ w % 256 ∷ w / 256 ∷ m.resp ∷ m.num ∷ m.addr ∷ []),
        word_lem w,
        count_lem m.count m.qsync m.select c,
        qsync_lem m.count m.qsync m.select,
        select_lem m.count m.qsync m.select,
        t,
        s,
      )
      refl

framed_ack :
    (m : Message)
    → m.kind ≡ MsgKind.ack
    → IsFramed MsgKind.ack m
    → decode_header true (encode_header m) ≡ ok (record m { payload = []; crcok = true })
unfolding encode_header decode_header control_kind ctl_type
framed_ack m e (c, t, s) =
    let f = m.subtype % 0x40 + bit 0x40 m.qsync + bit 0x80 m.select in
    rw
      (
        e,
        good-compute (enq ∷ ctl_type MsgKind.ack ∷ f ∷ m.resp ∷ m.num ∷ m.addr ∷ []),
        subtype_lem m.subtype m.qsync m.select s,
        qsync_control m.subtype m.qsync m.select,
        select_control m.subtype m.qsync m.select,
        t,
        c,
      )
      refl

framed_nak :
    (m : Message)
    → m.kind ≡ MsgKind.nak
    → IsFramed MsgKind.nak m
    → decode_header true (encode_header m) ≡ ok (record m { payload = []; crcok = true })
unfolding encode_header decode_header control_kind ctl_type
framed_nak m e (c, t, s) =
    let f = m.subtype % 0x40 + bit 0x40 m.qsync + bit 0x80 m.select in
    rw
      (
        e,
        good-compute (enq ∷ ctl_type MsgKind.nak ∷ f ∷ m.resp ∷ m.num ∷ m.addr ∷ []),
        subtype_lem m.subtype m.qsync m.select s,
        qsync_control m.subtype m.qsync m.select,
        select_control m.subtype m.qsync m.select,
        t,
        c,
      )
      refl

framed_rep :
    (m : Message)
    → m.kind ≡ MsgKind.rep
    → IsFramed MsgKind.rep m
    → decode_header true (encode_header m) ≡ ok (record m { payload = []; crcok = true })
unfolding encode_header decode_header control_kind ctl_type
framed_rep m e (c, t, s) =
    let f = m.subtype % 0x40 + bit 0x40 m.qsync + bit 0x80 m.select in
    rw
      (
        e,
        good-compute (enq ∷ ctl_type MsgKind.rep ∷ f ∷ m.resp ∷ m.num ∷ m.addr ∷ []),
        subtype_lem m.subtype m.qsync m.select s,
        qsync_control m.subtype m.qsync m.select,
        select_control m.subtype m.qsync m.select,
        t,
        c,
      )
      refl

framed_start :
    (m : Message)
    → m.kind ≡ MsgKind.start
    → IsFramed MsgKind.start m
    → decode_header true (encode_header m) ≡ ok (record m { payload = []; crcok = true })
unfolding encode_header decode_header control_kind ctl_type
framed_start m e (c, t, s) =
    let f = m.subtype % 0x40 + bit 0x40 m.qsync + bit 0x80 m.select in
    rw
      (
        e,
        good-compute (enq ∷ ctl_type MsgKind.start ∷ f ∷ m.resp ∷ m.num ∷ m.addr ∷ []),
        subtype_lem m.subtype m.qsync m.select s,
        qsync_control m.subtype m.qsync m.select,
        select_control m.subtype m.qsync m.select,
        t,
        c,
      )
      refl

framed_stack :
    (m : Message)
    → m.kind ≡ MsgKind.stack
    → IsFramed MsgKind.stack m
    → decode_header true (encode_header m) ≡ ok (record m { payload = []; crcok = true })
unfolding encode_header decode_header control_kind ctl_type
framed_stack m e (c, t, s) =
    let f = m.subtype % 0x40 + bit 0x40 m.qsync + bit 0x80 m.select in
    rw
      (
        e,
        good-compute (enq ∷ ctl_type MsgKind.stack ∷ f ∷ m.resp ∷ m.num ∷ m.addr ∷ []),
        subtype_lem m.subtype m.qsync m.select s,
        qsync_control m.subtype m.qsync m.select,
        select_control m.subtype m.qsync m.select,
        t,
        c,
      )
      refl

framed :
    (k : MsgKind) (m : Message)
    → m.kind ≡ k
    → IsFramed k m
    → decode_header true (encode_header m) ≡ ok (record m { payload = []; crcok = true })
framed MsgKind.payload_data m e h = framed_data m e h
framed MsgKind.maintenance m e h = framed_maintenance m e h
framed MsgKind.ack m e h = framed_ack m e h
framed MsgKind.nak m e h = framed_nak m e h
framed MsgKind.rep m e h = framed_rep m e h
framed MsgKind.start m e h = framed_start m e h
framed MsgKind.stack m e h = framed_stack m e h

-- The header that encode_header writes, of a message whose fields outside the header of its kind
-- are 0 and whose count or subtype fits its bits, passes the check of its CRC and reads back as
-- the message without its payload.
pub decode_header-encode_header :
    (m : Message)
    → IsFramed m.kind m
    → decode_header true (encode_header m) ≡ ok (record m { payload = []; crcok = true })
decode_header-encode_header m h = framed m.kind m refl h
