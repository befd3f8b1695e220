-- ===== src/Nsp/Packets.antt =====
-- include/decnet/nsp/packets.h and src/nsp/packets.cc: the NSP messages, as the values that the
-- packet classes hold. A byte string is a list of numbers below 256.
use cppdecnet.Prelude.{
  ℕ, ◌/◌, ◌%◌, Bool, true, false, not, ◌&&◌, Option, List, leb, ◌==◌, if◌then◌else◌,
}
use cppdecnet.Prelude.Int.{ℤ}

pub data Qual : Type 0 where
  ackq nak xack xnak : Qual

pub record AckNum : Type 0 where
  pub num : ℕ
  pub qual : Qual

abbrev pub is_cross : AckNum → Bool
is_cross a = elim a.qual [ Qual.xack ↦ true | Qual.xnak ↦ true | _ ↦ false ]

abbrev pub is_nak : AckNum → Bool
is_nak a = elim a.qual [ Qual.nak ↦ true | Qual.xnak ↦ true | _ ↦ false ]

-- The NSP version that a connect message declares, in its bottom two bits.
unfoldable pub phase_of_version : ℕ → ℕ
phase_of_version v = if v == 1 then 2 else if v == 0 then 3 else 4

-- Flow control options.
abbrev pub svc_none : ℕ
svc_none = 0

abbrev pub svc_seg : ℕ
svc_seg = 1

abbrev pub svc_msg : ℕ
svc_msg = 2

-- AckData and AckOther.
pub record Ack : Type 0 where
  pub dstaddr : ℕ
  pub srcaddr : ℕ
  pub acknum : Option AckNum
  pub acknum2 : Option AckNum

pub record AckConn : Type 0 where
  pub dstaddr : ℕ
  pub payload : List ℕ

pub record DataSeg : Type 0 where
  pub msgflag : ℕ
  pub dstaddr : ℕ
  pub srcaddr : ℕ
  pub acknum : Option AckNum
  pub acknum2 : Option AckNum
  pub segnum_bits : ℕ
  pub dly : Bool
  pub payload : List ℕ

-- `(msgflag & 0x20) != 0` and `(msgflag & 0x40) != 0`.
abbrev pub bom : DataSeg → Bool
bom s = s.msgflag / 0x20 % 2 == 1

abbrev pub eom : DataSeg → Bool
eom s = s.msgflag / 0x40 % 2 == 1

-- `Seq::wrap (segnum_bits)`
abbrev pub segnum : DataSeg → ℕ
segnum s = s.segnum_bits % 4096

pub record IntMsg : Type 0 where
  pub dstaddr : ℕ
  pub srcaddr : ℕ
  pub acknum : Option AckNum
  pub acknum2 : Option AckNum
  pub segnum : ℕ
  pub payload : List ℕ

pub record LinkSvcMsg : Type 0 where
  pub dstaddr : ℕ
  pub srcaddr : ℕ
  pub acknum : Option AckNum
  pub acknum2 : Option AckNum
  pub segnum : ℕ
  pub fcmod : ℕ
  pub fcval_int : ℕ
  pub fcval : ℤ

abbrev pub valid : LinkSvcMsg → Bool
valid l = leb l.fcval_int 1 && not (l.fcmod == 3)

-- ConnInit and ConnConf; `body` is `payload` in the one and `data_ctl` in the other.
pub record Conn : Type 0 where
  pub dstaddr : ℕ
  pub srcaddr : ℕ
  pub fcopt : ℕ
  pub info : ℕ
  pub segsize : ℕ
  pub body : List ℕ

pub record DiscConf : Type 0 where
  pub dstaddr : ℕ
  pub srcaddr : ℕ
  pub reason : ℕ

pub record DiscInit : Type 0 where
  pub dstaddr : ℕ
  pub srcaddr : ℕ
  pub reason : ℕ
  pub data_ctl : List ℕ

pub data Packet : Type 0 where
  ack_data ack_other : Ack → Packet
  ack_conn : AckConn → Packet
  data_seg : DataSeg → Packet
  int_msg : IntMsg → Packet
  link_svc : LinkSvcMsg → Packet
  conn_init conn_conf : Conn → Packet
  disc_conf : DiscConf → Packet
  disc_init : DiscInit → Packet
