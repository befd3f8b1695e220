-- ===== src/Crc.antt =====
-- include/decnet/common/crc.h: the CRC class with its template parameters, and the variants.
pub mod Residue
mod Tests
use cppdecnet.Prelude.{
  ℕ, zero, suc, ◌+◌, ◌-◌, ◌*◌, ◌/◌, ◌%◌, ◌^◌, Bool, true, false, List, [], ◌∷◌, ◌==◌, if◌then◌else◌,
}
use Prim.Native.Nat.{bit_and, bit_or, bit_xor}

-- The template parameters. The word type has `width` bits in every variant.
pub record Params : Type 0 where
  pub poly : ℕ
  pub width : ℕ
  pub seed : ℕ
  pub reflect : Bool
  pub final : ℕ

abbrev pub crc16 : Params
crc16 = record { poly = 0x8005; width = 16; seed = 0; reflect = true; final = 0 }

abbrev pub crc_ccitt : Params
crc_ccitt = record { poly = 0x1021; width = 16; seed = 0xffff; reflect = false; final = 0 }

abbrev pub crc32 : Params
crc32 = record {
  poly = 0x04c11db7;
  width = 32;
  seed = 0xffff_ffff;
  reflect = true;
  final = 0xffff_ffff;
}

reverse_loop : ℕ → ℕ → ℕ → ℕ
reverse_loop zero r v = r
reverse_loop (suc n) r v = reverse_loop n (r * 2 + v % 2) (v / 2)

unfoldable pub reverse_bits : ℕ → ℕ → ℕ
unfolding reverse_loop
reverse_bits v width = reverse_loop width 0 v

module _ (p : Params) where
  abbrev mask : ℕ → ℕ
  mask x = x % 2 ^ p.width

  -- One of the eight rounds for a table entry.
  table_round : ℕ → ℕ
  unfolding reverse_bits
  table_round c =
      if p.reflect
      then (if c % 2 == 1 then bit_xor (c / 2) (reverse_bits p.poly p.width) else c / 2)
      else if c / 2 ^ (p.width - 1) % 2 == 1
      then bit_xor (mask (c * 2)) p.poly
      else mask (c * 2)

  table_loop : ℕ → ℕ → ℕ
  unfolding table_round
  table_loop zero c = c
  table_loop (suc n) c = table_loop n (table_round c)

  -- The entry of `make_table` at i.
  unfoldable pub table : ℕ → ℕ
  unfolding table_loop
  table i = mask (table_loop 8 (if p.reflect then i else mask (i * 2 ^ (p.width - 8))))

  unfoldable pub initial : ℕ
  unfolding reverse_bits
  initial = if p.reflect then mask (reverse_bits p.seed p.width) else mask p.seed

  unfoldable pub update : ℕ → ℕ → ℕ
  unfolding table
  update b v = mask (
      if p.reflect
      then bit_xor (v / 256) (table (bit_and (bit_xor v b) 0xff))
      else bit_xor (mask (v * 256)) (table (bit_and (bit_xor (v / 2 ^ (p.width - 8)) b) 0xff)))

  unfoldable pub update_all : List ℕ → ℕ → ℕ
  unfolding update
  update_all [] v = v
  update_all (b ∷ bs) v = update_all bs (update b v)

  unfoldable pub value : ℕ → ℕ
  value v = mask (bit_xor v p.final)

  unfoldable pub good : ℕ → Bool
  unfolding value
  good v = value v == mask p.final

  unfoldable pub compute : List ℕ → ℕ
  unfolding update_all value initial
  compute bytes = value (update_all bytes initial)
