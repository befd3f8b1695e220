-- ===== src/Crc/Residue.antt =====
-- The residue of CRC-16 in include/decnet/common/crc.h.
use cppdecnet.Prelude.{
  Bool, ℕ, ◌/◌, ◌%◌, ◌<◌, ◌≡◌, refl, sym, ◌∙◌, ap, true, List, [], ◌∷◌, ◌++◌, ◌==◌, ==_iff, arith,
}
use cppdecnet.Prelude.Bits.{scan, scan-lt}
use cppdecnet.Crc.{crc16, table, update, update_all, value, good, compute, initial}
use Prim.Native.Nat.{bit_and, bit_xor}

-- The low byte of the register cancels against itself, and 0 changes nothing.
abbrev cancels : ℕ → Bool
cancels v = bit_and (bit_xor v (v % 256)) 0xff == 0

abbrev unchanged : ℕ → Bool
unchanged v = bit_xor v 0 == v

registers_cancel : scan cancels 65536 ≡ true
unfolding scan
registers_cancel = refl

registers_unchanged : scan unchanged 65536 ≡ true
unfolding scan
registers_unchanged = refl

low_byte_cancels : (v : ℕ) → v < 65536 → bit_and (bit_xor v (v % 256)) 0xff ≡ 0
low_byte_cancels v h = (==_iff _ 0).0 (scan-lt cancels 65536 v h registers_cancel)

xor_zero : (v : ℕ) → v < 65536 → bit_xor v 0 ≡ v
xor_zero v h = (==_iff _ v).0 (scan-lt unchanged 65536 v h registers_unchanged)

table_zero : table crc16 0 ≡ 0
unfolding table
table_zero = refl

-- One byte equal to the low byte of the register shifts the register.
update_low : (v : ℕ) → v < 65536 → update crc16 (v % 256) v ≡ v / 256
unfolding update
update_low v h =
    rw (low_byte_cancels v h, table_zero, xor_zero (v / 256) (omega arith)) (omega arith)

update_self : (w : ℕ) → w < 256 → update crc16 w w ≡ 0
update_self w h =
    let same : w % 256 ≡ w = omega arith in
    ap (λ b. update crc16 b w) (sym same) ∙ update_low w (omega arith) ∙ omega arith

update-lt : (b v : ℕ) → update crc16 b v < 65536
unfolding update
update-lt b v = omega arith

pub update_all-lt : (bytes : List ℕ) (v : ℕ) → v < 65536 → update_all crc16 bytes v < 65536
unfolding update_all
update_all-lt [] v h = h
update_all-lt (b ∷ bs) v h = update_all-lt bs (update crc16 b v) (update-lt b v)

update_all-append :
    (xs ys : List ℕ) (v : ℕ)
    → update_all crc16 (xs ++ ys) v ≡ update_all crc16 ys (update_all crc16 xs v)
unfolding update_all
update_all-append [] ys v = refl
update_all-append (x ∷ xs) ys v = update_all-append xs ys (update crc16 x v)

initial-lt : initial crc16 < 65536
unfolding initial
initial-lt = omega arith

compute_lem : (bytes : List ℕ) → compute crc16 bytes ≡ update_all crc16 bytes (initial crc16)
unfolding compute value initial
compute_lem bytes =
    rw (xor_zero (update_all crc16 bytes 0) (update_all-lt bytes 0 (omega arith)))
      (omega (arith, update_all-lt bytes 0 (omega arith)))

two_bytes : (v : ℕ) → v < 65536 → update_all crc16 (v % 256 ∷ v / 256 ∷ []) v ≡ 0
unfolding update_all
two_bytes v h = rw (update_low v h) (update_self (v / 256) (omega arith))

-- A block followed by its CRC-16, low byte first, leaves the register at the residue that good
-- tests for.
pub good-compute :
    (bytes : List ℕ)
    → let c = compute crc16 bytes in
      good crc16 (update_all crc16 (bytes ++ c % 256 ∷ c / 256 ∷ []) (initial crc16)) ≡ true
good-compute bytes =
    let v = update_all crc16 bytes (initial crc16) in
    rw
      (
        update_all-append bytes _ (initial crc16),
        compute_lem bytes,
        two_bytes v (update_all-lt bytes (initial crc16) initial-lt),
      )
      (unfold good value in refl)

test_crc :
    compute crc16 (0x31 ∷ 0x32 ∷ 0x33 ∷ 0x34 ∷ 0x35 ∷ 0x36 ∷ 0x37 ∷ 0x38 ∷ 0x39 ∷ []) ≡ 0xbb3d
unfolding compute
test_crc = refl
