-- ===== src/Crc/Tests.antt =====
-- The check values of the CRC variants over the nine digits, and the residue theorem applied to them.
use cppdecnet.Prelude.{ℕ, ◌≡◌, refl, true, false, List, [], ◌∷◌, ◌++◌, ◌/◌, ◌%◌}
use cppdecnet.Crc.{crc16, crc32, compute, update_all, initial, good}
use cppdecnet.Crc.Residue.{good-compute}

abbrev digits : List ℕ
digits = 0x31 ∷ 0x32 ∷ 0x33 ∷ 0x34 ∷ 0x35 ∷ 0x36 ∷ 0x37 ∷ 0x38 ∷ 0x39 ∷ []

test_crc16 : compute crc16 digits ≡ 0xbb3d
unfolding compute
test_crc16 = refl

test_crc32 : compute crc32 digits ≡ 0xcbf4_3926
unfolding compute
test_crc32 = refl

-- A block with its CRC-32 behind it is not good.
test_crc32_residue :
    good crc32 (update_all crc32 (digits ++ 0x26 ∷ 0x39 ∷ 0xf4 ∷ 0xcb ∷ []) (initial crc32)) ≡ false
unfolding good update_all initial
test_crc32_residue = refl

good-compute_example :
    good crc16 (
      update_all crc16
        (digits ++ compute crc16 digits % 256 ∷ compute crc16 digits / 256 ∷ [])
        (initial crc16))
    ≡ true
good-compute_example = good-compute digits
