-- ===== src/Types/Tests.antt =====
-- The theorems at concrete input, and tests.
use cppdecnet.Prelude.{◌≡◌, refl, inr, ℕ, ◌≤◌, some, none, List, [], ◌∷◌, map, length, arith}
use cppdecnet.Types.{
  Version, parse_nodeid, print_nodeid, parse_macaddr, print_macaddr, parse_version, print_version,
  nodename, circname, to_upper, scan_letters, macaddr_of,
}
use cppdecnet.Types.Hex.{AllBytes, parse_macaddr-print_macaddr}
use cppdecnet.Types.RoundTrip.{parse_nodeid-print_nodeid, parse_version-print_version}
use cppdecnet.Types.Names.{nodename-Canonical, Canonical}

parse_nodeid-print_nodeid_example : parse_nodeid (print_nodeid 63489) ≡ some 63489
parse_nodeid-print_nodeid_example =
    parse_nodeid-print_nodeid 63489 (omega arith) (inr (omega arith))

-- aa-00-04-00-01-04, of node 1.1.
abbrev mac : List ℕ
mac = 0xaa ∷ 0 ∷ 4 ∷ 0 ∷ 1 ∷ 4 ∷ []

mac-AllBytes : AllBytes mac
mac-AllBytes = ground arith

parse_macaddr-print_macaddr_example : parse_macaddr (print_macaddr mac) ≡ some mac
parse_macaddr-print_macaddr_example = parse_macaddr-print_macaddr mac refl mac-AllBytes

mac_of : macaddr_of 1025 ≡ mac
unfolding macaddr_of
mac_of = refl

abbrev version : Version
version = record { v1 = 4; v2 = 1; v3 = 255 }

parse_version-print_version_example : parse_version (print_version version) ≡ some version
parse_version-print_version_example =
    parse_version-print_version version (omega arith) (omega arith) (omega arith)

-- "256.0.0"
parse_version_256 :
    parse_version (50 ∷ 53 ∷ 54 ∷ 46 ∷ 48 ∷ 46 ∷ 48 ∷ []) ≡ some (record { v1 = 0; v2 = 0; v3 = 0 })
unfolding parse_version
parse_version_256 = refl

-- "a1"
abbrev small : List ℕ
small = 97 ∷ 49 ∷ []

nodename-Canonical_example :
    (1 ≤ length (map to_upper small))
    × (length (map to_upper small) ≤ 6)
    × Canonical (map to_upper small)
    × (nodename (map to_upper small) ≡ some (map to_upper small))
unfolding nodename
nodename-Canonical_example = nodename-Canonical small (map to_upper small) refl

-- "a1a": no letter stands behind a digit.
circname_letter : circname (97 ∷ 49 ∷ 97 ∷ []) ≡ none
unfolding circname scan_letters
circname_letter = refl
