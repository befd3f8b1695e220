-- ===== src/Modulo.antt =====
-- include/decnet/common/modulo.h: sequence number arithmetic modulo the template parameter
-- `Modulus`, which is an argument here. A value of `Mod<m>` is a number below m, and the class
-- computes in uint32_t.
pub mod Order
mod Tests
use cppdecnet.Prelude.{
  ℕ, ◌+◌, ◌-◌, ◌*◌, ◌/◌, ◌%◌, ◌^◌, Bool, true, false, not, ◌&&◌, ◌||◌, Option, none, some, ltb, leb,
  ◌==◌, if◌then◌else◌,
}

-- std::partial_ordering
pub data PartialOrdering : Type 0 where
  less equivalent greater unordered : PartialOrdering

-- uint32_t a + b and a - b.
abbrev pub add_u32 : ℕ → ℕ → ℕ
add_u32 a b = (a + b) % 2 ^ 32

abbrev pub sub_u32 : ℕ → ℕ → ℕ
sub_u32 a b = (a + 2 ^ 32 - b) % 2 ^ 32

-- The largest forward distance that still counts as "less than".
unfoldable pub maxdelta : ℕ → ℕ
maxdelta m = if m % 2 == 0 then m / 2 - 1 else m / 2

unfoldable pub has_undef : ℕ → Bool
has_undef m = m % 2 == 0

unfoldable pub undef : ℕ → ℕ
undef m = m / 2

-- The checked constructor: `none` is std::overflow_error.
unfoldable pub make : ℕ → ℕ → Option ℕ
make m v = if leb m v then none else some v

unfoldable pub wrap : ℕ → ℕ → ℕ
wrap m v = v % m

unfoldable pub forward : ℕ → ℕ → ℕ → ℕ
forward m from to = sub_u32 (add_u32 to m) from % m

-- operator<=>
unfoldable pub order : ℕ → ℕ → ℕ → PartialOrdering
unfolding maxdelta has_undef undef
order m a b =
    let delta = forward m a b in
    if a == b
    then PartialOrdering.equivalent
    else if has_undef m && delta == undef m
    then PartialOrdering.unordered
    else if leb delta (maxdelta m)
    then PartialOrdering.less
    else PartialOrdering.greater

-- operator<, which C++ derives from operator<=>.
unfoldable pub lt : ℕ → ℕ → ℕ → Bool
unfolding order
lt m a b = elim (order m a b) [ PartialOrdering.less ↦ true | _ ↦ false ]

unfoldable pub comparable : ℕ → ℕ → ℕ → Bool
unfolding has_undef undef
comparable m a b = not (has_undef m) || not (forward m a b == undef m)

-- operator+=, operator-= and operator++.
unfoldable pub add : ℕ → ℕ → ℕ → ℕ
add m a b = add_u32 a b % m

unfoldable pub sub : ℕ → ℕ → ℕ → ℕ
sub m a b = sub_u32 (add_u32 a m) b % m

unfoldable pub increment : ℕ → ℕ → ℕ
increment m a = add_u32 a 1 % m

unfoldable pub distance_to : ℕ → ℕ → ℕ → ℕ
distance_to m a other = forward m a other
