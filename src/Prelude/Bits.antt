-- ===== src/Prelude/Bits.antt =====
-- A test that holds at every number below a bound, for facts that are checked by evaluation.
use Prim.Native.Nat.{ℕ, zero, suc, ◌<◌}
use mathlib.Core.Path.{◌≡◌}
use mathlib.Core.Bool.{Bool, true, ◌&&◌}
use native.Mathlib.Omega.{arith}

unfoldable pub scan : (ℕ → Bool) → ℕ → Bool
scan test zero = true
scan test (suc bound) = scan test bound && test bound

pub scan-lt : (test : ℕ → Bool) (bound i : ℕ) → i < bound → scan test bound ≡ true → test i ≡ true
unfolding scan
scan-lt test zero i below passed = absurd (omega arith)
scan-lt test (suc bound) i below passed = ground (arith, scan-lt test bound i)
