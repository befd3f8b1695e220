-- ===== src/Modulo/Tests.antt =====
-- The order of sequence numbers at concrete values, and the theorems applied to them.
use cppdecnet.Prelude.{◌≡◌, refl, arith}
use cppdecnet.Modulo.{PartialOrdering, order, wrap, forward, distance_to}
use cppdecnet.Modulo.Order.{flip, order_of, order-flip, order-wrap}

order-wrap_example : order 4096 (wrap 4096 4095) (wrap 4096 4100) ≡ order_of 4095 4100
order-wrap_example = order-wrap 4095 4100 (omega arith) (omega arith)

order-flip_example : order 4096 4 4095 ≡ flip (order 4096 4095 4)
order-flip_example = order-flip 4096 4095 4 (omega arith) (omega arith) (omega arith) (omega arith)

test_apart : order 4096 0 2048 ≡ PartialOrdering.unordered
unfolding order forward
test_apart = refl

test_distance : distance_to 4096 4095 4 ≡ 5
unfolding distance_to forward
test_distance = refl
