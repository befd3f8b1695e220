-- ===== src/Timers.antt =====
-- src/common/timers.cc and include/decnet/common/timers.h: the timer wheel. A timer is a number; a
-- circular queue is the list of what is linked into it, in order. The node's work queue is as much of
-- the wheel's state as it holds Timeout items.
pub mod Punctual
pub mod Silent
mod Tests
use cppdecnet.Prelude.{
  ℕ, zero, suc, ◌+◌, ◌*◌, ◌/◌, ◌%◌, ◌^◌, max, Option, none, some, List, [], ◌∷◌, ◌++◌, leb, ◌==◌,
  if◌then◌else◌,
}

-- `work` has the items with the count that each carries, the oldest first, and `fired` the timers
-- whose `timeout` was called, the newest first. Times are in milliseconds.
pub record Wheel : Type 0 where
  pub tick : ℕ
  pub size : ℕ
  pub pos : ℕ
  pub slots : ℕ → List ℕ
  pub revcount : ℕ → ℕ
  pub work : List (ℕ × ℕ)
  pub fired : List ℕ

-- The constructor; `maxtime` is in seconds.
unfoldable pub new_wheel : ℕ → ℕ → Wheel
new_wheel tick maxtime = record {
  tick = tick;
  size = (maxtime * 1000 + tick) / tick;
  pos = 0;
  slots = λ i. [];
  revcount = λ t. 0;
  work = [];
  fired = [];
}

unfoldable pub without : ℕ → List ℕ → List ℕ
without t [] = []
without t (u ∷ us) = let rest = without t us in if u == t then rest else u ∷ rest

-- Cque::unlink
unfoldable pub unlink : ℕ → Wheel → Wheel
unfolding without
unlink t w = record w {
  slots = λ i. without t (w.slots i);
  revcount = λ u. if u == t then (w.revcount u + 1) % 2 ^ 32 else w.revcount u;
}

-- Cque::add_before on the head of a slot, whose own count is not looked at.
unfoldable pub add_before : ℕ → ℕ → Wheel → Wheel
add_before slot t w = record w { slots = λ i. if i == slot then w.slots i ++ t ∷ [] else w.slots i }

-- The ticks that an interval takes, one at least.
unfoldable pub ticks_of : ℕ → Wheel → ℕ
ticks_of ms w = max 1 (ms / w.tick)

-- `start`; none is std::overflow_error.
unfoldable pub start : ℕ → ℕ → Wheel → Option Wheel
unfolding unlink add_before
start t ms w =
    if leb w.size (ticks_of ms w)
    then none
    else some (add_before ((w.pos + ticks_of ms w) % w.size) t (unlink t w))

unfoldable pub stop : ℕ → Wheel → Wheel
stop t w = unlink t w

-- The loop of `tick` over what is linked into the slot.
unfoldable pub expire : List ℕ → Wheel → Wheel
expire [] w = w
expire (t ∷ ts) w =
    let u = unlink t w in expire ts (record u { work = u.work ++ (t, u.revcount t) ∷ [] })

unfoldable pub tick : Wheel → Wheel
tick w = let moved = record w { pos = (w.pos + 1) % w.size } in expire (moved.slots moved.pos) moved

unfoldable pub ticks : ℕ → Wheel → Wheel
ticks zero w = w
ticks (suc n) w = tick (ticks n w)

-- Timeout::dispatch of the item that is next.
unfoldable pub dispatch_next : List (ℕ × ℕ) → Wheel → Wheel
dispatch_next [] w = w
dispatch_next ((t, r) ∷ rest) w =
    if w.revcount t == r
    then record w { work = rest; fired = t ∷ w.fired }
    else record w { work = rest }

unfoldable pub dispatch : Wheel → Wheel
dispatch w = dispatch_next w.work w

-- The dispatch of so many items.
unfoldable pub dispatches : ℕ → Wheel → Wheel
dispatches zero w = w
dispatches (suc n) w = dispatches n (dispatch w)

-- The wheel in use: what the layers and the two threads do, one at a time.
pub data Event : Type 0 where
  started : ℕ → ℕ → Event
  stopped : ℕ → Event
  ticked dispatched : Event

unfoldable pub start_or_keep : Option Wheel → Wheel → Wheel
start_or_keep none w = w
start_or_keep (some w') w = w'

unfoldable pub step : Event → Wheel → Wheel
step (started t ms) w = start_or_keep (start t ms w) w
step (stopped t) w = stop t w
step ticked w = tick w
step dispatched w = dispatch w

unfoldable pub run : List Event → Wheel → Wheel
run [] w = w
run (e ∷ es) w = run es (step e w)
