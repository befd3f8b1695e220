-- ===== src/Timers/Tests.antt =====
-- The theorems on the timer wheel at concrete input.
use cppdecnet.Prelude.{ℕ, suc, ◌<◌, ◌≡◌, refl, true, some, List, [], ◌∷◌, arith}
use cppdecnet.Timers.{
  Wheel, Event, started, ticked, new_wheel, start, stop, ticks, ticks_of, run, step, tick,
  dispatches, unlink, start_or_keep, add_before,
}
use cppdecnet.Timers.Punctual.{linked, posted, due}
use cppdecnet.Timers.Punctual.Due.{start-punctual}
use cppdecnet.Timers.Silent.{stop-silences}

abbrev wheel : Wheel
wheel = record {
  tick = 100;
  size = 11;
  pos = 9;
  slots = λ i. [];
  revcount = λ t. 0;
  work = [];
  fired = [];
}

-- 300 milliseconds are three ticks, across the end of the wheel.
abbrev armed : Wheel
armed = add_before 1 7 (unlink 7 wheel)

armed_lem : start 7 300 wheel ≡ some armed
unfolding start ticks_of
armed_lem = refl

start-punctual_example :
    ((k : ℕ) → k < ticks_of 300 wheel → posted 7 (ticks k armed).work ≡ posted 7 wheel.work)
    × (posted 7 (ticks (ticks_of 300 wheel) armed).work ≡ suc (posted 7 wheel.work))
    × (due 7 ((ticks (ticks_of 300 wheel) armed).revcount 7) (ticks (ticks_of 300 wheel) armed).work
        ≡ true)
start-punctual_example = start-punctual 7 300 wheel armed (omega arith) armed_lem

-- The item of the timer waits when it is stopped.
abbrev events : List Event
events = started 7 100 ∷ ticked ∷ []

stop-silences_example :
    linked 7 (dispatches 5 (stop 7 (run events (new_wheel 100 1)))).fired
    ≡ linked 7 (run events (new_wheel 100 1)).fired
unfolding step start start_or_keep new_wheel tick ticks_of add_before unlink
stop-silences_example = stop-silences 100 1 events 7 5 (omega arith)
