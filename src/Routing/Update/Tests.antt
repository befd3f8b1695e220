-- ===== src/Routing/Update/Tests.antt =====
-- The theorems on the update process at concrete input.
use cppdecnet.Prelude.{ℕ, ◌≡◌, ◌*◌, Bool, true, ◌||◌, arith, ltb}
use cppdecnet.Routing.Update.{Circuit, build, build_segments, new_update}
use cppdecnet.Routing.Update.Covers.{told_all, selected, build_segments-selected}
use cppdecnet.Routing.Update.Room.{AllFit, build-AllFit}
use cppdecnet.Routing.Tests.{router}

-- Of the destinations 0 to 39 all but 3, in blocks of 40 bytes.
abbrev wanted : ℕ → Bool
wanted i = ltb i 3 || ltb 3 i

build_segments-selected_example :
    told_all (build_segments wanted (λ i. i * 2) 40 0 40) ≡ selected wanted (λ i. i * 2) 0 40
build_segments-selected_example = build_segments-selected wanted (λ i. i * 2) 40 0 40 (omega arith)

abbrev circuit : Circuit
circuit = record { wants_updates = λ level. true; update_blksize = 40 }

build-AllFit_example : AllFit 40 (build router circuit true (new_update 1023 10000 1))
build-AllFit_example = build-AllFit router circuit true (new_update 1023 10000 1) (omega arith)
