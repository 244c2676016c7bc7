-- ===== src/Hlc/Tests.antt =====
-- Runs of the clock, and the theorems at concrete inputs.
use randall_flare.Prelude.{◌≡◌, refl, [], ◌∷◌, arith}
use randall_flare.Hlc.{Hlc, Clock, new, now}
use randall_flare.Hlc.Monotone.{tick, receive, stamps, Ascends, stamps-Ascends}

abbrev at_100 : Clock
at_100 = record { last = record { wall_ms = 100; logical = 3 } }

abbrev ahead : Hlc
ahead = record { wall_ms = 5000; logical = 7 }

stepped_back : (now at_100 99).1 ≡ record { wall_ms = 100; logical = 4 }
unfolding now
stepped_back = refl

wall_resets : (now at_100 200).1 ≡ record { wall_ms = 200; logical = 0 }
unfolding now
wall_resets = refl

stamps-Ascends_example :
    Ascends new.last (stamps new (tick 100 ∷ receive ahead 100 ∷ tick 99 ∷ tick 98 ∷ []))
unfolding new
stamps-Ascends_example =
    stamps-Ascends new (tick 100 ∷ receive ahead 100 ∷ tick 99 ∷ tick 98 ∷ []) 7 (omega arith)
      (omega arith) (omega arith)

abbrev saturated : Hlc
saturated = record { wall_ms = 5000; logical = 4294967295 }
