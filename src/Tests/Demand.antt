-- ===== src/Tests/Demand.antt =====
-- A history of two units.
use esp32_dust_extraction.Common.{
  ◌≡◌, ◌↔◌, true, false, List, [], ◌∷◌, Text, codes, refl, text_eq, text_eq_iff, arith,
}
use mathlib.Core.Quot
use esp32_dust_extraction.DemandAggregator.{new, has_demand, active_count, is_active}
use esp32_dust_extraction.DemandAggregator.Units.{Units, run-Units}
use esp32_dust_extraction.DemandAggregator.Threads.{Shuffle, ended, left, right, is_active-Shuffle}
use esp32_dust_extraction.DemandAggregator.History.{
  Call, starts, stops, run, last_call, has_demand-run,
}

abbrev saw : Text
saw = codes "saw"

abbrev sander : Text
sander = codes "sander"

abbrev calls : List Call
calls = starts saw ∷ starts sander ∷ starts saw ∷ stops saw ∷ []

abbrev sander_calls : List Call
sander_calls = starts sander ∷ stops sander ∷ []

abbrev saw_calls : List Call
saw_calls = starts saw ∷ starts saw ∷ []

abbrev interleaved : List Call
interleaved = starts saw ∷ starts sander ∷ starts saw ∷ stops sander ∷ []

interleaving : Shuffle saw_calls sander_calls interleaved
interleaving =
    left (starts saw) (right (starts sander) (left (starts saw) (right (stops sander) ended)))

is_active-Shuffle_example :
    is_active saw (run interleaved new) ≡ last_call saw (is_active saw new) saw_calls
unfolding text_eq
is_active-Shuffle_example = is_active-Shuffle saw new interleaving refl

has_demand-run_example :
    (has_demand (run calls new) ≡ true) ↔ ((unit : Text) × (last_call unit false calls ≡ true))
has_demand-run_example = has_demand-run calls

apart : text_eq saw sander ≡ false
unfolding text_eq
apart = refl

-- The saw is stopped again, so that the history comes to the sander's start alone.
alike : (unit : Text) → last_call unit false calls ≡ last_call unit false (starts sander ∷ [])
unfolding last_call
alike unit =
    ground (arith, text_eq_iff saw unit, text_eq_iff sander unit, text_eq_iff saw sander, apart)

run-Units_example :
    (◌≡◌ {A = Units} (Quot.mk (run calls new)) (Quot.mk (run (starts sander ∷ []) new)))
    × (active_count (run calls new) ≡ active_count (run (starts sander ∷ []) new))
    × (has_demand (run calls new) ≡ has_demand (run (starts sander ∷ []) new))
run-Units_example = run-Units calls (starts sander ∷ []) alike
