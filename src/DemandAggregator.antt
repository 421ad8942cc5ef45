-- ===== src/DemandAggregator.antt =====
-- firmware/components/demand_aggregator: the active machine units. Every operation holds the lock
-- for its whole length, so that each is one step. The `std::set` is a list, whose order no
-- operation shows.
pub mod History
pub mod Threads
pub mod Units
use esp32_dust_extraction.Common.{
  ℕ, Bool, true, false, not, ◌||◌, List, [], ◌∷◌, Text, text_eq, length, if◌then◌else◌,
}

pub record DemandAggregator : Type 0 where
  pub active : List Text

abbrev pub new : DemandAggregator
new = record { active = [] }

unfoldable pub contains : Text → List Text → Bool
contains unit_id [] = false
contains unit_id (a ∷ active) = text_eq a unit_id || contains unit_id active

-- `erase` of the element that was found.
unfoldable pub erase : Text → List Text → List Text
erase unit_id [] = []
erase unit_id (a ∷ active) =
    let rest = erase unit_id active in if text_eq a unit_id then rest else a ∷ rest

unfoldable pub start : Text → DemandAggregator → Bool × DemandAggregator
start unit_id d =
    if contains unit_id d.active then (false, d) else (true, record { active = unit_id ∷ d.active })

unfoldable pub stop : Text → DemandAggregator → Bool × DemandAggregator
stop unit_id d =
    if not (contains unit_id d.active)
    then (false, d)
    else (true, record { active = erase unit_id d.active })

abbrev pub is_empty : List Text → Bool
is_empty [] = true
is_empty (_ ∷ _) = false

unfoldable pub has_demand : DemandAggregator → Bool
has_demand d = not (is_empty d.active)

unfoldable pub active_count : DemandAggregator → ℕ
active_count d = length d.active

unfoldable pub is_active : Text → DemandAggregator → Bool
is_active unit_id d = contains unit_id d.active
