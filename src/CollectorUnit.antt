-- ===== src/CollectorUnit.antt =====
-- firmware/components/collector_unit: the enumerations, the diagnostics and the interface
-- `ICollectorUnit`.
use esp32_dust_extraction.Common.{ℕ, Bool, List, true, false}

pub data CollectorState : Type 0 where
  stopped starting running stopping faulted : CollectorState

pub data CollectorMode : Type 0 where
  automatic forced_on forced_off : CollectorMode

pub data CollectorCapability : Type 0 where
  start_stop fault_reporting : CollectorCapability

-- Counters of type `std::uint32_t`.
pub record CollectorDiagnostics : Type 0 where
  pub successful_starts : ℕ
  pub successful_stops : ℕ
  pub fault_count : ℕ

-- The interface over the state `U` of an implementation.
pub record ICollectorUnit (U : Type 0) : Type 0 where
  pub start : U → Bool × U
  pub stop : U → Bool × U
  pub state : U → CollectorState
  pub diagnostics : U → CollectorDiagnostics
  pub capabilities : U → List CollectorCapability

-- `==` on the enumerations.
abbrev pub state_eq : CollectorState → CollectorState → Bool
state_eq stopped stopped = true
state_eq starting starting = true
state_eq running running = true
state_eq stopping stopping = true
state_eq faulted faulted = true
state_eq _ _ = false

abbrev pub mode_eq : CollectorMode → CollectorMode → Bool
mode_eq automatic automatic = true
mode_eq forced_on forced_on = true
mode_eq forced_off forced_off = true
mode_eq _ _ = false
