-- ===== src/MachineDemandSource.antt =====
-- firmware/components/machine_demand_source: the data and the interface over the state `S` of an
-- implementation, with a type `F` for `float`. Nothing in the repository's components implements it.
use esp32_dust_extraction.Common.{ℕ, Bool, true, false, not, ◌&&◌}

pub record CalibrationState (F : Type 0) : Type 0 where
  pub calibrated : Bool
  pub factor : F

-- The default member values; `one` is `1.0F`.
abbrev pub default : {F : Type 0} → F → CalibrationState F
default one = record { calibrated = false; factor = one }

abbrev bool_eq : Bool → Bool → Bool
bool_eq true b = b
bool_eq false b = not b

-- The defaulted `operator==`; `same` is `==` on `float`.
unfoldable pub equal :
    {F : Type 0} → (F → F → Bool) → CalibrationState F → CalibrationState F → Bool
equal same a b = bool_eq a.calibrated b.calibrated && same a.factor b.factor

-- Counters of type `std::uint32_t`.
pub record MachineDemandDiagnostics : Type 0 where
  pub demand_started_count : ℕ
  pub demand_stopped_count : ℕ
  pub read_error_count : ℕ

pub record IMachineDemandSource (F S : Type 0) : Type 0 where
  pub demand_active : S → Bool
  pub diagnostics : S → MachineDemandDiagnostics
  pub calibration : S → CalibrationState F
  pub apply_calibration : CalibrationState F → S → S
