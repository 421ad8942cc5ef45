-- ===== src/RelayBackedCollectorUnit.antt =====
-- firmware/components/relay_backed_collector_unit. The relay is reached through the unit alone,
-- and so its state is a field. The state machine has no observer.
pub mod Safety
use esp32_dust_extraction.Common.{
  ℕ, ◌+◌, ◌%◌, ◌^◌, Bool, true, false, not, none, List, [], ◌∷◌, if◌then◌else◌,
}
use esp32_dust_extraction.CollectorUnit.{
  CollectorState, CollectorCapability, start_stop, CollectorDiagnostics, ICollectorUnit,
}
use esp32_dust_extraction.CollectorStateMachine
use esp32_dust_extraction.CollectorStateMachine.{
  CollectorStateMachine, request_start, confirm_started, request_stop, confirm_stopped, fault,
}
use esp32_dust_extraction.Relay.{RelayDriver}

pub record RelayBackedCollectorUnit (R : Type 0) : Type 0 where
  pub relay : R
  pub state_machine : CollectorStateMachine (Unit {0})
  pub counters : CollectorDiagnostics

module _ {R : Type 0} (driver : RelayDriver R) where
  open driver use {switch_on, switch_off}

  unfoldable pub new : R → RelayBackedCollectorUnit R
  unfolding CollectorStateMachine.new
  new relay = record {
    relay = switch_off relay;
    state_machine = CollectorStateMachine.new none;
    counters = record { successful_starts = 0; successful_stops = 0; fault_count = 0 };
  }

  -- What follows a granted request to start: `m` is the machine after the request.
  unfoldable pub complete_start :
      RelayBackedCollectorUnit R
      → CollectorStateMachine (Unit {0})
      → Bool × RelayBackedCollectorUnit R
  unfolding confirm_started fault
  complete_start u m =
      let relay = switch_on u.relay in
      let (confirmed, m', _) = confirm_started m tt in
      if not confirmed
      then (false, record u { relay = switch_off relay; state_machine = (fault m' tt).1 })
      else (
        true,
        record u {
          relay = relay;
          state_machine = m';
          counters = record u.counters {
            successful_starts = (u.counters.successful_starts + 1) % 2 ^ 32;
          };
        },
      )

  unfoldable pub start : RelayBackedCollectorUnit R → Bool × RelayBackedCollectorUnit R
  unfolding request_start complete_start
  start u =
      let (requested, m, _) = request_start u.state_machine tt in
      if not requested then (false, u) else complete_start u m

  unfoldable pub complete_stop :
      RelayBackedCollectorUnit R
      → CollectorStateMachine (Unit {0})
      → Bool × RelayBackedCollectorUnit R
  unfolding confirm_stopped fault
  complete_stop u m =
      let relay = switch_off u.relay in
      let (confirmed, m', _) = confirm_stopped m tt in
      if not confirmed
      then (false, record u { relay = relay; state_machine = (fault m' tt).1 })
      else (
        true,
        record u {
          relay = relay;
          state_machine = m';
          counters = record u.counters {
            successful_stops = (u.counters.successful_stops + 1) % 2 ^ 32;
          };
        },
      )

  unfoldable pub stop : RelayBackedCollectorUnit R → Bool × RelayBackedCollectorUnit R
  unfolding request_stop complete_stop
  stop u =
      let (requested, m, _) = request_stop u.state_machine tt in
      if not requested then (false, u) else complete_stop u m

  unfoldable pub state : RelayBackedCollectorUnit R → CollectorState
  state u = u.state_machine.state

  unfoldable pub diagnostics : RelayBackedCollectorUnit R → CollectorDiagnostics
  diagnostics u = u.counters

  unfoldable pub capabilities : RelayBackedCollectorUnit R → List CollectorCapability
  capabilities u = start_stop ∷ []

  -- The class as an implementation of the interface.
  abbrev pub collector_unit : ICollectorUnit (RelayBackedCollectorUnit R)
  collector_unit = record {
    start = start;
    stop = stop;
    state = state;
    diagnostics = diagnostics;
    capabilities = capabilities;
  }
