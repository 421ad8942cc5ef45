-- ===== src/CollectorStateMachine.antt =====
-- firmware/components/collector_state_machine. The observer is a function on a state `S` of its
-- own; `none` is an empty `std::function`. It does not call the machine back.
pub mod Diagram
pub mod History
use esp32_dust_extraction.Common.{Bool, true, false, not, Option, none, some, if◌then◌else◌}
use esp32_dust_extraction.CollectorUnit.{
  CollectorState, stopped, starting, running, stopping, faulted, state_eq,
}

pub record Transition : Type 0 where
  pub from : CollectorState
  pub to : CollectorState

abbrev pub TransitionObserver : Type 0 → Type 0
TransitionObserver S = Option (Transition → S → S)

pub record CollectorStateMachine (S : Type 0) : Type 0 where
  pub state : CollectorState
  pub observer : TransitionObserver S

unfoldable pub new : {S : Type 0} → TransitionObserver S → CollectorStateMachine S
new observer = record { state = stopped; observer = observer }

abbrev pub notify : {S : Type 0} → TransitionObserver S → Transition → S → S
notify none accepted s = s
notify (some observer) accepted s = observer accepted s

module _ {S : Type 0} where
  unfoldable pub transition :
      CollectorState
      → CollectorState
      → CollectorStateMachine S
      → S
      → Bool × CollectorStateMachine S × S
  transition expected next m s = if not (state_eq m.state expected) then (false, m, s) else (
    true,
    record m { state = next },
    notify m.observer (record { from = m.state; to = next }) s,
  )

  unfoldable pub request_start : CollectorStateMachine S → S → Bool × CollectorStateMachine S × S
  unfolding transition
  request_start = transition stopped starting

  unfoldable pub confirm_started : CollectorStateMachine S → S → Bool × CollectorStateMachine S × S
  unfolding transition
  confirm_started = transition starting running

  unfoldable pub request_stop : CollectorStateMachine S → S → Bool × CollectorStateMachine S × S
  unfolding transition
  request_stop = transition running stopping

  unfoldable pub confirm_stopped : CollectorStateMachine S → S → Bool × CollectorStateMachine S × S
  unfolding transition
  confirm_stopped = transition stopping stopped

  unfoldable pub fault : CollectorStateMachine S → S → Bool × CollectorStateMachine S × S
  unfolding transition
  fault m s = if state_eq m.state faulted then (false, m, s) else transition m.state faulted m s

  unfoldable pub recover : CollectorStateMachine S → S → Bool × CollectorStateMachine S × S
  unfolding transition
  recover = transition faulted stopped
