-- ===== src/CollectorStateMachine/Diagram.antt =====
-- The transition diagram, and what an observer sees of it.
use esp32_dust_extraction.Common.{◌≡◌, refl, ◌⊎◌, inl, inr, Bool, true, false, arith}
use esp32_dust_extraction.CollectorUnit.{
  CollectorState, stopped, starting, running, stopping, faulted,
}
use esp32_dust_extraction.CollectorStateMachine.{
  CollectorStateMachine, notify, request_start, confirm_started, request_stop, confirm_stopped,
  fault, recover,
}

pub data Request : Type 0 where
  start started stop stopped_now failed recovered : Request

-- The edges of the diagram, and the request that takes each. A fault is possible from every
-- state but `faulted`.
pub data Edge : Request → CollectorState → CollectorState → Type 0 where
  starts : Edge start stopped starting
  runs : Edge started starting running
  stops : Edge stop running stopping
  rests : Edge stopped_now stopping stopped
  fails_stopped : Edge failed stopped faulted
  fails_starting : Edge failed starting faulted
  fails_running : Edge failed running faulted
  fails_stopping : Edge failed stopping faulted
  recovers : Edge recovered faulted stopped

ruleset edges = (
  starts, runs, stops, rests, fails_stopped, fails_starting, fails_running, fails_stopping,
  recovers,
)

module _ {S : Type 0} where
  abbrev pub step : Request → CollectorStateMachine S → S → Bool × CollectorStateMachine S × S
  step start = request_start
  step started = confirm_started
  step stop = request_stop
  step stopped_now = confirm_stopped
  step failed = fault
  step recovered = recover

  -- A request is accepted just when the diagram has an edge for it from the current state. The
  -- machine then stands at the edge's end and its observer has been told of the edge once.
  -- Otherwise nothing changes and nobody is told.
  pub step-Edge :
      (q : Request) (m : CollectorStateMachine S) (s : S)
      → ((to : CollectorState) × Edge q m.state to
          × (step q m s ≡ (
            true,
            record m { state = to },
            notify m.observer (record { from = m.state; to = to }) s,
          )))
        ⊎ (((to : CollectorState) → ¬ Edge q m.state to) × (step q m s ≡ (false, m, s)))
  unfolding request_start confirm_started request_stop confirm_stopped fault recover
  step-Edge q m s = go q m.state refl
    where
      go :
          (q : Request) (from : CollectorState)
          → m.state ≡ from
          → ((to : CollectorState) × Edge q from to
              × (step q m s ≡ (
                true,
                record m { state = to },
                notify m.observer (record { from = from; to = to }) s,
              )))
            ⊎ (((to : CollectorState) → ¬ Edge q from to) × (step q m s ≡ (false, m, s)))
      go start stopped e = inl (starting, starts, ground arith)
      go started starting e = inl (running, runs, ground arith)
      go stop running e = inl (stopping, stops, ground arith)
      go stopped_now stopping e = inl (stopped, rests, ground arith)
      go failed stopped e = inl (faulted, fails_stopped, ground arith)
      go failed starting e = inl (faulted, fails_starting, ground arith)
      go failed running e = inl (faulted, fails_running, ground arith)
      go failed stopping e = inl (faulted, fails_stopping, ground arith)
      go recovered faulted e = inl (stopped, recovers, ground arith)
      go _ _ e = inr (λ to edge. elim edge [ ], ground arith)
