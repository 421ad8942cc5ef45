-- ===== src/CollectorService/Policy.antt =====
-- The commands that the service sends, against a table that says what is wanted.
use esp32_dust_extraction.Common.{
  ◌≡◌, ◌≢◌, refl, inl, inr, Bool, true, false, not, ◌||◌, Option, none, some, is_some, subst, List,
  [], ◌∷◌, ◌++◌, append-nil, Text, arith, Option-cases, if◌then◌else◌,
}
use esp32_dust_extraction.Common.Int.{◌-ℤ◌, ltb_ℤ}
use esp32_dust_extraction.Event.{Timestamp}
use esp32_dust_extraction.Command.{Command, command_type}
use esp32_dust_extraction.Command.CommandId
use esp32_dust_extraction.CollectorCommands.{
  start_command_type, stop_command_type, start_collector, stop_collector,
}
use esp32_dust_extraction.CollectorUnit.{
  CollectorState, stopped, running, CollectorMode, automatic, forced_on, forced_off, state_eq,
  mode_eq,
}
use esp32_dust_extraction.CollectorService.Invariant.{
  mode_cases, enter, at_once, request_mode_same, request_mode_other,
}
use esp32_dust_extraction.CollectorService.{
  request_mode, Ports, CollectorService, MakeCommand, dispatch_command, request_start, request_stop,
  start_if_stopped, stop_if_running, reconcile_pending, reconcile, reset,
}

mode_eq_refl : (m : CollectorMode) → mode_eq m m ≡ true
mode_eq_refl m = ground arith

pub data Action : Type 0 where
  start_it stop_it leave_it : Action

-- What the mode and the demand want of a collector in the state. `due` says that automatic demand
-- need wait no longer.
abbrev pub wanted : CollectorMode → Bool → Bool → CollectorState → Action
wanted forced_on demand due stopped = start_it
wanted forced_off demand due running = stop_it
wanted automatic false due running = stop_it
wanted automatic true true stopped = start_it
wanted _ _ _ _ = leave_it

-- Demand waits while a start is pending and the clock has not yet run for the delay since.
abbrev pub is_due : CollectorService → Timestamp → Bool
is_due s now = elim s.pending_demand_since [
  | none ↦ true
  | some since ↦ not (ltb_ℤ (now -ℤ since) s.start_delay)
]

abbrev pub types_of : Action → List Text
types_of start_it = start_command_type ∷ []
types_of stop_it = stop_command_type ∷ []
types_of leave_it = []

-- Ports whose sent commands are on record. The generator makes valid UUIDs, and neither it nor the
-- clock sends a command or changes the state of the unit.
pub record Recorder {W : Type 0} (ports : Ports W) : Type 0 where
  pub sent : W → List Text
  pub sent-dispatch :
      (c : Command) (w : W) → sent (ports.dispatch c w).1 ≡ sent w ++ command_type c ∷ []
  pub sent-generate : (w : W) → sent (ports.generate w).1 ≡ sent w
  pub sent-clock : (w : W) → sent (ports.clock w).1 ≡ sent w
  pub state-clock : (w : W) → ports.unit_state (ports.clock w).1 ≡ ports.unit_state w
  pub valid_id : (w : W) → is_some (CommandId.from_string (ports.generate w).0.value) ≡ true

module _ {W : Type 0} (ports : Ports W) (recorder : Recorder ports) where
  open recorder use {sent, sent-dispatch, sent-generate, sent-clock, state-clock, valid_id}

  sent-dispatch_command :
      (make : MakeCommand) (s : CollectorService) (w : W) (type : Text)
      → ((id : CommandId.CommandId) (now : Timestamp) → command_type (make id s.uid now) ≡ type)
      → sent (dispatch_command ports make s w).1 ≡ sent w ++ type ∷ []
  unfolding dispatch_command
  sent-dispatch_command make s w type typed =
      let w₁ = (ports.generate w).1 in
      elim (Option-cases (CommandId.from_string (ports.generate w).0.value)) [
        | inl missing ↦ ground (arith, valid_id w)
        | inr (id, found) ↦
            let w₂ = (ports.clock w₁).1 in
            let now = (ports.clock w₁).0 in
            ground (
              arith,
              found,
              sent-generate w,
              sent-clock w₁,
              sent-dispatch (make id s.uid now) w₂,
              typed id now,
            )
      ]

  sent-start :
      (s : CollectorService) (w : W)
      → sent (dispatch_command ports start_collector s w).1 ≡ sent w ++ start_command_type ∷ []
  unfolding start_collector command_type
  sent-start s w = sent-dispatch_command start_collector s w start_command_type (λ id now. refl)

  sent-stop :
      (s : CollectorService) (w : W)
      → sent (dispatch_command ports stop_collector s w).1 ≡ sent w ++ stop_command_type ∷ []
  unfolding stop_collector command_type
  sent-stop s w = sent-dispatch_command stop_collector s w stop_command_type (λ id now. refl)

  sent-request_start :
      (s : CollectorService) (w : W)
      → s.current_mode ≢ forced_off
      → ports.unit_state w ≡ stopped
      → sent (request_start ports s w).1 ≡ sent w ++ start_command_type ∷ []
  unfolding request_start
  sent-request_start s w h k = ground (arith, sent-start s w)

  sent-start_if_stopped :
      (s : CollectorService) (w : W)
      → s.current_mode ≢ forced_off
      → sent (start_if_stopped ports s w).1
        ≡ sent w ++ (if state_eq (ports.unit_state w) stopped then start_command_type ∷ [] else [])
  unfolding start_if_stopped request_start
  sent-start_if_stopped s w h = ground (arith, sent-start s w, append-nil (sent w))

  sent-stop_if_running :
      (s : CollectorService) (w : W)
      → s.current_mode ≢ forced_on
      → sent (stop_if_running ports s w).1
        ≡ sent w ++ (if state_eq (ports.unit_state w) running then stop_command_type ∷ [] else [])
  unfolding stop_if_running request_stop
  sent-stop_if_running s w h = ground (arith, sent-stop s w, append-nil (sent w))

  sent-reconcile_pending :
      (s : CollectorService) (since : Timestamp) (w : W)
      → s.current_mode ≡ automatic
      → sent (reconcile_pending ports s (some since) w).2
        ≡ sent w
          ++ types_of (
              wanted automatic true
                (not (ltb_ℤ ((ports.clock w).0 -ℤ since) s.start_delay))
                (ports.unit_state w))
  unfolding reconcile_pending
  sent-reconcile_pending s since w h =
      let w₁ = (ports.clock w).1 in
      ground (arith, sent-clock w, state-clock w, sent-request_start s w₁, append-nil (sent w))

  -- Where the commands sent are on record, `reconcile` sends just the command that the table wants
  -- for the mode, the demand and the state of the unit: in forced-on mode a start of a stopped
  -- collector, in forced-off mode a stop of a running one, in automatic mode with no demand a stop
  -- of a running one, at once and with no run-on period, and with demand a start of a stopped one,
  -- unless a start is pending whose delay has not run out by the clock and no immediate start is
  -- asked for. Otherwise none.
  pub reconcile-wanted :
      (immediate : Bool) (s : CollectorService) (w : W)
      → sent (reconcile ports immediate s w).2
        ≡ sent w
          ++ types_of (
              wanted s.current_mode s.has_demand
                (immediate || is_due s (ports.clock w).0)
                (ports.unit_state w))
  unfolding reconcile
  reconcile-wanted immediate s w = go s.current_mode s.pending_demand_since refl refl
    where
      go :
          (m : CollectorMode) (p : Option Timestamp)
          → s.current_mode ≡ m
          → s.pending_demand_since ≡ p
          → sent (reconcile ports immediate s w).2
            ≡ sent w
              ++ types_of (
                  wanted s.current_mode s.has_demand
                    (immediate || is_due s (ports.clock w).0)
                    (ports.unit_state w))
      go forced_on p e f = ground (arith, sent-start_if_stopped s w)
      go forced_off p e f = ground (arith, sent-stop_if_running s w)
      go automatic none e f = ground (
        arith,
        sent-start_if_stopped s w,
        sent-start_if_stopped (reset s) w,
        sent-stop_if_running (reset s) w,
      )
      go automatic (some since) e f = ground (
        arith,
        sent-reconcile_pending s since w e,
        sent-start_if_stopped (reset s) w,
        sent-stop_if_running (reset s) w,
      )

  -- Where the commands sent are on record, a mode request sends just the command that the table
  -- wants for the requested mode; a change of mode makes existing demand due at once.
  pub request_mode-wanted :
      (requested : CollectorMode) (s : CollectorService) (w : W)
      → sent (request_mode ports requested s w).2
        ≡ sent w
          ++ types_of (
              wanted requested s.has_demand
                (not (mode_eq s.current_mode requested) || is_due s (ports.clock w).0)
                (ports.unit_state w))
  request_mode-wanted requested s w = elim (mode_cases s.current_mode requested) [
    | inl same ↦
        subst
          (λ m.
            sent (request_mode ports requested s w).2
            ≡ sent w
              ++ types_of (
                  wanted m s.has_demand
                    (not (mode_eq s.current_mode m) || is_due s (ports.clock w).0)
                    (ports.unit_state w)))
          same
          (rw (request_mode_same ports requested s w same, mode_eq_refl s.current_mode)
            (reconcile-wanted false s w))
    | inr other ↦
        rw (request_mode_other ports requested s w other)
          (ground (arith, reconcile-wanted (at_once requested s) (enter requested s) w))
  ]
