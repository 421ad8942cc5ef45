-- ===== src/CollectorService.antt =====
-- firmware/components/collector_service. What the service holds by reference (dispatchers, unit,
-- id generator, clock) is the interface `Ports` over one state `W` of the world outside it. The
-- parts behind the ports do not call the service back.
pub mod Invariant
pub mod Policy
pub mod Delay
pub mod Retries
pub mod Messages
pub mod Demand
use esp32_dust_extraction.Common.{
  Bool, true, false, not, ◌&&◌, Option, none, some, Text, is_some, if◌then◌else◌,
}
use esp32_dust_extraction.Common.Int.{ℤ, pos, ◌-ℤ◌, ltb_ℤ, max_ℤ}
use esp32_dust_extraction.Event.{Event, Timestamp}
use esp32_dust_extraction.Event.EventId
use esp32_dust_extraction.Event.DeviceUid
use esp32_dust_extraction.Command.{Command}
use esp32_dust_extraction.Command.CommandId
use esp32_dust_extraction.CommandDispatcher.{
  DispatchResult, delivered, unknown_recipient, delivery_failed,
}
use esp32_dust_extraction.CollectorCommands.{start_collector, stop_collector}
use esp32_dust_extraction.CollectorEvents.{collector_fault}
use esp32_dust_extraction.CollectorUnit.{
  CollectorState, stopped, running, CollectorMode, automatic, forced_on, forced_off, state_eq,
  mode_eq,
}

pub record Ports (W : Type 0) : Type 0 where
  pub dispatch : Command → W → DispatchResult × W
  pub publish : Event → W → W
  pub unit_state : W → CollectorState
  pub generate : W → EventId.EventId × W
  pub clock : W → Timestamp × W

pub record CollectorService : Type 0 where
  pub uid : DeviceUid.DeviceUid
  pub start_delay : ℤ
  pub current_mode : CollectorMode
  pub has_demand : Bool
  pub pending_demand_since : Option Timestamp

unfoldable pub new : DeviceUid.DeviceUid → ℤ → CollectorService
new uid start_delay = record {
  uid = uid;
  start_delay = max_ℤ start_delay (pos 0);
  current_mode = automatic;
  has_demand = false;
  pending_demand_since = none;
}

unfoldable pub mode : CollectorService → CollectorMode
mode s = s.current_mode

unfoldable pub device_uid : CollectorService → Text
device_uid s = s.uid.value

unfoldable pub demand_active : CollectorService → Bool
demand_active s = s.has_demand

unfoldable pub demand_suppressed : CollectorService → Bool
demand_suppressed s = mode_eq s.current_mode forced_off && s.has_demand

abbrev pub is_delivered : DispatchResult → Bool
is_delivered delivered = true
is_delivered unknown_recipient = false
is_delivered delivery_failed = false

-- `==` on `bool`.
abbrev pub bool_eq : Bool → Bool → Bool
bool_eq true b = b
bool_eq false b = not b

-- The constructor of the command that `dispatch_command` is instantiated at.
abbrev pub MakeCommand : Type 0
MakeCommand = CommandId.CommandId → DeviceUid.DeviceUid → Timestamp → Command

-- A timer that is set no longer.
abbrev pub reset : CollectorService → CollectorService
reset s = record s { pending_demand_since = none }

module _ {W : Type 0} (ports : Ports W) where
  unfoldable pub state : W → CollectorState
  state w = ports.unit_state w

  unfoldable pub send : MakeCommand → CollectorService → Option CommandId.CommandId → W → Bool × W
  send make s none w = (false, w)
  send make s (some id) w =
      let (now, w₁) = ports.clock w in
      let (result, w₂) = ports.dispatch (make id s.uid now) w₁ in (is_delivered result, w₂)

  unfoldable pub dispatch_command : MakeCommand → CollectorService → W → Bool × W
  unfolding send
  dispatch_command make s w =
      let (generated, w₁) = ports.generate w in
      send make s (CommandId.from_string generated.value) w₁

  unfoldable pub request_start : CollectorService → W → Bool × W
  request_start s w =
      if mode_eq s.current_mode forced_off
      then (false, w)
      else if not (state_eq (ports.unit_state w) stopped)
      then (false, w)
      else dispatch_command start_collector s w

  unfoldable pub request_stop : CollectorService → W → Bool × W
  request_stop s w =
      if mode_eq s.current_mode forced_on
      then (false, w)
      else if not (state_eq (ports.unit_state w) running)
      then (false, w)
      else dispatch_command stop_collector s w

  -- `state() == stopped ? request_start() : true`, and so for `running` and `request_stop`.
  unfoldable pub start_if_stopped : CollectorService → W → Bool × W
  start_if_stopped s w =
      if state_eq (ports.unit_state w) stopped then request_start s w else (true, w)

  unfoldable pub stop_if_running : CollectorService → W → Bool × W
  stop_if_running s w =
      if state_eq (ports.unit_state w) running then request_stop s w else (true, w)

  -- The end of `reconcile`: automatic mode with demand, and no order to start at once.
  unfoldable pub reconcile_pending :
      CollectorService → Option Timestamp → W → Bool × CollectorService × W
  reconcile_pending s none w = let (done, w₁) = start_if_stopped s w in (done, s, w₁)
  reconcile_pending s (some since) w =
      let (now, w₁) = ports.clock w in
      if ltb_ℤ (now -ℤ since) s.start_delay
      then (true, s, w₁)
      else if not (state_eq (ports.unit_state w₁) stopped)
      then (true, reset s, w₁)
      else (let (started, w₂) = request_start s w₁ in
          if started then (true, reset s, w₂) else (false, s, w₂))

  unfoldable pub reconcile : Bool → CollectorService → W → Bool × CollectorService × W
  unfolding reconcile_pending
  reconcile immediate s w =
      if mode_eq s.current_mode forced_on
      then (let (done, w₁) = start_if_stopped s w in (done, s, w₁))
      else if mode_eq s.current_mode forced_off
      then (let (done, w₁) = stop_if_running s w in (done, s, w₁))
      else if not s.has_demand
      then (let (done, w₁) = stop_if_running (reset s) w in (done, reset s, w₁))
      else if immediate
      then (let (done, w₁) = start_if_stopped (reset s) w in (done, reset s, w₁))
      else reconcile_pending s s.pending_demand_since w

  unfoldable pub request_mode : CollectorMode → CollectorService → W → Bool × CollectorService × W
  request_mode requested s w =
      if not (mode_eq requested automatic)
        && (not (mode_eq requested forced_on) && not (mode_eq requested forced_off))
      then (false, s, w)
      else (let changed = not (mode_eq s.current_mode requested) in
          let s₁ =
            if changed
            then record s { current_mode = requested; pending_demand_since = none }
            else s in
          let (done, s₂, w₁) =
            reconcile (changed && (mode_eq requested automatic && s₁.has_demand)) s₁ w in
          if done
          then (true, s₂, w₁)
          else if changed
          then (
            false,
            record s₂ {
              current_mode = s.current_mode;
              pending_demand_since = s.pending_demand_since;
            },
            w₁,
          )
          else (false, s₂, w₁))

  -- What `update_demand` does before it reconciles.
  unfoldable pub note_demand : Bool → CollectorService → W → CollectorService × W
  note_demand active s w =
      if bool_eq s.has_demand active
      then (s, w)
      else if active && mode_eq s.current_mode automatic
      then (let (now, w₁) = ports.clock w in
          (record s { has_demand = active; pending_demand_since = some now }, w₁))
      else if not active
      then (record s { has_demand = active; pending_demand_since = none }, w)
      else (record s { has_demand = active }, w)

  unfoldable pub update_demand : Bool → CollectorService → W → Bool × CollectorService × W
  unfolding note_demand
  update_demand active s w = let (s₁, w₁) = note_demand active s w in reconcile false s₁ w₁

  unfoldable pub process : CollectorService → W → Bool × CollectorService × W
  process s w = reconcile false s w

  -- The order of the two calls among the constructor's arguments, which the source leaves open, is
  -- taken from left to right.
  unfoldable pub report_fault : Text → CollectorService → W → W
  report_fault reason s w =
      let (id, w₁) = ports.generate w in
      let (now, w₂) = ports.clock w₁ in ports.publish (collector_fault id now s.uid reason) w₂

-- The calls of the service that its clients make.
pub data Call : Type 0 where
  starts stops processes : Call
  selects : CollectorMode → Call
  demands : Bool → Call
  faults : Text → Call

unfoldable pub serve :
    {W : Type 0} → Ports W → Call → CollectorService → W → Bool × CollectorService × W
serve ports starts s w = let (done, w₁) = request_start ports s w in (done, s, w₁)
serve ports stops s w = let (done, w₁) = request_stop ports s w in (done, s, w₁)
serve ports processes s w = process ports s w
serve ports (selects requested) s w = request_mode ports requested s w
serve ports (demands active) s w = update_demand ports active s w
serve ports (faults reason) s w = (true, s, report_fault ports reason s w)
