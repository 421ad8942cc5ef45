-- ===== src/CollectorService/Messages.antt =====
-- The commands and the events that the service hands to its ports.
use esp32_dust_extraction.Common.{
  ◌≡◌, refl, ap, ◌∙◌, ◌⊎◌, inl, inr, Bool, false, Option, none, some, [], Text, arith, Option-cases,
  subst,
}
use esp32_dust_extraction.Event.{Event, Timestamp, event_type, originating_device}
use esp32_dust_extraction.Event.DeviceUid
use esp32_dust_extraction.Event.EventId.Uuid.{IsUuid, from_string-IsUuid}
use esp32_dust_extraction.Command.{Command, command_id, command_type, target}
use esp32_dust_extraction.Command.CommandId
use esp32_dust_extraction.CommandDispatcher.{DispatchResult}
use esp32_dust_extraction.CollectorCommands.{
  start_command_type, stop_command_type, start_collector, stop_collector,
}
use esp32_dust_extraction.CollectorEvents.{fault_event_type, collector_fault}
use esp32_dust_extraction.CollectorUnit.{CollectorMode}
use esp32_dust_extraction.CollectorService.{
  Call, starts, stops, processes, selects, demands, faults, serve, Ports, CollectorService,
  MakeCommand, reset, dispatch_command, request_start, request_stop, start_if_stopped,
  stop_if_running, reconcile_pending, reconcile, request_mode, note_demand, update_demand, process,
  report_fault,
}
use esp32_dust_extraction.CollectorService.Invariant.{
  enter, at_once, outcome, mode_cases, request_mode_same, request_mode_other,
}

-- A command to the device: an order to start or to stop with a UUID and no payload.
pub record IsOrder (uid : DeviceUid.DeviceUid) (c : Command) : Type 0 where
  pub identified : IsUuid (command_id c)
  pub typed : (command_type c ≡ start_command_type) ⊎ (command_type c ≡ stop_command_type)
  pub targeted : target c ≡ uid.value
  pub bare : c.serialize_payload ≡ []

-- The events that a call may publish.
abbrev pub IsNews : DeviceUid.DeviceUid → Call → Event → Type 0
IsNews uid (faults reason) e =
    (event_type e ≡ fault_event_type)
    × (originating_device e ≡ uid.value)
    × (e.fault_reason ≡ some reason)
IsNews uid _ e = ⊥

command_id-IsUuid :
    (v : Text) (id : CommandId.CommandId) → CommandId.from_string v ≡ some id → IsUuid id.id.value
unfolding CommandId.from_string
command_id-IsUuid v id h = elim (from_string-IsUuid v) [
  | inl (valid, made) ↦ let e : v ≡ id.id.value = ground (arith, h, made) in subst IsUuid e valid
  | inr (invalid, refused) ↦ absurd (ground (arith, h, refused))
]

start_collector-IsOrder :
    (id : CommandId.CommandId) (uid : DeviceUid.DeviceUid) (now : Timestamp)
    → IsUuid id.id.value
    → IsOrder uid (start_collector id uid now)
unfolding start_collector command_id command_type target
start_collector-IsOrder id uid now h = record {
  identified = h;
  typed = inl refl;
  targeted = refl;
  bare = refl;
}

stop_collector-IsOrder :
    (id : CommandId.CommandId) (uid : DeviceUid.DeviceUid) (now : Timestamp)
    → IsUuid id.id.value
    → IsOrder uid (stop_collector id uid now)
unfolding stop_collector command_id command_type target
stop_collector-IsOrder id uid now h = record {
  identified = h;
  typed = inr refl;
  targeted = refl;
  bare = refl;
}

module _ {W : Type 0} (ports : Ports W) (dispatch : Command → W → DispatchResult × W)
    (publish : Event → W → W) where
  -- Ports with another way to dispatch and to publish.
  abbrev pub other_ports : Ports W
  other_ports = record ports { dispatch = dispatch; publish = publish }

  module _ (uid : DeviceUid.DeviceUid)
      (dispatched : (c : Command) (w : W) → IsOrder uid c → dispatch c w ≡ ports.dispatch c w) where
    dispatch_command-same :
        (make : MakeCommand) (s : CollectorService) (w : W)
        → ((id : CommandId.CommandId) (now : Timestamp)
            → IsUuid id.id.value
            → IsOrder uid (make id s.uid now))
        → dispatch_command other_ports make s w ≡ dispatch_command ports make s w
    unfolding dispatch_command
    dispatch_command-same make s w ordered =
        let w₁ = (ports.generate w).1 in
        let v = (ports.generate w).0.value in
        elim (Option-cases (CommandId.from_string v)) [
          | inl missing ↦ rw missing refl
          | inr (id, found) ↦
              let (now, w₂) = ports.clock w₁ in
              ground (
                arith,
                found,
                dispatched (make id s.uid now) w₂ (ordered id now (command_id-IsUuid v id found)),
              )
        ]

    request_start-same :
        (s : CollectorService) (w : W)
        → s.uid ≡ uid
        → request_start other_ports s w ≡ request_start ports s w
    unfolding request_start
    request_start-same s w e =
        let same =
          dispatch_command-same start_collector s w
            (λ id now h. rw e (start_collector-IsOrder id uid now h)) in
        ground (arith, same)

    request_stop-same :
        (s : CollectorService) (w : W)
        → s.uid ≡ uid
        → request_stop other_ports s w ≡ request_stop ports s w
    unfolding request_stop
    request_stop-same s w e =
        let same =
          dispatch_command-same stop_collector s w
            (λ id now h. rw e (stop_collector-IsOrder id uid now h)) in
        ground (arith, same)

    start_if_stopped-same :
        (s : CollectorService) (w : W)
        → s.uid ≡ uid
        → start_if_stopped other_ports s w ≡ start_if_stopped ports s w
    unfolding start_if_stopped
    start_if_stopped-same s w e = ground (arith, request_start-same s w e)

    stop_if_running-same :
        (s : CollectorService) (w : W)
        → s.uid ≡ uid
        → stop_if_running other_ports s w ≡ stop_if_running ports s w
    unfolding stop_if_running
    stop_if_running-same s w e = ground (arith, request_stop-same s w e)

    reconcile_pending-same :
        (s : CollectorService) (p : Option Timestamp) (w : W)
        → s.uid ≡ uid
        → reconcile_pending other_ports s p w ≡ reconcile_pending ports s p w
    unfolding reconcile_pending
    reconcile_pending-same s none w e = ground (arith, start_if_stopped-same s w e)
    reconcile_pending-same s (some since) w e =
        ground (arith, request_start-same s (ports.clock w).1 e)

    reconcile-same :
        (immediate : Bool) (s : CollectorService) (w : W)
        → s.uid ≡ uid
        → reconcile other_ports immediate s w ≡ reconcile ports immediate s w
    unfolding reconcile
    reconcile-same immediate s w e = ground (
      arith,
      start_if_stopped-same s w e,
      stop_if_running-same s w e,
      start_if_stopped-same (reset s) w e,
      stop_if_running-same (reset s) w e,
      reconcile_pending-same s s.pending_demand_since w e,
    )

    request_mode-same :
        (m : CollectorMode) (s : CollectorService) (w : W)
        → s.uid ≡ uid
        → request_mode other_ports m s w ≡ request_mode ports m s w
    request_mode-same m s w e = elim (mode_cases s.current_mode m) [
      | inl same ↦
          rw (request_mode_same other_ports m s w same, request_mode_same ports m s w same)
            (reconcile-same false s w e)
      | inr other ↦
          rw (request_mode_other other_ports m s w other, request_mode_other ports m s w other)
            (ap (outcome s) (reconcile-same (at_once m s) (enter m s) w e))
    ]

    note_demand-same :
        (active : Bool) (s : CollectorService) (w : W)
        → note_demand other_ports active s w ≡ note_demand ports active s w
    unfolding note_demand
    note_demand-same active s w = refl

    note_demand-uid :
        (active : Bool) (s : CollectorService) (w : W)
        → (note_demand ports active s w).0.uid ≡ s.uid
    unfolding note_demand
    note_demand-uid active s w = ground arith

    update_demand-same :
        (active : Bool) (s : CollectorService) (w : W)
        → s.uid ≡ uid
        → update_demand other_ports active s w ≡ update_demand ports active s w
    unfolding update_demand
    update_demand-same active s w e =
        let (s₁, w₁) = note_demand ports active s w in
        rw (note_demand-same active s w)
          (reconcile-same false s₁ w₁ (note_demand-uid active s w ∙ e))

    report_fault-same :
        (reason : Text) (s : CollectorService) (w : W)
        → ((e : Event) (v : W) → IsNews s.uid (faults reason) e → publish e v ≡ ports.publish e v)
        → report_fault other_ports reason s w ≡ report_fault ports reason s w
    unfolding report_fault collector_fault event_type originating_device
    report_fault-same reason s w published =
        let (id, w₁) = ports.generate w in
        let (now, w₂) = ports.clock w₁ in
        published (collector_fault id now s.uid reason) w₂ (refl, refl, refl)

  -- Two ways to dispatch that agree on the orders to the service's device, and two ways to publish
  -- that agree on the events that a call may publish, do not differ for the service, whatever the
  -- call: a command that it sends is an order to start or stop its own device with a UUID and no
  -- payload, and it publishes nothing but the fault that is reported, with the reason and as an
  -- event of its own device.
  pub serve-IsOrder :
      (c : Call) (s : CollectorService) (w : W)
      → ((x : Command) (v : W) → IsOrder s.uid x → dispatch x v ≡ ports.dispatch x v)
      → ((x : Event) (v : W) → IsNews s.uid c x → publish x v ≡ ports.publish x v)
      → serve other_ports c s w ≡ serve ports c s w
  unfolding serve process
  serve-IsOrder starts s w d p = rw (request_start-same s.uid d s w refl) refl
  serve-IsOrder stops s w d p = rw (request_stop-same s.uid d s w refl) refl
  serve-IsOrder processes s w d p = reconcile-same s.uid d false s w refl
  serve-IsOrder (selects m) s w d p = request_mode-same s.uid d m s w refl
  serve-IsOrder (demands active) s w d p = update_demand-same s.uid d active s w refl
  serve-IsOrder (faults reason) s w d p = rw (report_fault-same s.uid d reason s w p) refl
