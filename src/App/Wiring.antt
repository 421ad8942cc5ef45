-- ===== src/App/Wiring.antt =====
-- What a command sent by the service does in the assembled program.
use esp32_dust_extraction.Common.{◌≡◌, refl, inl, inr, true, some, text_eq, arith}
use esp32_dust_extraction.Event.{Timestamp}
use esp32_dust_extraction.Event.DeviceUid
use esp32_dust_extraction.Command.{Command, command_type, target}
use esp32_dust_extraction.Command.CommandId
use esp32_dust_extraction.CommandDispatcher.{result_of, dispatch}
use esp32_dust_extraction.CommandDispatcher.Registry.{handler_of}
use esp32_dust_extraction.CommandDispatcher.Refinement.{dispatch_lem}
use esp32_dust_extraction.CollectorCommands.{start_collector, stop_collector}
use esp32_dust_extraction.CollectorUnit.{stopped, running}
use esp32_dust_extraction.Relay.{RelayDriver}
use esp32_dust_extraction.RelayBackedCollectorUnit
use esp32_dust_extraction.RelayBackedCollectorUnit.{RelayBackedCollectorUnit}
use esp32_dust_extraction.RelayBackedCollectorUnit.Safety.{
  started, halted, start-stopped, stop-running,
}
use esp32_dust_extraction.EventIdGenerator
use esp32_dust_extraction.EventIdGenerator.Version.{Fills, from_string-generate}
use esp32_dust_extraction.CollectorService.{CollectorService, MakeCommand, dispatch_command}
use esp32_dust_extraction.App.{Platform, collector, World, receive, ports}

-- The recipient is registered for the service's target.
abbrev pub IsWired : {R E : Type 0} → CollectorService → World R E → Type 0
IsWired s w = handler_of w.dispatcher.recipients s.uid.value ≡ some collector

-- What changes when the unit does and the platform runs on.
pub record Moved {R E : Type 0} (w w' : World R E) (u : RelayBackedCollectorUnit R) : Type 0 where
  pub moved_unit : w'.unit ≡ u
  pub same_dispatcher : w'.dispatcher ≡ w.dispatcher

module _ {R E : Type 0} (driver : RelayDriver R) (platform : Platform E)
    (fills : Fills platform.fill_random) where
  receive-start :
      (id : CommandId.CommandId) (uid : DeviceUid.DeviceUid) (now : Timestamp) (w : World R E)
      → receive driver platform collector (start_collector id uid now) w ≡ (
        (RelayBackedCollectorUnit.start driver w.unit).0,
        record w { unit = (RelayBackedCollectorUnit.start driver w.unit).1 },
      )
  unfolding receive start_collector command_type text_eq
  receive-start id uid now w = refl

  receive-stop :
      (id : CommandId.CommandId) (uid : DeviceUid.DeviceUid) (now : Timestamp) (w : World R E)
      → receive driver platform collector (stop_collector id uid now) w ≡ (
        (RelayBackedCollectorUnit.stop driver w.unit).0,
        record w { unit = (RelayBackedCollectorUnit.stop driver w.unit).1 },
      )
  unfolding receive stop_collector command_type text_eq
  receive-stop id uid now w = refl

  dispatch-collector :
      (c : Command) (w : World R E)
      → handler_of w.dispatcher.recipients (target c) ≡ some collector
      → dispatch (λ (v : World R E). v.dispatcher) (receive driver platform) c w ≡ (
        result_of (receive driver platform collector c w).0,
        (receive driver platform collector c w).1,
      )
  dispatch-collector c w h =
      elim (dispatch_lem (λ (v : World R E). v.dispatcher) (receive driver platform) c w) [
        | inl (missing, e) ↦ cc
        | inr (collector, found, e) ↦ e
      ]

  -- The generated id is a command id.
  command_id :
      (e : E)
      → CommandId.from_string (EventIdGenerator.generate platform.fill_random e).0.value
        ≡ some (record { id = (EventIdGenerator.generate platform.fill_random e).0 })
  unfolding CommandId.from_string
  command_id e = ground (arith, from_string-generate platform.fill_random fills e)

  -- The world when the command goes out, and the command's id and time.
  abbrev ready : World R E → World R E
  ready w = record w {
    platform = (platform.now (EventIdGenerator.generate platform.fill_random w.platform).1).1;
  }

  abbrev next_id : World R E → CommandId.CommandId
  next_id w = record { id = (EventIdGenerator.generate platform.fill_random w.platform).0 }

  abbrev sent_at : World R E → Timestamp
  sent_at w = (platform.now (EventIdGenerator.generate platform.fill_random w.platform).1).0

  dispatch_command-eq :
      (make : MakeCommand) (s : CollectorService) (w : World R E)
      → handler_of w.dispatcher.recipients (target (make (next_id w) s.uid (sent_at w)))
        ≡ some collector
      → dispatch_command (ports driver platform) make s w ≡ (
          let (done, w') =
            receive driver platform collector (make (next_id w) s.uid (sent_at w)) (ready w) in
          (done, w'))
  unfolding dispatch_command ports
  dispatch_command-eq make s w h = ground (
    arith,
    command_id w.platform,
    dispatch-collector (make (next_id w) s.uid (sent_at w)) (ready w) h,
  )

  -- A start command that the service sends to a stopped unit is delivered and starts it, and
  -- changes nothing else but the platform.
  pub dispatch_command-start :
      (s : CollectorService) (w : World R E)
      → IsWired s w
      → w.unit.state_machine.state ≡ stopped
      → let (done, w') = dispatch_command (ports driver platform) start_collector s w in
        (done ≡ true) × Moved w w' (started driver w.unit)
  unfolding start_collector target
  dispatch_command-start s w wired h =
      rw
        (
          dispatch_command-eq start_collector s w wired,
          receive-start (next_id w) s.uid (sent_at w) (ready w),
          start-stopped driver w.unit h,
        )
        (refl, record { moved_unit = refl; same_dispatcher = refl })

  -- So is a stop command sent to a running unit.
  pub dispatch_command-stop :
      (s : CollectorService) (w : World R E)
      → IsWired s w
      → w.unit.state_machine.state ≡ running
      → let (done, w') = dispatch_command (ports driver platform) stop_collector s w in
        (done ≡ true) × Moved w w' (halted driver w.unit)
  unfolding stop_collector target
  dispatch_command-stop s w wired h =
      rw
        (
          dispatch_command-eq stop_collector s w wired,
          receive-stop (next_id w) s.uid (sent_at w) (ready w),
          stop-running driver w.unit h,
        )
        (refl, record { moved_unit = refl; same_dispatcher = refl })
