-- ===== src/Tests/Board.antt =====
-- The program on a board whose relay is active low, at pin 26.
use esp32_dust_extraction.Common.{
  ℕ, ◌≡◌, refl, ◌⊎◌, Option, some, none, Bool, true, false, List, [], ◌∷◌, text_eq,
}
use esp32_dust_extraction.Common.Int.{pos, max_ℤ}
use esp32_dust_extraction.Event.DeviceUid
use esp32_dust_extraction.CommandDispatcher.{register_recipient, dispatch}
use esp32_dust_extraction.EventDispatcher
use esp32_dust_extraction.CollectorUnit.{stopped, running, forced_on}
use esp32_dust_extraction.Relay.{on, off}
use esp32_dust_extraction.RelayBackedCollectorUnit
use esp32_dust_extraction.EspRelayDriver
use esp32_dust_extraction.EspRelayDriver.{EspRelayDriver, active_low, set_state, switch_on}
use esp32_dust_extraction.EspRelayDriver.Driver.{driver, board_on, board_off}
use esp32_dust_extraction.EspRelayDriver.Levels.{level_for}
use esp32_dust_extraction.CollectorService
use esp32_dust_extraction.CollectorService.{selects}
use esp32_dust_extraction.Command.CommandId
use esp32_dust_extraction.Command.{target, command_type}
use esp32_dust_extraction.CollectorCommands.{start_collector}
use esp32_dust_extraction.Event.EventId
use esp32_dust_extraction.EventIdGenerator
use esp32_dust_extraction.App.{World, ports, receive, collector, app_main, device_uid_string}
use esp32_dust_extraction.App.Effects.{state_of}
use esp32_dust_extraction.App.Modes.{Obeys}
use esp32_dust_extraction.App.Server.{Program, Input, calls, start_server, boot, step, run}
use esp32_dust_extraction.App.Board.{power_up}
use esp32_dust_extraction.App.Board.Pin.{run-level}
use esp32_dust_extraction.Tests.Fixtures.{toy_platform, toy_fills, mac, uid_text}
use esp32_dust_extraction.Tests.Hardware.{toy_gpio, toy_laws, low_pin, low_driver}
use esp32_dust_extraction.Tests.Network.{Net, net, toy_httpd, page}
use esp32_dust_extraction.Tests.Program.{service}

abbrev Pins : Type 0
Pins = ℕ × Bool

abbrev board_world : World (Option (EspRelayDriver × Pins)) ℕ
board_world = record {
  unit = record {
    relay = some (low_driver, (1, true));
    state_machine = record { state = stopped; observer = none };
    counters = record { successful_starts = 0; successful_stops = 0; fault_count = 0 };
  };
  dispatcher = record { recipients = record { uid = uid_text; handler = collector } ∷ [] };
  event_dispatcher = record { next_subscription_id = 1; subscriptions = [] };
  platform = 0;
}

abbrev program : Program (Option (EspRelayDriver × Pins)) ℕ Net
program = start_server (driver toy_gpio) toy_platform toy_httpd page 80 5 (service, board_world) net

powers :
    power_up toy_gpio toy_platform toy_httpd page low_pin mac (pos 1000) 80 5 (0, false) 0 net
    ≡ some program
unfolding power_up boot start_server app_main device_uid_string DeviceUid.from_string
    register_recipient text_eq CollectorService.new max_ℤ RelayBackedCollectorUnit.new
    EventDispatcher.new EspRelayDriver.new board_off
powers = refl

abbrev inputs : List Input
inputs = calls (selects forced_on) ∷ []

switched :
    (run (driver toy_gpio) toy_platform toy_httpd page inputs program).world.unit.relay
    ≡ some (record low_driver { state = on }, (0, true))
unfolding run step CollectorService.serve CollectorService.request_mode CollectorService.reconcile
    start_server CollectorService.start_if_stopped ports RelayBackedCollectorUnit.state
    CollectorService.request_start CollectorService.dispatch_command CommandId.from_string
    EventId.from_string EventIdGenerator.generate EventId.from_bytes EventIdGenerator.stamp dispatch
    text_eq receive RelayBackedCollectorUnit.start board_on switch_on set_state target command_type
    start_collector
switched = refl

run-level_example :
    let p' = run (driver toy_gpio) toy_platform toy_httpd page inputs program in
    (((state_of p'.world ≡ running) × (0 ≡ level_for active_low on))
      ⊎ ((state_of p'.world ≡ stopped) × (0 ≡ level_for active_low off)))
    × Obeys p'.service.current_mode (state_of p'.world)
run-level_example =
    run-level toy_gpio toy_laws low_pin toy_platform toy_fills toy_httpd page mac (pos 1000) 80 5
      (0, false) 0 net inputs program (record low_driver { state = on }) (0, true) powers switched
