-- ===== src/Tests/Program.antt =====
-- The assembled program on a board that does what it is told.
use esp32_dust_extraction.Common.{ℕ, ◌≡◌, refl, false, none, some, [], ◌∷◌, text_eq}
use esp32_dust_extraction.Common.Int.{pos, max_ℤ}
use esp32_dust_extraction.Event.DeviceUid
use esp32_dust_extraction.CommandDispatcher.{register_recipient}
use esp32_dust_extraction.EventDispatcher
use esp32_dust_extraction.CollectorUnit.{stopped, automatic}
use esp32_dust_extraction.Relay.{RelayState, off, on}
use esp32_dust_extraction.RelayBackedCollectorUnit
use esp32_dust_extraction.CollectorService.{
  CollectorService, Call, starts, stops, processes, selects, demands, request_mode,
}
use esp32_dust_extraction.CollectorService
use esp32_dust_extraction.App.{World, collector, app_main, device_uid_string}
use esp32_dust_extraction.Tests.Fixtures.{toy_relay, toy_platform, mac, uid, uid_text}

abbrev pub service : CollectorService
service = record {
  uid = uid;
  start_delay = pos 1000;
  current_mode = automatic;
  has_demand = false;
  pending_demand_since = none;
}

abbrev pub world : World RelayState ℕ
world = record {
  unit = record {
    relay = off;
    state_machine = record { state = stopped; observer = none };
    counters = record { successful_starts = 0; successful_stops = 0; fault_count = 0 };
  };
  dispatcher = record { recipients = record { uid = uid_text; handler = collector } ∷ [] };
  event_dispatcher = record { next_subscription_id = 1; subscriptions = [] };
  platform = 0;
}

pub boots : app_main toy_relay toy_platform mac (pos 1000) on 0 ≡ some (service, world)
unfolding app_main device_uid_string DeviceUid.from_string register_recipient text_eq
    CollectorService.new max_ℤ RelayBackedCollectorUnit.new EventDispatcher.new
boots = refl
