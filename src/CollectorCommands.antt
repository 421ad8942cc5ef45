-- ===== src/CollectorCommands.antt =====
-- firmware/components/collector_commands: `StartCollector` and `StopCollector`.
-- The constructors take `.value()` of `CommandType::from_string` at a literal that is not empty;
-- the record built here is what it holds.
use esp32_dust_extraction.Common.{[], Text, codes}
use esp32_dust_extraction.Event.{Timestamp}
use esp32_dust_extraction.Event.DeviceUid
use esp32_dust_extraction.Command.{Command}
use esp32_dust_extraction.Command.CommandId

abbrev pub start_command_type : Text
start_command_type = codes "collector.start"

abbrev pub stop_command_type : Text
stop_command_type = codes "collector.stop"

unfoldable pub start_collector : CommandId.CommandId → DeviceUid.DeviceUid → Timestamp → Command
start_collector id target timestamp = record {
  metadata = record {
    id = id;
    type = record { value = start_command_type };
    target = target;
    timestamp = timestamp;
  };
  serialize_payload = [];
}

unfoldable pub stop_collector : CommandId.CommandId → DeviceUid.DeviceUid → Timestamp → Command
stop_collector id target timestamp = record {
  metadata = record {
    id = id;
    type = record { value = stop_command_type };
    target = target;
    timestamp = timestamp;
  };
  serialize_payload = [];
}
