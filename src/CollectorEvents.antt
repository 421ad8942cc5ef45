-- ===== src/CollectorEvents.antt =====
-- firmware/components/collector_events: `CollectorStarted`, `CollectorStopped` and
-- `CollectorFault`. The constructors take `.value()` of `EventType::from_string` at a literal that
-- is not empty; the record built here is what it holds.
use esp32_dust_extraction.Common.{some, Text, codes}
use esp32_dust_extraction.Event.{Event, Timestamp, plain}
use esp32_dust_extraction.Event.EventId
use esp32_dust_extraction.Event.DeviceUid

abbrev pub started_event_type : Text
started_event_type = codes "collector.started"

abbrev pub stopped_event_type : Text
stopped_event_type = codes "collector.stopped"

abbrev pub fault_event_type : Text
fault_event_type = codes "collector.fault"

unfoldable pub collector_started : EventId.EventId → Timestamp → DeviceUid.DeviceUid → Event
collector_started id occurred_at device = plain (record {
  id = id;
  type = record { value = started_event_type };
  occurred_at = occurred_at;
  originating_device = device;
})

unfoldable pub collector_stopped : EventId.EventId → Timestamp → DeviceUid.DeviceUid → Event
collector_stopped id occurred_at device = plain (record {
  id = id;
  type = record { value = stopped_event_type };
  occurred_at = occurred_at;
  originating_device = device;
})

-- `fault_reason` is overridden to return the reason.
unfoldable pub collector_fault : EventId.EventId → Timestamp → DeviceUid.DeviceUid → Text → Event
collector_fault id occurred_at device reason = record {
  metadata = record {
    id = id;
    type = record { value = fault_event_type };
    occurred_at = occurred_at;
    originating_device = device;
  };
  fault_reason = some reason;
}
