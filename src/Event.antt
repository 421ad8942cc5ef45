-- ===== src/Event.antt =====
-- firmware/components/event: the metadata that every Domain Event carries, and the base class
-- `Event`. A derived class enters through its one virtual member, `fault_reason`.
pub mod EventId
pub mod EventType
pub mod DeviceUid
use esp32_dust_extraction.Common.{Option, none, Text}
use esp32_dust_extraction.Common.Int.{ℤ}

-- `std::chrono::sys_time<std::chrono::milliseconds>`, as its count since the epoch.
abbrev pub Timestamp : Type 0
Timestamp = ℤ

pub record EventMetadata : Type 0 where
  pub id : EventId.EventId
  pub type : EventType.EventType
  pub occurred_at : Timestamp
  pub originating_device : DeviceUid.DeviceUid

-- `fault_reason` is what the object's virtual member returns; the base class returns `nullopt`.
pub record Event : Type 0 where
  pub metadata : EventMetadata
  pub fault_reason : Option Text

-- `Event::fault_reason`, and an event of a class that does not override it.
abbrev pub default_fault_reason : Option Text
default_fault_reason = none

abbrev pub plain : EventMetadata → Event
plain metadata = record { metadata = metadata; fault_reason = default_fault_reason }

unfoldable pub event_id : Event → Text
event_id e = e.metadata.id.value

unfoldable pub event_type : Event → Text
event_type e = e.metadata.type.value

unfoldable pub occurred_at : Event → Timestamp
occurred_at e = e.metadata.occurred_at

unfoldable pub originating_device : Event → Text
originating_device e = e.metadata.originating_device.value
