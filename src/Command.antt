-- ===== src/Command.antt =====
-- firmware/components/command: the metadata that every command carries, and the base class
-- `Command`. A derived class enters through its one virtual member, `serialize_payload`.
pub mod CommandId
pub mod CommandType
use esp32_dust_extraction.Common.{ℕ, List, Text}
use esp32_dust_extraction.Event.{Timestamp}
use esp32_dust_extraction.Event.DeviceUid

-- `std::vector<std::uint8_t>`.
abbrev pub SerializedPayload : Type 0
SerializedPayload = List ℕ

pub record CommandMetadata : Type 0 where
  pub id : CommandId.CommandId
  pub type : CommandType.CommandType
  pub target : DeviceUid.DeviceUid
  pub timestamp : Timestamp

-- `serialize_payload` is what the object's virtual member returns.
pub record Command : Type 0 where
  pub metadata : CommandMetadata
  pub serialize_payload : SerializedPayload

unfoldable pub command_id : Command → Text
command_id c = c.metadata.id.id.value

unfoldable pub command_type : Command → Text
command_type c = c.metadata.type.value

unfoldable pub target : Command → Text
target c = c.metadata.target.value

unfoldable pub timestamp : Command → Timestamp
timestamp c = c.metadata.timestamp
