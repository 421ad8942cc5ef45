-- ===== src/Command/CommandId.antt =====
-- firmware/components/command: the class `CommandId`, which wraps an `EventId`.
use esp32_dust_extraction.Common.{ℕ, List, Text, Option, none, some}
use esp32_dust_extraction.Event.EventId

pub record CommandId : Type 0 where
  pub id : EventId.EventId

unfoldable pub from_bytes : List ℕ → CommandId
from_bytes bytes = record { id = EventId.from_bytes bytes }

unfoldable pub from_string : Text → Option CommandId
from_string value = elim (EventId.from_string value) [
  | none ↦ none
  | some event_id ↦ some (record { id = event_id })
]
