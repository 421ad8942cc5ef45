-- ===== src/Event/EventType.antt =====
-- firmware/components/event: the class `EventType`, a text that is not empty.
use esp32_dust_extraction.Common.{Text, [], ◌∷◌, Option, none, some}

pub record EventType : Type 0 where
  pub value : Text

unfoldable pub from_string : Text → Option EventType
from_string [] = none
from_string (c ∷ s) = some (record { value = c ∷ s })
