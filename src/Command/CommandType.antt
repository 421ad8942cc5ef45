-- ===== src/Command/CommandType.antt =====
-- firmware/components/command: the class `CommandType`, a text that is not empty.
use esp32_dust_extraction.Common.{Text, [], ◌∷◌, Option, none, some}

pub record CommandType : Type 0 where
  pub value : Text

unfoldable pub from_string : Text → Option CommandType
from_string [] = none
from_string (c ∷ s) = some (record { value = c ∷ s })
