-- ===== src/Event/EventId.antt =====
-- firmware/components/event: the class `EventId`, a UUID in its text form.
pub mod Groups
pub mod Uuid
pub mod Bytes
use esp32_dust_extraction.Common.{
  ℕ, zero, suc, ◌+◌, ◌-◌, ◌/◌, ◌%◌, Bool, true, false, ◌&&◌, ◌||◌, Option, none, some, List, [],
  ◌∷◌, ◌++◌, Text, length, ltb, leb, ◌==◌, if◌then◌else◌,
}

pub record EventId : Type 0 where
  pub value : Text

-- `std::isxdigit` of the C locale.
unfoldable pub is_hexadecimal : ℕ → Bool
is_hexadecimal c =
    (leb b'0' c && leb c b'9') || (leb b'a' c && leb c b'f') || (leb b'A' c && leb c b'F')

abbrev pub uuid_length : ℕ
uuid_length = 36

unfoldable pub is_separator_index : ℕ → Bool
is_separator_index index = index == 8 || index == 13 || index == 18 || index == 23

-- The loop of `is_uuid`, from `index` on.
unfoldable pub is_uuid_from : ℕ → Text → Bool
unfolding is_separator_index is_hexadecimal
is_uuid_from index [] = true
is_uuid_from index (c ∷ s) =
    let rest = is_uuid_from (index + 1) s in
    if is_separator_index index
    then (if c == b'-' then rest else false)
    else (if is_hexadecimal c then rest else false)

unfoldable pub is_uuid : Text → Bool
unfolding is_uuid_from
is_uuid value = if length value == uuid_length then is_uuid_from 0 value else false

-- A digit of `std::hex`, which prints in lower case.
unfoldable pub hex_digit : ℕ → ℕ
hex_digit d = if ltb d 10 then b'0' + d else b'a' + (d - 10)

-- `std::hex << std::setfill('0') << std::setw(2)` of one byte.
unfoldable pub format_byte : ℕ → Text
unfolding hex_digit
format_byte byte = hex_digit (byte / 16) ∷ hex_digit (byte % 16) ∷ []

abbrev pub separator_after : ℕ → Text
separator_after index =
    if index == 3 || index == 5 || index == 7 || index == 9 then b'-' ∷ [] else []

-- The loop of `from_bytes`, from `index` on; the source's array has 16 bytes.
unfoldable pub format_from : ℕ → List ℕ → Text
unfolding format_byte
format_from index [] = []
format_from index (byte ∷ bytes) =
    format_byte byte ++ (separator_after index ++ format_from (index + 1) bytes)

unfoldable pub from_bytes : List ℕ → EventId
unfolding format_from
from_bytes bytes = record { value = format_from 0 bytes }

unfoldable pub from_string : Text → Option EventId
unfolding is_uuid
from_string value = if is_uuid value then some (record { value = value }) else none
