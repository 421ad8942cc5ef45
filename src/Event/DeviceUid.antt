-- ===== src/Event/DeviceUid.antt =====
-- firmware/components/event: the class `DeviceUid`, a device type, a hyphen and twelve
-- hexadecimal digits.
pub mod Format
use esp32_dust_extraction.Common.{
  ℕ, suc, ◌+◌, Bool, true, false, ◌&&◌, ◌||◌, not, Option, none, some, [], ◌∷◌, Text, length, take,
  drop, all, leb, ◌==◌, if◌then◌else◌,
}
use esp32_dust_extraction.Event.EventId.{is_hexadecimal}

pub record DeviceUid : Type 0 where
  pub value : Text

abbrev pub device_uid_hex_length : ℕ
device_uid_hex_length = 12

unfoldable pub is_device_type_character : ℕ → Bool
is_device_type_character c = (leb b'A' c && leb c b'Z') || (leb b'0' c && leb c b'9') || c == b'_'

-- `std::string_view::rfind` of one character; `none` is `npos`.
unfoldable pub rfind : ℕ → Text → Option ℕ
rfind c [] = none
rfind c (x ∷ s) = elim (rfind c s) [
  | some index ↦ some (suc index)
  | none ↦ if x == c then some 0 else none
]

-- What follows the search for the separator; the two loops run over the characters before and
-- after it.
unfoldable pub is_device_uid_at : Text → Option ℕ → Bool
unfolding is_device_type_character is_hexadecimal
is_device_uid_at value none = false
is_device_uid_at value (some separator) =
    if separator == 0 || not (length value == separator + 1 + device_uid_hex_length)
    then false
    else if not (all is_device_type_character (take separator value))
    then false
    else all is_hexadecimal (drop (separator + 1) value)

unfoldable pub is_device_uid : Text → Bool
unfolding rfind is_device_uid_at
is_device_uid value = is_device_uid_at value (rfind b'-' value)

unfoldable pub from_string : Text → Option DeviceUid
unfolding is_device_uid
from_string value = if is_device_uid value then some (record { value = value }) else none
