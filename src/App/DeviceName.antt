-- ===== src/App/DeviceName.antt =====
-- The Device UID that `app_main` makes of the MAC address, and its two early returns.
use esp32_dust_extraction.Common.{
  ℕ, ◌*◌, ◌/◌, ◌%◌, ◌<◌, ◌≡◌, refl, true, some, List, [], ◌∷◌, codes, length, all, arith,
}
use esp32_dust_extraction.Event.EventId.{is_hexadecimal}
use esp32_dust_extraction.Event.EventId.Bytes.{AreBytes}
use esp32_dust_extraction.Event.DeviceUid.{is_device_type_character, from_string}
use esp32_dust_extraction.Event.DeviceUid.Format.{IsDeviceUid, from_string-IsDeviceUid}
use esp32_dust_extraction.App.{upper_digit, upper_bytes, device_uid_string}

upper_digit-hexadecimal : (d : ℕ) → d < 16 → is_hexadecimal (upper_digit d) ≡ true
unfolding upper_digit is_hexadecimal
upper_digit-hexadecimal d h = ground arith

upper_bytes_hexadecimal :
    (bs : List ℕ)
    → AreBytes bs
    → (all is_hexadecimal (upper_bytes bs) ≡ true) × (length (upper_bytes bs) ≡ 2 * length bs)
unfolding upper_bytes
upper_bytes_hexadecimal [] h = ground arith
upper_bytes_hexadecimal (b ∷ bs) h = ground (
  arith,
  upper_digit-hexadecimal (b / 16) (omega arith),
  upper_digit-hexadecimal (b % 16) (omega arith),
  upper_bytes_hexadecimal bs,
)

device_uid_string-IsDeviceUid :
    (mac : List ℕ) → length mac ≡ 6 → AreBytes mac → IsDeviceUid (device_uid_string mac)
unfolding device_uid_string is_device_type_character
device_uid_string-IsDeviceUid mac sized bytes =
    let (hexed, long) = upper_bytes_hexadecimal mac bytes in
    record {
      device_type = codes "COLLECTOR";
      digits = upper_bytes mac;
      joined = refl;
      named = λ e. cc;
      type_characters = refl;
      digits_length = omega (arith, long, sized);
      hexadecimal = hexed;
    }

-- Every MAC address of six bytes makes a Device UID.
pub from_string-device_uid_string :
    (mac : List ℕ)
    → length mac ≡ 6
    → AreBytes mac
    → from_string (device_uid_string mac) ≡ some (record { value = device_uid_string mac })
from_string-device_uid_string mac sized bytes = ground (
  arith,
  from_string-IsDeviceUid (device_uid_string mac),
  device_uid_string-IsDeviceUid mac sized bytes,
)
