-- ===== src/Tests/Texts.antt =====
-- Ids and Device UIDs.
use esp32_dust_extraction.Common.{
  ℕ, ◌+◌, ◌*◌, ◌%◌, ◌≡◌, refl, ◌⊎◌, some, none, List, [], ◌∷◌, codes, arith, length,
}
use esp32_dust_extraction.Event.EventId
use esp32_dust_extraction.Event.EventId.{from_bytes}
use esp32_dust_extraction.Event.EventId.Uuid.{IsUuid, from_string-IsUuid}
use esp32_dust_extraction.Event.EventId.Bytes.{read_bytes, read_bytes-from_bytes}
use esp32_dust_extraction.Event.DeviceUid
use esp32_dust_extraction.Event.DeviceUid.Format.{IsDeviceUid, from_string-IsDeviceUid}
use esp32_dust_extraction.EventIdGenerator.{generate}
use esp32_dust_extraction.EventIdGenerator.Version.{get_or, generate-version}
use esp32_dust_extraction.Tests.Fixtures.{toy_platform, toy_fills, uid_text, id_text, repeat}

-- The inputs of test_event.cpp.
accepted_id : EventId.from_string id_text ≡ some (record { value = id_text })
unfolding EventId.from_string
accepted_id = refl

refused_id : EventId.from_string (codes "ea290ba8-5255-4c7f-9fc6-9a1b94d5a74") ≡ none
unfolding EventId.from_string
refused_id = refl

accepted_uid : DeviceUid.from_string uid_text ≡ some (record { value = uid_text })
unfolding DeviceUid.from_string
accepted_uid = refl

refused_uid : DeviceUid.from_string (codes "collector-58BF25A77109") ≡ none
unfolding DeviceUid.from_string
refused_uid = refl

from_string-IsUuid_example :
    (IsUuid id_text × (EventId.from_string id_text ≡ some (record { value = id_text })))
    ⊎ ((¬ IsUuid id_text) × (EventId.from_string id_text ≡ none))
from_string-IsUuid_example = from_string-IsUuid id_text

from_string-IsDeviceUid_example :
    (IsDeviceUid uid_text × (DeviceUid.from_string uid_text ≡ some (record { value = uid_text })))
    ⊎ ((¬ IsDeviceUid uid_text) × (DeviceUid.from_string uid_text ≡ none))
from_string-IsDeviceUid_example = from_string-IsDeviceUid uid_text

abbrev id_bytes : List ℕ
id_bytes =
    0xea ∷ 0x29 ∷ 0x0b ∷ 0xa8 ∷ 0x52 ∷ 0x55 ∷ 0x4c ∷ 0x7f ∷ 0x9f ∷ 0xc6 ∷ 0x9a ∷ 0x1b ∷ 0x94 ∷ 0xd5
    ∷ 0xa7 ∷ 0x42 ∷ []

formatted : (from_bytes id_bytes).value ≡ id_text
unfolding from_bytes
formatted = refl

read_bytes-from_bytes_example : read_bytes (from_bytes id_bytes).value ≡ id_bytes
read_bytes-from_bytes_example = read_bytes-from_bytes id_bytes (omega arith)

generate-version_example :
    let random = repeat 16 0xab in
    let spelled = read_bytes (generate toy_platform.fill_random 5).0.value in
    (get_or spelled 6 0 ≡ 4 * 16 + get_or random 6 0 % 16)
    × (get_or spelled 8 0 ≡ 2 * 64 + get_or random 8 0 % 64)
    × (length spelled ≡ 16)
    × (◌≡◌ {A = ℕ} 3 6 ⊎ ◌≡◌ {A = ℕ} 3 8 ⊎ (get_or spelled 3 0 ≡ get_or random 3 0))
generate-version_example = generate-version toy_platform.fill_random toy_fills 5 3
