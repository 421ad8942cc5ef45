-- ===== src/Tests/Fixtures.antt =====
-- A board that does what it is told, a clock that runs, and the ids and texts of the repository's
-- own tests.
use esp32_dust_extraction.Common.{
  ℕ, zero, suc, ◌+◌, ◌≡◌, refl, List, [], ◌∷◌, Text, codes, length, ap, arith,
}
use esp32_dust_extraction.Common.Int.{pos}
use esp32_dust_extraction.Event.DeviceUid.{DeviceUid}
use esp32_dust_extraction.Event.EventId.Bytes.{AreBytes}
use esp32_dust_extraction.EventIdGenerator.Version.{Fills}
use esp32_dust_extraction.Relay.{RelayState, off, on, RelayDriver}
use esp32_dust_extraction.App.{Platform}

abbrev pub toy_relay : RelayDriver RelayState
toy_relay = record {
  switch_on = λ r. on;
  switch_off = λ r. off;
  state = λ r. r;
  Alive = λ r. Unit {0};
  state-switch_on = λ r alive. refl;
  state-switch_off = λ r alive. refl;
  Alive-switch_on = λ r alive. tt;
  Alive-switch_off = λ r alive. tt;
}

abbrev pub repeat : ℕ → ℕ → List ℕ
repeat zero b = []
repeat (suc n) b = b ∷ repeat n b

-- The state is the time; every reading takes 400 ms.
abbrev pub toy_platform : Platform ℕ
toy_platform = record { now = λ t. (pos t, t + 400); fill_random = λ n t. (repeat n 0xab, t) }

repeat_bytes : (n : ℕ) → (length (repeat n 0xab) ≡ n) × AreBytes (repeat n 0xab)
repeat_bytes zero = (refl, tt)
repeat_bytes (suc n) = let (sized, bytes) = repeat_bytes n in (ap suc sized, (omega arith, bytes))

pub toy_fills : Fills toy_platform.fill_random
toy_fills n t = repeat_bytes n

abbrev pub mac : List ℕ
mac = 0x58 ∷ 0xbf ∷ 0x25 ∷ 0xa7 ∷ 0x71 ∷ 0x09 ∷ []

abbrev pub uid_text : Text
uid_text = codes "COLLECTOR-58BF25A77109"

abbrev pub uid : DeviceUid
uid = record { value = uid_text }

abbrev pub id_text : Text
id_text = codes "ea290ba8-5255-4c7f-9fc6-9a1b94d5a742"
