-- ===== src/Common/Abort.antt =====
-- Code that may abort the program, as a value that is `none` if it has. An `esp_err_t` is a 32-bit
-- pattern, 0 for `ESP_OK`.
use Prim.Native.Nat.{ℕ}
use mathlib.Core.Option.{Option, none, some}
use esp32_dust_extraction.Common.Tests.{◌==◌, if◌then◌else◌}

-- `ESP_ERROR_CHECK`.
abbrev pub esp_error_check {ℓ} : {G : Type ℓ} → ℕ × G → Option G
esp_error_check (code, g) = if code == 0 then some g else none

infixl 5 ◌>>=◌
abbrev pub ◌>>=◌ {ℓ κ} : {A : Type ℓ} {B : Type κ} → Option A → (A → Option B) → Option B
none >>= f = none
some a >>= f = f a
