-- ===== src/App/Board.antt =====
-- firmware/main/main.cpp with the relay driver that it uses, `EspRelayDriver` over the GPIO
-- functions.
pub mod Pin
use esp32_dust_extraction.Common.{ℕ, Bool, Option, none, some, List, Text, if◌then◌else◌}
use esp32_dust_extraction.Common.Int.{ℤ}
use esp32_dust_extraction.EspRelayDriver
use esp32_dust_extraction.EspRelayDriver.{
  RelayPolarity, active_high, active_low, EspRelayConfig, Gpio, EspRelayDriver,
}
use esp32_dust_extraction.EspRelayDriver.Driver.{driver}
use esp32_dust_extraction.HttpServer.{Pointer}
use esp32_dust_extraction.HttpServer.Esp.{Httpd}
use esp32_dust_extraction.App.{Platform}
use esp32_dust_extraction.App.Server.{Program, boot}

-- `configured` says whether the build defines `…_COLLECTOR_RELAY_ACTIVE_LOW` and not as 0.
unfoldable pub collector_relay_polarity : Bool → RelayPolarity
collector_relay_polarity configured = if configured then active_low else active_high

unfoldable pub relay_config : ℕ → Bool → EspRelayConfig
unfolding collector_relay_polarity
relay_config gpio_pin configured = record {
  gpio_pin = gpio_pin;
  polarity = collector_relay_polarity configured;
}

-- `app_main` from the construction of the relay on. `none` is an abort or an early return.
unfoldable pub power_up :
    {G E X : Type 0}
    → Gpio G
    → Platform E
    → Httpd X
    → Text
    → EspRelayConfig
    → List ℕ
    → ℤ
    → ℕ
    → Pointer
    → G
    → E
    → X
    → Option (Program (Option (EspRelayDriver × G)) E X)
power_up gpio platform httpd html config mac start_delay port self g e x =
    elim (EspRelayDriver.new gpio config g) [
      | none ↦ none
      | some made ↦ boot (driver gpio) platform httpd html mac start_delay port self (some made) e x
    ]
