-- ===== src/EspRelayDriver.antt =====
-- firmware/components/esp_relay_driver. The GPIO functions of ESP-IDF are the parameter `Gpio`
-- over the state `G` of the pins; they return an `esp_err_t`, 0 for `ESP_OK`. `ESP_ERROR_CHECK`
-- aborts the program on any other value: `none`.
pub mod Levels
pub mod Driver
use esp32_dust_extraction.Common.{
  ℕ, ◌%◌, ◌^◌, Bool, true, false, not, Option, none, some, ◌==◌, if◌then◌else◌,
}
use esp32_dust_extraction.Common.Abort.{esp_error_check, ◌>>=◌}
use esp32_dust_extraction.Relay.{RelayState, off, on, relay_state_eq}

pub data RelayPolarity : Type 0 where
  active_high active_low : RelayPolarity

abbrev pub polarity_eq : RelayPolarity → RelayPolarity → Bool
polarity_eq active_high active_high = true
polarity_eq active_low active_low = true
polarity_eq _ _ = false

pub record EspRelayConfig : Type 0 where
  pub gpio_pin : ℕ
  pub polarity : RelayPolarity

-- The fields of `gpio_config_t`: `output` stands for `GPIO_MODE_OUTPUT`, and `false` for each
-- `…_DISABLE`.
pub record GpioConfig : Type 0 where
  pub pin_bit_mask : ℕ
  pub output : Bool
  pub pull_up_en : Bool
  pub pull_down_en : Bool
  pub interrupt : Bool

pub record Gpio (G : Type 0) : Type 0 where
  pub gpio_set_level : ℕ → ℕ → G → ℕ × G
  pub gpio_config : GpioConfig → G → ℕ × G

pub record EspRelayDriver : Type 0 where
  pub config : EspRelayConfig
  pub state : RelayState

module _ {G : Type 0} (gpio : Gpio G) where
  open gpio use {gpio_set_level, gpio_config}

  abbrev pub output_config : EspRelayConfig → GpioConfig
  output_config config = record {
    pin_bit_mask = 2 ^ config.gpio_pin % 2 ^ 64;
    output = true;
    pull_up_en = false;
    pull_down_en = false;
    interrupt = false;
  }

  unfoldable pub new : EspRelayConfig → G → Option (EspRelayDriver × G)
  new config g = do
    let off_level = polarity_eq config.polarity active_low
    g₁ ← esp_error_check (gpio_set_level config.gpio_pin (if off_level then 1 else 0) g)
    g₂ ← esp_error_check (gpio_config (output_config config) g₁)
    some (record { config = config; state = off }, g₂)

  unfoldable pub set_state : RelayState → EspRelayDriver × G → Option (EspRelayDriver × G)
  set_state state (d, g) = do
    let is_active = relay_state_eq state on
    let output_high = if polarity_eq d.config.polarity active_high then is_active else not is_active
    g' ← esp_error_check (gpio_set_level d.config.gpio_pin (if output_high then 1 else 0) g)
    some (record d { state = state }, g')

  unfoldable pub switch_on : EspRelayDriver × G → Option (EspRelayDriver × G)
  unfolding set_state
  switch_on = set_state on

  unfoldable pub switch_off : EspRelayDriver × G → Option (EspRelayDriver × G)
  unfolding set_state
  switch_off = set_state off
