-- ===== src/EspRelayDriver/Levels.antt =====
-- The pin's level under either polarity, and the driver as a `RelayDriver`.
use esp32_dust_extraction.Common.{ℕ, ◌≡◌, Bool, true, false, some, arith}
use esp32_dust_extraction.Relay.{RelayState, off, on}
use esp32_dust_extraction.EspRelayDriver.{
  RelayPolarity, active_high, active_low, EspRelayConfig, GpioConfig, Gpio, EspRelayDriver,
  output_config, new, set_state,
}

-- What the program relies on of the GPIO functions: a successful call sets the level of the pin,
-- setting a level enables no output, and configuring a pin sets no level.
pub record GpioLaws {G : Type 0} (gpio : Gpio G) : Type 0 where
  pub level : ℕ → G → ℕ
  pub drives : ℕ → G → Bool
  pub level_set :
      (pin value : ℕ) (g : G)
      → (gpio.gpio_set_level pin value g).0 ≡ 0
      → level pin (gpio.gpio_set_level pin value g).1 ≡ value
  pub drives_set :
      (pin value : ℕ) (g : G) → drives pin (gpio.gpio_set_level pin value g).1 ≡ drives pin g
  pub level_config :
      (c : GpioConfig) (pin : ℕ) (g : G) → level pin (gpio.gpio_config c g).1 ≡ level pin g

-- The level at which a relay of the polarity is in the state.
abbrev pub level_for : RelayPolarity → RelayState → ℕ
level_for active_high on = 1
level_for active_high off = 0
level_for active_low on = 0
level_for active_low off = 1

module _ {G : Type 0} (gpio : Gpio G) (laws : GpioLaws gpio) where
  open laws use {level, drives, level_set, drives_set, level_config}

  -- The relay draws current when its pin is an output at the active level.
  abbrev pub IsEnergised : EspRelayConfig → G → Type 0
  IsEnergised c g = (drives c.gpio_pin g ≡ true) × (level c.gpio_pin g ≡ level_for c.polarity on)

  -- Unless it aborts, `set_state`, which `on` and `off` are, puts the pin at the level at which a
  -- relay of the configured polarity is in the state asked for, and reports that state.
  pub set_state-level :
      (s : RelayState) (d d' : EspRelayDriver) (g g' : G)
      → set_state gpio s (d, g) ≡ some (d', g')
      → (d'.state ≡ s)
        × (d'.config ≡ d.config)
        × (level d.config.gpio_pin g' ≡ level_for d.config.polarity s)
  unfolding set_state
  set_state-level s d d' g g' h =
      let pin = d.config.gpio_pin in ground (arith, level_set pin 1 g, level_set pin 0 g)

  -- Unless it aborts, a new driver has set the pin to the off level before it makes the pin an
  -- output, so that a relay whose pin was no output is never energised on the way.
  pub new-not-IsEnergised :
      (c : EspRelayConfig) (d : EspRelayDriver) (g g' : G)
      → new gpio c g ≡ some (d, g')
      → drives c.gpio_pin g ≡ false
      → (g₁ : G) × (gpio.gpio_set_level c.gpio_pin (level_for c.polarity off) g ≡ (0, g₁))
        × (gpio.gpio_config (output_config gpio c) g₁ ≡ (0, g'))
        × (¬ IsEnergised c g₁)
        × (¬ IsEnergised c g')
        × (d.state ≡ off)
  unfolding new
  new-not-IsEnergised c d g g' h idle =
      let pin = c.gpio_pin in
      let g₁ = (gpio.gpio_set_level pin (level_for c.polarity off) g).1 in
      (
        g₁,
        ground arith,
        ground arith,
        ground (arith, drives_set pin (level_for c.polarity off) g),
        ground (
          arith,
          level_set pin 0 g,
          level_set pin 1 g,
          level_config (output_config gpio c) pin g₁,
        ),
        ground arith,
      )
