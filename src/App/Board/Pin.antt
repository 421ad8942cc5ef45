-- ===== src/App/Board/Pin.antt =====
-- The pin of the relay over any sequence of inputs of the program.
use esp32_dust_extraction.Common.{
  ℕ, ◌≡◌, ◌⊎◌, refl, ap, ◌∙◌, inl, inr, Option, none, some, List, Text, Option-cases, arith,
}
use esp32_dust_extraction.Common.Int.{ℤ}
use esp32_dust_extraction.EventIdGenerator.Version.{Fills}
use esp32_dust_extraction.CollectorUnit.{stopped, running}
use esp32_dust_extraction.Relay.{RelayState, off, on}
use esp32_dust_extraction.EspRelayDriver
use esp32_dust_extraction.EspRelayDriver.{
  EspRelayConfig, Gpio, EspRelayDriver, set_state, switch_on, switch_off,
}
use esp32_dust_extraction.EspRelayDriver.Driver.{driver, board_on, board_off, board_state}
use esp32_dust_extraction.EspRelayDriver.Levels.{GpioLaws, level_for, set_state-level}
use esp32_dust_extraction.HttpServer.{Pointer}
use esp32_dust_extraction.HttpServer.Esp.{Httpd}
use esp32_dust_extraction.App.{Platform, World}
use esp32_dust_extraction.App.Boot.{Follows}
use esp32_dust_extraction.App.Effects.{state_of}
use esp32_dust_extraction.App.Modes.{Obeys}
use esp32_dust_extraction.App.Server.{Program, Input, boot, run}
use esp32_dust_extraction.App.Server.Relays.{run-Holds, boot-relay}
use esp32_dust_extraction.App.Server.Requests.{boot-IsServing, run-inputs-Obeys}
use esp32_dust_extraction.App.Board.{power_up}

module _ {G : Type 0} (gpio : Gpio G) (laws : GpioLaws gpio) (config : EspRelayConfig) where
  -- The pin is at the level that the driver reports, under the driver's configuration.
  abbrev pub Matches : Option (EspRelayDriver × G) → Type 0
  Matches none = Unit
  Matches (some (d, g)) =
      (d.config ≡ config) × (laws.level config.gpio_pin g ≡ level_for config.polarity d.state)

  set_state-Matches :
      (s : RelayState) (d : EspRelayDriver) (g : G)
      → d.config ≡ config
      → Matches (set_state gpio s (d, g))
  set_state-Matches s d g same = elim (Option-cases (set_state gpio s (d, g))) [
    | inl aborted ↦ rw aborted tt
    | inr ((d', g'), made) ↦
        let (at, kept, level) = set_state-level gpio laws s d d' g g' made in
        rw made (kept ∙ same, ground (arith, level, at, same))
  ]

  board_on-Matches : (r : Option (EspRelayDriver × G)) → Matches r → Matches (board_on gpio r)
  unfolding board_on switch_on
  board_on-Matches none h = tt
  board_on-Matches (some (d, g)) h = set_state-Matches on d g h.0

  board_off-Matches : (r : Option (EspRelayDriver × G)) → Matches r → Matches (board_off gpio r)
  unfolding board_off switch_off
  board_off-Matches none h = tt
  board_off-Matches (some (d, g)) h = set_state-Matches off d g h.0

  new-Matches :
      (g : G) (d : EspRelayDriver) (g' : G)
      → EspRelayDriver.new gpio config g ≡ some (d, g')
      → d.config ≡ config
  unfolding EspRelayDriver.new
  new-Matches g d g' made = ground arith

  module _ {E X : Type 0} (platform : Platform E) (fills : Fills platform.fill_random)
      (httpd : Httpd X) (html : Text) where
    Follows-level :
        (w : World (Option (EspRelayDriver × G)) E) (d : EspRelayDriver) (g : G)
        → w.unit.relay ≡ some (d, g)
        → Matches w.unit.relay
        → Follows (driver gpio) platform fills w
        → ((state_of w ≡ running) × (laws.level config.gpio_pin g ≡ level_for config.polarity on))
          ⊎ ((state_of w ≡ stopped)
              × (laws.level config.gpio_pin g ≡ level_for config.polarity off))
    Follows-level w d g at matches follows =
        let matched : Matches (some (d, g)) = rw at at matches in
        let reports = λ (s : RelayState) (e : board_state gpio w.unit.relay ≡ s).
          matched.1
          ∙ ap (level_for config.polarity)
              (let e' : board_state gpio (some (d, g)) ≡ s = rw at at e in e') in
        elim follows [
          | inl (up, e) ↦ inl (up, reports on e)
          | inr (down, e) ↦ inr (down, reports off e)
        ]

    -- From power up on, whatever calls and HTTP requests the program gets, if it has not aborted
    -- then the pin of the relay is at the level that switches it on with the collector reported
    -- running, or at the level that switches it off with the collector reported stopped, under
    -- either polarity; and running if the mode is forced on, stopped if it is forced off. The GPIO
    -- functions do what `GpioLaws` says, and random bytes are bytes.
    pub run-level :
        (mac : List ℕ) (delay : ℤ) (port : ℕ) (self : Pointer) (g : G) (e : E) (x : X)
        (is : List Input) (p : Program (Option (EspRelayDriver × G)) E X) (d : EspRelayDriver)
        (g' : G)
        → power_up gpio platform httpd html config mac delay port self g e x ≡ some p
        → (run (driver gpio) platform httpd html is p).world.unit.relay ≡ some (d, g')
        → let p' = run (driver gpio) platform httpd html is p in
          (((state_of p'.world ≡ running)
              × (laws.level config.gpio_pin g' ≡ level_for config.polarity on))
            ⊎ ((state_of p'.world ≡ stopped)
                × (laws.level config.gpio_pin g' ≡ level_for config.polarity off)))
          × Obeys p'.service.current_mode (state_of p'.world)
    unfolding power_up board_off switch_off
    run-level mac delay port self g e x is p d g' h at =
        elim (Option-cases (EspRelayDriver.new gpio config g)) [
          | inl aborted ↦ let h' : none ≡ some p = rw (aborted, power_up) at h in cc
          | inr ((d₀, g₀), made) ↦
              let booting : boot (driver gpio) platform httpd html mac delay port self
                    (some (d₀, g₀)) e x
                  ≡ some p =
                rw (made, power_up) at h in
              let first =
                boot-relay (driver gpio) platform httpd html mac delay port self (some (d₀, g₀)) e x
                  p booting in
              let held =
                run-Holds (driver gpio) platform fills httpd html Matches board_on-Matches
                  board_off-Matches is p
                  (boot-IsServing (driver gpio) platform fills httpd html mac delay port self
                    (some (d₀, g₀)) e x p booting)
                  (rw first (set_state-Matches off d₀ g₀ (new-Matches g d₀ g₀ made))) in
              let (follows, obeyed) =
                run-inputs-Obeys (driver gpio) platform fills httpd html mac delay port self
                  (some (d₀, g₀)) e x is p booting (rw at refl) in
              (
                Follows-level (run (driver gpio) platform httpd html is p).world d g' at held
                    follows,
                obeyed,
              )
        ]
