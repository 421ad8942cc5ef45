-- ===== src/Tests/Hardware.antt =====
-- The state machine, the relay driver and the unit.
use esp32_dust_extraction.Common.{
  ℕ, ◌+◌, ◌%◌, ◌^◌, ◌≡◌, refl, ◌⊎◌, Bool, true, false, some, List, [], ◌∷◌,
}
use esp32_dust_extraction.CollectorUnit.{CollectorState, stopped, running}
use esp32_dust_extraction.CollectorStateMachine.{Transition, CollectorStateMachine, notify}
use esp32_dust_extraction.CollectorStateMachine
use esp32_dust_extraction.CollectorStateMachine.Diagram.{
  start, started, stop, failed, Edge, step, step-Edge,
}
use esp32_dust_extraction.CollectorStateMachine.History
use esp32_dust_extraction.CollectorStateMachine.History.{Chain, record_transition, run-Chain}
use esp32_dust_extraction.Relay.{off, on}
use esp32_dust_extraction.EspRelayDriver.{
  active_high, active_low, EspRelayConfig, GpioConfig, Gpio, EspRelayDriver, output_config,
  set_state,
}
use esp32_dust_extraction.EspRelayDriver
use esp32_dust_extraction.EspRelayDriver.Levels.{
  GpioLaws, IsEnergised, level_for, new-not-IsEnergised,
}
use esp32_dust_extraction.RelayBackedCollectorUnit as Unit_
use esp32_dust_extraction.RelayBackedCollectorUnit.Safety.{run, run-new}
use esp32_dust_extraction.Tests.Fixtures.{toy_relay}

abbrev machine : CollectorStateMachine (List Transition)
machine = record { state = running; observer = some record_transition }

step-Edge_example :
    ((to : CollectorState) × Edge stop running to
      × (step stop machine [] ≡ (
        true,
        record machine { state = to },
        notify machine.observer (record { from = running; to = to }) [],
      )))
    ⊎ (((to : CollectorState) → ¬ Edge stop running to)
        × (step stop machine [] ≡ (false, machine, [])))
step-Edge_example = step-Edge stop machine []

run-Chain_example :
    let (m, seen) =
      History.run
        (start ∷ started ∷ start ∷ failed ∷ [])
        (CollectorStateMachine.new (some record_transition))
        [] in
    Chain stopped seen m.state
run-Chain_example = run-Chain (start ∷ started ∷ start ∷ failed ∷ [])

-- One pin: its level, and whether it is an output.
abbrev pub toy_gpio : Gpio (ℕ × Bool)
toy_gpio = record {
  gpio_set_level = λ pin value g. (0, (value, g.1));
  gpio_config = λ c g. (0, (g.0, c.output));
}

abbrev pub toy_laws : GpioLaws toy_gpio
toy_laws = record {
  level = λ pin g. g.0;
  drives = λ pin g. g.1;
  level_set = λ pin value g ok. refl;
  drives_set = λ pin value g. refl;
  level_config = λ c pin g. refl;
}

abbrev pub low_pin : EspRelayConfig
low_pin = record { gpio_pin = 26; polarity = active_low }

abbrev pub low_driver : EspRelayDriver
low_driver = record { config = low_pin; state = off }

new-not-IsEnergised_example :
    (g₁ : ℕ × Bool) × (toy_gpio.gpio_set_level 26 (level_for active_low off) (0, false) ≡ (0, g₁))
    × (toy_gpio.gpio_config (output_config toy_gpio low_pin) g₁ ≡ (0, (1, true)))
    × (¬ IsEnergised toy_gpio toy_laws low_pin g₁)
    × (¬ IsEnergised toy_gpio toy_laws low_pin (1, true))
    × (off ≡ off)
unfolding EspRelayDriver.new
new-not-IsEnergised_example =
    new-not-IsEnergised toy_gpio toy_laws low_pin low_driver (0, false) (1, true) refl refl

run-new_example :
    let u = run toy_relay (true ∷ true ∷ []) (Unit_.new toy_relay on) in
    ((Unit_.state toy_relay u ≡ running)
      × (u.relay ≡ on)
      × (u.counters.successful_starts ≡ (u.counters.successful_stops + 1) % 2 ^ 32))
    ⊎ ((Unit_.state toy_relay u ≡ stopped)
        × (u.relay ≡ off)
        × (u.counters.successful_starts ≡ u.counters.successful_stops))
run-new_example = run-new toy_relay (true ∷ true ∷ []) on tt
