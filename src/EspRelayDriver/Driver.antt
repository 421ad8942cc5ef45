-- ===== src/EspRelayDriver/Driver.antt =====
-- `EspRelayDriver` as an implementation of `RelayDriver`. The state of a program that has aborted
-- is `none`, which nothing leaves.
use esp32_dust_extraction.Common.{◌≡◌, refl, true, Option, none, some, is_some, arith}
use esp32_dust_extraction.Relay.{RelayState, off, on, RelayDriver}
use esp32_dust_extraction.EspRelayDriver.{Gpio, EspRelayDriver, switch_on, switch_off}
use esp32_dust_extraction.Common.Abort.{◌>>=◌}

module _ {G : Type 0} (gpio : Gpio G) where
  abbrev pub Board : Type 0
  Board = Option (EspRelayDriver × G)

  unfoldable pub board_on : Option (EspRelayDriver × G) → Option (EspRelayDriver × G)
  unfolding switch_on
  board_on r = r >>= switch_on gpio

  unfoldable pub board_off : Option (EspRelayDriver × G) → Option (EspRelayDriver × G)
  unfolding switch_off
  board_off r = r >>= switch_off gpio

  abbrev pub board_state : Option (EspRelayDriver × G) → RelayState
  board_state none = off
  board_state (some (d, g)) = d.state

  abbrev pub IsRunning : Option (EspRelayDriver × G) → Type 0
  IsRunning r = is_some r ≡ true

  pub board_state-on :
      (r : Option (EspRelayDriver × G)) → IsRunning (board_on r) → board_state (board_on r) ≡ on
  unfolding board_on
  board_state-on none h = cc
  board_state-on (some (d, g)) h = ground arith

  pub board_state-off :
      (r : Option (EspRelayDriver × G)) → IsRunning (board_off r) → board_state (board_off r) ≡ off
  unfolding board_off
  board_state-off none h = refl
  board_state-off (some (d, g)) h = ground arith

  pub IsRunning-on : (r : Option (EspRelayDriver × G)) → IsRunning (board_on r) → IsRunning r
  unfolding board_on
  IsRunning-on none h = h
  IsRunning-on (some x) h = refl

  pub IsRunning-off : (r : Option (EspRelayDriver × G)) → IsRunning (board_off r) → IsRunning r
  unfolding board_off
  IsRunning-off none h = h
  IsRunning-off (some x) h = refl

  -- The interface, with its promises kept.
  abbrev pub driver : RelayDriver (Option (EspRelayDriver × G))
  driver = record {
    switch_on = board_on;
    switch_off = board_off;
    state = board_state;
    Alive = IsRunning;
    state-switch_on = board_state-on;
    state-switch_off = board_state-off;
    Alive-switch_on = IsRunning-on;
    Alive-switch_off = IsRunning-off;
  }
