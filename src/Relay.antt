-- ===== src/Relay.antt =====
-- firmware/components/relay: the interface `RelayDriver`. A driver's state is a value of `R`. A
-- driver may abort the program; `Alive` holds of the states of a program that still runs.
use esp32_dust_extraction.Common.{Bool, true, false, ◌≡◌}

pub data RelayState : Type 0 where
  off on : RelayState

pub record RelayDriver (R : Type 0) : Type 1 where
  pub switch_on : R → R
  pub switch_off : R → R
  pub state : R → RelayState
  -- What a driver promises: the last command is what `state` reports, and an aborted program does
  -- not come back.
  pub Alive : R → Type 0
  pub state-switch_on : (r : R) → Alive (switch_on r) → state (switch_on r) ≡ on
  pub state-switch_off : (r : R) → Alive (switch_off r) → state (switch_off r) ≡ off
  pub Alive-switch_on : (r : R) → Alive (switch_on r) → Alive r
  pub Alive-switch_off : (r : R) → Alive (switch_off r) → Alive r

abbrev pub relay_state_eq : RelayState → RelayState → Bool
relay_state_eq off off = true
relay_state_eq on on = true
relay_state_eq _ _ = false

module _ {R : Type 0} (relay : RelayDriver R) where
  unfoldable pub is_on : R → Bool
  is_on r = relay_state_eq (relay.state r) on

  unfoldable pub is_off : R → Bool
  is_off r = relay_state_eq (relay.state r) off
