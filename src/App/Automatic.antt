-- ===== src/App/Automatic.antt =====
-- The commands that the service sends, carried out: the state that a call brings the collector to
-- in the assembled program.
use esp32_dust_extraction.Common.{
  ◌≡◌, ◌≢◌, refl, ◌⊎◌, Bool, true, not, ◌||◌, Option, none, some, arith,
}
use esp32_dust_extraction.Common.Int.{◌-ℤ◌, ltb_ℤ}
use esp32_dust_extraction.Event.{Timestamp}
use esp32_dust_extraction.CollectorUnit.{
  CollectorState, stopped, running, CollectorMode, automatic, forced_on, forced_off,
}
use esp32_dust_extraction.Relay.{RelayDriver}
use esp32_dust_extraction.RelayBackedCollectorUnit
use esp32_dust_extraction.RelayBackedCollectorUnit.Safety.{IsConsistent, settled}
use esp32_dust_extraction.EventIdGenerator.Version.{Fills}
use esp32_dust_extraction.CollectorService.{
  CollectorService, reset, request_start, start_if_stopped, stop_if_running, reconcile_pending,
  reconcile,
}
use esp32_dust_extraction.CollectorService.Policy.{
  Action, start_it, stop_it, leave_it, wanted, is_due,
}
use esp32_dust_extraction.App.{Platform, World, ports}
use esp32_dust_extraction.App.Wiring.{IsWired}
use esp32_dust_extraction.App.Effects.{
  tick, state_of, start_if_stopped-Effect, stop_if_running-Effect,
}

-- The state that carrying out an action brings a collector to.
abbrev pub carried_out : Action → CollectorState → CollectorState
carried_out start_it state = running
carried_out stop_it state = stopped
carried_out leave_it state = state

module _ {R E : Type 0} (driver : RelayDriver R) (platform : Platform E)
    (fills : Fills platform.fill_random) where
  -- The state that the mode and the demand want of the collector, at the next reading of the clock.
  abbrev pub due_now : CollectorService → World R E → Bool
  due_now s w = is_due s (platform.now w.platform).0

  pub start_state :
      (s : CollectorService) (w : World R E)
      → IsWired s w
      → IsConsistent driver w.unit
      → s.current_mode ≢ forced_off
      → state_of (start_if_stopped (ports driver platform) s w).1 ≡ running
  start_state s w wired c m =
      let (done, effect, at) = start_if_stopped-Effect driver platform fills s w wired c m in at

  pub stop_state :
      (s : CollectorService) (w : World R E)
      → IsWired s w
      → IsConsistent driver w.unit
      → s.current_mode ≢ forced_on
      → state_of (stop_if_running (ports driver platform) s w).1 ≡ stopped
  stop_state s w wired c m =
      let (done, effect, at) = stop_if_running-Effect driver platform fills s w wired c m in at

  pub request_start_state :
      (s : CollectorService) (w : World R E)
      → IsWired s w
      → IsConsistent driver w.unit
      → s.current_mode ≡ automatic
      → state_of w ≡ stopped
      → state_of (request_start (ports driver platform) s w).1 ≡ running
  unfolding start_if_stopped ports RelayBackedCollectorUnit.state
  request_start_state s w wired c m h = ground (arith, start_state s w wired c)

  pending_state :
      (s : CollectorService) (since : Timestamp) (w : World R E)
      → IsWired s w
      → IsConsistent driver w.unit
      → s.current_mode ≡ automatic
      → state_of (reconcile_pending (ports driver platform) s (some since) w).2
        ≡ carried_out
            (wanted automatic true
              (not (ltb_ℤ ((platform.now w.platform).0 -ℤ since) s.start_delay))
              (state_of w))
            (state_of w)
  unfolding reconcile_pending ports RelayBackedCollectorUnit.state
  pending_state s since w wired c m =
      ground (arith, settled driver w.unit c, request_start_state s (tick platform w) wired c m)

  pub reconcile_state :
      (immediate : Bool) (s : CollectorService) (w : World R E)
      → IsWired s w
      → IsConsistent driver w.unit
      → state_of (reconcile (ports driver platform) immediate s w).2
        ≡ carried_out
            (wanted s.current_mode s.has_demand (immediate || due_now s w) (state_of w))
            (state_of w)
  unfolding reconcile
  reconcile_state immediate s w wired c =
      go s.current_mode s.pending_demand_since refl refl (settled driver w.unit c)
    where
      go :
          (m : CollectorMode) (p : Option Timestamp)
          → s.current_mode ≡ m
          → s.pending_demand_since ≡ p
          → (state_of w ≡ running) ⊎ (state_of w ≡ stopped)
          → state_of (reconcile (ports driver platform) immediate s w).2
            ≡ carried_out
                (wanted s.current_mode s.has_demand (immediate || due_now s w) (state_of w))
                (state_of w)
      go forced_on p e f at = ground (arith, start_state s w wired c)
      go forced_off p e f at = ground (arith, stop_state s w wired c)
      go automatic none e f at =
          unfold reconcile_pending in
          ground (
            arith,
            start_state s w wired c,
            start_state (reset s) w wired c,
            stop_state (reset s) w wired c,
          )
      go automatic (some since) e f at = ground (
        arith,
        pending_state s since w wired c e,
        start_state (reset s) w wired c,
        stop_state (reset s) w wired c,
      )
