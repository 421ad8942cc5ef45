-- ===== src/App/Effects.antt =====
-- What a call of the service does to the unit in the assembled program.
use esp32_dust_extraction.Common.{◌≡◌, ◌≢◌, refl, ap, ◌⊎◌, inl, inr, true, false, arith}
use esp32_dust_extraction.CollectorUnit.{CollectorState, stopped, running, forced_on, forced_off}
use esp32_dust_extraction.CollectorCommands.{start_collector, stop_collector}
use esp32_dust_extraction.Relay.{RelayDriver}
use esp32_dust_extraction.RelayBackedCollectorUnit
use esp32_dust_extraction.RelayBackedCollectorUnit.{RelayBackedCollectorUnit}
use esp32_dust_extraction.RelayBackedCollectorUnit.Safety.{
  IsConsistent, started, halted, started-IsConsistent, halted-IsConsistent, settled,
}
use esp32_dust_extraction.EventIdGenerator.Version.{Fills}
use esp32_dust_extraction.CollectorService.{
  CollectorService, dispatch_command, request_start, request_stop, start_if_stopped,
  stop_if_running,
}
use esp32_dust_extraction.App.{Platform, World, ports}
use esp32_dust_extraction.App.Wiring.{IsWired, Moved, dispatch_command-start, dispatch_command-stop}

abbrev pub state_of : {R E : Type 0} → World R E → CollectorState
state_of w = w.unit.state_machine.state

-- The world after a reading of the clock.
abbrev pub tick : {R E : Type 0} → Platform E → World R E → World R E
tick platform w = record w { platform = (platform.now w.platform).1 }

module _ {R E : Type 0} (driver : RelayDriver R) where
  -- The unit is as it was, or was started from `stopped`, or was stopped from `running`; the
  -- registered recipients are as they were.
  pub record Effect (w w' : World R E) : Type 0 where
    pub unit_effect :
        (w'.unit ≡ w.unit)
        ⊎ ((state_of w ≡ stopped) × (w'.unit ≡ started driver w.unit))
        ⊎ ((state_of w ≡ running) × (w'.unit ≡ halted driver w.unit))
    pub recipients_kept : w'.dispatcher ≡ w.dispatcher

  pub Effect-IsConsistent :
      (w w' : World R E) → Effect w w' → IsConsistent driver w.unit → IsConsistent driver w'.unit
  Effect-IsConsistent w w' e c = go e.unit_effect
    where
      go :
          (w'.unit ≡ w.unit)
            ⊎ ((state_of w ≡ stopped) × (w'.unit ≡ started driver w.unit))
            ⊎ ((state_of w ≡ running) × (w'.unit ≡ halted driver w.unit))
          → IsConsistent driver w'.unit
      go (inl same) = rw same c
      go (inr (inl (at, moved))) = rw moved (started-IsConsistent driver w.unit c at)
      go (inr (inr (at, moved))) = rw moved (halted-IsConsistent driver w.unit c at)

  pub Effect-refl : (w : World R E) → Effect w w
  Effect-refl w = record { unit_effect = inl refl; recipients_kept = refl }

  -- Of what becomes of a unit that is to be running, or to be stopped.
  Effect-started :
      (w w' : World R E)
      → state_of w ≡ stopped
      → Moved w w' (started driver w.unit)
      → Effect w w' × (state_of w' ≡ running)
  Effect-started w w' h m = (
    record { unit_effect = inr (inl (h, m.moved_unit)); recipients_kept = m.same_dispatcher },
    ap (λ (u : RelayBackedCollectorUnit R). u.state_machine.state) m.moved_unit,
  )

  Effect-halted :
      (w w' : World R E)
      → state_of w ≡ running
      → Moved w w' (halted driver w.unit)
      → Effect w w' × (state_of w' ≡ stopped)
  Effect-halted w w' h m = (
    record { unit_effect = inr (inr (h, m.moved_unit)); recipients_kept = m.same_dispatcher },
    ap (λ (u : RelayBackedCollectorUnit R). u.state_machine.state) m.moved_unit,
  )

module _ {R E : Type 0} (driver : RelayDriver R) (platform : Platform E)
    (fills : Fills platform.fill_random) where
  start_sent :
      (s : CollectorService) (w : World R E)
      → IsWired s w
      → state_of w ≡ stopped
      → let (done, w') = dispatch_command (ports driver platform) start_collector s w in
        (done ≡ true) × Effect driver w w' × (state_of w' ≡ running)
  start_sent s w wired h =
      let (done, moved) = dispatch_command-start driver platform fills s w wired h in
      let (effect, at) = Effect-started driver w _ h moved in (done, effect, at)

  stop_sent :
      (s : CollectorService) (w : World R E)
      → IsWired s w
      → state_of w ≡ running
      → let (done, w') = dispatch_command (ports driver platform) stop_collector s w in
        (done ≡ true) × Effect driver w w' × (state_of w' ≡ stopped)
  stop_sent s w wired h =
      let (done, moved) = dispatch_command-stop driver platform fills s w wired h in
      let (effect, at) = Effect-halted driver w _ h moved in (done, effect, at)

  request_start-stopped :
      (s : CollectorService) (w : World R E)
      → s.current_mode ≢ forced_off
      → state_of w ≡ stopped
      → request_start (ports driver platform) s w
        ≡ dispatch_command (ports driver platform) start_collector s w
  unfolding request_start ports RelayBackedCollectorUnit.state
  request_start-stopped s w m h = ground arith

  pub request_start_refused :
      (s : CollectorService) (w : World R E)
      → (s.current_mode ≡ forced_off) ⊎ (state_of w ≢ stopped)
      → request_start (ports driver platform) s w ≡ (false, w)
  unfolding request_start ports RelayBackedCollectorUnit.state
  request_start_refused s w h = ground arith

  request_stop-running :
      (s : CollectorService) (w : World R E)
      → s.current_mode ≢ forced_on
      → state_of w ≡ running
      → request_stop (ports driver platform) s w
        ≡ dispatch_command (ports driver platform) stop_collector s w
  unfolding request_stop ports RelayBackedCollectorUnit.state
  request_stop-running s w m h = ground arith

  pub request_stop_refused :
      (s : CollectorService) (w : World R E)
      → (s.current_mode ≡ forced_on) ⊎ (state_of w ≢ running)
      → request_stop (ports driver platform) s w ≡ (false, w)
  unfolding request_stop ports RelayBackedCollectorUnit.state
  request_stop_refused s w h = ground arith

  -- `start_if_stopped` ends in `running`, and `stop_if_running` in `stopped`; both succeed.
  pub start_if_stopped-Effect :
      (s : CollectorService) (w : World R E)
      → IsWired s w
      → IsConsistent driver w.unit
      → s.current_mode ≢ forced_off
      → let (done, w') = start_if_stopped (ports driver platform) s w in
        (done ≡ true) × Effect driver w w' × (state_of w' ≡ running)
  unfolding start_if_stopped ports RelayBackedCollectorUnit.state
  start_if_stopped-Effect s w wired c m = ground (
    arith,
    settled driver w.unit c,
    request_start-stopped s w m,
    start_sent s w wired,
    Effect-refl driver w,
  )

  pub stop_if_running-Effect :
      (s : CollectorService) (w : World R E)
      → IsWired s w
      → IsConsistent driver w.unit
      → s.current_mode ≢ forced_on
      → let (done, w') = stop_if_running (ports driver platform) s w in
        (done ≡ true) × Effect driver w w' × (state_of w' ≡ stopped)
  unfolding stop_if_running ports RelayBackedCollectorUnit.state
  stop_if_running-Effect s w wired c m = ground (
    arith,
    settled driver w.unit c,
    request_stop-running s w m,
    stop_sent s w wired,
    Effect-refl driver w,
  )
