-- ===== src/App/Modes.antt =====
-- What the assembled program keeps between two calls of the service: the collector obeys the mode.
use esp32_dust_extraction.Common.{
  ◌≡◌, refl, ◌⊎◌, inl, inr, Bool, true, false, Option, none, some, arith,
}
use esp32_dust_extraction.Event.{Timestamp}
use esp32_dust_extraction.CollectorUnit.{
  CollectorState, stopped, running, CollectorMode, automatic, forced_on, forced_off,
}
use esp32_dust_extraction.Relay.{RelayDriver}
use esp32_dust_extraction.RelayBackedCollectorUnit
use esp32_dust_extraction.RelayBackedCollectorUnit.Safety.{IsConsistent, settled}
use esp32_dust_extraction.EventIdGenerator.Version.{Fills}
use esp32_dust_extraction.CollectorService.{
  CollectorService, reset, request_start, request_stop, start_if_stopped, stop_if_running,
  reconcile_pending, reconcile, request_mode,
}
use esp32_dust_extraction.CollectorService.Invariant.{
  enter, at_once, mode_cases, request_mode_same, request_mode_other, reconcile_keeps,
}
use esp32_dust_extraction.App.{Platform, World, ports}
use esp32_dust_extraction.App.Wiring.{IsWired}
use esp32_dust_extraction.App.Effects.{
  tick, state_of, Effect, Effect-refl, start_if_stopped-Effect, stop_if_running-Effect,
  request_start_refused, request_stop_refused,
}

-- The state of the collector that the mode rules out.
abbrev pub Obeys : CollectorMode → CollectorState → Type 0
Obeys automatic state = Unit {0}
Obeys forced_on state = state ≡ running
Obeys forced_off state = state ≡ stopped

module _ {R E : Type 0} (driver : RelayDriver R) (platform : Platform E)
    (fills : Fills platform.fill_random) where
  Effect-tick : (w w' : World R E) → Effect driver (tick platform w) w' → Effect driver w w'
  Effect-tick w w' e = record { unit_effect = e.unit_effect; recipients_kept = e.recipients_kept }

  -- A start that is asked for where the unit is known to be stopped.
  request_start-Effect :
      (s : CollectorService) (w : World R E)
      → IsWired s w
      → IsConsistent driver w.unit
      → s.current_mode ≡ automatic
      → state_of w ≡ stopped
      → let (done, w') = request_start (ports driver platform) s w in
        (done ≡ true) × Effect driver w w'
  unfolding start_if_stopped ports RelayBackedCollectorUnit.state
  request_start-Effect s w wired c m h =
      ground (arith, start_if_stopped-Effect driver platform fills s w wired c)

  request_stop-Effect :
      (s : CollectorService) (w : World R E)
      → IsWired s w
      → IsConsistent driver w.unit
      → s.current_mode ≡ automatic
      → state_of w ≡ running
      → let (done, w') = request_stop (ports driver platform) s w in
        (done ≡ true) × Effect driver w w'
  unfolding stop_if_running ports RelayBackedCollectorUnit.state
  request_stop-Effect s w wired c m h =
      ground (arith, stop_if_running-Effect driver platform fills s w wired c)

  reconcile_pending-Effect :
      (s : CollectorService) (p : Option Timestamp) (w : World R E)
      → IsWired s w
      → IsConsistent driver w.unit
      → s.current_mode ≡ automatic
      → let (done, s', w') = reconcile_pending (ports driver platform) s p w in
        (done ≡ true) × Effect driver w w'
  unfolding reconcile_pending ports RelayBackedCollectorUnit.state
  reconcile_pending-Effect s none w wired c m =
      ground (arith, start_if_stopped-Effect driver platform fills s w wired c)
  reconcile_pending-Effect s (some since) w wired c m =
      let started = request_start-Effect s (tick platform w) wired c m in
      let (done, w') = request_start (ports driver platform) s (tick platform w) in
      ground (
        arith,
        started,
        Effect-tick w w',
        Effect-tick w (tick platform w) (Effect-refl driver (tick platform w)),
      )

  -- Reconciling succeeds, with the collector in a state that the mode allows.
  pub reconcile-Effect :
      (immediate : Bool) (s : CollectorService) (w : World R E)
      → IsWired s w
      → IsConsistent driver w.unit
      → let (done, s', w') = reconcile (ports driver platform) immediate s w in
        (done ≡ true) × Effect driver w w' × Obeys s.current_mode (state_of w')
  unfolding reconcile
  reconcile-Effect immediate s w wired c = go s.current_mode refl
    where
      go :
          (m : CollectorMode)
          → s.current_mode ≡ m
          → let (done, s', w') = reconcile (ports driver platform) immediate s w in
            (done ≡ true) × Effect driver w w' × Obeys s.current_mode (state_of w')
      go forced_on e = ground (arith, start_if_stopped-Effect driver platform fills s w wired c)
      go forced_off e = ground (arith, stop_if_running-Effect driver platform fills s w wired c)
      go automatic e = ground (
        arith,
        start_if_stopped-Effect driver platform fills (reset s) w wired c,
        stop_if_running-Effect driver platform fills (reset s) w wired c,
        reconcile_pending-Effect s s.pending_demand_since w wired c e,
      )

  -- In the assembled program a mode request always succeeds, and leaves the service in the
  -- requested mode and the collector in a state that the mode allows.
  pub request_mode-Effect :
      (m : CollectorMode) (s : CollectorService) (w : World R E)
      → IsWired s w
      → IsConsistent driver w.unit
      → let (done, s', w') = request_mode (ports driver platform) m s w in
        (done ≡ true)
        × (s'.current_mode ≡ m)
        × (s'.uid ≡ s.uid)
        × Effect driver w w'
        × Obeys m (state_of w')
  request_mode-Effect m s w wired c = elim (mode_cases s.current_mode m) [
    | inl same ↦ rw (request_mode_same (ports driver platform) m s w same) (
        ground (
          arith,
          same,
          reconcile_keeps (ports driver platform) false s w,
          reconcile-Effect false s w wired c,
        ))
    | inr other ↦
        let entered = enter m s in
        let immediate = at_once m s in
        rw (request_mode_other (ports driver platform) m s w other) (
          ground (
            arith,
            reconcile_keeps (ports driver platform) immediate entered w,
            reconcile-Effect immediate entered w wired c,
          ))
  ]

  -- A start or a stop that a client asks for does not go against the mode.
  pub request_start-Obeys :
      (s : CollectorService) (w : World R E)
      → IsWired s w
      → IsConsistent driver w.unit
      → Obeys s.current_mode (state_of w)
      → let (done, w') = request_start (ports driver platform) s w in
        Effect driver w w' × Obeys s.current_mode (state_of w')
  request_start-Obeys s w wired c o = go s.current_mode refl (settled driver w.unit c)
    where
      go :
          (m : CollectorMode)
          → s.current_mode ≡ m
          → (state_of w ≡ running) ⊎ (state_of w ≡ stopped)
          → let (done, w') = request_start (ports driver platform) s w in
            Effect driver w w' × Obeys s.current_mode (state_of w')
      go m e (inl h) =
          rw (request_start_refused driver platform fills s w (inr (λ k. cc)))
            (Effect-refl driver w, o)
      go forced_off e (inr h) =
          rw (request_start_refused driver platform fills s w (inl e)) (Effect-refl driver w, o)
      go forced_on e (inr h) = ground (arith, o)
      go automatic e (inr h) = ground (arith, request_start-Effect s w wired c e h)

  pub request_stop-Obeys :
      (s : CollectorService) (w : World R E)
      → IsWired s w
      → IsConsistent driver w.unit
      → Obeys s.current_mode (state_of w)
      → let (done, w') = request_stop (ports driver platform) s w in
        Effect driver w w' × Obeys s.current_mode (state_of w')
  request_stop-Obeys s w wired c o = go s.current_mode refl (settled driver w.unit c)
    where
      go :
          (m : CollectorMode)
          → s.current_mode ≡ m
          → (state_of w ≡ running) ⊎ (state_of w ≡ stopped)
          → let (done, w') = request_stop (ports driver platform) s w in
            Effect driver w w' × Obeys s.current_mode (state_of w')
      go m e (inr h) =
          rw (request_stop_refused driver platform fills s w (inr (λ k. cc)))
            (Effect-refl driver w, o)
      go forced_on e (inl h) =
          rw (request_stop_refused driver platform fills s w (inl e)) (Effect-refl driver w, o)
      go forced_off e (inl h) = ground (arith, o)
      go automatic e (inl h) = ground (arith, request_stop-Effect s w wired c e h)
