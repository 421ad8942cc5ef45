-- ===== src/App/Grants.antt =====
-- Which calls the assembled program grants.
use esp32_dust_extraction.Common.{◌≡◌, refl, ◌⊎◌, inl, inr, Bool, true, false, not, ◌&&◌, arith}
use esp32_dust_extraction.CollectorUnit.{
  stopped, running, CollectorMode, automatic, forced_on, forced_off, mode_eq, state_eq,
}
use esp32_dust_extraction.Relay.{RelayDriver}
use esp32_dust_extraction.RelayBackedCollectorUnit
use esp32_dust_extraction.RelayBackedCollectorUnit.Safety.{settled}
use esp32_dust_extraction.EventIdGenerator.Version.{Fills}
use esp32_dust_extraction.CollectorService.{
  CollectorService, Call, starts, stops, processes, selects, demands, faults, request_start,
  request_stop, start_if_stopped, stop_if_running, note_demand, update_demand, process, serve,
}
use esp32_dust_extraction.App.{Platform, World, ports}
use esp32_dust_extraction.App.Effects.{
  state_of, start_if_stopped-Effect, stop_if_running-Effect, request_start_refused,
  request_stop_refused,
}
use esp32_dust_extraction.App.Modes.{reconcile-Effect, request_mode-Effect}
use esp32_dust_extraction.App.History.{IsSafe, noted-IsWired}

-- A start is granted to a stopped collector unless the mode is forced off, a stop to a running one
-- unless it is forced on, and every other call always.
abbrev pub granted : {R E : Type 0} → Call → CollectorService → World R E → Bool
granted starts s w = state_eq (state_of w) stopped && not (mode_eq s.current_mode forced_off)
granted stops s w = state_eq (state_of w) running && not (mode_eq s.current_mode forced_on)
granted _ s w = true

module _ {R E : Type 0} (driver : RelayDriver R) (platform : Platform E)
    (fills : Fills platform.fill_random) where
  request_start-granted :
      (s : CollectorService) (w : World R E)
      → IsSafe driver s w
      → (request_start (ports driver platform) s w).0 ≡ granted starts s w
  unfolding start_if_stopped ports RelayBackedCollectorUnit.state
  request_start-granted s w h = go s.current_mode refl (settled driver w.unit h.consistent)
    where
      go :
          (m : CollectorMode)
          → s.current_mode ≡ m
          → (state_of w ≡ running) ⊎ (state_of w ≡ stopped)
          → (request_start (ports driver platform) s w).0 ≡ granted starts s w
      go forced_off e at = ground (arith, request_start_refused driver platform fills s w (inl e))
      go m e (inl at) =
          ground (arith, request_start_refused driver platform fills s w (inr (λ k. cc)))
      go automatic e (inr at) =
          ground (arith, start_if_stopped-Effect driver platform fills s w h.wired h.consistent)
      go forced_on e (inr at) = ground (arith, h.obeys)

  request_stop-granted :
      (s : CollectorService) (w : World R E)
      → IsSafe driver s w
      → (request_stop (ports driver platform) s w).0 ≡ granted stops s w
  unfolding stop_if_running ports RelayBackedCollectorUnit.state
  request_stop-granted s w h = go s.current_mode refl (settled driver w.unit h.consistent)
    where
      go :
          (m : CollectorMode)
          → s.current_mode ≡ m
          → (state_of w ≡ running) ⊎ (state_of w ≡ stopped)
          → (request_stop (ports driver platform) s w).0 ≡ granted stops s w
      go forced_on e at = ground (arith, request_stop_refused driver platform fills s w (inl e))
      go m e (inr at) =
          ground (arith, request_stop_refused driver platform fills s w (inr (λ k. cc)))
      go automatic e (inl at) =
          ground (arith, stop_if_running-Effect driver platform fills s w h.wired h.consistent)
      go forced_off e (inl at) = ground (arith, h.obeys)

  pub serve-granted :
      (c : Call) (s : CollectorService) (w : World R E)
      → IsSafe driver s w
      → (serve (ports driver platform) c s w).0 ≡ granted c s w
  unfolding serve process update_demand
  serve-granted starts s w h = request_start-granted s w h
  serve-granted stops s w h = request_stop-granted s w h
  serve-granted processes s w h =
      (reconcile-Effect driver platform fills false s w h.wired h.consistent).0
  serve-granted (selects m) s w h =
      (request_mode-Effect driver platform fills m s w h.wired h.consistent).0
  serve-granted (demands active) s w h =
      let (s₁, w₁) = note_demand (ports driver platform) active s w in
      let (wired, consistent) = noted-IsWired driver platform fills active s w h in
      (reconcile-Effect driver platform fills false s₁ w₁ wired consistent).0
  serve-granted (faults reason) s w h = refl
