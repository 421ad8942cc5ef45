-- ===== src/CollectorService/Demand.antt =====
-- Demand that is neither withdrawn nor overruled by a forced mode, through any calls of the service.
use esp32_dust_extraction.Common.{
  ◌≡◌, refl, ◌⊎◌, inl, inr, Bool, true, false, Option, none, some, arith,
}
use esp32_dust_extraction.Common.Int.{ℤ, ◌-ℤ◌, ◌≤ℤ◌, ≤ℤ→ltb_ℤ-false}
use esp32_dust_extraction.Event.{Timestamp}
use esp32_dust_extraction.CollectorUnit.{automatic, forced_on, forced_off}
use esp32_dust_extraction.CollectorService.{
  Call, starts, stops, processes, selects, demands, faults, serve, Ports, CollectorService, reset,
  reconcile, note_demand, update_demand, process,
}
use esp32_dust_extraction.CollectorService.Invariant.{reconcile_keeps, request_mode_same}
use esp32_dust_extraction.CollectorService.Policy.{is_due}
use esp32_dust_extraction.CollectorService.Delay.{pending, update_demand_edge}

-- The calls that neither withdraw demand nor select a forced mode.
abbrev pub keeps_demand : Call → Bool
keeps_demand (selects automatic) = true
keeps_demand (selects forced_on) = false
keeps_demand (selects forced_off) = false
keeps_demand (demands active) = active
keeps_demand starts = true
keeps_demand stops = true
keeps_demand processes = true
keeps_demand (faults reason) = true

-- Automatic mode with demand whose timer, while it is set, stands at `since`.
pub record IsDemanded (since : Timestamp) (delay : ℤ) (s : CollectorService) : Type 0 where
  pub in_automatic : s.current_mode ≡ automatic
  pub demanded : s.has_demand ≡ true
  pub timer : (s.pending_demand_since ≡ none) ⊎ (s.pending_demand_since ≡ some since)
  pub same_delay : s.start_delay ≡ delay

module _ (since : Timestamp) (delay : ℤ) where
  reset-IsDemanded :
      (s : CollectorService) → IsDemanded since delay s → IsDemanded since delay (reset s)
  reset-IsDemanded s h = record {
    in_automatic = h.in_automatic;
    demanded = h.demanded;
    timer = inl refl;
    same_delay = h.same_delay;
  }

  -- Once the clock has run for the delay, there is nothing to wait for.
  pub IsDemanded-is_due :
      (s : CollectorService) (now : Timestamp)
      → IsDemanded since delay s
      → delay ≤ℤ now -ℤ since
      → is_due s now ≡ true
  IsDemanded-is_due s now h run_out = go s.pending_demand_since refl h.timer
    where
      go :
          (p : Option Timestamp)
          → s.pending_demand_since ≡ p
          → (s.pending_demand_since ≡ none) ⊎ (s.pending_demand_since ≡ some since)
          → is_due s now ≡ true
      go none e t = ground (arith, e)
      go (some u) e t =
          ground (arith, e, t, h.same_delay, ≤ℤ→ltb_ℤ-false (now -ℤ since) delay run_out)

  module _ {W : Type 0} (ports : Ports W) where
    reconcile-IsDemanded :
        (s : CollectorService) (w : W)
        → IsDemanded since delay s
        → IsDemanded since delay (reconcile ports false s w).1
    reconcile-IsDemanded s w h = elim (reconcile_keeps ports false s w) [
      | inl same ↦ rw same h
      | inr cleared ↦ rw cleared (reset-IsDemanded s h)
    ]

    noted_again :
        (s : CollectorService) (w : W) → s.has_demand ≡ true → note_demand ports true s w ≡ (s, w)
    unfolding note_demand
    noted_again s w h = ground arith

    pub serve-IsDemanded :
        (c : Call) (s : CollectorService) (w : W)
        → keeps_demand c ≡ true
        → IsDemanded since delay s
        → IsDemanded since delay (serve ports c s w).1
    unfolding serve process update_demand
    serve-IsDemanded starts s w k h = h
    serve-IsDemanded stops s w k h = h
    serve-IsDemanded processes s w k h = reconcile-IsDemanded s w h
    serve-IsDemanded (selects automatic) s w k h =
        rw (request_mode_same ports automatic s w h.in_automatic) (reconcile-IsDemanded s w h)
    serve-IsDemanded (selects forced_on) s w k h = absurd (ground arith)
    serve-IsDemanded (selects forced_off) s w k h = absurd (ground arith)
    serve-IsDemanded (demands true) s w k h =
        rw (noted_again s w h.demanded) (reconcile-IsDemanded s w h)
    serve-IsDemanded (demands false) s w k h = absurd (ground arith)
    serve-IsDemanded (faults reason) s w k h = h

-- New demand in automatic mode.
module _ {W : Type 0} (ports : Ports W) where
  pub demand-IsDemanded :
      (s : CollectorService) (w : W)
      → s.current_mode ≡ automatic
      → s.has_demand ≡ false
      → IsDemanded (ports.clock w).0 s.start_delay (serve ports (demands true) s w).1
  unfolding serve process
  demand-IsDemanded s w m d =
      let now = (ports.clock w).0 in
      rw (update_demand_edge ports s w m d) (
        reconcile-IsDemanded now s.start_delay ports (pending ports s now) (ports.clock w).1
          (record { in_automatic = m; demanded = refl; timer = inr refl; same_delay = refl }))
