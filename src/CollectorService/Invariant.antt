-- ===== src/CollectorService/Invariant.antt =====
-- What holds of a service between two calls, and the mode changes that fail.
use esp32_dust_extraction.Common.{
  ◌≡◌, ◌≢◌, refl, ◌⊎◌, inl, inr, Bool, true, false, none, arith, Bool-cases, ◌&&◌,
}
use esp32_dust_extraction.Common.Int.{ℤ, pos, ◌≤ℤ◌, max_ℤ}
use esp32_dust_extraction.Event.DeviceUid
use esp32_dust_extraction.CollectorUnit.{CollectorMode, automatic, forced_on, forced_off, mode_eq}
use esp32_dust_extraction.CollectorService.{
  Call, starts, stops, selects, demands, processes, faults, serve, Ports, CollectorService, new,
  reset, reconcile, request_mode, note_demand, update_demand, process,
}

-- A start is pending only for demand in automatic mode, and the delay is not negative.
pub record IsValid (s : CollectorService) : Type 0 where
  pub pending_automatic : s.pending_demand_since ≢ none → s.current_mode ≡ automatic
  pub pending_demand : s.pending_demand_since ≢ none → s.has_demand ≡ true
  pub delay_nonneg : pos 0 ≤ℤ s.start_delay

pub new-IsValid : (uid : DeviceUid.DeviceUid) (delay : ℤ) → IsValid (new uid delay)
unfolding new max_ℤ
new-IsValid uid delay = ground arith

reset-IsValid : (s : CollectorService) → IsValid s → IsValid (reset s)
reset-IsValid s v = record {
  pending_automatic = λ h. absurd (h refl);
  pending_demand = λ h. absurd (h refl);
  delay_nonneg = v.delay_nonneg;
}

idle_reset : (s : CollectorService) → IsValid s → s.has_demand ≡ false → reset s ≡ s
idle_reset s v h = ground arith

pub mode_cases : (a b : CollectorMode) → (a ≡ b) ⊎ (a ≢ b)
mode_cases a b = elim (Bool-cases (mode_eq a b)) [
  | inl same ↦ inl (ground arith)
  | inr other ↦ inr (λ e. ground arith)
]

-- The service as it enters another mode.
abbrev pub enter : CollectorMode → CollectorService → CollectorService
enter requested s = record s { current_mode = requested; pending_demand_since = none }

enter-IsValid : (m : CollectorMode) (s : CollectorService) → IsValid s → IsValid (enter m s)
enter-IsValid m s v = ground arith

-- Another mode: the outcome of reconciling in it, with the old mode and timer after a failure.
abbrev pub outcome :
    {W : Type 0} → CollectorService → Bool × CollectorService × W → Bool × CollectorService × W
outcome s (true, s', w') = (true, s', w')
outcome s (false, s', w') = (
  false,
  record s' { current_mode = s.current_mode; pending_demand_since = s.pending_demand_since },
  w',
)

abbrev pub at_once : CollectorMode → CollectorService → Bool
at_once requested s = mode_eq requested automatic && s.has_demand

module _ {W : Type 0} (ports : Ports W) where
  -- `reconcile` changes nothing of the service but that it may reset the timer.
  pub reconcile_keeps :
      (immediate : Bool) (s : CollectorService) (w : W)
      → ((reconcile ports immediate s w).1 ≡ s) ⊎ ((reconcile ports immediate s w).1 ≡ reset s)
  unfolding reconcile
  reconcile_keeps immediate s w = ground arith

  -- Without an order to start at once, a `reconcile` that fails leaves a valid service as it was.
  reconcile_failed :
      (s : CollectorService) (w : W)
      → IsValid s
      → (reconcile ports false s w).0 ≡ false
      → (reconcile ports false s w).1 ≡ s
  unfolding reconcile
  reconcile_failed s w v h = ground (arith, idle_reset s v)

  -- The mode that is selected already: nothing to roll back.
  pub request_mode_same :
      (requested : CollectorMode) (s : CollectorService) (w : W)
      → s.current_mode ≡ requested
      → request_mode ports requested s w ≡ reconcile ports false s w
  unfolding request_mode
  request_mode_same automatic s w h = ground arith
  request_mode_same forced_on s w h = ground arith
  request_mode_same forced_off s w h = ground arith

  pub request_mode_other :
      (requested : CollectorMode) (s : CollectorService) (w : W)
      → s.current_mode ≢ requested
      → request_mode ports requested s w
        ≡ outcome s (reconcile ports (at_once requested s) (enter requested s) w)
  unfolding request_mode
  request_mode_other automatic s w h = ground arith
  request_mode_other forced_on s w h = ground arith
  request_mode_other forced_off s w h = ground arith

  -- A mode request to a service that is valid before it (the timer is set only for demand in
  -- automatic mode, the delay is not negative) is all or nothing. If it returns true the service is
  -- in the requested mode, and if it returns false the service is what it was before; in both cases
  -- the demand stays.
  pub request_mode_atomic :
      (requested : CollectorMode) (s : CollectorService) (w : W)
      → IsValid s
      → let (done, s', w') = request_mode ports requested s w in
        ((done ≡ true) × (s'.current_mode ≡ requested) × (s'.has_demand ≡ s.has_demand))
        ⊎ ((done ≡ false) × (s' ≡ s))
  request_mode_atomic requested s w v = elim (mode_cases s.current_mode requested) [
    | inl same ↦
        rw (request_mode_same requested s w same)
          (ground (arith, same, reconcile_keeps false s w, reconcile_failed s w v))
    | inr other ↦
        rw (request_mode_other requested s w other)
          (ground (arith, reconcile_keeps (at_once requested s) (enter requested s) w))
  ]

  pub reconcile-IsValid :
      (immediate : Bool) (s : CollectorService) (w : W)
      → IsValid s
      → IsValid (reconcile ports immediate s w).1
  reconcile-IsValid immediate s w v = elim (reconcile_keeps immediate s w) [
    | inl same ↦ rw same v
    | inr cleared ↦ rw cleared (reset-IsValid s v)
  ]

  note_demand-IsValid :
      (active : Bool) (s : CollectorService) (w : W)
      → IsValid s
      → IsValid (note_demand ports active s w).0
  unfolding note_demand
  note_demand-IsValid active s w v = ground arith

  request_mode-IsValid :
      (requested : CollectorMode) (s : CollectorService) (w : W)
      → IsValid s
      → IsValid (request_mode ports requested s w).1
  request_mode-IsValid requested s w v = elim (mode_cases s.current_mode requested) [
    | inl same ↦ rw (request_mode_same requested s w same) (reconcile-IsValid false s w v)
    | inr other ↦
        let entered = enter-IsValid requested s v in
        rw (request_mode_other requested s w other) (
          ground (
            arith,
            v,
            reconcile-IsValid (at_once requested s) (enter requested s) w entered,
            reconcile_keeps (at_once requested s) (enter requested s) w,
          ))
  ]

  -- Every call of the service keeps it valid: a start is pending only for demand in automatic mode.
  pub serve-IsValid :
      (c : Call) (s : CollectorService) (w : W) → IsValid s → IsValid (serve ports c s w).1
  unfolding serve update_demand process
  serve-IsValid starts s w v = v
  serve-IsValid stops s w v = v
  serve-IsValid (selects m) s w v = request_mode-IsValid m s w v
  serve-IsValid (demands active) s w v =
      reconcile-IsValid false (note_demand ports active s w).0 (note_demand ports active s w).1
        (note_demand-IsValid active s w v)
  serve-IsValid processes s w v = reconcile-IsValid false s w v
  serve-IsValid (faults reason) s w v = v
