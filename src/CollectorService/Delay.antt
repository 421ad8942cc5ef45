-- ===== src/CollectorService/Delay.antt =====
-- The start delay while it runs, over a history of clock readings.
use esp32_dust_extraction.Common.{
  ℕ, zero, suc, ◌+◌, ◌<◌, ◌≡◌, refl, ap, ◌∙◌, Bool, true, false, some, arith,
}
use esp32_dust_extraction.Common.Int.{◌-ℤ◌, ◌<ℤ◌, <ℤ→ltb_ℤ}
use esp32_dust_extraction.Event.{Timestamp}
use esp32_dust_extraction.CollectorUnit.{automatic}
use esp32_dust_extraction.CollectorService.{
  Ports, CollectorService, reconcile, note_demand, update_demand, process,
}

module _ {W : Type 0} (ports : Ports W) where
  -- The world after `n` readings of the clock.
  unfoldable pub ticks : ℕ → W → W
  ticks zero w = w
  ticks (suc n) w = ticks n (ports.clock w).1

  -- The reading that follows them.
  abbrev pub reading : ℕ → W → Timestamp
  reading n w = (ports.clock (ticks n w)).0

  unfoldable pub process_times : ℕ → CollectorService → W → CollectorService × W
  process_times zero s w = (s, w)
  process_times (suc n) s w = let (done, s', w') = process ports s w in process_times n s' w'

  process_waits :
      (s : CollectorService) (w : W) (since : Timestamp)
      → s.current_mode ≡ automatic
      → s.has_demand ≡ true
      → s.pending_demand_since ≡ some since
      → (ports.clock w).0 -ℤ since <ℤ s.start_delay
      → process ports s w ≡ (true, s, (ports.clock w).1)
  unfolding process reconcile
  process_waits s w since m d p h =
      ground (arith, <ℤ→ltb_ℤ ((ports.clock w).0 -ℤ since) s.start_delay h)

  process_times_wait :
      (n : ℕ) (s : CollectorService) (w : W) (since : Timestamp)
      → s.current_mode ≡ automatic
      → s.has_demand ≡ true
      → s.pending_demand_since ≡ some since
      → ((k : ℕ) → k < n → reading k w -ℤ since <ℤ s.start_delay)
      → process_times n s w ≡ (s, ticks n w)
  unfolding process_times ticks
  process_times_wait zero s w since m d p h = refl
  process_times_wait (suc n) s w since m d p h =
      let first = process_waits s w since m d p (h zero (omega arith)) in
      ap (λ (r : Bool × CollectorService × W). process_times n r.1 r.2) first
      ∙ process_times_wait n s (ports.clock w).1 since m d p (λ k lt. h (suc k) (omega arith))

  abbrev pub pending : CollectorService → Timestamp → CollectorService
  pending s since = record s { has_demand = true; pending_demand_since = some since }

  pub update_demand_edge :
      (s : CollectorService) (w : W)
      → s.current_mode ≡ automatic
      → s.has_demand ≡ false
      → update_demand ports true s w ≡ process ports (pending s (ports.clock w).0) (ports.clock w).1
  unfolding update_demand note_demand process
  update_demand_edge s w m d = ground arith

  -- New demand in automatic mode starts the timer at the clock's reading. As long as the clock has
  -- not run for the start delay since then, the call and any number of calls of `process` after it
  -- touch nothing outside the service but the clock, and the start stays pending.
  pub update_demand_waits :
      (n : ℕ) (s : CollectorService) (w : W)
      → s.current_mode ≡ automatic
      → s.has_demand ≡ false
      → ((k : ℕ) → k < n + 1 → reading (suc k) w -ℤ (ports.clock w).0 <ℤ s.start_delay)
      → let (done, s', w') = update_demand ports true s w in
        (done ≡ true)
        × (process_times n s' w' ≡ (
          record s { has_demand = true; pending_demand_since = some (ports.clock w).0 },
          ticks (suc (suc n)) w,
        ))
  unfolding ticks
  update_demand_waits n s w m d h =
      let s₁ = pending s (ports.clock w).0 in
      let w₁ = (ports.clock w).1 in
      let waits =
        update_demand_edge s w m d
        ∙ process_waits s₁ w₁ (ports.clock w).0 m refl refl (h zero (omega arith)) in
      (
        ap (λ (r : Bool × CollectorService × W). r.0) waits,
        ap (λ (r : Bool × CollectorService × W). process_times n r.1 r.2) waits
            ∙ process_times_wait n s₁ (ports.clock w₁).1 (ports.clock w).0 m refl refl
                (λ k lt. h (suc k) (omega arith)),
      )
