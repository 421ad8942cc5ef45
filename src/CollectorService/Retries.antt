-- ===== src/CollectorService/Retries.antt =====
-- The commands of a history of calls of `process` once the start delay has run out.
use esp32_dust_extraction.Common.{
  ℕ, zero, suc, ◌<◌, ◌≡◌, ◌⊎◌, inl, inr, refl, Bool-cases, ap, sym, ◌∙◌, true, false, none, some,
  Option, List, [], ◌∷◌, ◌++◌, append_assoc, append-nil, Text, arith, if◌then◌else◌,
}
use esp32_dust_extraction.Common.Int.{◌-ℤ◌, ◌≤ℤ◌, ltb_ℤ, ≤ℤ→ltb_ℤ-false}
use esp32_dust_extraction.Event.{Timestamp}
use esp32_dust_extraction.CollectorCommands.{start_command_type}
use esp32_dust_extraction.CollectorUnit.{automatic, stopped, state_eq}
use esp32_dust_extraction.CollectorService.{
  Ports, CollectorService, reconcile, reconcile_pending, process, reset, request_start,
}
use esp32_dust_extraction.CollectorService.Policy.{Recorder, reconcile-wanted, is_due}
use esp32_dust_extraction.CollectorService.Delay.{process_times}

module _ {W : Type 0} (ports : Ports W) where
  -- The service and the world after `n` calls of `process`, and the clock's next reading.
  abbrev pub service_after : ℕ → CollectorService → W → CollectorService
  service_after n s w = (process_times ports n s w).0

  abbrev pub world_after : ℕ → CollectorService → W → W
  world_after n s w = (process_times ports n s w).1

  abbrev pub now_after : ℕ → CollectorService → W → Timestamp
  now_after n s w = (ports.clock (world_after n s w)).0

  -- One start for each of `n` calls of `process` that finds the unit stopped.
  unfoldable pub starts_wanted : ℕ → CollectorService → W → List Text
  starts_wanted zero s w = []
  starts_wanted (suc n) s w =
      let (done, s', w') = process ports s w in
      (if state_eq (ports.unit_state w) stopped then start_command_type ∷ [] else [])
      ++ starts_wanted n s' w'

  -- The timer is still set or it is cleared, and nothing else is another.
  abbrev pub Keeps : CollectorService → CollectorService → Type 0
  Keeps s s' = (s' ≡ s) ⊎ (s' ≡ reset s)

  reconcile_pending-Keeps :
      (s : CollectorService) (p : Option Timestamp) (w : W)
      → Keeps s (reconcile_pending ports s p w).1
  unfolding reconcile_pending
  reconcile_pending-Keeps s none w = inl refl
  reconcile_pending-Keeps s (some since) w =
      let (now, w₁) = ports.clock w in
      let started = (request_start ports s w₁).0 in
      elim (Bool-cases (ltb_ℤ (now -ℤ since) s.start_delay)) [
        | inl early ↦ inl (rw early refl)
        | inr late ↦ elim (Bool-cases (state_eq (ports.unit_state w₁) stopped)) [
          | inl at_rest ↦ elim (Bool-cases started) [
            | inl ok ↦ inr (rw (late, at_rest, ok) refl)
            | inr failed ↦ inl (rw (late, at_rest, failed) refl)
          ]
          | inr moving ↦ inr (rw (late, moving) refl)
        ]
      ]

  process_pending :
      (s : CollectorService) (w : W)
      → s.current_mode ≡ automatic
      → s.has_demand ≡ true
      → process ports s w ≡ reconcile_pending ports s s.pending_demand_since w
  unfolding process reconcile
  process_pending s w m d = ground arith

  process-Keeps :
      (s : CollectorService) (w : W)
      → s.current_mode ≡ automatic
      → s.has_demand ≡ true
      → Keeps s (process ports s w).1
  process-Keeps s w m d =
      rw (process_pending s w m d) (reconcile_pending-Keeps s s.pending_demand_since w)

  Keeps-process :
      (s s' : CollectorService) (w : W)
      → s.current_mode ≡ automatic
      → s.has_demand ≡ true
      → Keeps s s'
      → Keeps s (process ports s' w).1
  Keeps-process s s' w m d (inl same) = rw same (process-Keeps s w m d)
  Keeps-process s s' w m d (inr cleared) = elim (process-Keeps (reset s) w m d) [
    | inl e ↦ inr (rw cleared e)
    | inr e ↦ inr (rw cleared e)
  ]

  service_after-Keeps :
      (n : ℕ) (s s' : CollectorService) (w : W)
      → s.current_mode ≡ automatic
      → s.has_demand ≡ true
      → Keeps s s'
      → Keeps s (service_after n s' w)
  unfolding process_times
  service_after-Keeps zero s s' w m d kept = kept
  service_after-Keeps (suc n) s s' w m d kept =
      service_after-Keeps n s (process ports s' w).1 (process ports s' w).2 m d
        (Keeps-process s s' w m d kept)

module _ {W : Type 0} (ports : Ports W) (recorder : Recorder ports) where
  open recorder use {sent}

  sent-process_due :
      (s : CollectorService) (w : W)
      → s.current_mode ≡ automatic
      → s.has_demand ≡ true
      → is_due s (ports.clock w).0 ≡ true
      → sent (process ports s w).2
        ≡ sent w ++ (if state_eq (ports.unit_state w) stopped then start_command_type ∷ [] else [])
  unfolding process
  sent-process_due s w m d due = ground (arith, reconcile-wanted ports recorder false s w)

  Keeps-automatic :
      (s s' : CollectorService)
      → Keeps ports s s'
      → (s'.current_mode ≡ s.current_mode) × (s'.has_demand ≡ s.has_demand)
  Keeps-automatic s s' (inl same) = rw same (refl, refl)
  Keeps-automatic s s' (inr cleared) = rw cleared (refl, refl)

  sent-due_times :
      (n : ℕ) (s : CollectorService) (w : W)
      → s.current_mode ≡ automatic
      → s.has_demand ≡ true
      → ((k : ℕ) → k < n → is_due (service_after ports k s w) (now_after ports k s w) ≡ true)
      → sent (world_after ports n s w) ≡ sent w ++ starts_wanted ports n s w
  unfolding process_times starts_wanted
  sent-due_times zero s w m d h = sym (append-nil (sent w))
  sent-due_times (suc n) s w m d h =
      let (done, s', w') = process ports s w in
      let same = Keeps-automatic s s' (process-Keeps ports s w m d) in
      sent-due_times n s' w' (same.0 ∙ m) (same.1 ∙ d) (λ k lt. h (suc k) (omega arith))
      ∙ ap (λ ts. ts ++ starts_wanted ports n s' w')
          (sent-process_due s w m d (h zero (omega arith)))
      ∙ append_assoc (sent w) _ (starts_wanted ports n s' w')

  is_due-Keeps :
      (s s' : CollectorService) (since now : Timestamp)
      → Keeps ports s s'
      → s.pending_demand_since ≡ some since
      → s.start_delay ≤ℤ now -ℤ since
      → is_due s' now ≡ true
  is_due-Keeps s s' since now (inl same) p run_out =
      rw (same, p, ≤ℤ→ltb_ℤ-false (now -ℤ since) s.start_delay run_out) refl
  is_due-Keeps s s' since now (inr cleared) p run_out = rw cleared refl

  -- In automatic mode with demand and a start pending whose delay has run out by every reading of
  -- the clock, each of any number of calls of `process` sends one start command if it finds the unit
  -- stopped and no command if not, whether the commands of the calls before were delivered or not:
  -- a start that failed is tried again without limit. The mode and the demand stay, and the timer
  -- is what it was or cleared. The commands sent are on record.
  pub sent-process_times :
      (n : ℕ) (s : CollectorService) (w : W) (since : Timestamp)
      → s.current_mode ≡ automatic
      → s.has_demand ≡ true
      → s.pending_demand_since ≡ some since
      → ((k : ℕ) → k < n → s.start_delay ≤ℤ now_after ports k s w -ℤ since)
      → (sent (world_after ports n s w) ≡ sent w ++ starts_wanted ports n s w)
        × Keeps ports s (service_after ports n s w)
  sent-process_times n s w since m d p run_out = (
    sent-due_times n s w m d (λ k lt.
        is_due-Keeps s (service_after ports k s w) since (now_after ports k s w)
          (service_after-Keeps ports k s s w m d (inl refl)) p (run_out k lt)),
    service_after-Keeps ports n s s w m d (inl refl),
  )
