-- ===== src/App/History.antt =====
-- The assembled program over any sequence of calls of its service.
use esp32_dust_extraction.Common.{
  ◌≡◌, refl, sym, ap, subst, inl, Bool, false, Option, none, some, List, [], ◌∷◌, Text, arith,
}
use esp32_dust_extraction.Event.{Event}
use esp32_dust_extraction.EventDispatcher.{call_all, publish}
use esp32_dust_extraction.Relay.{RelayDriver}
use esp32_dust_extraction.RelayBackedCollectorUnit.{RelayBackedCollectorUnit}
use esp32_dust_extraction.RelayBackedCollectorUnit.Safety.{IsConsistent}
use esp32_dust_extraction.EventIdGenerator.Version.{Fills}
use esp32_dust_extraction.CollectorService.{
  CollectorService, Call, starts, stops, processes, selects, demands, faults, note_demand,
  update_demand, process, report_fault, reconcile, serve,
}
use esp32_dust_extraction.CollectorService.Invariant.{IsValid, reconcile_keeps, serve-IsValid}
use esp32_dust_extraction.App.{Platform, World, ports}
use esp32_dust_extraction.App.Wiring.{IsWired}
use esp32_dust_extraction.App.Effects.{state_of, Effect, Effect-IsConsistent}
use esp32_dust_extraction.App.Modes.{
  Obeys, reconcile-Effect, request_mode-Effect, request_start-Obeys, request_stop-Obeys,
}

no_subscribers :
    {S : Type 0} (call : ⊥ → Event → S → S) (e : Event) (hs : List (Option ⊥)) (s : S)
    → (call_all call e hs s).1 ≡ s
unfolding call_all
no_subscribers call e [] s = refl
no_subscribers call e (none ∷ hs) s = refl
no_subscribers call e (some h ∷ hs) s = absurd h

module _ {R E : Type 0} (driver : RelayDriver R) where
  -- What holds between two calls.
  pub record IsSafe (s : CollectorService) (w : World R E) : Type 0 where
    pub valid : IsValid s
    pub consistent : IsConsistent driver w.unit
    pub wired : IsWired s w
    pub obeys : Obeys s.current_mode (state_of w)

module _ {R E : Type 0} (driver : RelayDriver R) (platform : Platform E) where
  unfoldable pub run : List Call → CollectorService → World R E → CollectorService × World R E
  run [] s w = (s, w)
  run (c ∷ cs) s w = let (done, s', w') = serve (ports driver platform) c s w in run cs s' w'

module _ {R E : Type 0} (driver : RelayDriver R) (platform : Platform E)
    (fills : Fills platform.fill_random) where
  -- What a call does, as far as safety goes.
  pub record Kept (s s' : CollectorService) (w w' : World R E) : Type 0 where
    pub same_uid : s'.uid ≡ s.uid
    pub effect : Effect driver w w'
    pub obeyed : Obeys s'.current_mode (state_of w')

  pub report_fault-Effect :
      (reason : Text) (s : CollectorService) (w : World R E)
      → let w' = report_fault (ports driver platform) reason s w in
        (w'.unit ≡ w.unit) × (w'.dispatcher ≡ w.dispatcher)
  unfolding report_fault ports publish
  report_fault-Effect reason s w =
      let same = no_subscribers {S = World R E} (λ h event v. absurd h) _ _ _ in
      (ap (λ (v : World R E). v.unit) same, ap (λ (v : World R E). v.dispatcher) same)

  reconcile-Kept :
      (immediate : Bool) (s : CollectorService) (w : World R E)
      → IsWired s w
      → IsConsistent driver w.unit
      → let (done, s', w') = reconcile (ports driver platform) immediate s w in Kept s s' w w'
  reconcile-Kept immediate s w wired c =
      let (done, effect, obeyed) = reconcile-Effect driver platform fills immediate s w wired c in
      let kept = reconcile_keeps (ports driver platform) immediate s w in
      record {
        same_uid = ground (arith, kept);
        effect = effect;
        obeyed = ground (arith, kept, obeyed);
      }

  -- Noting the demand changes the demand and the timer, and outside the service only the platform.
  record Noted (s s' : CollectorService) (w w' : World R E) : Type 0 where
    pub same_uid : s'.uid ≡ s.uid
    same_unit : w'.unit ≡ w.unit
    same_dispatcher : w'.dispatcher ≡ w.dispatcher

  note_demand-Noted :
      (active : Bool) (s : CollectorService) (w : World R E)
      → let (s', w') = note_demand (ports driver platform) active s w in Noted s s' w w'
  unfolding note_demand ports
  note_demand-Noted active s w = ground arith

  Kept-Noted :
      (s s₁ s' : CollectorService) (w w₁ w' : World R E)
      → Noted s s₁ w w₁
      → Kept s₁ s' w₁ w'
      → Kept s s' w w'
  Kept-Noted s s₁ s' w w₁ w' n k = record {
    same_uid = ground (arith, k.same_uid, n.same_uid);
    effect = record {
      unit_effect = ground (arith, k.effect.unit_effect, n.same_unit);
      recipients_kept = ground (arith, k.effect.recipients_kept, n.same_dispatcher);
    };
    obeyed = k.obeyed;
  }

  -- The service and the world that `update_demand` reconciles.
  pub noted-IsWired :
      (active : Bool) (s : CollectorService) (w : World R E)
      → IsSafe driver s w
      → let (s₁, w₁) = note_demand (ports driver platform) active s w in
        IsWired s₁ w₁ × IsConsistent driver w₁.unit
  noted-IsWired active s w h =
      let n = note_demand-Noted active s w in
      (
        ground (arith, h.wired, n.same_uid, n.same_dispatcher),
        subst (IsConsistent driver) (sym n.same_unit) h.consistent,
      )

  update_demand-Kept :
      (active : Bool) (s : CollectorService) (w : World R E)
      → IsSafe driver s w
      → let (done, s', w') = update_demand (ports driver platform) active s w in Kept s s' w w'
  unfolding update_demand
  update_demand-Kept active s w h =
      let (s₁, w₁) = note_demand (ports driver platform) active s w in
      let (wired, consistent) = noted-IsWired active s w h in
      Kept-Noted s s₁ _ w w₁ _ (note_demand-Noted active s w)
        (reconcile-Kept false s₁ w₁ wired consistent)

  pub serve-Kept :
      (c : Call) (s : CollectorService) (w : World R E)
      → IsSafe driver s w
      → let (done, s', w') = serve (ports driver platform) c s w in Kept s s' w w'
  unfolding serve process
  serve-Kept starts s w h =
      let (effect, obeyed) =
        request_start-Obeys driver platform fills s w h.wired h.consistent h.obeys in
      record { same_uid = refl; effect = effect; obeyed = obeyed }
  serve-Kept stops s w h =
      let (effect, obeyed) =
        request_stop-Obeys driver platform fills s w h.wired h.consistent h.obeys in
      record { same_uid = refl; effect = effect; obeyed = obeyed }
  serve-Kept processes s w h = reconcile-Kept false s w h.wired h.consistent
  serve-Kept (selects m) s w h =
      let (done, selected, uid, effect, obeyed) =
        request_mode-Effect driver platform fills m s w h.wired h.consistent in
      record { same_uid = uid; effect = effect; obeyed = rw selected obeyed }
  serve-Kept (demands active) s w h = update_demand-Kept active s w h
  serve-Kept (faults reason) s w h =
      let (same_unit, same_dispatcher) = report_fault-Effect reason s w in
      record {
        same_uid = refl;
        effect = record { unit_effect = inl same_unit; recipients_kept = same_dispatcher };
        obeyed =
            subst (λ (u : RelayBackedCollectorUnit R). Obeys s.current_mode u.state_machine.state)
              (sym same_unit) h.obeys;
      }

  -- Every call of the service keeps a safe program safe.
  pub serve-IsSafe :
      (c : Call) (s : CollectorService) (w : World R E)
      → IsSafe driver s w
      → let (done, s', w') = serve (ports driver platform) c s w in IsSafe driver s' w'
  serve-IsSafe c s w h =
      let k = serve-Kept c s w h in
      record {
        valid = serve-IsValid (ports driver platform) c s w h.valid;
        consistent = Effect-IsConsistent driver w _ k.effect h.consistent;
        wired = ground (arith, h.wired, k.same_uid, k.effect.recipients_kept);
        obeys = k.obeyed;
      }

  pub run-IsSafe :
      (cs : List Call) (s : CollectorService) (w : World R E)
      → IsSafe driver s w
      → IsSafe driver (run driver platform cs s w).0 (run driver platform cs s w).1
  unfolding run
  run-IsSafe [] s w h = h
  run-IsSafe (c ∷ cs) s w h =
      let (done, s', w') = serve (ports driver platform) c s w in
      run-IsSafe cs s' w' (serve-IsSafe c s w h)
