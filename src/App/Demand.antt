-- ===== src/App/Demand.antt =====
-- Demand in automatic mode, in the assembled program: the collector comes to run.
use esp32_dust_extraction.Common.{ℕ, ◌≡◌, true, false, some, List, [], ◌∷◌, all, arith, subst}
use esp32_dust_extraction.Common.Int.{ℤ, ◌-ℤ◌, ◌≤ℤ◌}
use esp32_dust_extraction.Event.{Timestamp}
use esp32_dust_extraction.CollectorUnit.{running, automatic}
use esp32_dust_extraction.Relay.{RelayDriver}
use esp32_dust_extraction.RelayBackedCollectorUnit.Safety.{settled}
use esp32_dust_extraction.EventIdGenerator.Version.{Fills}
use esp32_dust_extraction.CollectorService.{CollectorService, Call, processes, demands, serve}
use esp32_dust_extraction.CollectorService.Demand.{
  keeps_demand, IsDemanded, IsDemanded-is_due, serve-IsDemanded, demand-IsDemanded,
}
use esp32_dust_extraction.App.{Platform, World, ports, app_main}
use esp32_dust_extraction.App.Effects.{state_of}
use esp32_dust_extraction.App.History.{IsSafe, run, run-IsSafe, serve-IsSafe}
use esp32_dust_extraction.App.Boot.{app_main-IsSafe}
use esp32_dust_extraction.App.Calls.{serve-Carried}

module _ {R E : Type 0} (driver : RelayDriver R) (platform : Platform E)
    (fills : Fills platform.fill_random) where
  abbrev Safe : CollectorService × World R E → Type 0
  Safe q = IsSafe driver q.0 q.1

  run-IsDemanded :
      (since : Timestamp) (delay : ℤ) (cs : List Call) (s : CollectorService) (w : World R E)
      → all keeps_demand cs ≡ true
      → IsDemanded since delay s
      → IsDemanded since delay (run driver platform cs s w).0
  unfolding run
  run-IsDemanded since delay [] s w k h = h
  run-IsDemanded since delay (c ∷ cs) s w k h =
      let (done, s', w') = serve (ports driver platform) c s w in
      run-IsDemanded since delay cs s' w' (ground arith)
        (serve-IsDemanded since delay (ports driver platform) c s w (ground arith) h)

  -- A call of `process` at a reading of the clock where the delay has run out.
  process-running :
      (since : Timestamp) (delay : ℤ) (s : CollectorService) (w : World R E)
      → IsSafe driver s w
      → IsDemanded since delay s
      → delay ≤ℤ (platform.now w.platform).0 -ℤ since
      → state_of (serve (ports driver platform) processes s w).2 ≡ running
  process-running since delay s w safe h run_out =
      let k = serve-Carried driver platform fills processes s w safe in
      ground (
        arith,
        settled driver w.unit safe.consistent,
        k.state_reached,
        h.in_automatic,
        h.demanded,
        IsDemanded-is_due since delay s (platform.now w.platform).0 h run_out,
      )

  -- If after `app_main` and any calls the service is in automatic mode without demand, and then
  -- demand comes, and after it any calls that neither withdraw the demand nor select a forced mode,
  -- fault reports among them, then a call of `process` whose reading of the clock is at least the
  -- start delay later than the reading at which the demand came leaves the collector running: a
  -- reported fault is not latched and does not put the start off. The random source fills a buffer
  -- with bytes.
  pub run-demand :
      (mac : List ℕ) (delay : ℤ) (relay : R) (e : E) (cs ds : List Call)
      (s₀ s s' : CollectorService) (w₀ w w' : World R E)
      → app_main driver platform mac delay relay e ≡ some (s₀, w₀)
      → run driver platform cs s₀ w₀ ≡ (s, w)
      → run driver platform (demands true ∷ ds) s w ≡ (s', w')
      → s.current_mode ≡ automatic
      → s.has_demand ≡ false
      → all keeps_demand ds ≡ true
      → s.start_delay ≤ℤ (platform.now w'.platform).0 -ℤ (platform.now w.platform).0
      → state_of (serve (ports driver platform) processes s' w').2 ≡ running
  unfolding run ports
  run-demand mac delay relay e cs ds s₀ s s' w₀ w w' h before after m d k run_out =
      let p = ports driver platform in
      let (done, s₁, w₁) = serve p (demands true) s w in
      let booted = app_main-IsSafe driver platform fills mac delay relay e s₀ w₀ h in
      let safe = subst Safe before (run-IsSafe driver platform fills cs s₀ w₀ booted) in
      let safe₁ = serve-IsSafe driver platform fills (demands true) s w safe in
      let demanded =
        run-IsDemanded (p.clock w).0 s.start_delay ds s₁ w₁ k (demand-IsDemanded p s w m d) in
      process-running (p.clock w).0 s.start_delay s' w'
        (subst Safe after (run-IsSafe driver platform fills ds s₁ w₁ safe₁))
        (subst (λ (q : CollectorService × World R E). IsDemanded (p.clock w).0 s.start_delay q.0)
          after demanded)
        run_out
