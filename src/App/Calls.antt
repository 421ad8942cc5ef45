-- ===== src/App/Calls.antt =====
-- What a call of the service does in the assembled program, as a table.
use esp32_dust_extraction.Common.{
  ◌≡◌, refl, ap, ◌∙◌, ◌⊎◌, inl, inr, Bool, true, false, not, ◌||◌, arith, if◌then◌else◌,
}
use esp32_dust_extraction.Common.Int.{◌-ℤ◌, ltb_ℤ}
use esp32_dust_extraction.CollectorUnit.{
  CollectorState, stopped, running, CollectorMode, automatic, forced_on, forced_off, mode_eq,
}
use esp32_dust_extraction.Relay.{RelayDriver}
use esp32_dust_extraction.RelayBackedCollectorUnit
use esp32_dust_extraction.RelayBackedCollectorUnit.{RelayBackedCollectorUnit}
use esp32_dust_extraction.RelayBackedCollectorUnit.Safety.{settled}
use esp32_dust_extraction.EventIdGenerator.Version.{Fills}
use esp32_dust_extraction.CollectorService.{
  CollectorService, Call, starts, stops, processes, selects, demands, faults, request_start,
  request_stop, stop_if_running, request_mode, note_demand, update_demand, process, serve,
}
use esp32_dust_extraction.CollectorService.Policy.{wanted}
use esp32_dust_extraction.CollectorService.Invariant.{
  enter, at_once, mode_cases, request_mode_same, request_mode_other, reconcile_keeps,
  request_mode_atomic,
}
use esp32_dust_extraction.App.{Platform, World, ports}
use esp32_dust_extraction.App.Effects.{state_of, request_start_refused, request_stop_refused}
use esp32_dust_extraction.App.Modes.{request_mode-Effect}
use esp32_dust_extraction.App.History.{IsSafe, report_fault-Effect, noted-IsWired}
use esp32_dust_extraction.App.Automatic.{
  carried_out, due_now, reconcile_state, stop_state, request_start_state,
}

-- The state that a client's request to start or to stop brings a collector to.
abbrev pub start_asked : CollectorMode → CollectorState → CollectorState
start_asked forced_off state = state
start_asked _ state = running

abbrev pub stop_asked : CollectorMode → CollectorState → CollectorState
stop_asked forced_on state = state
stop_asked _ state = stopped

abbrev pub mode_after : Call → CollectorMode → CollectorMode
mode_after (selects m) mode = m
mode_after _ mode = mode

abbrev pub demand_after : Call → Bool → Bool
demand_after (demands active) demand = active
demand_after _ demand = demand

module _ {R E : Type 0} (driver : RelayDriver R) (platform : Platform E)
    (fills : Fills platform.fill_random) where
  -- Whether demand in automatic mode need wait no longer. New demand waits for the delay from one
  -- reading of the clock to the next; demand that is there when automatic mode is entered does not
  -- wait.
  abbrev pub due_at : Call → CollectorService → World R E → Bool
  due_at (selects m) s w = not (mode_eq s.current_mode m) || due_now driver platform fills s w
  due_at (demands true) s w =
      if s.has_demand
      then due_now driver platform fills s w
      else not (
          ltb_ℤ ((platform.now (platform.now w.platform).1).0 -ℤ (platform.now w.platform).0)
            s.start_delay)
  due_at _ s w = due_now driver platform fills s w

  -- The state of the collector after a call.
  abbrev pub state_after : Call → CollectorService → World R E → CollectorState
  state_after starts s w = start_asked s.current_mode (state_of w)
  state_after stops s w = stop_asked s.current_mode (state_of w)
  state_after (faults reason) s w = state_of w
  state_after c s w =
      carried_out
        (wanted (mode_after c s.current_mode) (demand_after c s.has_demand) (due_at c s w)
          (state_of w))
        (state_of w)

  request_start-asked :
      (s : CollectorService) (w : World R E)
      → IsSafe driver s w
      → state_of (request_start (ports driver platform) s w).1
        ≡ start_asked s.current_mode (state_of w)
  request_start-asked s w h = go s.current_mode refl (settled driver w.unit h.consistent)
    where
      go :
          (m : CollectorMode)
          → s.current_mode ≡ m
          → (state_of w ≡ running) ⊎ (state_of w ≡ stopped)
          → state_of (request_start (ports driver platform) s w).1
            ≡ start_asked s.current_mode (state_of w)
      go forced_off e at = ground (arith, request_start_refused driver platform fills s w (inl e))
      go m e (inl at) =
          ground (arith, request_start_refused driver platform fills s w (inr (λ k. cc)))
      go automatic e (inr at) =
          ground (arith, request_start_state driver platform fills s w h.wired h.consistent e at)
      go forced_on e (inr at) = ground (arith, h.obeys)

  request_stop-asked :
      (s : CollectorService) (w : World R E)
      → IsSafe driver s w
      → state_of (request_stop (ports driver platform) s w).1
        ≡ stop_asked s.current_mode (state_of w)
  unfolding stop_if_running ports RelayBackedCollectorUnit.state
  request_stop-asked s w h = go s.current_mode refl (settled driver w.unit h.consistent)
    where
      go :
          (m : CollectorMode)
          → s.current_mode ≡ m
          → (state_of w ≡ running) ⊎ (state_of w ≡ stopped)
          → state_of (request_stop (ports driver platform) s w).1
            ≡ stop_asked s.current_mode (state_of w)
      go forced_on e at = ground (arith, request_stop_refused driver platform fills s w (inl e))
      go m e (inr at) =
          ground (arith, request_stop_refused driver platform fills s w (inr (λ k. cc)))
      go automatic e (inl at) =
          ground (arith, stop_state driver platform fills s w h.wired h.consistent)
      go forced_off e (inl at) = ground (arith, h.obeys)

  -- What is due once the demand is noted.
  note_demand-wanted :
      (active : Bool) (s : CollectorService) (w : World R E)
      → let (s₁, w₁) = note_demand (ports driver platform) active s w in
        carried_out
          (wanted s₁.current_mode s₁.has_demand (due_now driver platform fills s₁ w₁) (state_of w₁))
          (state_of w₁)
        ≡ state_after (demands active) s w
  unfolding note_demand ports
  note_demand-wanted active s w = go active s.has_demand s.current_mode refl refl
    where
      go :
          (active demand : Bool) (m : CollectorMode)
          → s.has_demand ≡ demand
          → s.current_mode ≡ m
          → let (s₁, w₁) = note_demand (ports driver platform) active s w in
            carried_out
              (wanted s₁.current_mode s₁.has_demand
                (due_now driver platform fills s₁ w₁)
                (state_of w₁))
              (state_of w₁)
            ≡ state_after (demands active) s w
      go true true m e f = ground arith
      go true false automatic e f = ground arith
      go true false forced_on e f = ground arith
      go true false forced_off e f = ground arith
      go false demand m e f = ground arith

  update_demand_state :
      (active : Bool) (s : CollectorService) (w : World R E)
      → IsSafe driver s w
      → state_of (update_demand (ports driver platform) active s w).2
        ≡ state_after (demands active) s w
  unfolding update_demand
  update_demand_state active s w h =
      let (s₁, w₁) = note_demand (ports driver platform) active s w in
      let (wired, consistent) = noted-IsWired driver platform fills active s w h in
      reconcile_state driver platform fills false s₁ w₁ wired consistent
      ∙ note_demand-wanted active s w

  request_mode_state :
      (m : CollectorMode) (s : CollectorService) (w : World R E)
      → IsSafe driver s w
      → state_of (request_mode (ports driver platform) m s w).2 ≡ state_after (selects m) s w
  request_mode_state m s w h = elim (mode_cases s.current_mode m) [
    | inl same ↦
        rw (request_mode_same (ports driver platform) m s w same) (
          ground
            (arith, same, reconcile_state driver platform fills false s w h.wired h.consistent))
    | inr other ↦ rw (request_mode_other (ports driver platform) m s w other) (
        ground (
          arith,
          reconcile_state driver platform fills (at_once m s) (enter m s) w h.wired h.consistent,
        ))
  ]

  serve_state :
      (c : Call) (s : CollectorService) (w : World R E)
      → IsSafe driver s w
      → state_of (serve (ports driver platform) c s w).2 ≡ state_after c s w
  unfolding serve process
  serve_state starts s w h = request_start-asked s w h
  serve_state stops s w h = request_stop-asked s w h
  serve_state processes s w h = reconcile_state driver platform fills false s w h.wired h.consistent
  serve_state (selects m) s w h = request_mode_state m s w h
  serve_state (demands active) s w h = update_demand_state active s w h
  serve_state (faults reason) s w h =
      ap (λ (u : RelayBackedCollectorUnit R). u.state_machine.state)
        (report_fault-Effect driver platform fills reason s w).0

  serve_mode :
      (c : Call) (s : CollectorService) (w : World R E)
      → IsSafe driver s w
      → let (done, s', w') = serve (ports driver platform) c s w in
        (s'.current_mode ≡ mode_after c s.current_mode)
        × (s'.has_demand ≡ demand_after c s.has_demand)
  unfolding serve process update_demand note_demand
  serve_mode starts s w h = (refl, refl)
  serve_mode stops s w h = (refl, refl)
  serve_mode processes s w h = ground (arith, reconcile_keeps (ports driver platform) false s w)
  serve_mode (selects m) s w h = ground (
    arith,
    request_mode-Effect driver platform fills m s w h.wired h.consistent,
    request_mode_atomic (ports driver platform) m s w h.valid,
  )
  serve_mode (demands active) s w h =
      let (s₁, w₁) = note_demand (ports driver platform) active s w in
      ground (arith, reconcile_keeps (ports driver platform) false s₁ w₁)
  serve_mode (faults reason) s w h = (refl, refl)

  -- What the program does with a call, or with none: the mode, the demand and the state of the
  -- collector are those of the table.
  pub record Carried (c : Call) (s s' : CollectorService) (w w' : World R E) : Type 0 where
    pub mode_kept : s'.current_mode ≡ mode_after c s.current_mode
    pub demand_kept : s'.has_demand ≡ demand_after c s.has_demand
    pub state_reached : state_of w' ≡ state_after c s w

  pub serve-Carried :
      (c : Call) (s : CollectorService) (w : World R E)
      → IsSafe driver s w
      → let (done, s', w') = serve (ports driver platform) c s w in Carried c s s' w w'
  serve-Carried c s w h =
      let (mode, demand) = serve_mode c s w h in
      record { mode_kept = mode; demand_kept = demand; state_reached = serve_state c s w h }
