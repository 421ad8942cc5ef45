-- ===== src/RelayBackedCollectorUnit/Safety.antt =====
-- The relay follows the reported state.
use esp32_dust_extraction.Common.{
  ◌≡◌, ◌⊎◌, inl, inr, Bool, true, false, arith, ◌+◌, ◌%◌, ◌^◌, ◌<◌, refl, ◌≢◌, List, [], ◌∷◌,
}
use esp32_dust_extraction.CollectorUnit.{CollectorState, stopped, running}
use esp32_dust_extraction.Relay.{off, on, RelayDriver}
use esp32_dust_extraction.RelayBackedCollectorUnit.{
  RelayBackedCollectorUnit, new, start, stop, state,
}

module _ {R : Type 0} (driver : RelayDriver R) where
  -- Between two calls the unit is `running` with its relay on or `stopped` with its relay off, if
  -- the program has not aborted; the starts and the stops that it has counted differ, as 32-bit counters, by one or nothing.
  pub data IsConsistent (u : RelayBackedCollectorUnit R) : Type 0 where
    is_running :
        u.state_machine.state ≡ running
        → (driver.Alive u.relay → driver.state u.relay ≡ on)
        → u.counters.successful_starts ≡ (u.counters.successful_stops + 1) % 2 ^ 32
        → u.counters.successful_stops < 2 ^ 32
        → IsConsistent u
    is_stopped :
        u.state_machine.state ≡ stopped
        → (driver.Alive u.relay → driver.state u.relay ≡ off)
        → u.counters.successful_starts ≡ u.counters.successful_stops
        → u.counters.successful_stops < 2 ^ 32
        → IsConsistent u

  pub new-IsConsistent : (r : R) → IsConsistent (new driver r)
  unfolding new
  new-IsConsistent r = is_stopped refl (driver.state-switch_off r) (omega arith) (omega arith)

  -- The unit after a start and after a stop that are carried out.
  abbrev pub started : RelayBackedCollectorUnit R → RelayBackedCollectorUnit R
  started u = record u {
    relay = driver.switch_on u.relay;
    state_machine = record u.state_machine { state = running };
    counters = record u.counters {
      successful_starts = (u.counters.successful_starts + 1) % 2 ^ 32;
    };
  }

  abbrev pub halted : RelayBackedCollectorUnit R → RelayBackedCollectorUnit R
  halted u = record u {
    relay = driver.switch_off u.relay;
    state_machine = record u.state_machine { state = stopped };
    counters = record u.counters { successful_stops = (u.counters.successful_stops + 1) % 2 ^ 32 };
  }

  pub start-stopped :
      (u : RelayBackedCollectorUnit R)
      → u.state_machine.state ≡ stopped
      → start driver u ≡ (true, started u)
  unfolding start
  start-stopped u h = ground arith

  pub start_refused :
      (u : RelayBackedCollectorUnit R)
      → u.state_machine.state ≢ stopped
      → start driver u ≡ (false, u)
  unfolding start
  start_refused u h = ground arith

  pub stop-running :
      (u : RelayBackedCollectorUnit R)
      → u.state_machine.state ≡ running
      → stop driver u ≡ (true, halted u)
  unfolding stop
  stop-running u h = ground arith

  pub stop_refused :
      (u : RelayBackedCollectorUnit R)
      → u.state_machine.state ≢ running
      → stop driver u ≡ (false, u)
  unfolding stop
  stop_refused u h = ground arith

  pub started-IsConsistent :
      (u : RelayBackedCollectorUnit R)
      → IsConsistent u
      → u.state_machine.state ≡ stopped
      → IsConsistent (started u)
  started-IsConsistent u (is_running a b c d) h = cc
  started-IsConsistent u (is_stopped a b c d) h =
      is_running refl (driver.state-switch_on u.relay) (omega arith) d

  pub halted-IsConsistent :
      (u : RelayBackedCollectorUnit R)
      → IsConsistent u
      → u.state_machine.state ≡ running
      → IsConsistent (halted u)
  halted-IsConsistent u (is_stopped a b c d) h = cc
  halted-IsConsistent u (is_running a b c d) h =
      is_stopped refl (driver.state-switch_off u.relay) (omega arith) (omega arith)

  -- A call leaves one of these behind, with the result it returns.
  pub data Called (u : RelayBackedCollectorUnit R) (from to : CollectorState)
      : Bool × RelayBackedCollectorUnit R → Type 0 where
    carried_out :
        {v : RelayBackedCollectorUnit R}
        → state driver u ≡ from
        → state driver v ≡ to
        → Called u from to (true, v)
    refused : state driver u ≡ to → Called u from to (false, u)

  -- `start` on a consistent unit leaves a consistent unit. It
  -- returns true and takes a stopped unit to running, or it returns false and leaves a running
  -- unit as it is.
  pub start-IsConsistent :
      (u : RelayBackedCollectorUnit R)
      → IsConsistent u
      → IsConsistent (start driver u).1 × Called u stopped running (start driver u)
  unfolding state
  start-IsConsistent u (is_running a b c d) =
      let same = start_refused u (λ e. cc) in rw same (is_running a b c d, refused a)
  start-IsConsistent u (is_stopped a b c d) =
      let moved = start-stopped u a in
      rw moved (started-IsConsistent u (is_stopped a b c d) a, carried_out a refl)

  -- `stop` on a consistent unit leaves a consistent unit. It
  -- returns true and takes a running unit to stopped, or it returns false and leaves a stopped
  -- unit as it is.
  pub stop-IsConsistent :
      (u : RelayBackedCollectorUnit R)
      → IsConsistent u
      → IsConsistent (stop driver u).1 × Called u running stopped (stop driver u)
  unfolding state
  stop-IsConsistent u (is_stopped a b c d) =
      let same = stop_refused u (λ e. cc) in rw same (is_stopped a b c d, refused a)
  stop-IsConsistent u (is_running a b c d) =
      let moved = stop-running u a in
      rw moved (halted-IsConsistent u (is_running a b c d) a, carried_out a refl)

  -- A consistent unit is running or stopped.
  pub settled :
      (u : RelayBackedCollectorUnit R)
      → IsConsistent u
      → (u.state_machine.state ≡ running) ⊎ (u.state_machine.state ≡ stopped)
  settled u (is_running a b c d) = inl a
  settled u (is_stopped a b c d) = inr a

  -- A client's calls, `true` for `start` and `false` for `stop`.
  pub run : List Bool → RelayBackedCollectorUnit R → RelayBackedCollectorUnit R
  run [] u = u
  run (true ∷ calls) u = run calls (start driver u).1
  run (false ∷ calls) u = run calls (stop driver u).1

  run-IsConsistent :
      (calls : List Bool) (u : RelayBackedCollectorUnit R)
      → IsConsistent u
      → IsConsistent (run calls u)
  unfolding run
  run-IsConsistent [] u c = c
  run-IsConsistent (true ∷ calls) u c =
      run-IsConsistent calls (start driver u).1 (start-IsConsistent u c).0
  run-IsConsistent (false ∷ calls) u c =
      run-IsConsistent calls (stop driver u).1 (stop-IsConsistent u c).0

  -- After any calls of `start` and `stop` on a new unit, if the program has not aborted, the unit
  -- reports running with the relay on and one more start counted than stops, or it reports stopped
  -- with the relay off and as many starts as stops, up to the wrap-around of the 32-bit counters.
  pub run-new :
      (calls : List Bool) (relay : R)
      → driver.Alive (run calls (new driver relay)).relay
      → let u = run calls (new driver relay) in
        ((state driver u ≡ running)
          × (driver.state u.relay ≡ on)
          × (u.counters.successful_starts ≡ (u.counters.successful_stops + 1) % 2 ^ 32))
        ⊎ ((state driver u ≡ stopped)
            × (driver.state u.relay ≡ off)
            × (u.counters.successful_starts ≡ u.counters.successful_stops))
  unfolding state
  run-new calls relay alive =
      go (run calls (new driver relay)) (run-IsConsistent calls _ (new-IsConsistent relay)) alive
    where
      go :
          (u : RelayBackedCollectorUnit R)
          → IsConsistent u
          → driver.Alive u.relay
          → ((state driver u ≡ running)
              × (driver.state u.relay ≡ on)
              × (u.counters.successful_starts ≡ (u.counters.successful_stops + 1) % 2 ^ 32))
            ⊎ ((state driver u ≡ stopped)
                × (driver.state u.relay ≡ off)
                × (u.counters.successful_starts ≡ u.counters.successful_stops))
      go u (is_running a b c d) alive = inl (a, b alive, c)
      go u (is_stopped a b c d) alive = inr (a, b alive, c)
