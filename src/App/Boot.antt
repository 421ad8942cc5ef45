-- ===== src/App/Boot.antt =====
-- What `app_main` sets up, and what its clients can bring it to.
use esp32_dust_extraction.Common.{
  ℕ, ◌≡◌, refl, sym, subst, ◌⊎◌, inl, inr, true, false, none, some, List, [], ◌∷◌, Option-cases,
}
use esp32_dust_extraction.Common.Int.{ℤ}
use esp32_dust_extraction.Common.{◌∙◌, text_eq_refl, length}
use mathlib.Core.Option.{some-injective}
use esp32_dust_extraction.Event.DeviceUid
use esp32_dust_extraction.Event.EventId.Bytes.{AreBytes}
use esp32_dust_extraction.EventDispatcher
use esp32_dust_extraction.CommandDispatcher.{register_recipient}
use esp32_dust_extraction.CollectorService
use esp32_dust_extraction.App.DeviceName.{from_string-device_uid_string}
use esp32_dust_extraction.EventDispatcher.{EventDispatcher, call_all, publish}
use esp32_dust_extraction.CollectorUnit.{stopped, running, CollectorMode, automatic}
use esp32_dust_extraction.Relay.{off, on, RelayDriver}
use esp32_dust_extraction.RelayBackedCollectorUnit
use esp32_dust_extraction.RelayBackedCollectorUnit.{RelayBackedCollectorUnit}
use esp32_dust_extraction.RelayBackedCollectorUnit.Safety.{IsConsistent, new-IsConsistent}
use esp32_dust_extraction.EventIdGenerator.Version.{Fills}
use esp32_dust_extraction.CollectorService.{
  CollectorService, Call, starts, stops, processes, selects, demands, faults, request_mode,
  note_demand, update_demand, process, report_fault, reconcile, serve,
}
use esp32_dust_extraction.CollectorService.Invariant.{new-IsValid}
use esp32_dust_extraction.App.{
  Platform, World, collector, ports, device_uid_string, register, app_main,
}
use esp32_dust_extraction.App.Effects.{state_of}
use esp32_dust_extraction.App.Modes.{Obeys, request_mode-Effect}
use esp32_dust_extraction.App.History.{IsSafe, run, run-IsSafe}

module _ {R E : Type 0} (driver : RelayDriver R) (platform : Platform E) where
  -- The program as `app_main` leaves it, once the Device UID is known.
  abbrev pub booted : DeviceUid.DeviceUid → ℤ → R → E → CollectorService × World R E
  booted uid delay relay e = (
    CollectorService.new uid delay,
    record {
      unit = RelayBackedCollectorUnit.new driver relay;
      dispatcher = record { recipients = record { uid = uid.value; handler = collector } ∷ [] };
      event_dispatcher = EventDispatcher.new;
      platform = e;
    },
  )

  pub app_main-booted :
      (mac : List ℕ) (delay : ℤ) (relay : R) (e : E)
      → (app_main driver platform mac delay relay e ≡ none)
        ⊎ ((uid : DeviceUid.DeviceUid) × (app_main driver platform mac delay relay e
              ≡ some (booted uid delay relay e)))
  unfolding app_main register register_recipient
  app_main-booted mac delay relay e =
      elim (Option-cases (DeviceUid.from_string (device_uid_string mac))) [
        | inl missing ↦ inl (rw (missing, app_main))
        | inr (uid, found) ↦ inr (uid, rw (found, app_main))
      ]

module _ {R E : Type 0} (driver : RelayDriver R) (platform : Platform E)
    (fills : Fills platform.fill_random) where
  booted-IsSafe :
      (uid : DeviceUid.DeviceUid) (delay : ℤ) (relay : R) (e : E)
      → IsSafe driver
          (booted driver platform uid delay relay e).0
          (booted driver platform uid delay relay e).1
  unfolding CollectorService.new
  booted-IsSafe uid delay relay e = record {
    valid = new-IsValid uid delay;
    consistent = new-IsConsistent driver relay;
    wired = rw (text_eq_refl uid.value);
    obeys = tt;
  }

  pub app_main-IsSafe :
      (mac : List ℕ) (delay : ℤ) (relay : R) (e : E) (s : CollectorService) (w : World R E)
      → app_main driver platform mac delay relay e ≡ some (s, w)
      → IsSafe driver s w
  app_main-IsSafe mac delay relay e s w h =
      elim (app_main-booted driver platform mac delay relay e) [
        | inl missing ↦ cc
        | inr (uid, made) ↦
            subst (λ (p : CollectorService × World R E). IsSafe driver p.0 p.1)
              (some-injective _ _ (sym made ∙ h)) (booted-IsSafe uid delay relay e)
      ]

  -- The relay follows the state of the unit.
  abbrev pub Follows : World R E → Type 0
  Follows w =
      ((state_of w ≡ running) × (driver.state w.unit.relay ≡ on))
      ⊎ ((state_of w ≡ stopped) × (driver.state w.unit.relay ≡ off))

  pub consistent-Follows :
      (w : World R E) → IsConsistent driver w.unit → driver.Alive w.unit.relay → Follows w
  consistent-Follows w (IsConsistent.is_running a b c d) alive = inl (a, b alive)
  consistent-Follows w (IsConsistent.is_stopped a b c d) alive = inr (a, b alive)

  -- Whatever calls are made of the service that `app_main` sets up, if the program has not aborted
  -- then the relay is on with the collector reported running or off with it reported stopped, and
  -- the collector is running if the mode is forced on and stopped if the mode is forced off.
  pub run-Obeys :
      (mac : List ℕ) (delay : ℤ) (relay : R) (e : E) (cs : List Call) (s : CollectorService)
      (w : World R E)
      → app_main driver platform mac delay relay e ≡ some (s, w)
      → driver.Alive (run driver platform cs s w).1.unit.relay
      → Follows (run driver platform cs s w).1
        × Obeys
            (run driver platform cs s w).0.current_mode
            (state_of (run driver platform cs s w).1)
  run-Obeys mac delay relay e cs s w h alive =
      let safe =
        run-IsSafe driver platform fills cs s w (app_main-IsSafe mac delay relay e s w h) in
      (consistent-Follows (run driver platform cs s w).1 safe.consistent alive, safe.obeys)

  -- And at any such time a mode request succeeds, selects its mode, and brings the collector to a
  -- state that the mode allows.
  pub run-request_mode :
      (mac : List ℕ) (delay : ℤ) (relay : R) (e : E) (cs : List Call) (m : CollectorMode)
      (s : CollectorService) (w : World R E)
      → app_main driver platform mac delay relay e ≡ some (s, w)
      → let (done, s', w') =
          request_mode
            (ports driver platform)
            m
            (run driver platform cs s w).0
            (run driver platform cs s w).1 in
        (done ≡ true) × (s'.current_mode ≡ m) × Obeys m (state_of w')
  run-request_mode mac delay relay e cs m s w h =
      let safe =
        run-IsSafe driver platform fills cs s w (app_main-IsSafe mac delay relay e s w h) in
      let (done, selected, uid, effect, obeyed) =
        request_mode-Effect driver platform fills m (run driver platform cs s w).0
          (run driver platform cs s w).1 safe.wired safe.consistent in
      (done, selected, obeyed)

module _ {R E : Type 0} (driver : RelayDriver R) (platform : Platform E) where
  -- With a MAC address of six bytes neither early return of `app_main` is taken: the service
  -- starts in automatic mode with no demand, the unit is stopped, and the UID is the one made of
  -- the address.
  pub app_main_starts :
      (mac : List ℕ) (delay : ℤ) (relay : R) (e : E)
      → length mac ≡ 6
      → AreBytes mac
      → (s : CollectorService) × (w : World R E) × (app_main driver platform mac delay relay e
          ≡ some (s, w))
        × (s.current_mode ≡ automatic)
        × (s.has_demand ≡ false)
        × (s.uid.value ≡ device_uid_string mac)
        × (state_of w ≡ stopped)
  unfolding app_main register register_recipient CollectorService.new RelayBackedCollectorUnit.new
  app_main_starts mac delay relay e sized bytes =
      let made = from_string-device_uid_string mac sized bytes in
      let (s, w) =
        booted driver platform (record { value = device_uid_string mac }) delay relay e in
      (s, w, rw (made, app_main), refl, refl, refl, refl)
