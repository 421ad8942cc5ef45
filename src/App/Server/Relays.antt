-- ===== src/App/Server/Relays.antt =====
-- What only switching the relay can change of it.
use mathlib.Core.Option.{some-injective}
use esp32_dust_extraction.Common.Int.{ℤ}
use esp32_dust_extraction.App.Boot.{app_main-booted, booted}
use esp32_dust_extraction.RelayBackedCollectorUnit
use esp32_dust_extraction.Common.{
  ℕ, ap, ◌≡◌, sym, subst, Option, none, some, List, [], ◌∷◌, ◌==◌, Bool-cases, inl, inr, ◌⊎◌,
}
use esp32_dust_extraction.EventIdGenerator.Version.{Fills}
use esp32_dust_extraction.CollectorUnit.{stopped, running}
use esp32_dust_extraction.Relay.{RelayDriver}
use esp32_dust_extraction.RelayBackedCollectorUnit.{RelayBackedCollectorUnit}
use esp32_dust_extraction.RelayBackedCollectorUnit.Safety.{started, halted}
use esp32_dust_extraction.CollectorService.{CollectorService, Call}
use esp32_dust_extraction.CollectorApi.Calls.{perform}
use esp32_dust_extraction.HttpServer.{Pointer, nullptr}
use esp32_dust_extraction.HttpServer.Esp.{Httpd, method_of}
use esp32_dust_extraction.HttpRoutes.Calls.{route_call}
use esp32_dust_extraction.Common.{Text, c_str}
use esp32_dust_extraction.App.{Platform, World, ports}
use esp32_dust_extraction.App.Effects.{state_of, Effect}
use esp32_dust_extraction.App.History.{IsSafe, serve-Kept}
use esp32_dust_extraction.App.Server.{
  Program, Input, calls, requests, start_server, boot, take_request, step, run,
}
use esp32_dust_extraction.App.Server.Requests.{IsServing, dispatch-perform, step-IsServing}

module _ {R E X : Type 0} (driver : RelayDriver R) (platform : Platform E) (httpd : Httpd X)
    (html : Text) where
  -- `app_main` switches the relay off.
  pub boot-relay :
      (mac : List ℕ) (delay : ℤ) (port : ℕ) (self : Pointer) (relay : R) (e : E) (x : X)
      (p : Program R E X)
      → boot driver platform httpd html mac delay port self relay e x ≡ some p
      → p.world.unit.relay ≡ driver.switch_off relay
  unfolding boot start_server RelayBackedCollectorUnit.new
  boot-relay mac delay port self relay e x p h =
      elim (app_main-booted driver platform mac delay relay e) [
        | inl missing ↦ let h' : none ≡ some p = rw (missing, boot) at h in cc
        | inr (uid, made) ↦
            let h' : some (
                  start_server driver platform httpd html port self
                    (booted driver platform uid delay relay e) x)
                ≡ some p =
              rw (made, boot) at h in
            ap (λ (q : Program R E X). q.world.unit.relay) (sym (some-injective _ _ h'))
      ]

-- A property of the relay that switching keeps.
module _ {R E X : Type 0} (driver : RelayDriver R) (platform : Platform E)
    (fills : Fills platform.fill_random) (httpd : Httpd X) (html : Text) (Holds : R → Type 0)
    (keeps_on : (r : R) → Holds r → Holds (driver.switch_on r))
    (keeps_off : (r : R) → Holds r → Holds (driver.switch_off r)) where
  Effect-Holds : (w w' : World R E) → Effect driver w w' → Holds w.unit.relay → Holds w'.unit.relay
  Effect-Holds w w' e h = go e.unit_effect
    where
      go :
          (w'.unit ≡ w.unit)
            ⊎ ((state_of w ≡ stopped) × (w'.unit ≡ started driver w.unit))
            ⊎ ((state_of w ≡ running) × (w'.unit ≡ halted driver w.unit))
          → Holds w'.unit.relay
      go (inl same) = rw same h
      go (inr (inl (at, moved))) = rw moved (keeps_on w.unit.relay h)
      go (inr (inr (at, moved))) = rw moved (keeps_off w.unit.relay h)

  perform-Holds :
      (c : Option Call) (s : CollectorService) (w : World R E)
      → IsSafe driver s w
      → Holds w.unit.relay
      → Holds (perform (ports driver platform) c s w).1.unit.relay
  perform-Holds none s w safe h = h
  perform-Holds (some c) s w safe h =
      Effect-Holds w _ (serve-Kept driver platform fills c s w safe).effect h

  step-Holds :
      (i : Input) (p : Program R E X)
      → IsServing driver platform fills httpd html p
      → Holds p.world.unit.relay
      → Holds (step driver platform httpd html i p).world.unit.relay
  unfolding step take_request
  step-Holds (calls c) p serving h = perform-Holds (some c) p.service p.world serving.safe h
  step-Holds (requests request) p serving h =
      elim (Bool-cases (p.server.native_handle == nullptr)) [
        | inl down ↦ rw down h
        | inr up ↦ rw up (
            subst (λ (q : CollectorService × World R E). Holds q.1.unit.relay)
              (sym (
                dispatch-perform driver platform fills httpd html p.server request p.service p.world
                  p.httpd serving.routed))
              (perform-Holds (route_call (method_of httpd request) (c_str request.uri)) p.service
                p.world serving.safe h))
      ]

  -- It holds of the relay after whatever inputs, if it held before.
  pub run-Holds :
      (is : List Input) (p : Program R E X)
      → IsServing driver platform fills httpd html p
      → Holds p.world.unit.relay
      → Holds (run driver platform httpd html is p).world.unit.relay
  unfolding run
  run-Holds [] p serving h = h
  run-Holds (i ∷ is) p serving h =
      run-Holds is _ (step-IsServing driver platform fills httpd html i p serving)
        (step-Holds i p serving h)
