-- ===== src/App/Server/Inputs.antt =====
-- What an input does to the whole program: what its call of the service does, if it amounts to one.
use esp32_dust_extraction.Common.{
  c_str, ℕ, ◌≡◌, refl, sym, subst, inl, inr, Option, none, some, List, Text, ◌==◌, Bool-cases,
  if◌then◌else◌,
}
use esp32_dust_extraction.Common.Int.{ℤ}
use esp32_dust_extraction.EventIdGenerator.Version.{Fills}
use esp32_dust_extraction.Relay.{RelayDriver}
use esp32_dust_extraction.CollectorService.{CollectorService, Call}
use esp32_dust_extraction.CollectorApi.Calls.{perform}
use esp32_dust_extraction.HttpServer.{Pointer, nullptr}
use esp32_dust_extraction.HttpServer.Esp.{Httpd, method_of}
use esp32_dust_extraction.HttpRoutes.Calls.{route_call}
use esp32_dust_extraction.App.{Platform, World, ports}
use esp32_dust_extraction.App.History.{IsSafe}
use esp32_dust_extraction.App.Calls.{Carried, serve-Carried}
use esp32_dust_extraction.App.Server.{
  Program, Input, calls, requests, boot, take_request, step, run,
}
use esp32_dust_extraction.App.Server.Requests.{
  IsServing, dispatch-perform, run-IsServing, boot-IsServing,
}

module _ {R E X : Type 0} (driver : RelayDriver R) (platform : Platform E)
    (fills : Fills platform.fill_random) (httpd : Httpd X) (html : Text) where
  -- The call that an input amounts to: itself, or that of a request to a server that is up.
  abbrev pub call_at : Input → Program R E X → Option Call
  call_at (calls c) p = some c
  call_at (requests request) p =
      if p.server.native_handle == nullptr
      then none
      else route_call (method_of httpd request) (c_str request.uri)

  -- What a call, or none, leaves.
  abbrev pub Outcome :
      Option Call → CollectorService × World R E → CollectorService × World R E → Type 0
  Outcome none before after = after ≡ before
  Outcome (some c) (s, w) (s', w') = Carried driver platform fills c s s' w w'

  perform-Outcome :
      (c : Option Call) (s : CollectorService) (w : World R E)
      → IsSafe driver s w
      → Outcome c (s, w) (perform (ports driver platform) c s w)
  perform-Outcome none s w h = refl
  perform-Outcome (some c) s w h = serve-Carried driver platform fills c s w h

  step-Outcome :
      (i : Input) (p : Program R E X)
      → IsServing driver platform fills httpd html p
      → let p' = step driver platform httpd html i p in
        Outcome (call_at i p) (p.service, p.world) (p'.service, p'.world)
  unfolding step take_request
  step-Outcome (calls c) p h = serve-Carried driver platform fills c p.service p.world h.safe
  step-Outcome (requests request) p h = elim (Bool-cases (p.server.native_handle == nullptr)) [
    | inl down ↦ rw down refl
    | inr up ↦
        let c = route_call (method_of httpd request) (c_str request.uri) in
        rw up (
          subst (λ (q : CollectorService × World R E). Outcome c (p.service, p.world) q)
            (sym (
              dispatch-perform driver platform fills httpd html p.server request p.service p.world
                p.httpd h.routed))
            (perform-Outcome c p.service p.world h.safe))
  ]

  -- After whatever calls of the service and HTTP requests the program got since `app_main`, one more
  -- call or request does what the table gives for the call that it amounts to. The mode is the one
  -- that the call selects, else what it was, and the demand is what it reports, else what it was. A
  -- call to start or stop brings the collector to running or stopped unless the mode forbids it, a
  -- fault report leaves it alone, and any other call brings it to the state that the new mode and
  -- demand want of it, new demand in automatic mode waiting for the start delay. Demand that ends in
  -- automatic mode leaves it stopped at once, with no run-on period, and a reported fault is not
  -- latched: it keeps no later call from a start. A request that amounts to no call (not a POST to
  -- one of the documented paths, or to a server that is not up) changes neither the service nor the
  -- world. The random source fills a buffer with bytes.
  pub run-inputs-Outcome :
      (mac : List ℕ) (delay : ℤ) (port : ℕ) (self : Pointer) (relay : R) (e : E) (x : X)
      (is : List Input) (i : Input) (p : Program R E X)
      → boot driver platform httpd html mac delay port self relay e x ≡ some p
      → let p' = run driver platform httpd html is p in
        let p'' = step driver platform httpd html i p' in
        Outcome (call_at i p') (p'.service, p'.world) (p''.service, p''.world)
  run-inputs-Outcome mac delay port self relay e x is i p h =
      step-Outcome i (run driver platform httpd html is p) (
        run-IsServing driver platform fills httpd html is p
          (boot-IsServing driver platform fills httpd html mac delay port self relay e x p h))
