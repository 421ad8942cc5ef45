-- ===== src/App/Server/Answers.antt =====
-- What the whole program answers to a request that amounts to a call of its service.
use esp32_dust_extraction.Common.{
  c_str, ℕ, ◌≡◌, ◌≢◌, subst, ap, ◌∙◌, Bool, some, List, Text, arith, if◌then◌else◌,
}
use esp32_dust_extraction.Common.Int.{ℤ}
use esp32_dust_extraction.EventIdGenerator.Version.{Fills}
use esp32_dust_extraction.Relay.{RelayDriver}
use esp32_dust_extraction.CollectorService.{CollectorService, Call}
use esp32_dust_extraction.HttpServer.{HttpServer, Pointer, nullptr}
use esp32_dust_extraction.HttpServer.Esp.{Httpd, HttpdRequest, method_of}
use esp32_dust_extraction.HttpRoutes.Calls.{route_call, request-answer}
use esp32_dust_extraction.App.{Platform, World, ports}
use esp32_dust_extraction.App.Calls.{Carried}
use esp32_dust_extraction.App.Grants.{granted, serve-granted}
use esp32_dust_extraction.App.Server.{Program, Input, requests, boot, take_request, step, run}
use esp32_dust_extraction.App.Server.Requests.{IsServing, run-IsServing, boot-IsServing, run-server}
use esp32_dust_extraction.App.Server.Inputs.{Outcome, call_at, run-inputs-Outcome}
use esp32_dust_extraction.App.Server.Selection.{response_to}

module _ {R E X : Type 0} (driver : RelayDriver R) (platform : Platform E)
    (fills : Fills platform.fill_random) (httpd : Httpd X) (html : Text) where
  response-granted :
      (request : HttpdRequest) (c : Call) (p : Program R E X)
      → IsServing driver platform fills httpd html p
      → route_call (method_of httpd request) (c_str request.uri) ≡ some c
      → (response_to httpd request p).status ≡ (if granted c p.service p.world then 202 else 409)
  response-granted request c p h asked =
      request-answer (ports driver platform) html p.server (method_of httpd request)
        (c_str request.uri) c p.service p.world h.routed asked
      ∙ ap (λ (b : Bool). if b then 202 else 409)
          (serve-granted driver platform fills c p.service p.world h.safe)

  -- If the server is up once `app_main` is through, then after whatever calls of the service and
  -- HTTP requests a request that amounts to a call of the service, a POST to one of the five paths
  -- of the interface, is answered with 202 or 409: a request to start with 202 just when the
  -- collector is stopped and the mode not forced off, one to stop just when it is running and the
  -- mode not forced on, one for a mode always. The mode, the demand and the state of the collector
  -- are then those that the table gives for the call. The random source fills a buffer with bytes.
  pub run-inputs-answer :
      (mac : List ℕ) (delay : ℤ) (port : ℕ) (self : Pointer) (relay : R) (e : E) (x : X)
      (is : List Input) (p : Program R E X) (request : HttpdRequest) (c : Call)
      → boot driver platform httpd html mac delay port self relay e x ≡ some p
      → p.server.native_handle ≢ nullptr
      → route_call (method_of httpd request) (c_str request.uri) ≡ some c
      → let p' = run driver platform httpd html is p in
        let p'' = take_request driver platform httpd html request p' in
        ((response_to httpd request p').status
          ≡ (if granted c p'.service p'.world then 202 else 409))
        × Carried driver platform fills c p'.service p''.service p'.world p''.world
  unfolding step
  run-inputs-answer mac delay port self relay e x is p request c h up asked =
      let p' = run driver platform httpd html is p in
      let serving =
        run-IsServing driver platform fills httpd html is p
          (boot-IsServing driver platform fills httpd html mac delay port self relay e x p h) in
      let outcome =
        run-inputs-Outcome driver platform fills httpd html mac delay port self relay e x is
          (requests request) p h in
      let same = run-server driver platform fills httpd html is p in
      let at : call_at driver platform fills httpd html (requests request) p' ≡ some c = ground (
        arith,
        asked,
        up,
        ap (λ (v : HttpServer (CollectorService × World R E)). v.native_handle) same,
      ) in
      (
        response-granted request c p' serving asked,
        subst
            (λ o.
              Outcome driver platform fills httpd html o (p'.service, p'.world)
                (
                  (take_request driver platform httpd html request p').service,
                  (take_request driver platform httpd html request p').world,
                ))
            at outcome,
      )
