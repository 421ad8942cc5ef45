-- ===== src/App/Server/Requests.antt =====
-- The whole program, over any sequence of calls of the service and of HTTP requests.
use esp32_dust_extraction.Common.{
  c_str, ℕ, ◌≡◌, refl, sym, subst, ◌∙◌, inl, inr, Option, none, some, List, [], ◌∷◌, Text, ◌==◌,
  arith, Option-cases, Bool-cases, ◌%◌, ◌^◌,
}
use esp32_dust_extraction.Common.Int.{ℤ}
use mathlib.Core.Option.{some-injective}
use esp32_dust_extraction.EventIdGenerator.Version.{Fills}
use esp32_dust_extraction.Relay.{RelayDriver}
use esp32_dust_extraction.CollectorService.{CollectorService, Call}
use esp32_dust_extraction.CollectorApi.{service_control}
use esp32_dust_extraction.CollectorApi.Calls.{perform}
use esp32_dust_extraction.HttpServer
use esp32_dust_extraction.HttpServer.{HttpServer, Pointer, nullptr, call_handler}
use esp32_dust_extraction.HttpServer.Esp.{
  Httpd, HttpdRequest, start, register_route, dispatch_request, method_of,
}
use esp32_dust_extraction.HttpRoutes.{make_request_handler}
use esp32_dust_extraction.HttpRoutes.Calls.{route_call, request-perform}
use esp32_dust_extraction.HttpRoutes.Requests.{server_of}
use esp32_dust_extraction.App.{Platform, World, ports, app_main}
use esp32_dust_extraction.App.Effects.{state_of}
use esp32_dust_extraction.App.Modes.{Obeys}
use esp32_dust_extraction.App.History.{IsSafe, serve-IsSafe}
use esp32_dust_extraction.App.Boot.{Follows, app_main-IsSafe, consistent-Follows}
use esp32_dust_extraction.App.Server.{
  Program, Input, calls, requests, start_server, boot, take_request, step, run,
}

module _ {R E X : Type 0} (driver : RelayDriver R) (platform : Platform E) (httpd : Httpd X)
    (html : Text) where
  -- `start` leaves the handler and the port alone.
  start-handler :
      {W : Type 0} (self : Pointer) (server : HttpServer W) (x : X)
      → (start httpd self server x).1.handler ≡ server.handler
  unfolding start register_route
  start-handler self server x = ground arith

module _ {R E X : Type 0} (driver : RelayDriver R) (platform : Platform E)
    (fills : Fills platform.fill_random) (httpd : Httpd X) (html : Text) where
  -- What holds between two inputs.
  pub record IsServing (p : Program R E X) : Type 0 where
    pub safe : IsSafe driver p.service p.world
    pub routed :
        p.server.handler
        ≡ some (make_request_handler html (service_control (ports driver platform)))

  perform-IsSafe :
      (c : Option Call) (s : CollectorService) (w : World R E)
      → IsSafe driver s w
      → let (s', w') = perform (ports driver platform) c s w in IsSafe driver s' w'
  perform-IsSafe none s w h = h
  perform-IsSafe (some c) s w h = serve-IsSafe driver platform fills c s w h

  -- A server that is up passes a request on to the service.
  pub dispatch-perform :
      (server : HttpServer (CollectorService × World R E)) (request : HttpdRequest)
      (s : CollectorService) (w : World R E) (x : X)
      → server.handler ≡ some (make_request_handler html (service_control (ports driver platform)))
      → (dispatch_request httpd server request (s, w) x).1
        ≡ perform
            (ports driver platform)
            (route_call (method_of httpd request) (c_str request.uri))
            s
            w
  unfolding dispatch_request
  dispatch-perform server request s w x h =
      request-perform (ports driver platform) html server (method_of httpd request)
        (c_str request.uri) s w h

  take_request-IsServing :
      (request : HttpdRequest) (p : Program R E X)
      → IsServing p
      → IsServing (take_request driver platform httpd html request p)
  unfolding take_request
  take_request-IsServing request p h = elim (Bool-cases (p.server.native_handle == nullptr)) [
    | inl down ↦ rw down h
    | inr up ↦ rw up (record {
      safe =
          subst (λ (q : CollectorService × World R E). IsSafe driver q.0 q.1)
            (sym (dispatch-perform p.server request p.service p.world p.httpd h.routed))
            (perform-IsSafe (route_call (method_of httpd request) (c_str request.uri)) p.service
              p.world h.safe);
      routed = h.routed;
    })
  ]

  pub step-IsServing :
      (i : Input) (p : Program R E X)
      → IsServing p
      → IsServing (step driver platform httpd html i p)
  unfolding step
  step-IsServing (calls c) p h = record {
    safe = serve-IsSafe driver platform fills c p.service p.world h.safe;
    routed = h.routed;
  }
  step-IsServing (requests request) p h = take_request-IsServing request p h

  pub run-IsServing :
      (is : List Input) (p : Program R E X)
      → IsServing p
      → IsServing (run driver platform httpd html is p)
  unfolding run
  run-IsServing [] p h = h
  run-IsServing (i ∷ is) p h = run-IsServing is _ (step-IsServing i p h)

  pub boot-IsServing :
      (mac : List ℕ) (delay : ℤ) (port : ℕ) (self : Pointer) (relay : R) (e : E) (x : X)
      (p : Program R E X)
      → boot driver platform httpd html mac delay port self relay e x ≡ some p
      → IsServing p
  unfolding boot start_server server_of HttpServer.new
  boot-IsServing mac delay port self relay e x p h =
      elim (Option-cases (app_main driver platform mac delay relay e)) [
        | inl missing ↦ let h' : none ≡ some p = rw (missing, boot) at h in cc
        | inr ((s, w), made) ↦
            let h' : some (start_server driver platform httpd html port self (s, w) x) ≡ some p =
              rw (made, boot) at h in
            subst IsServing (some-injective _ _ h') (record {
              safe = app_main-IsSafe driver platform fills mac delay relay e s w made;
              routed =
                  start-handler driver platform httpd html self
                    (server_of (port % 2 ^ 16) html (service_control (ports driver platform))) x;
            })
      ]

  pub run-server :
      (is : List Input) (p : Program R E X)
      → (run driver platform httpd html is p).server ≡ p.server
  unfolding run step take_request
  run-server [] p = refl
  run-server (calls c ∷ is) p = run-server is _
  run-server (requests request ∷ is) p =
      run-server is (take_request driver platform httpd html request p)
      ∙ take_request-server request p
    where
      take_request-server :
          (request : HttpdRequest) (p : Program R E X)
          → (take_request driver platform httpd html request p).server ≡ p.server
      take_request-server request p = ground arith

  -- Whatever calls of the service and whatever HTTP requests the program gets after `app_main`, if
  -- it has not aborted then the relay is on with the collector reported running or off with it
  -- reported stopped, and the collector is running if the mode is forced on and stopped if the mode
  -- is forced off. The random source fills a buffer with bytes.
  pub run-inputs-Obeys :
      (mac : List ℕ) (delay : ℤ) (port : ℕ) (self : Pointer) (relay : R) (e : E) (x : X)
      (is : List Input) (p : Program R E X)
      → boot driver platform httpd html mac delay port self relay e x ≡ some p
      → driver.Alive (run driver platform httpd html is p).world.unit.relay
      → let p' = run driver platform httpd html is p in
        Follows driver platform fills p'.world × Obeys p'.service.current_mode (state_of p'.world)
  run-inputs-Obeys mac delay port self relay e x is p h alive =
      let safe = (run-IsServing is p (boot-IsServing mac delay port self relay e x p h)).safe in
      (
        consistent-Follows driver platform fills (run driver platform httpd html is p).world
            safe.consistent alive,
        safe.obeys,
      )
