-- ===== src/App/Server/Selection.antt =====
-- A request for a mode, answered by the whole program.
use esp32_dust_extraction.Common.{
  c_str, ℕ, ◌≡◌, ◌≢◌, refl, sym, subst, ap, ◌∙◌, inl, inr, some, List, Text, ◌==◌, arith, text_eq,
  Bool-cases,
}
use esp32_dust_extraction.Common.Int.{ℤ}
use esp32_dust_extraction.EventIdGenerator.Version.{Fills}
use esp32_dust_extraction.CollectorUnit.{CollectorMode, automatic, forced_on, forced_off}
use esp32_dust_extraction.Relay.{RelayDriver}
use esp32_dust_extraction.CollectorService.{selects, serve}
use esp32_dust_extraction.CollectorApi.{mode_of}
use esp32_dust_extraction.CollectorApi.Calls.{call_of}
use esp32_dust_extraction.CollectorApi.Routes.{mode_path}
use esp32_dust_extraction.HttpServer
use esp32_dust_extraction.HttpServer.{HttpServer, Pointer, nullptr, call_handler}
use esp32_dust_extraction.HttpServer.Esp.{Httpd, HttpdRequest, method_of}
use esp32_dust_extraction.HttpRoutes.{strip_query, starts_with}
use esp32_dust_extraction.HttpRoutes.Calls.{route_call, request-status}
use esp32_dust_extraction.App.{Platform, ports}
use esp32_dust_extraction.App.Effects.{state_of}
use esp32_dust_extraction.App.Modes.{Obeys, request_mode-Effect}
use esp32_dust_extraction.App.Server.{Program, Input, boot, take_request, run}
use esp32_dust_extraction.App.Server.Requests.{
  IsServing, dispatch-perform, run-IsServing, boot-IsServing, run-server,
}

module _ {R E X : Type 0} (httpd : Httpd X) where
  -- The response to a request at the program.
  abbrev pub response_to : HttpdRequest → Program R E X → HttpServer.Response
  response_to request p =
      (HttpServer.handle p.server
        (record { method = method_of httpd request; path = c_str request.uri })
        (p.service, p.world)).0

module _ {R E X : Type 0} (driver : RelayDriver R) (platform : Platform E)
    (fills : Fills platform.fill_random) (httpd : Httpd X) (html : Text) where
  -- The call that the documented path of a mode stands for.
  select_call :
      (m : CollectorMode) → route_call HttpServer.post (c_str (mode_path m)) ≡ some (selects m)
  unfolding route_call c_str mode_path strip_query starts_with call_of mode_of text_eq
  select_call automatic = refl
  select_call forced_on = refl
  select_call forced_off = refl

  same_path : (m : CollectorMode) → c_str (mode_path m) ≡ mode_path m
  unfolding c_str mode_path
  same_path automatic = refl
  same_path forced_on = refl
  same_path forced_off = refl

  is_post :
      (request : HttpdRequest)
      → httpd.http_get ≢ httpd.http_post
      → request.method ≡ httpd.http_post
      → method_of httpd request ≡ HttpServer.post
  unfolding method_of
  is_post request apart posted = ground arith

  selected :
      (m : CollectorMode) (request : HttpdRequest)
      → httpd.http_get ≢ httpd.http_post
      → request.method ≡ httpd.http_post
      → request.uri ≡ mode_path m
      → route_call (method_of httpd request) (c_str request.uri) ≡ some (selects m)
  selected m request apart posted at = rw (is_post request apart posted, at) (select_call m)

  take_request-select :
      (m : CollectorMode) (request : HttpdRequest) (p : Program R E X)
      → IsServing driver platform fills httpd html p
      → p.server.native_handle ≢ nullptr
      → route_call (method_of httpd request) (c_str request.uri) ≡ some (selects m)
      → let p' = take_request driver platform httpd html request p in
        (p'.service.current_mode ≡ m) × Obeys m (state_of p'.world)
  unfolding take_request serve
  take_request-select m request p h up call =
      let (done, chosen, uid, effect, obeyed) =
        request_mode-Effect driver platform fills m p.service p.world h.safe.wired
          h.safe.consistent in
      elim (Bool-cases (p.server.native_handle == nullptr)) [
        | inl down ↦ absurd (ground arith)
        | inr open_handle ↦
            rw
              (
                open_handle,
                dispatch-perform driver platform fills httpd html p.server request p.service p.world
                    p.httpd h.routed,
                call,
              )
              (chosen, obeyed)
      ]

  abbrev asked : HttpdRequest → HttpServer.Request
  asked request = record { method = method_of httpd request; path = c_str request.uri }

  abbrev select : CollectorMode → HttpServer.Request
  select m = record { method = HttpServer.post; path = mode_path m }

  select-response :
      (m : CollectorMode) (request : HttpdRequest) (p : Program R E X)
      → IsServing driver platform fills httpd html p
      → httpd.http_get ≢ httpd.http_post
      → request.method ≡ httpd.http_post
      → request.uri ≡ mode_path m
      → (response_to httpd request p).status ≡ 202
  select-response m request p h apart posted at =
      let (done, chosen, uid, effect, obeyed) =
        request_mode-Effect driver platform fills m p.service p.world h.safe.wired
          h.safe.consistent in
      let posted' = is_post request apart posted in
      let at' = ap c_str at ∙ same_path m in
      let same : asked request ≡ select m = λ i. record { method = posted' i; path = at' i } in
      subst
        (λ (r : HttpServer.Request).
          (HttpServer.handle p.server r (p.service, p.world)).0.status ≡ 202)
        (sym same)
        (request-status (ports driver platform) html p.server m p.service p.world h.routed done)

  -- If the server is up once `app_main` is through, then after whatever calls of the service and
  -- HTTP requests a POST request to the path of a mode is answered with 202 and brings the service
  -- to that mode and the collector to a state that the mode allows. The methods GET and POST have
  -- different numbers, and the random source fills a buffer with bytes.
  pub run-inputs-select :
      (mac : List ℕ) (delay : ℤ) (port : ℕ) (self : Pointer) (relay : R) (e : E) (x : X)
      (is : List Input) (p : Program R E X) (m : CollectorMode) (request : HttpdRequest)
      → boot driver platform httpd html mac delay port self relay e x ≡ some p
      → p.server.native_handle ≢ nullptr
      → httpd.http_get ≢ httpd.http_post
      → request.method ≡ httpd.http_post
      → request.uri ≡ mode_path m
      → let p' =
          take_request driver platform httpd html request (run driver platform httpd html is p) in
        ((response_to httpd request (run driver platform httpd html is p)).status ≡ 202)
        × (p'.service.current_mode ≡ m)
        × Obeys m (state_of p'.world)
  run-inputs-select mac delay port self relay e x is p m request h up apart posted at =
      let p' = run driver platform httpd html is p in
      let serving =
        run-IsServing driver platform fills httpd html is p
          (boot-IsServing driver platform fills httpd html mac delay port self relay e x p h) in
      let (chosen, obeyed) =
        take_request-select m request p' serving
          (rw (run-server driver platform fills httpd html is p) up)
          (selected m request apart posted at) in
      (select-response m request p' serving apart posted at, chosen, obeyed)
