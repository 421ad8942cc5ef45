-- ===== src/App/Server/Reports.antt =====
-- The state that the whole program reports to a client.
use esp32_dust_extraction.Common.{
  c_str, ℕ, ◌≡◌, refl, sym, ap, ◌∙◌, inl, inr, some, List, Text, ◌==◌, arith, text_eq, Bool-cases,
}
use esp32_dust_extraction.Common.Int.{ℤ}
use esp32_dust_extraction.Event.DeviceUid
use esp32_dust_extraction.Event.DeviceUid.{is_device_type_character}
use esp32_dust_extraction.EventIdGenerator.Version.{Fills}
use esp32_dust_extraction.Relay.{RelayDriver}
use esp32_dust_extraction.CollectorService.{CollectorService, Call, serve}
use esp32_dust_extraction.CollectorService
use esp32_dust_extraction.CollectorApi.{service_control, state_json, collector_path}
use esp32_dust_extraction.CollectorApi
use esp32_dust_extraction.HttpServer
use esp32_dust_extraction.HttpServer.{HttpServer, Pointer, nullptr, call_handler, json_type}
use esp32_dust_extraction.HttpServer.Esp.{Httpd, HttpdRequest, method_of, dispatch_request}
use esp32_dust_extraction.HttpRoutes.{make_request_handler, forward, strip_query, starts_with}
use esp32_dust_extraction.RelayBackedCollectorUnit
use esp32_dust_extraction.App.{Platform, World, ports, device_uid_string}
use esp32_dust_extraction.App.Effects.{state_of}
use esp32_dust_extraction.App.Server.{Program, Input, boot, take_request, run}
use esp32_dust_extraction.App.Server.Requests.{IsServing, run-IsServing, boot-IsServing}
use esp32_dust_extraction.App.Server.Selection.{response_to}
use esp32_dust_extraction.CollectorApi.Json.Bodies.{read_report, read_report-state_json}
use esp32_dust_extraction.App.Server.DeviceUids.{boot-uid, run-uid, seen_uid}

module _ {R E X : Type 0} (driver : RelayDriver R) (platform : Platform E)
    (fills : Fills platform.fill_random) (httpd : Httpd X) (html : Text) where
  abbrev Serving : Program R E X → Type 0
  Serving p = IsServing driver platform fills httpd html p

  report-response :
      (p : Program R E X)
      → Serving p
      → HttpServer.handle p.server
          (record { method = HttpServer.get; path = collector_path })
          (p.service, p.world)
        ≡ (
          record {
            status = 200;
            body = state_json (service_control (ports driver platform)) (p.service, p.world);
            content_type = json_type;
          },
          (p.service, p.world),
        )
  unfolding HttpServer.handle call_handler make_request_handler forward strip_query starts_with
      text_eq CollectorApi.handle
  report-response p h = rw h.routed refl

  asks :
      (request : HttpdRequest)
      → request.method ≡ httpd.http_get
      → request.uri ≡ collector_path
      → ◌≡◌ {A = HttpServer.Request}
          (record { method = method_of httpd request; path = c_str request.uri })
          (record { method = HttpServer.get; path = collector_path })
  unfolding method_of c_str
  asks request gets at =
      let got : method_of httpd request ≡ HttpServer.get = ground arith in
      let path : c_str request.uri ≡ collector_path = rw at refl in
      λ i. record { method = got i; path = path i }

  abbrev state_response : Program R E X → HttpServer.Response
  state_response p = record {
    status = 200;
    body = state_json (service_control (ports driver platform)) (p.service, p.world);
    content_type = json_type;
  }

  answered :
      (p : Program R E X) (request : HttpdRequest)
      → Serving p
      → request.method ≡ httpd.http_get
      → request.uri ≡ collector_path
      → HttpServer.handle p.server
          (record { method = method_of httpd request; path = c_str request.uri })
          (p.service, p.world)
        ≡ (state_response p, (p.service, p.world))
  answered p request h gets at =
      ap (λ (r : HttpServer.Request). HttpServer.handle p.server r (p.service, p.world))
        (asks request gets at)
      ∙ report-response p h

  take_request_kept :
      (p : Program R E X) (request : HttpdRequest)
      → Serving p
      → request.method ≡ httpd.http_get
      → request.uri ≡ collector_path
      → let p' = take_request driver platform httpd html request p in
        (p'.service ≡ p.service) × (p'.world ≡ p.world)
  unfolding take_request dispatch_request
  take_request_kept p request h gets at =
      let same = answered p request h gets at in
      elim (Bool-cases (p.server.native_handle == nullptr)) [
        | inl down ↦ rw down (refl, refl)
        | inr up ↦ rw up (
          ap (λ (r : HttpServer.Response × (CollectorService × World R E)). r.1.0) same,
          ap (λ (r : HttpServer.Response × (CollectorService × World R E)). r.1.1) same,
        )
      ]

  reported :
      (mac : List ℕ) (p : Program R E X)
      → DeviceUid.from_string (device_uid_string mac) ≡ some p.service.uid
      → read_report (state_response p).body
        ≡ some (record {
          state = state_of p.world;
          mode = p.service.current_mode;
          device_uid = device_uid_string mac;
          demand_active = p.service.has_demand;
          demand_suppressed = CollectorService.demand_suppressed p.service;
        })
  unfolding RelayBackedCollectorUnit.state service_control ports CollectorService.state
      CollectorService.mode CollectorService.device_uid CollectorService.demand_active
  reported mac p named =
      rw
        (
          read_report-state_json (service_control (ports driver platform)) (p.service, p.world),
          seen_uid (device_uid_string mac) p.service.uid named,
        )
        refl

  -- After whatever calls of the service and HTTP requests the program got since `app_main`, `handle`
  -- of the server answers a GET request to the path of the collector with 200 and JSON that reads
  -- as the report of the mode, the demand, the state of the collector unit and the Device UID made
  -- of the MAC address, and the request changes neither the service nor the world. The random
  -- source fills a buffer with bytes.
  pub run-inputs-report :
      (mac : List ℕ) (delay : ℤ) (port : ℕ) (self : Pointer) (relay : R) (e : E) (x : X)
      (is : List Input) (p : Program R E X) (request : HttpdRequest)
      → boot driver platform httpd html mac delay port self relay e x ≡ some p
      → request.method ≡ httpd.http_get
      → request.uri ≡ collector_path
      → let p' = run driver platform httpd html is p in
        let response = response_to httpd request p' in
        let p'' = take_request driver platform httpd html request p' in
        (response.status ≡ 200)
        × (response.content_type ≡ json_type)
        × (read_report response.body
            ≡ some (record {
              state = state_of p'.world;
              mode = p'.service.current_mode;
              device_uid = device_uid_string mac;
              demand_active = p'.service.has_demand;
              demand_suppressed = CollectorService.demand_suppressed p'.service;
            }))
        × (p''.service ≡ p'.service)
        × (p''.world ≡ p'.world)
  run-inputs-report mac delay port self relay e x is p request h gets at =
      let p' = run driver platform httpd html is p in
      let booted =
        boot-IsServing driver platform fills httpd html mac delay port self relay e x p h in
      let serving = run-IsServing driver platform fills httpd html is p booted in
      let same =
        ap (λ (r : HttpServer.Response × (CollectorService × World R E)). r.0)
          (answered p' request serving gets at) in
      let named =
        boot-uid driver platform fills httpd html mac delay port self relay e x p h
        ∙ ap some (sym (run-uid driver platform fills httpd html is p booted)) in
      let (same_service, same_world) = take_request_kept p' request serving gets at in
      (
        ap (λ (r : HttpServer.Response). r.status) same,
        ap (λ (r : HttpServer.Response). r.content_type) same,
        ap (λ (r : HttpServer.Response). read_report r.body) same ∙ reported mac p' named,
        same_service,
        same_world,
      )
