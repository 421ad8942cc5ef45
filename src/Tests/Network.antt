-- ===== src/Tests/Network.antt =====
-- An HTTP server on a board that does what it is told, and the whole program on it.
use esp32_dust_extraction.Common.{
  ℕ, suc, ◌≡◌, ◌≢◌, ◌⊎◌, refl, ap, some, none, inl, true, false, List, [], ◌∷◌, ◌++◌, Text, codes,
  length, arith, c_str, take,
}
use esp32_dust_extraction.Common.Int.{pos}
use esp32_dust_extraction.CollectorUnit.{automatic, stopped, forced_on}
use esp32_dust_extraction.CollectorApi.{service_control}
use esp32_dust_extraction.CollectorApi.Routes.{mode_path}
use esp32_dust_extraction.CollectorService.{CollectorService, demands, starts, processes}
use esp32_dust_extraction.HttpServer
use esp32_dust_extraction.HttpServer.{HttpServer, Pointer, nullptr}
use esp32_dust_extraction.HttpServer.Esp.{
  Httpd, HttpdRequest, start, destroy, register_route, dispatch_request, status_line,
}
use esp32_dust_extraction.HttpServer.Esp.Lifecycle as Lifecycle
use esp32_dust_extraction.HttpServer.Esp.Lifecycle.{Contract, Trace, Owns, is_running, run-Trace}
use esp32_dust_extraction.HttpServer.Esp.Responses.{
  Reply, Responder, IsMethod, Sends, dispatch_request-Sends,
}
use esp32_dust_extraction.HttpRoutes.Requests.{server_of}
use esp32_dust_extraction.HttpRoutes.Statuses.{handle-line}
use esp32_dust_extraction.Relay.{RelayState, on}
use esp32_dust_extraction.App.{World, ports, device_uid_string}
use esp32_dust_extraction.App.Effects.{state_of}
use esp32_dust_extraction.App.Modes.{Obeys}
use esp32_dust_extraction.App.Boot.{Follows}
use esp32_dust_extraction.App.Server.{Program, Input, calls, requests, start_server, boot, run}
use esp32_dust_extraction.App.Server.Requests.{run-inputs-Obeys}
use esp32_dust_extraction.App.Server.Listening.{boot_listens}
use esp32_dust_extraction.Tests.Fixtures.{toy_relay, toy_platform, toy_fills, mac}
use esp32_dust_extraction.Tests.Program.{service, world, boots}

pub record Net : Type 0 where
  pub live : List Pointer
  pub stored_type : Text
  pub stored_status : Text
  pub sent : List Reply

abbrev tail : List ℕ → List ℕ
tail [] = []
tail (x ∷ xs) = xs

abbrev pub toy_httpd : Httpd Net
toy_httpd = record {
  http_get = 1;
  http_post = 3;
  esp_err_to_name = λ code. codes "ESP_FAIL";
  httpd_start =
      λ config x. (0, suc (length x.live), record x { live = suc (length x.live) ∷ x.live });
  httpd_register_uri_handler = λ handle route x. (0, x);
  httpd_stop = λ handle x. (0, record x { live = tail x.live });
  httpd_resp_set_type = λ r t x. (0, record x { stored_type = t });
  httpd_resp_set_status = λ r t x. (0, record x { stored_status = t });
  httpd_resp_send = λ r t n x. (
    0,
    record x {
      sent =
          x.sent
          ++ record { content_type = x.stored_type; status = x.stored_status; body = take n t }
            ∷ [];
    },
  );
}

toy-Contract : Contract toy_httpd (λ x. x.live)
toy-Contract = record {
  start_ok = λ config x ok. (omega arith, refl);
  start_failed = λ config x failed. absurd (failed refl);
  register_live = λ handle route x. refl;
  stop_live = λ handle others x nonnull up. (refl, ap tail up);
}

toy-Responder : Responder toy_httpd (λ r x. x.stored_type) (λ r x. x.stored_status) (λ x. x.sent)
toy-Responder = record {
  type_unsent = λ r t x. refl;
  type_stored = λ r t x ok. refl;
  status_unsent = λ r t x. refl;
  status_stored = λ r t x ok. (refl, refl);
  send_ok = λ r t n x ok. refl;
}

abbrev pub net : Net
net = record {
  live = [];
  stored_type = codes "text/html";
  stored_status = codes "200 OK";
  sent = [];
}

abbrev idle : HttpServer (Unit {0})
idle = record { config = record { port = 80 }; handler = none; native_handle = 0 }

abbrev restarts : List Lifecycle.Call
restarts = Lifecycle.starts ∷ Lifecycle.starts ∷ Lifecycle.stops ∷ Lifecycle.stops ∷ []

run-Trace_example :
    let (messages, server', x') = Lifecycle.run toy_httpd 5 restarts idle net in
    Trace restarts (is_running idle) messages (is_running server')
    × Owns (λ x. x.live) [] server' x'
    × ((destroy toy_httpd server' x').live ≡ [])
run-Trace_example =
    run-Trace toy_httpd 5 (λ x. x.live) toy-Contract [] restarts idle net (inl (refl, refl))

abbrev pub page : Text
page = codes "<html></html>"

abbrev routed : HttpServer (CollectorService × World RelayState ℕ)
routed = server_of 80 page (service_control (ports toy_relay toy_platform))

-- POST /api/v1/collector/mode/forced-on?a, with the path's end in front of some more bytes.
abbrev request : HttpdRequest
request = record {
  address = 9;
  method = 3;
  uri = mode_path forced_on ++ codes "?a" ++ 0 ∷ codes "b";
}

dispatch_request-Sends_example :
    (method : HttpServer.Method) × IsMethod toy_httpd request method
    × (let (response, handled) =
          HttpServer.handle routed
            (record { method = method; path = c_str request.uri })
            (service, world) in
        let (result, w', x') = dispatch_request toy_httpd routed request (service, world) net in
        (w' ≡ handled)
        × Sends toy_httpd
            (λ r x. x.stored_type)
            (λ r x. x.stored_status)
            (λ x. x.sent)
            request.address
            response
            net
            (result, x'))
dispatch_request-Sends_example =
    dispatch_request-Sends toy_httpd (λ r x. x.stored_type) (λ r x. x.stored_status) (λ x. x.sent)
      toy-Responder routed request (service, world) net

handle-line_example :
    let line = c_str (
      status_line
        (HttpServer.handle routed
          (record { method = HttpServer.post; path = mode_path forced_on })
          (service, world)).0.status) in
    (line ≡ codes "200 OK")
    ⊎ (line ≡ codes "202 Accepted")
    ⊎ (line ≡ codes "404 Not Found")
    ⊎ (line ≡ codes "405 Method Not Allowed")
    ⊎ (line ≡ codes "409 Conflict")
handle-line_example =
    handle-line page (service_control (ports toy_relay toy_platform)) 80 HttpServer.post
      (mode_path forced_on) (service, world)

abbrev pub program : Program RelayState ℕ Net
program = start_server toy_relay toy_platform toy_httpd page 80 5 (service, world) net

pub listening :
    boot toy_relay toy_platform toy_httpd page mac (pos 1000) 80 5 on 0 net ≡ some program
unfolding boot start_server
listening = rw (boots, boot)

pub program_up : program.server.native_handle ≢ nullptr
unfolding start_server start register_route server_of HttpServer.new
program_up = omega arith

abbrev pub inputs : List Input
inputs =
    calls (demands true)
    ∷ requests (record { address = 9; method = 3; uri = mode_path forced_on })
    ∷ calls processes
    ∷ requests (record { address = 9; method = 1; uri = codes "/" })
    ∷ calls starts
    ∷ []

run-inputs-Obeys_example :
    let p = run toy_relay toy_platform toy_httpd page inputs program in
    Follows toy_relay toy_platform toy_fills p.world
    × Obeys p.service.current_mode (state_of p.world)
run-inputs-Obeys_example =
    run-inputs-Obeys toy_relay toy_platform toy_fills toy_httpd page mac (pos 1000) 80 5 on 0 net
      inputs program listening tt

abbrev pub selection : HttpdRequest
selection = record { address = 9; method = 3; uri = mode_path automatic }

boot_listens_example :
    (p : Program RelayState ℕ Net) × (boot toy_relay toy_platform toy_httpd page mac
        (pos 1000)
        80
        5
        on
        0
        net
      ≡ some p)
    × (p.error ≡ [])
    × (p.server.native_handle ≢ nullptr)
    × (p.service.current_mode ≡ automatic)
    × (p.service.has_demand ≡ false)
    × (p.service.uid.value ≡ device_uid_string mac)
    × (state_of p.world ≡ stopped)
boot_listens_example =
    boot_listens toy_relay toy_platform toy_httpd page mac (pos 1000) 80 5 on 0 net refl
      (omega arith) (omega arith) (refl, omega arith, refl)
