-- ===== src/App/Server.antt =====
-- The end of `app_main`: the HTTP server on the board, and the requests that it takes.
pub mod Requests
pub mod Selection
pub mod Inputs
pub mod Answers
pub mod Listening
pub mod DeviceUids
pub mod Reports
pub mod Relays
use esp32_dust_extraction.Common.{
  ℕ, ◌%◌, ◌^◌, Bool, true, false, not, Option, none, some, List, [], ◌∷◌, Text, ◌==◌, if◌then◌else◌,
}
use esp32_dust_extraction.Common.Int.{ℤ}
use esp32_dust_extraction.CollectorService.{CollectorService, Call, serve}
use esp32_dust_extraction.Relay.{RelayDriver}
use esp32_dust_extraction.CollectorApi.{service_control}
use esp32_dust_extraction.HttpServer.{HttpServer, Pointer, nullptr}
use esp32_dust_extraction.HttpServer.Esp.{Httpd, HttpdRequest, start, dispatch_request}
use esp32_dust_extraction.HttpRoutes.Requests.{server_of}
use esp32_dust_extraction.App.{Platform, World, ports, app_main}

-- The static objects of `app_main` once the server has been asked to start. `error` is what
-- `start` returned; the handler of the server refers to the service and the world.
pub record Program (R E X : Type 0) : Type 0 where
  pub service : CollectorService
  pub world : World R E
  pub server : HttpServer (CollectorService × World R E)
  pub httpd : X
  pub error : Text

-- What reaches the program from outside: a call of the service, or a request to the server.
pub data Input : Type 0 where
  calls : Call → Input
  requests : HttpdRequest → Input

module _ {R E X : Type 0} (driver : RelayDriver R) (platform : Platform E) (httpd : Httpd X)
    (html : Text) where
  -- The port is cast to a `std::uint16_t`; `self` is the address of the server.
  unfoldable pub start_server : ℕ → Pointer → CollectorService × World R E → X → Program R E X
  start_server port self (s, w) x =
      let server = server_of (port % 2 ^ 16) html (service_control (ports driver platform)) in
      let (error, server', x') = start httpd self server x in
      record { service = s; world = w; server = server'; httpd = x'; error = error }

  -- The whole of `app_main`.
  unfoldable pub boot : List ℕ → ℤ → ℕ → Pointer → R → E → X → Option (Program R E X)
  unfolding start_server
  boot mac start_delay port self relay e x =
      elim (app_main driver platform mac start_delay relay e) [
        | none ↦ none
        | some made ↦ some (start_server port self made x)
      ]

  -- A server that is not up takes no request.
  unfoldable pub take_request : HttpdRequest → Program R E X → Program R E X
  take_request request p =
      if p.server.native_handle == nullptr
      then p
      else (let (result, (s, w), x) =
            dispatch_request httpd p.server request (p.service, p.world) p.httpd in
          record p { service = s; world = w; httpd = x })

  unfoldable pub step : Input → Program R E X → Program R E X
  unfolding take_request
  step (calls c) p =
      let (done, s, w) = serve (ports driver platform) c p.service p.world in
      record p { service = s; world = w }
  step (requests request) p = take_request request p

  unfoldable pub run : List Input → Program R E X → Program R E X
  run [] p = p
  run (i ∷ is) p = run is (step i p)
