-- ===== src/App/Server/Listening.antt =====
-- `app_main` runs to its end.
use esp32_dust_extraction.Common.{
  ℕ, ◌≡◌, ◌≢◌, refl, some, List, [], codes, true, false, arith, length, ◌%◌, ◌^◌, Text,
}
use esp32_dust_extraction.Common.Int.{ℤ}
use esp32_dust_extraction.Event.EventId.Bytes.{AreBytes}
use esp32_dust_extraction.CollectorUnit.{automatic, stopped}
use esp32_dust_extraction.Relay.{RelayDriver}
use esp32_dust_extraction.CollectorApi.{service_control}
use esp32_dust_extraction.HttpServer
use esp32_dust_extraction.HttpServer.{HttpServer, Pointer, nullptr}
use esp32_dust_extraction.HttpServer.Esp.{
  Httpd, HttpdConfig, HttpdUri, esp_ok, start, register_route,
}
use esp32_dust_extraction.HttpRoutes.Requests.{server_of}
use esp32_dust_extraction.App.{Platform, ports, device_uid_string}
use esp32_dust_extraction.App.Effects.{state_of}
use esp32_dust_extraction.App.Boot.{app_main_starts}
use esp32_dust_extraction.App.Server.{Program, start_server, boot}

module _ {X : Type 0} (httpd : Httpd X) (self : Pointer) where
  -- The functions that `start` calls succeed, and the handle is not null.
  abbrev pub Succeeds : ℕ → X → Type 0
  Succeeds port x =
      let config : HttpdConfig = record { server_port = port; match_wildcard = true } in
      let route : HttpdUri = record { uri = codes "/*"; any_method = true; user_ctx = self } in
      let (result, handle, x₁) = httpd.httpd_start config x in
      (result ≡ esp_ok)
      × (handle ≢ nullptr)
      × ((httpd.httpd_register_uri_handler handle route x₁).0 ≡ esp_ok)

  start-Succeeds :
      {W : Type 0} (server : HttpServer W) (x : X)
      → server.config.port ≢ 0
      → server.native_handle ≡ nullptr
      → Succeeds server.config.port x
      → let (error, server', x') = start httpd self server x in
        (error ≡ []) × (server'.native_handle ≢ nullptr)
  unfolding start register_route
  start-Succeeds server x h down ok = ground arith

module _ {R E X : Type 0} (driver : RelayDriver R) (platform : Platform E) (httpd : Httpd X)
    (html : Text) where
  -- With a MAC address of six bytes, a port that is not 0 in its 16 bits, and httpd functions that
  -- succeed, none of the three early returns of `app_main` is taken: the server is up with no
  -- error, the service is in automatic mode with no demand under the UID made of the address, and
  -- the collector is stopped.
  pub boot_listens :
      (mac : List ℕ) (delay : ℤ) (port : ℕ) (self : Pointer) (relay : R) (e : E) (x : X)
      → length mac ≡ 6
      → AreBytes mac
      → port % 2 ^ 16 ≢ 0
      → Succeeds httpd self (port % 2 ^ 16) x
      → (p : Program R E X) × (boot driver platform httpd html mac delay port self relay e x
          ≡ some p)
        × (p.error ≡ [])
        × (p.server.native_handle ≢ nullptr)
        × (p.service.current_mode ≡ automatic)
        × (p.service.has_demand ≡ false)
        × (p.service.uid.value ≡ device_uid_string mac)
        × (state_of p.world ≡ stopped)
  unfolding boot start_server server_of HttpServer.new
  boot_listens mac delay port self relay e x sized bytes nonzero ok =
      let (s, w, made, auto, idle, named, at_rest) =
        app_main_starts driver platform mac delay relay e sized bytes in
      let server = server_of (port % 2 ^ 16) html (service_control (ports driver platform)) in
      let (no_error, up) = start-Succeeds httpd self server x nonzero refl ok in
      (
        start_server driver platform httpd html port self (s, w) x,
        rw (made, boot) refl,
        no_error,
        up,
        auto,
        idle,
        named,
        at_rest,
      )
