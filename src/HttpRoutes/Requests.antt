-- ===== src/HttpRoutes/Requests.antt =====
-- Requests to the HTTP server whose handler is `make_request_handler`, as firmware/main/main.cpp
-- starts it.
use esp32_dust_extraction.Common.{
  ℕ, ◌≡◌, ◌≢◌, ◌⊎◌, refl, true, ◌==◌, ◌||◌, some, [], ◌∷◌, ◌++◌, Text, text_eq, arith,
}
use esp32_dust_extraction.CollectorUnit.{CollectorMode, automatic, forced_on, forced_off}
use esp32_dust_extraction.CollectorService.{CollectorService, Ports}
use esp32_dust_extraction.CollectorService.Invariant.{IsValid}
use esp32_dust_extraction.CollectorApi.{ICollectorControl, service_control, state_json}
use esp32_dust_extraction.CollectorApi.Routes.{mode_path, handle-get, handle_mode}
use esp32_dust_extraction.HttpServer
use esp32_dust_extraction.HttpServer.{
  Method, get, post, unsupported, HttpServer, handle, call_handler,
}
use esp32_dust_extraction.HttpRoutes.{strip_query, starts_with, forward, make_request_handler}

strip_query-append :
    (path query : Text) (mark : ℕ)
    → ((mark == 63) || (mark == 35)) ≡ true
    → strip_query (path ++ mark ∷ query) ≡ strip_query path
unfolding strip_query
strip_query-append [] query mark h = ground (arith, h)
strip_query-append (c ∷ path) query mark h = ground (arith, strip_query-append path query mark h)

-- The server with the routes.
unfoldable pub server_of : {W : Type 0} → ℕ → Text → ICollectorControl W → HttpServer W
server_of port html api =
    HttpServer.new (record { port = port }) (some (make_request_handler html api))

module _ {W : Type 0} (port : ℕ) (html : Text) where
  -- A query or a fragment behind the path, from a `?` (63) or a `#` (35) on, changes neither the
  -- response nor the effect of a request.
  pub handle-query :
      (api : ICollectorControl W) (method : Method) (path query : Text) (mark : ℕ) (w : W)
      → ((mark == 63) || (mark == 35)) ≡ true
      → handle (server_of port html api) (record { method = method; path = path ++ mark ∷ query }) w
        ≡ handle (server_of port html api) (record { method = method; path = path }) w
  unfolding handle call_handler server_of HttpServer.new make_request_handler
  handle-query api method path query mark w h = rw (strip_query-append path query mark h) refl

  -- A request to the server with the routes that is not a POST changes nothing, whatever the API
  -- controls.
  pub handle-not_post :
      (api : ICollectorControl W) (method : Method) (path : Text) (w : W)
      → method ≢ post
      → (handle (server_of port html api) (record { method = method; path = path }) w).1 ≡ w
  unfolding handle call_handler server_of HttpServer.new make_request_handler forward
  handle-not_post api get path w h = ground (arith, handle-get api (strip_query path) w)
  handle-not_post api post path w h = absurd (h refl)
  handle-not_post api unsupported path w h = refl

  -- A POST request to the path of a mode reaches the collector service. After 202 the service is in
  -- that mode and the body tells the state after the change; after 409 the service is what it was.
  -- There is no other status. The service is valid before.
  pub handle_select :
      (ports : Ports W) (requested : CollectorMode) (s : CollectorService) (w : W)
      → IsValid s
      → let (response, (s', w')) =
          handle
            (server_of port html (service_control ports))
            (record { method = post; path = mode_path requested })
            (s, w) in
        ((response.status ≡ 202)
          × (response.body ≡ state_json (service_control ports) (s', w'))
          × (s'.current_mode ≡ requested)
          × (s'.has_demand ≡ s.has_demand))
        ⊎ ((response.status ≡ 409) × (s' ≡ s))
  unfolding handle call_handler server_of HttpServer.new make_request_handler forward strip_query
      starts_with text_eq mode_path
  handle_select ports automatic s w v = handle_mode ports automatic s w v
  handle_select ports forced_on s w v = handle_mode ports forced_on s w v
  handle_select ports forced_off s w v = handle_mode ports forced_off s w v
