-- ===== src/HttpRoutes/Calls.antt =====
-- Requests to the routes as calls of the collector service.
use esp32_dust_extraction.Common.{
  ◌≡◌, refl, Option, none, some, true, Text, codes, text_eq, if◌then◌else◌, arith,
}
use esp32_dust_extraction.CollectorService.{CollectorService, Ports, Call, serve, request_mode}
use esp32_dust_extraction.CollectorApi
use esp32_dust_extraction.CollectorApi.{service_control}
use esp32_dust_extraction.CollectorApi.Calls.{
  call_of, perform, handle-perform, handle-answer, call_of-get,
}
use esp32_dust_extraction.CollectorApi.Routes.{mode_path, handle_mode-status}
use esp32_dust_extraction.CollectorUnit.{CollectorMode, automatic, forced_on, forced_off}
use esp32_dust_extraction.HttpServer.{
  Method, get, post, unsupported, HttpServer, handle, call_handler,
}
use esp32_dust_extraction.HttpRoutes.{
  strip_query, starts_with, forward, api_prefix, make_request_handler,
}

-- The call that a request amounts to, if any.
unfoldable pub route_call : Method → Text → Option Call
route_call get path = none
route_call unsupported path = none
route_call post path =
    if text_eq (strip_query path) (codes "/")
    then none
    else if starts_with (strip_query path) api_prefix
    then call_of CollectorApi.post (strip_query path)
    else none

module _ {W : Type 0} (ports : Ports W) (html : Text) where
  routed-perform :
      (method : Method) (path : Text) (s : CollectorService) (w : W)
      → (make_request_handler html
          (service_control ports)
          (record { method = method; path = path })
          (s, w)).1
        ≡ perform ports (route_call method path) s w
  unfolding make_request_handler forward route_call
  routed-perform get path s w = ground (
    arith,
    handle-perform ports CollectorApi.get (strip_query path) s w,
    call_of-get (strip_query path),
  )
  routed-perform post path s w =
      ground (arith, handle-perform ports CollectorApi.post (strip_query path) s w)
  routed-perform unsupported path s w = ground arith

  -- A request does to the service what its call does, if the server has the routes for its handler.
  pub request-perform :
      (server : HttpServer (CollectorService × W)) (method : Method) (path : Text)
      (s : CollectorService) (w : W)
      → server.handler ≡ some (make_request_handler html (service_control ports))
      → (handle server (record { method = method; path = path }) (s, w)).1
        ≡ perform ports (route_call method path) s w
  unfolding handle call_handler route_call
  request-perform server get path s w h = rw h (routed-perform get path s w)
  request-perform server post path s w h = rw h (routed-perform post path s w)
  request-perform server unsupported path s w h = refl

  select-status :
      (m : CollectorMode) (s : CollectorService) (w : W)
      → (request_mode ports m s w).0 ≡ true
      → (make_request_handler html
          (service_control ports)
          (record { method = post; path = mode_path m })
          (s, w)).0.status
        ≡ 202
  unfolding make_request_handler forward strip_query starts_with text_eq mode_path
  select-status automatic s w h = handle_mode-status ports automatic s w h
  select-status forced_on s w h = handle_mode-status ports forced_on s w h
  select-status forced_off s w h = handle_mode-status ports forced_off s w h

  -- A request for a mode that the service grants is answered with 202.
  pub request-status :
      (server : HttpServer (CollectorService × W)) (m : CollectorMode) (s : CollectorService)
      (w : W)
      → server.handler ≡ some (make_request_handler html (service_control ports))
      → (request_mode ports m s w).0 ≡ true
      → (handle server (record { method = post; path = mode_path m }) (s, w)).0.status ≡ 202
  unfolding handle call_handler
  request-status server m s w h granted = rw h (select-status m s w granted)

  routed-answer :
      (method : Method) (path : Text) (c : Call) (s : CollectorService) (w : W)
      → route_call method path ≡ some c
      → (make_request_handler html
          (service_control ports)
          (record { method = method; path = path })
          (s, w)).0.status
        ≡ (if (serve ports c s w).0 then 202 else 409)
  unfolding make_request_handler forward route_call
  routed-answer get path c s w h = cc
  routed-answer unsupported path c s w h = cc
  routed-answer post path c s w h =
      ground (arith, h, handle-answer ports CollectorApi.post (strip_query path) c s w)

  -- A request that amounts to a call is answered with 202 if the service grants the call, and with
  -- 409 if not.
  pub request-answer :
      (server : HttpServer (CollectorService × W)) (method : Method) (path : Text) (c : Call)
      (s : CollectorService) (w : W)
      → server.handler ≡ some (make_request_handler html (service_control ports))
      → route_call method path ≡ some c
      → (handle server (record { method = method; path = path }) (s, w)).0.status
        ≡ (if (serve ports c s w).0 then 202 else 409)
  unfolding handle call_handler route_call
  request-answer server get path c s w h k = cc
  request-answer server post path c s w h k = rw h (routed-answer post path c s w k)
  request-answer server unsupported path c s w h k = cc
