-- ===== src/CollectorApi/Routes.antt =====
-- The handler of collector_api: what its status codes say of the state behind it.
use esp32_dust_extraction.Common.{◌≡◌, ◌≢◌, ◌⊎◌, refl, Text, arith, codes, text_eq, true}
use esp32_dust_extraction.CollectorUnit.{CollectorMode, automatic, forced_on, forced_off}
use esp32_dust_extraction.CollectorApi.{
  Method, get, post, ICollectorControl, handle, service_control, answer, error, state_json, mode_of,
}
use esp32_dust_extraction.CollectorService.{CollectorService, Ports, request_mode}
use esp32_dust_extraction.CollectorService.Invariant.{IsValid, request_mode_atomic}

-- A GET request changes nothing, whatever its path and whatever the API controls.
pub handle-get :
    {W : Type 0} (control : ICollectorControl W) (path : Text) (w : W)
    → (handle control get path w).1 ≡ w
unfolding handle
handle-get control path w = ground arith

-- The path that the interface documents for a mode.
unfoldable pub mode_path : CollectorMode → Text
mode_path automatic = codes "/api/v1/collector/mode/auto"
mode_path forced_on = codes "/api/v1/collector/mode/forced-on"
mode_path forced_off = codes "/api/v1/collector/mode/forced-off"

module _ {W : Type 0} (ports : Ports W) where
  handle-mode_path :
      (requested : CollectorMode) (s : CollectorService) (w : W)
      → handle (service_control ports) post (mode_path requested) (s, w)
        ≡ answer
            (service_control ports)
            (codes "mode request not permitted or output not delivered")
            ((service_control ports).request_mode requested (s, w))
  unfolding handle mode_path mode_of text_eq
  handle-mode_path automatic s w = refl
  handle-mode_path forced_on s w = refl
  handle-mode_path forced_off s w = refl

  -- If the service grants the mode, the answer is 202.
  pub handle_mode-status :
      (requested : CollectorMode) (s : CollectorService) (w : W)
      → (request_mode ports requested s w).0 ≡ true
      → (handle (service_control ports) post (mode_path requested) (s, w)).0.status ≡ 202
  unfolding answer service_control
  handle_mode-status requested s w h = rw (handle-mode_path requested s w) (ground arith)

  -- A POST request to the path of a mode is answered with 202 or 409. After 202 the service is in
  -- that mode, its demand is what it was, and the body is the state after the change; after 409
  -- the service is what it was. The service is valid before.
  pub handle_mode :
      (requested : CollectorMode) (s : CollectorService) (w : W)
      → IsValid s
      → let (response, (s', w')) =
          handle (service_control ports) post (mode_path requested) (s, w) in
        ((response.status ≡ 202)
          × (response.body ≡ state_json (service_control ports) (s', w'))
          × (s'.current_mode ≡ requested)
          × (s'.has_demand ≡ s.has_demand))
        ⊎ ((response.status ≡ 409) × (s' ≡ s))
  unfolding answer error service_control
  handle_mode requested s w v =
      rw (handle-mode_path requested s w)
        (ground (arith, request_mode_atomic ports requested s w v))

  -- Whatever the request, a status other than 202 says that the service is what it was, if it was
  -- valid.
  pub handle_unaccepted :
      (method : Method) (path : Text) (s : CollectorService) (w : W)
      → IsValid s
      → (handle (service_control ports) method path (s, w)).0.status ≢ 202
      → (handle (service_control ports) method path (s, w)).1.0 ≡ s
  unfolding handle answer error service_control
  handle_unaccepted get path s w v h = ground arith
  handle_unaccepted post path s w v h =
      ground (arith, request_mode_atomic ports (mode_of path) s w v)
