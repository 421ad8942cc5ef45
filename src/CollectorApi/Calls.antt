-- ===== src/CollectorApi/Calls.antt =====
-- Requests to collector_api as calls of the collector service.
use esp32_dust_extraction.Common.{
  ◌≡◌, refl, ◌||◌, Option, none, some, Text, text_eq, if◌then◌else◌, arith,
}
use esp32_dust_extraction.CollectorApi.{
  Method, get, post, handle, service_control, answer, error, mode_of, collector_path, start_path,
  stop_path, auto_mode_path, forced_on_mode_path, forced_off_mode_path,
}
use esp32_dust_extraction.CollectorService.{
  CollectorService, Ports, Call, starts, stops, selects, serve,
}

-- The call that a request amounts to, if any.
unfoldable pub call_of : Method → Text → Option Call
call_of get path = none
call_of post path =
    if text_eq path collector_path
    then none
    else if text_eq path auto_mode_path
        || (text_eq path forced_on_mode_path || text_eq path forced_off_mode_path)
    then some (selects (mode_of path))
    else if text_eq path start_path
    then some starts
    else if text_eq path stop_path
    then some stops
    else none

module _ {W : Type 0} (ports : Ports W) where
  abbrev pub perform : Option Call → CollectorService → W → CollectorService × W
  perform none s w = (s, w)
  perform (some c) s w = let (done, s', w') = serve ports c s w in (s', w')

  -- A request does to the service what its call does.
  pub handle-perform :
      (method : Method) (path : Text) (s : CollectorService) (w : W)
      → (handle (service_control ports) method path (s, w)).1 ≡ perform (call_of method path) s w
  unfolding handle answer service_control call_of serve
  handle-perform get path s w = ground arith
  handle-perform post path s w = ground arith

  -- The call is answered with 202 if the service grants it, and with 409 if not.
  pub handle-answer :
      (method : Method) (path : Text) (c : Call) (s : CollectorService) (w : W)
      → call_of method path ≡ some c
      → (handle (service_control ports) method path (s, w)).0.status
        ≡ (if (serve ports c s w).0 then 202 else 409)
  unfolding handle answer error service_control call_of serve
  handle-answer get path c s w h = cc
  handle-answer post path c s w h = ground (arith, h)

pub call_of-get : (path : Text) → call_of get path ≡ none
unfolding call_of
call_of-get path = refl
