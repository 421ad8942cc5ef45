-- ===== src/CollectorApi.antt =====
-- firmware/components/collector_api: the routes under /api/v1/collector. The port that the API
-- depends on is the interface `ICollectorControl` over a state `W`, and `service_control` fills it
-- with the collector service, as the source does by inheritance.
pub mod Json
pub mod Routes
pub mod Calls
use esp32_dust_extraction.Common.{
  ℕ, Bool, true, false, ◌&&◌, ◌||◌, ◌<◌, [], ◌∷◌, ◌++◌, Text, codes, text_eq, ltb, ◌==◌, not,
  if◌then◌else◌,
}
use esp32_dust_extraction.CollectorUnit.{
  CollectorState, stopped, starting, running, stopping, faulted, CollectorMode, automatic,
  forced_on, forced_off,
}
use esp32_dust_extraction.CollectorService
use esp32_dust_extraction.CollectorService.{CollectorService, Ports}

pub data Method : Type 0 where
  get post : Method

abbrev pub is_get : Method → Bool
is_get get = true
is_get post = false

abbrev pub is_post : Method → Bool
is_post get = false
is_post post = true

pub record Response : Type 0 where
  pub status : ℕ
  pub body : Text

pub record ICollectorControl (W : Type 0) : Type 0 where
  pub state : W → CollectorState
  pub mode : W → CollectorMode
  pub device_uid : W → Text
  pub demand_active : W → Bool
  pub demand_suppressed : W → Bool
  pub request_start : W → Bool × W
  pub request_stop : W → Bool × W
  pub request_mode : CollectorMode → W → Bool × W

abbrev pub collector_path : Text
collector_path = codes "/api/v1/collector"

abbrev pub start_path : Text
start_path = codes "/api/v1/collector/start"

abbrev pub stop_path : Text
stop_path = codes "/api/v1/collector/stop"

abbrev pub auto_mode_path : Text
auto_mode_path = codes "/api/v1/collector/mode/auto"

abbrev pub forced_on_mode_path : Text
forced_on_mode_path = codes "/api/v1/collector/mode/forced-on"

abbrev pub forced_off_mode_path : Text
forced_off_mode_path = codes "/api/v1/collector/mode/forced-off"

-- The status codes.
abbrev pub ok : ℕ
ok = 200

abbrev pub accepted : ℕ
accepted = 202

abbrev pub not_found : ℕ
not_found = 404

abbrev pub method_not_allowed : ℕ
method_not_allowed = 405

abbrev pub conflict : ℕ
conflict = 409

unfoldable pub mode_name : CollectorMode → Text
mode_name automatic = codes "AUTO"
mode_name forced_on = codes "FORCED_ON"
mode_name forced_off = codes "FORCED_OFF"

unfoldable pub state_name : CollectorState → Text
state_name stopped = codes "stopped"
state_name starting = codes "starting"
state_name running = codes "running"
state_name stopping = codes "stopping"
state_name faulted = codes "faulted"

-- Byte 34 is the quotation mark, byte 92 the backslash.
unfoldable pub escape_json : Text → Text
escape_json [] = []
escape_json (c ∷ text) =
    let rest = escape_json text in
    if (c == 34) || (c == 92) then 92 ∷ c ∷ rest else if ltb c 32 then 32 ∷ rest else c ∷ rest

unfoldable pub error : ℕ → Text → Response
error status message = record {
  status = status;
  body = codes "{\"error\":\"" ++ escape_json message ++ codes "\"}";
}

unfoldable pub bool_name : Bool → Text
bool_name true = codes "true"
bool_name false = codes "false"

-- The mode that a path selects, which is one of the three.
unfoldable pub mode_of : Text → CollectorMode
mode_of path =
    if text_eq path auto_mode_path
    then automatic
    else if text_eq path forced_on_mode_path
    then forced_on
    else forced_off

module _ {W : Type 0} (control : ICollectorControl W) where
  unfoldable pub state_json : W → Text
  state_json w =
      codes "{\"state\":\""
      ++ state_name (control.state w)
      ++ codes "\",\"device_uid\":\""
      ++ escape_json (control.device_uid w)
      ++ codes "\",\"mode\":\""
      ++ mode_name (control.mode w)
      ++ codes "\",\"demand_active\":"
      ++ bool_name (control.demand_active w)
      ++ codes ",\"demand_suppressed\":"
      ++ bool_name (control.demand_suppressed w)
      ++ codes "}"

  -- The answer to a request that the control has taken a decision on.
  unfoldable pub answer : Text → Bool × W → Response × W
  answer refusal (granted, w) =
      if granted
      then (record { status = accepted; body = state_json w }, w)
      else (error conflict refusal, w)

  unfoldable pub handle : Method → Text → W → Response × W
  unfolding answer
  handle method path w =
      if text_eq path collector_path
      then (if not (is_get method)
          then (error method_not_allowed (codes "method not allowed"), w)
          else (record { status = ok; body = state_json w }, w))
      else if text_eq path auto_mode_path
          || (text_eq path forced_on_mode_path || text_eq path forced_off_mode_path)
      then (if not (is_post method)
          then (error method_not_allowed (codes "method not allowed"), w)
          else answer (codes "mode request not permitted or output not delivered")
              (control.request_mode (mode_of path) w))
      else if text_eq path start_path || text_eq path stop_path
      then (if not (is_post method)
          then (error method_not_allowed (codes "method not allowed"), w)
          else answer (codes "request not permitted in current state")
              (if text_eq path start_path then control.request_start w else control.request_stop w))
      else (error not_found (codes "not found"), w)

abbrev beside : {W : Type 0} → CollectorService → Bool × W → Bool × (CollectorService × W)
beside s (done, w) = (done, (s, w))

abbrev together : {W : Type 0} → Bool × CollectorService × W → Bool × (CollectorService × W)
together (done, s, w) = (done, (s, w))

-- `CollectorService` as an `ICollectorControl`.
unfoldable pub service_control : {W : Type 0} → Ports W → ICollectorControl (CollectorService × W)
service_control ports = record {
  state = λ (s, w). CollectorService.state ports w;
  mode = λ (s, w). CollectorService.mode s;
  device_uid = λ (s, w). CollectorService.device_uid s;
  demand_active = λ (s, w). CollectorService.demand_active s;
  demand_suppressed = λ (s, w). CollectorService.demand_suppressed s;
  request_start = λ (s, w). beside s (CollectorService.request_start ports s w);
  request_stop = λ (s, w). beside s (CollectorService.request_stop ports s w);
  request_mode = λ requested (s, w). together (CollectorService.request_mode ports requested s w);
}
