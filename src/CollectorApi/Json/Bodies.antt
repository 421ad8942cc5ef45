-- ===== src/CollectorApi/Json/Bodies.antt =====
-- What a client of collector_api learns from the bodies of its responses.
use esp32_dust_extraction.Common.{
  ℕ, ◌≡◌, refl, ◌⊎◌, inl, inr, Bool, true, false, Option, none, some, List, [], ◌∷◌, append_assoc,
  map, Text, codes, text_eq, if◌then◌else◌, find_if,
}
use esp32_dust_extraction.Common.Abort.{◌>>=◌}
use esp32_dust_extraction.CollectorUnit.{
  CollectorState, stopped, starting, running, stopping, faulted, CollectorMode, automatic,
  forced_on, forced_off,
}
use esp32_dust_extraction.CollectorApi.{
  Method, Response, ICollectorControl, handle, answer, error, state_json, state_name, mode_name,
  escape_json,
}
use esp32_dust_extraction.CollectorApi.Json.{visible}
use esp32_dust_extraction.CollectorApi.Json.Reader.{
  string, boolean, Member, print_value, print_member, print_members, print_object, read_object,
  read_object-print_object,
}

-- What the body of a successful response reports.
pub record Report : Type 0 where
  pub state : CollectorState
  pub mode : CollectorMode
  pub device_uid : Text
  pub demand_active : Bool
  pub demand_suppressed : Bool

abbrev pub text_at : Text → List Member → Option Text
text_at key ms = find_if (λ (m : Member). text_eq m.0 key) ms >>= λ m. elim m.1 [
  | string text ↦ some text
  | boolean b ↦ none
]

abbrev pub boolean_at : Text → List Member → Option Bool
boolean_at key ms = find_if (λ (m : Member). text_eq m.0 key) ms >>= λ m. elim m.1 [
  | string text ↦ none
  | boolean b ↦ some b
]

-- The state and the mode that a name stands for.
unfoldable pub state_named : Text → Option CollectorState
state_named name =
    if text_eq name (codes "stopped")
    then some stopped
    else if text_eq name (codes "starting")
    then some starting
    else if text_eq name (codes "running")
    then some running
    else if text_eq name (codes "stopping")
    then some stopping
    else if text_eq name (codes "faulted")
    then some faulted
    else none

unfoldable pub mode_named : Text → Option CollectorMode
mode_named name =
    if text_eq name (codes "AUTO")
    then some automatic
    else if text_eq name (codes "FORCED_ON")
    then some forced_on
    else if text_eq name (codes "FORCED_OFF")
    then some forced_off
    else none

abbrev report_in : List Member → Option Report
report_in ms = (text_at (codes "state") ms >>= state_named) >>= λ state.
    (text_at (codes "mode") ms >>= mode_named) >>= λ mode.
    text_at (codes "device_uid") ms >>= λ uid. boolean_at (codes "demand_active") ms >>= λ active.
    boolean_at (codes "demand_suppressed") ms >>= λ suppressed. some (record {
      state = state;
      mode = mode;
      device_uid = uid;
      demand_active = active;
      demand_suppressed = suppressed;
    })

unfoldable pub read_report : Text → Option Report
read_report body = read_object body >>= report_in

unfoldable pub read_error : Text → Option Text
read_error body = read_object body >>= text_at (codes "error")

state_named-state_name : (s : CollectorState) → state_named (map visible (state_name s)) ≡ some s
unfolding state_named state_name visible text_eq
state_named-state_name stopped = refl
state_named-state_name starting = refl
state_named-state_name running = refl
state_named-state_name stopping = refl
state_named-state_name faulted = refl

mode_named-mode_name : (m : CollectorMode) → mode_named (map visible (mode_name m)) ≡ some m
unfolding mode_named mode_name visible text_eq
mode_named-mode_name automatic = refl
mode_named-mode_name forced_on = refl
mode_named-mode_name forced_off = refl

escape_json-state_name : (s : CollectorState) → escape_json (state_name s) ≡ state_name s
unfolding escape_json state_name
escape_json-state_name stopped = refl
escape_json-state_name starting = refl
escape_json-state_name running = refl
escape_json-state_name stopping = refl
escape_json-state_name faulted = refl

escape_json-mode_name : (m : CollectorMode) → escape_json (mode_name m) ≡ mode_name m
unfolding escape_json mode_name
escape_json-mode_name automatic = refl
escape_json-mode_name forced_on = refl
escape_json-mode_name forced_off = refl

module _ {W : Type 0} (control : ICollectorControl W) where
  -- What there is to report.
  abbrev pub report_of : W → Report
  report_of w = record {
    state = control.state w;
    mode = control.mode w;
    device_uid = map visible (control.device_uid w);
    demand_active = control.demand_active w;
    demand_suppressed = control.demand_suppressed w;
  }

  abbrev state_member : W → Member
  state_member w = (codes "state", string (state_name (control.state w)))

  abbrev members_of : W → List Member
  members_of w =
      (codes "device_uid", string (control.device_uid w))
      ∷ (codes "mode", string (mode_name (control.mode w)))
      ∷ (codes "demand_active", boolean (control.demand_active w))
      ∷ (codes "demand_suppressed", boolean (control.demand_suppressed w))
      ∷ []

  state_json-print_object :
      (w : W) → state_json control w ≡ print_object (state_member w) (members_of w)
  unfolding state_json print_object print_member print_members print_value escape_json
  state_json-print_object w = simp (append_assoc, escape_json-state_name, escape_json-mode_name)

  pub read_report-state_json : (w : W) → read_report (state_json control w) ≡ some (report_of w)
  unfolding read_report visible text_eq
  read_report-state_json w =
      rw
        (
          state_json-print_object w,
          read_object-print_object (state_member w) (members_of w),
          state_named-state_name (control.state w),
          mode_named-mode_name (control.mode w),
        )
        refl

read_error-error :
    (code : ℕ) (message : Text) → read_error (error code message).body ≡ some (map visible message)
unfolding read_error error visible text_eq
read_error-error code message =
    let printed : (error code message).body ≡ print_object (codes "error", string message) [] =
      unfold error print_object print_member print_members print_value escape_json in
      simp append_assoc in
    rw (printed, read_object-print_object (codes "error", string message) []) refl

-- A response that reports, and one that refuses.
abbrev pub Reports : {W : Type 0} → ICollectorControl W → Response × W → Type 0
Reports control (response, w) =
    ((response.status ≡ 200) ⊎ (response.status ≡ 202))
    × (read_report response.body ≡ some (report_of control w))

abbrev pub Refuses : Response → Type 0
Refuses response =
    ((response.status ≡ 404) ⊎ (response.status ≡ 405) ⊎ (response.status ≡ 409))
    × (message : Text) × (read_error response.body ≡ some message)

module _ {W : Type 0} (control : ICollectorControl W) where
  Reports-state_json :
      (code : ℕ) (w : W)
      → (code ≡ 200) ⊎ (code ≡ 202)
      → Reports control (record { status = code; body = state_json control w }, w)
  Reports-state_json code w h = (h, read_report-state_json control w)

  Refuses-error :
      (code : ℕ) (message : Text)
      → (code ≡ 404) ⊎ (code ≡ 405) ⊎ (code ≡ 409)
      → Refuses (error code message)
  Refuses-error code message h =
      (unfold error in h, map visible message, read_error-error code message)

  answer-Reports :
      (refusal : Text) (r : Bool × W)
      → Reports control (answer control refusal r) ⊎ Refuses (answer control refusal r).0
  unfolding answer
  answer-Reports refusal (true, w) = inl (Reports-state_json 202 w (inr refl))
  answer-Reports refusal (false, w) = inr (Refuses-error 409 refusal (inr (inr refl)))

  unfoldable Speaks : Response × W → Type 0
  Speaks r = Reports control r ⊎ Refuses r.0

  Speaks-if : (b : Bool) (x y : Response × W) → Speaks x → Speaks y → Speaks (if b then x else y)
  Speaks-if true x y h k = h
  Speaks-if false x y h k = k

  refused :
      (code : ℕ) (message : Text) (w : W)
      → (code ≡ 404) ⊎ (code ≡ 405) ⊎ (code ≡ 409)
      → Speaks (error code message, w)
  unfolding Speaks
  refused code message w h = inr (Refuses-error code message h)

  answered : (refusal : Text) (r : Bool × W) → Speaks (answer control refusal r)
  unfolding Speaks
  answered refusal r = answer-Reports refusal r

  reported :
      (code : ℕ) (w : W)
      → (code ≡ 200) ⊎ (code ≡ 202)
      → Speaks (record { status = code; body = state_json control w }, w)
  unfolding Speaks
  reported code w h = inl (Reports-state_json code w h)

  handle-Speaks : (method : Method) (path : Text) (w : W) → Speaks (handle control method path w)
  unfolding handle
  handle-Speaks method path w =
      let not_found = refused 404 (codes "not found") w (inl refl) in
      let not_allowed = refused 405 (codes "method not allowed") w (inr (inl refl)) in
      search (Speaks-if, answered, reported 200 w (inl refl), not_found, not_allowed)

  -- Every response is one of two, whatever the request: with status 200 or 202 and a body that a
  -- JSON reader takes for the report of the state, the mode, the Device UID and the demand as they
  -- are once the request is through (with a space for each control character of the UID), or with
  -- status 404, 405 or 409 and a body that it takes for an object with an error message.
  pub handle-Reports :
      (method : Method) (path : Text) (w : W)
      → Reports control (handle control method path w) ⊎ Refuses (handle control method path w).0
  unfolding Speaks
  handle-Reports method path w = handle-Speaks method path w
