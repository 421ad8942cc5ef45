-- ===== src/App/Server/DeviceUids.antt =====
-- The Device UID of the service: the program keeps the one that it makes of the MAC address.
use esp32_dust_extraction.Common.{
  c_str, ℕ, ◌≡◌, refl, sym, subst, ap, ◌∙◌, inl, inr, Bool, true, Option, none, some, List, [], ◌∷◌,
  ◌++◌, map, Text, ◌==◌, all, arith, Option-cases, Bool-cases,
}
use esp32_dust_extraction.Common.Int.{ℤ}
use mathlib.Core.Option.{some-injective}
use esp32_dust_extraction.Event.EventId.{is_hexadecimal}
use esp32_dust_extraction.Event.DeviceUid
use esp32_dust_extraction.Event.DeviceUid.{is_device_type_character}
use esp32_dust_extraction.Event.DeviceUid.Format.{IsDeviceUid, from_string-IsDeviceUid}
use esp32_dust_extraction.EventIdGenerator.Version.{Fills}
use esp32_dust_extraction.Relay.{RelayDriver}
use esp32_dust_extraction.CollectorService.{CollectorService, Call, serve}
use esp32_dust_extraction.CollectorService
use esp32_dust_extraction.CollectorApi.Calls.{perform}
use esp32_dust_extraction.HttpServer.{Pointer, nullptr}
use esp32_dust_extraction.HttpServer.Esp.{Httpd, HttpdRequest, method_of}
use esp32_dust_extraction.HttpRoutes.Calls.{route_call}
use esp32_dust_extraction.App.{Platform, World, ports, app_main, register, device_uid_string}
use esp32_dust_extraction.App.History.{IsSafe, serve-Kept}
use esp32_dust_extraction.App.Server.{
  Program, Input, calls, requests, start_server, boot, take_request, step, run,
}
use esp32_dust_extraction.App.Server.Requests.{IsServing, dispatch-perform, step-IsServing}
use esp32_dust_extraction.CollectorApi.Json.{visible}

visible-all :
    (p : ℕ → Bool) (text : Text)
    → ((c : ℕ) → p c ≡ true → visible c ≡ c)
    → all p text ≡ true
    → map visible text ≡ text
visible-all p [] plain h = refl
visible-all p (c ∷ text) plain h = ground (arith, plain c, visible-all p text plain)

map-append : (f : ℕ → ℕ) (s t : Text) → map f (s ++ t) ≡ map f s ++ map f t
map-append f [] t = refl
map-append f (c ∷ s) t = rw (map-append f s t)

-- A Device UID has no control character.
visible-IsDeviceUid : (v : Text) → IsDeviceUid v → map visible v ≡ v
unfolding visible is_device_type_character is_hexadecimal
visible-IsDeviceUid v u =
    let typed =
      visible-all is_device_type_character u.device_type (λ c h. ground arith) u.type_characters in
    let hexed = visible-all is_hexadecimal u.digits (λ c h. ground arith) u.hexadecimal in
    rw (u.joined, map-append visible u.device_type (b'-' ∷ u.digits), typed, hexed) refl

-- The Device UID of a service whose name has been accepted, as a client sees it.
pub seen_uid :
    (name : Text) (uid : DeviceUid.DeviceUid)
    → DeviceUid.from_string name ≡ some uid
    → map visible uid.value ≡ name
seen_uid name uid h = elim (from_string-IsDeviceUid name) [
  | inl (valid, accepted) ↦
      let same = some-injective _ _ (sym accepted ∙ h) in
      subst (λ (u : DeviceUid.DeviceUid). map visible u.value ≡ name) same
        (visible-IsDeviceUid name valid)
  | inr (invalid, refused) ↦ cc
]

module _ {R E X : Type 0} (driver : RelayDriver R) (platform : Platform E)
    (fills : Fills platform.fill_random) (httpd : Httpd X) (html : Text) where
  abbrev Serving : Program R E X → Type 0
  Serving p = IsServing driver platform fills httpd html p

  perform-uid :
      (c : Option Call) (s : CollectorService) (w : World R E)
      → IsSafe driver s w
      → (perform (ports driver platform) c s w).0.uid ≡ s.uid
  perform-uid none s w h = refl
  perform-uid (some c) s w h = (serve-Kept driver platform fills c s w h).same_uid

  take_request-uid :
      (request : HttpdRequest) (p : Program R E X)
      → Serving p
      → (take_request driver platform httpd html request p).service.uid ≡ p.service.uid
  unfolding take_request
  take_request-uid request p h = elim (Bool-cases (p.server.native_handle == nullptr)) [
    | inl down ↦ rw down refl
    | inr up ↦ rw up (
        ap (λ (q : CollectorService × World R E). q.0.uid)
          (dispatch-perform driver platform fills httpd html p.server request p.service p.world
            p.httpd h.routed)
        ∙ perform-uid (route_call (method_of httpd request) (c_str request.uri)) p.service p.world
            h.safe)
  ]

  step-uid :
      (i : Input) (p : Program R E X)
      → Serving p
      → (step driver platform httpd html i p).service.uid ≡ p.service.uid
  unfolding step
  step-uid (calls c) p h = (serve-Kept driver platform fills c p.service p.world h.safe).same_uid
  step-uid (requests request) p h = take_request-uid request p h

  pub run-uid :
      (is : List Input) (p : Program R E X)
      → Serving p
      → (run driver platform httpd html is p).service.uid ≡ p.service.uid
  unfolding run
  run-uid [] p h = refl
  run-uid (i ∷ is) p h =
      run-uid is (step driver platform httpd html i p)
        (step-IsServing driver platform fills httpd html i p h)
      ∙ step-uid i p h

  app_main-uid :
      (mac : List ℕ) (delay : ℤ) (relay : R) (e : E) (s : CollectorService) (w : World R E)
      → app_main driver platform mac delay relay e ≡ some (s, w)
      → DeviceUid.from_string (device_uid_string mac) ≡ some s.uid
  unfolding app_main register CollectorService.new
  app_main-uid mac delay relay e s w h = ground arith

  pub boot-uid :
      (mac : List ℕ) (delay : ℤ) (port : ℕ) (self : Pointer) (relay : R) (e : E) (x : X)
      (p : Program R E X)
      → boot driver platform httpd html mac delay port self relay e x ≡ some p
      → DeviceUid.from_string (device_uid_string mac) ≡ some p.service.uid
  unfolding boot start_server
  boot-uid mac delay port self relay e x p h =
      elim (Option-cases (app_main driver platform mac delay relay e)) [
        | inl missing ↦ let h' : none ≡ some p = rw (missing, boot) at h in cc
        | inr ((s, w), made) ↦
            let h' : some (start_server driver platform httpd html port self (s, w) x) ≡ some p =
              rw (made, boot) at h in
            app_main-uid mac delay relay e s w made
            ∙ ap (λ (q : Program R E X). some q.service.uid) (some-injective _ _ h')
      ]
