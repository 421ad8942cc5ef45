-- ===== src/HttpServer/Esp.antt =====
-- firmware/components/http_server/src/http_server_esp.cpp. The httpd functions of ESP-IDF are the
-- parameter `Httpd` over its state `X`. An `esp_err_t` is a 32-bit pattern.
pub mod Lifecycle
pub mod StatusLine
pub mod Responses
use esp32_dust_extraction.Common.{
  ℕ, suc, zero, ◌+◌, ◌-◌, ◌/◌, ◌%◌, ◌^◌, Bool, true, false, not, Text, [], ◌∷◌, ◌++◌, codes, ltb,
  length, c_str, ◌==◌, if◌then◌else◌,
}
use esp32_dust_extraction.HttpServer
use esp32_dust_extraction.HttpServer.{
  Method, get, post, unsupported, Response, HttpServer, Pointer, nullptr,
}

abbrev pub esp_ok : ℕ
esp_ok = 0

-- -1.
abbrev pub esp_fail : ℕ
esp_fail = 2 ^ 32 - 1

-- The fields of `httpd_config_t` that the source sets; the others have their defaults.
pub record HttpdConfig : Type 0 where
  pub server_port : ℕ
  pub match_wildcard : Bool

-- `any_method` stands for `HTTP_ANY`. The handler is always `dispatch_request`.
pub record HttpdUri : Type 0 where
  pub uri : Text
  pub any_method : Bool
  pub user_ctx : Pointer

pub record HttpdRequest : Type 0 where
  pub address : Pointer
  pub method : ℕ
  pub uri : Text

pub record Httpd (X : Type 0) : Type 0 where
  pub http_get : ℕ
  pub http_post : ℕ
  pub esp_err_to_name : ℕ → Text
  pub httpd_start : HttpdConfig → X → ℕ × Pointer × X
  pub httpd_register_uri_handler : Pointer → HttpdUri → X → ℕ × X
  pub httpd_stop : Pointer → X → ℕ × X
  pub httpd_resp_set_type : Pointer → Text → X → ℕ × X
  pub httpd_resp_set_status : Pointer → Text → X → ℕ × X
  pub httpd_resp_send : Pointer → Text → ℕ → X → ℕ × X

unfoldable pub reason_phrase : ℕ → Text
reason_phrase status =
    if status == 200
    then codes "OK"
    else if status == 202
    then codes "Accepted"
    else if status == 400
    then codes "Bad Request"
    else if status == 404
    then codes "Not Found"
    else if status == 405
    then codes "Method Not Allowed"
    else if status == 409
    then codes "Conflict"
    else if status == 500
    then codes "Internal Server Error"
    else codes "Response"

-- `std::to_string`, with `n + 1` rounds, more than `n` has digits.
unfoldable pub digits : ℕ → ℕ → Text → Text
digits zero n acc = acc
digits (suc rounds) n acc =
    let rest = digits rounds (n / 10) ((b'0' + n % 10) ∷ acc) in
    if ltb n 10 then (b'0' + n) ∷ acc else rest

unfoldable pub to_string : ℕ → Text
unfolding digits
to_string n = digits (n + 1) n []

unfoldable pub status_line : ℕ → Text
unfolding to_string reason_phrase
status_line status = to_string status ++ (codes " " ++ reason_phrase status)

module _ {X : Type 0} (httpd : Httpd X) where
  open httpd use {
    http_get, http_post, esp_err_to_name, httpd_start, httpd_register_uri_handler, httpd_stop,
    httpd_resp_set_type, httpd_resp_set_status, httpd_resp_send,
  }

  unfoldable pub method_of : HttpdRequest → Method
  method_of request =
      if request.method == http_get
      then get
      else if request.method == http_post
      then post
      else unsupported

  -- The end of `dispatch_request`, from the response on.
  unfoldable pub respond : HttpdRequest → Response → X → ℕ × X
  unfolding status_line
  respond request response x =
      let (typed, x₁) = httpd_resp_set_type request.address (c_str response.content_type) x in
      if not (typed == esp_ok)
      then (esp_fail, x₁)
      else (let (status_set, x₂) =
            httpd_resp_set_status request.address (c_str (status_line response.status)) x₁ in
          if not (status_set == esp_ok)
          then (esp_fail, x₂)
          else httpd_resp_send request.address response.body (length response.body) x₂)

  unfoldable pub dispatch_request : {W : Type 0} → HttpServer W → HttpdRequest → W → X → ℕ × W × X
  unfolding respond method_of
  dispatch_request server request w x =
      let (response, w') =
        HttpServer.handle server (record { method = method_of request; path = c_str request.uri })
          w in
      let (result, x') = respond request response x in (result, w', x')

  -- From `httpd_register_uri_handler` on; `self` is the address of the server.
  unfoldable pub register_route :
      {W : Type 0} → Pointer → HttpServer W → Pointer → X → Text × HttpServer W × X
  register_route self server handle x =
      let route : HttpdUri = record { uri = codes "/*"; any_method = true; user_ctx = self } in
      let (register_result, x₁) = httpd_register_uri_handler handle route x in
      if not (register_result == esp_ok)
      then (let (_, x₂) = httpd_stop handle x₁ in
          (
            codes "httpd_register_uri_handler failed: " ++ esp_err_to_name register_result,
            server,
            x₂,
          ))
      else ([], record server { native_handle = handle }, x₁)

  unfoldable pub start : {W : Type 0} → Pointer → HttpServer W → X → Text × HttpServer W × X
  unfolding register_route
  start self server x =
      if server.config.port == 0
      then (codes "HTTP server port must be between 1 and 65535", server, x)
      else if not (server.native_handle == nullptr)
      then (codes "HTTP server is already running", server, x)
      else (let config : HttpdConfig = record {
        server_port = server.config.port;
        match_wildcard = true;
      } in
          let (start_result, handle, x₁) = httpd_start config x in
          if not (start_result == esp_ok)
          then (codes "httpd_start failed: " ++ esp_err_to_name start_result, server, x₁)
          else register_route self server handle x₁)

  unfoldable pub stop : {W : Type 0} → HttpServer W → X → Text × HttpServer W × X
  stop server x =
      if server.native_handle == nullptr
      then ([], server, x)
      else (let (result, x₁) = httpd_stop server.native_handle x in
          if not (result == esp_ok)
          then (codes "httpd_stop failed: " ++ esp_err_to_name result, server, x₁)
          else ([], record server { native_handle = nullptr }, x₁))

  -- `HttpServer::~HttpServer`.
  unfoldable pub destroy : {W : Type 0} → HttpServer W → X → X
  unfolding stop
  destroy server x =
      if not (server.native_handle == nullptr) then (let (_, _, x₁) = stop server x in x₁) else x
