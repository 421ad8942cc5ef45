-- ===== src/HttpServer/Esp/Responses.antt =====
-- What `dispatch_request` sends.
use esp32_dust_extraction.Common.{
  c_str, ℕ, ◌≡◌, ◌≢◌, ◌⊎◌, refl, List, [], ◌∷◌, ◌++◌, Text, arith, length, take, take-append,
  append-nil, ◌==◌, Bool-cases, inl, inr, ap, sym, ◌∙◌,
}
use esp32_dust_extraction.HttpServer
use esp32_dust_extraction.HttpServer.{Method, get, post, unsupported, HttpServer, Pointer, Response}
use esp32_dust_extraction.HttpServer.Esp.StatusLine.{leading, leading-status_line}
use esp32_dust_extraction.HttpServer.Esp.{
  Httpd, HttpdRequest, esp_ok, esp_fail, status_line, method_of, respond, dispatch_request,
}

-- A response that has gone out whole.
pub record Reply : Type 0 where
  pub content_type : Text
  pub status : Text
  pub body : Text

-- What the three response functions do, by what is stored for the request at an address and the
-- list `sent` of the responses that have gone out. The first two only store a value, which they
-- promise if they succeed. A send that succeeds sends what is stored and the first `n` bytes of the
-- text; of one that fails nothing is said.
pub record Responder {X : Type 0} (httpd : Httpd X) (stored_type stored_status : Pointer → X → Text)
    (sent : X → List Reply) : Type 0 where
  pub type_unsent :
      (r : Pointer) (t : Text) (x : X) → sent (httpd.httpd_resp_set_type r t x).1 ≡ sent x
  pub type_stored :
      (r : Pointer) (t : Text) (x : X)
      → (httpd.httpd_resp_set_type r t x).0 ≡ esp_ok
      → stored_type r (httpd.httpd_resp_set_type r t x).1 ≡ t
  pub status_unsent :
      (r : Pointer) (t : Text) (x : X) → sent (httpd.httpd_resp_set_status r t x).1 ≡ sent x
  pub status_stored :
      (r : Pointer) (t : Text) (x : X)
      → (httpd.httpd_resp_set_status r t x).0 ≡ esp_ok
      → (stored_status r (httpd.httpd_resp_set_status r t x).1 ≡ t)
        × (stored_type r (httpd.httpd_resp_set_status r t x).1 ≡ stored_type r x)
  pub send_ok :
      (r : Pointer) (t : Text) (n : ℕ) (x : X)
      → (httpd.httpd_resp_send r t n x).0 ≡ esp_ok
      → sent (httpd.httpd_resp_send r t n x).1
        ≡ sent x
          ++ record { content_type = stored_type r x; status = stored_status r x; body = take n t }
            ∷ []

-- The method that a request's number stands for.
abbrev pub IsMethod : {X : Type 0} → Httpd X → HttpdRequest → Method → Type 0
IsMethod httpd request get = request.method ≡ httpd.http_get
IsMethod httpd request post = request.method ≡ httpd.http_post
IsMethod httpd request unsupported =
    (request.method ≢ httpd.http_get) × (request.method ≢ httpd.http_post)

method_of-IsMethod :
    {X : Type 0} (httpd : Httpd X) (request : HttpdRequest)
    → IsMethod httpd request (method_of httpd request)
unfolding method_of
method_of-IsMethod httpd request = elim (Bool-cases (request.method == httpd.http_get)) [
  | inl is_get ↦ ground arith
  | inr not_get ↦ elim (Bool-cases (request.method == httpd.http_post)) [
    | inl is_post ↦ ground arith
    | inr not_post ↦ ground arith
  ]
]

-- The reply that a response asks for: its content type up to the end of it, a status line that
-- begins with its status, and its body.
abbrev pub IsReply : Response → Reply → Type 0
IsReply response reply =
    (reply.content_type ≡ c_str response.content_type)
    × (leading 0 reply.status ≡ response.status)
    × (reply.body ≡ response.body)

take_all : (t : Text) → take (length t) t ≡ t
take_all t = ap (take (length t)) (sym (append-nil t)) ∙ take-append t []

module _ {X : Type 0} (httpd : Httpd X) (stored_type stored_status : Pointer → X → Text)
    (sent : X → List Reply) where
  -- A function that stores a value was the last to be called, and it failed.
  abbrev pub Refused : Pointer → X → Type 0
  Refused r x' =
      (t : Text) × (code : ℕ) × (x : X) × (code ≢ esp_ok)
      × ((httpd.httpd_resp_set_type r t x ≡ (code, x'))
          ⊎ (httpd.httpd_resp_set_status r t x ≡ (code, x')))

  -- Three ends: the reply has gone out, a value could not be stored, the send failed.
  abbrev pub Sends : Pointer → Response → X → ℕ × X → Type 0
  Sends r response x (result, x') =
      ((result ≡ esp_ok)
        × ((reply : Reply) × IsReply response reply × (sent x' ≡ sent x ++ reply ∷ [])))
      ⊎ (((result ≡ esp_fail) × (sent x' ≡ sent x) × Refused r x')
          ⊎ ((result ≢ esp_ok)
              × ((ready : X) × (sent ready ≡ sent x)
                  × (stored_type r ready ≡ c_str response.content_type)
                  × (leading 0 (stored_status r ready) ≡ response.status)
                  × (httpd.httpd_resp_send r response.body (length response.body) ready
                      ≡ (result, x')))))

module _ {X : Type 0} (httpd : Httpd X) (stored_type stored_status : Pointer → X → Text)
    (sent : X → List Reply) (responder : Responder httpd stored_type stored_status sent) where
  open responder use {type_unsent, type_stored, status_unsent, status_stored, send_ok}

  respond-Sends :
      (request : HttpdRequest) (response : Response) (x : X)
      → Sends httpd stored_type stored_status sent request.address response x
          (respond httpd request response x)
  unfolding respond
  respond-Sends request response x =
      let r = request.address in
      let t = c_str response.content_type in
      let l = c_str (status_line response.status) in
      let n = length response.body in
      let (typed, x₁) = httpd.httpd_resp_set_type r t x in
      let (status_set, x₂) = httpd.httpd_resp_set_status r l x₁ in
      let (result, x₃) = httpd.httpd_resp_send r response.body n x₂ in
      elim (Bool-cases (typed == esp_ok)) [
        | inl ok ↦ elim (Bool-cases (status_set == esp_ok)) [
          | inl ok₂ ↦
              let stored = status_stored r l x₁ (ground arith) in
              let of_type : stored_type r x₂ ≡ t = stored.1 ∙ type_stored r t x (ground arith) in
              let of_status : leading 0 (stored_status r x₂) ≡ response.status =
                ap (leading 0) stored.0 ∙ leading-status_line response.status in
              let unsent : sent x₂ ≡ sent x = status_unsent r l x₁ ∙ type_unsent r t x in
              elim (Bool-cases (result == esp_ok)) [
                | inl ok₃ ↦ inl (
                  ground arith,
                  (
                    record {
                      content_type = stored_type r x₂;
                      status = stored_status r x₂;
                      body = take n response.body;
                    },
                    (of_type, of_status, take_all response.body),
                    ground (arith, unsent, send_ok r response.body n x₂),
                  ),
                )
                | inr failed ↦
                    inr (inr (ground arith, (x₂, unsent, of_type, of_status, ground arith)))
              ]
          | inr failed ↦ inr (
              inl (
                ground arith,
                ground (arith, type_unsent r t x, status_unsent r l x₁),
                (l, status_set, x₁, ground arith, inr (ground arith)),
              ))
        ]
        | inr failed ↦ inr (
            inl (
              ground arith,
              ground (arith, type_unsent r t x),
              (t, typed, x, ground arith, inl (ground arith)),
            ))
      ]

  -- A request is handled whether or not the answer gets through: the state behind the handler is
  -- what `handle` makes it for a method that the request's number stands for and the path up to its
  -- end. There are three ends. The result is `ESP_OK`, and one reply went out, with the content
  -- type of the response up to its end, a status line that begins with its status in decimal, and
  -- its whole body. Or it is `ESP_FAIL`, nothing went out, and a function that stores a value was
  -- the last to be called and failed. Or it is another one than `ESP_OK`, and it is that of the
  -- send, which was called for the whole body with that content type and status line stored and
  -- nothing sent before. The response functions do what `Responder` says.
  pub dispatch_request-Sends :
      {W : Type 0} (server : HttpServer W) (request : HttpdRequest) (w : W) (x : X)
      → (method : Method) × IsMethod httpd request method
        × (let (response, handled) =
              HttpServer.handle server (record { method = method; path = c_str request.uri }) w in
            let (result, w', x') = dispatch_request httpd server request w x in
            (w' ≡ handled)
            × Sends httpd stored_type stored_status sent request.address response x (result, x'))
  unfolding dispatch_request
  dispatch_request-Sends server request w x =
      let method = method_of httpd request in
      let (response, handled) =
        HttpServer.handle server (record { method = method; path = c_str request.uri }) w in
      (method, method_of-IsMethod httpd request, (refl, respond-Sends request response x))
