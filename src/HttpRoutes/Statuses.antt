-- ===== src/HttpRoutes/Statuses.antt =====
-- The status codes that the server's handler gives, and the status lines made of them.
use esp32_dust_extraction.Common.{c_str, ℕ, ◌≡◌, ◌⊎◌, refl, inl, inr, Text, codes, arith}
use esp32_dust_extraction.CollectorApi
use esp32_dust_extraction.CollectorApi.{ICollectorControl, answer}
use esp32_dust_extraction.HttpServer
use esp32_dust_extraction.HttpServer.{
  Method, get, post, unsupported, Request, HttpServer, handle, call_handler,
}
use esp32_dust_extraction.HttpServer.Esp.{status_line}
use esp32_dust_extraction.HttpRoutes.{forward, error, make_request_handler, strip_query}
use esp32_dust_extraction.HttpRoutes.Requests.{server_of}

-- The status codes of the interface.
abbrev Codes : ℕ → Type 0
Codes n = (n ≡ 200) ⊎ (n ≡ 202) ⊎ (n ≡ 404) ⊎ (n ≡ 405) ⊎ (n ≡ 409)

module _ {W : Type 0} (html : Text) (api : ICollectorControl W) where
  api-Codes :
      (method : CollectorApi.Method) (path : Text) (w : W)
      → Codes (CollectorApi.handle api method path w).0.status
  unfolding CollectorApi.handle answer CollectorApi.error
  api-Codes CollectorApi.get path w = ground arith
  api-Codes CollectorApi.post path w = ground arith

  handle-Codes :
      (port : ℕ) (method : Method) (path : Text) (w : W)
      → Codes
          (handle (server_of port html api) (record { method = method; path = path }) w).0.status
  unfolding handle call_handler server_of HttpServer.new make_request_handler forward error
  handle-Codes port get path w = ground (arith, api-Codes CollectorApi.get (strip_query path) w)
  handle-Codes port post path w = ground (arith, api-Codes CollectorApi.post (strip_query path) w)
  handle-Codes port unsupported path w = ground arith

  -- Whatever the request to the server with the routes, and whatever the API controls, the status
  -- line of the response is one of these five: no status is left without its own reason phrase.
  pub handle-line :
      (port : ℕ) (method : Method) (path : Text) (w : W)
      → let line = c_str (
          status_line
            (handle
              (server_of port html api)
              (record { method = method; path = path })
              w).0.status) in
        (line ≡ codes "200 OK")
        ⊎ (line ≡ codes "202 Accepted")
        ⊎ (line ≡ codes "404 Not Found")
        ⊎ (line ≡ codes "405 Method Not Allowed")
        ⊎ (line ≡ codes "409 Conflict")
  unfolding status_line c_str
  handle-line port method path w = elim (handle-Codes port method path w) [
    | inl e ↦ inl (rw e refl)
    | inr (inl e) ↦ inr (inl (rw e refl))
    | inr (inr (inl e)) ↦ inr (inr (inl (rw e refl)))
    | inr (inr (inr (inl e))) ↦ inr (inr (inr (inl (rw e refl))))
    | inr (inr (inr (inr e))) ↦ inr (inr (inr (inr (rw e refl))))
  ]
