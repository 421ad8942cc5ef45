-- ===== src/HttpServer/Esp/Lifecycle.antt =====
-- The HTTP server on the board as a machine with two states, over any sequence of `start` and
-- `stop`.
use esp32_dust_extraction.Common.{
  ◌≡◌, ◌≢◌, ◌⊎◌, inl, inr, Bool, true, false, not, List, [], ◌∷◌, Text, codes, arith, ◌==◌,
}
use esp32_dust_extraction.HttpServer.{HttpServer, Pointer, nullptr}
use esp32_dust_extraction.HttpServer.Esp.{
  Httpd, HttpdConfig, HttpdUri, esp_ok, start, stop, destroy, register_route,
}

-- What ESP-IDF documents of the functions, by the list `live` of the servers that are up. A server
-- that starts has a handle; a start that fails leaves none; registering a handler starts and stops
-- nothing; `httpd_stop` fails only at a null handle.
pub record Contract {X : Type 0} (httpd : Httpd X) (live : X → List Pointer) : Type 0 where
  pub start_ok :
      (config : HttpdConfig) (x : X)
      → (httpd.httpd_start config x).0 ≡ esp_ok
      → ((httpd.httpd_start config x).1 ≢ nullptr)
        × (live (httpd.httpd_start config x).2 ≡ (httpd.httpd_start config x).1 ∷ live x)
  pub start_failed :
      (config : HttpdConfig) (x : X)
      → (httpd.httpd_start config x).0 ≢ esp_ok
      → live (httpd.httpd_start config x).2 ≡ live x
  pub register_live :
      (handle : Pointer) (route : HttpdUri) (x : X)
      → live (httpd.httpd_register_uri_handler handle route x).1 ≡ live x
  pub stop_live :
      (handle : Pointer) (others : List Pointer) (x : X)
      → handle ≢ nullptr
      → live x ≡ handle ∷ others
      → ((httpd.httpd_stop handle x).0 ≡ esp_ok) × (live (httpd.httpd_stop handle x).1 ≡ others)

pub data Call : Type 0 where
  starts stops : Call

-- The machine: a call takes it from stopped (`false`) or running to the same, with a message that
-- is empty on success.
pub data Step : Call → Bool → Text → Bool → Type 0 where
  started : Step starts false [] true
  refused : {up : Bool} {message : Text} → message ≢ [] → Step starts up message up
  stopped : {up : Bool} → Step stops up [] false

pub data Trace : List Call → Bool → List Text → Bool → Type 0 where
  done : {up : Bool} → Trace [] up [] up
  next :
      {c : Call} {cs : List Call} {a b d : Bool} {m : Text} {ms : List Text}
      → Step c a m b
      → Trace cs b ms d
      → Trace (c ∷ cs) a (m ∷ ms) d

abbrev pub is_running : {W : Type 0} → HttpServer W → Bool
is_running server = not (server.native_handle == nullptr)

module _ {X W : Type 0} (httpd : Httpd X) (self : Pointer) where
  abbrev pub call : Call → HttpServer W → X → Text × HttpServer W × X
  call starts server x = start httpd self server x
  call stops server x = stop httpd server x

  pub run : List Call → HttpServer W → X → List Text × HttpServer W × X
  run [] server x = ([], server, x)
  run (c ∷ cs) server x =
      let (message, server₁, x₁) = call c server x in
      let (messages, server₂, x₂) = run cs server₁ x₁ in (message ∷ messages, server₂, x₂)

Step-started : (a : Bool) (m : Text) (b : Bool) → a ≡ false → m ≡ [] → b ≡ true → Step starts a m b
Step-started a m b p q r = rw (p, q, r) started

Step-refused : (a : Bool) (m : Text) (b : Bool) → m ≢ [] → b ≡ a → Step starts a m b
Step-refused a m b h e = rw e (refused h)

Step-stopped : (a : Bool) (m : Text) (b : Bool) → m ≡ [] → b ≡ false → Step stops a m b
Step-stopped a m b p q = rw (p, q) stopped

-- The route that `start` registers.
abbrev route_to : Pointer → HttpdUri
route_to self = record { uri = codes "/*"; any_method = true; user_ctx = self }

module _ {X W : Type 0} (live : X → List Pointer) (others : List Pointer) where
  -- Besides `others` the server that the object holds is up, and no other.
  abbrev pub Owns : HttpServer W → X → Type 0
  Owns server x =
      ((server.native_handle ≡ nullptr) × (live x ≡ others))
      ⊎ ((server.native_handle ≢ nullptr) × (live x ≡ server.native_handle ∷ others))

module _ {X W : Type 0} (httpd : Httpd X) (self : Pointer) (live : X → List Pointer)
    (contract : Contract httpd live) (others : List Pointer) where
  abbrev config_of : HttpServer W → HttpdConfig
  config_of server = record { server_port = server.config.port; match_wildcard = true }

  register_cases :
      (server : HttpServer W) (handle : Pointer) (x : X)
      → handle ≢ nullptr
      → live x ≡ handle ∷ others
      → let (message, server', x') = register_route httpd self server handle x in
        ((message ≡ []) × (server'.native_handle ≡ handle) × (live x' ≡ handle ∷ others))
        ⊎ ((message ≢ []) × (server' ≡ server) × (live x' ≡ others))
  unfolding register_route
  register_cases server handle x h e =
      let x₁ = (httpd.httpd_register_uri_handler handle (route_to self) x).1 in
      ground (
        arith,
        contract.register_live handle (route_to self) x,
        contract.stop_live handle others x₁,
      )

  -- A start either brings the server up, with no message, or says why not and changes nothing.
  start_cases :
      (server : HttpServer W) (x : X)
      → Owns live others server x
      → let (message, server', x') = start httpd self server x in
        ((message ≡ [])
          × (server.native_handle ≡ nullptr)
          × (server'.native_handle ≢ nullptr)
          × (live x' ≡ server'.native_handle ∷ others))
        ⊎ ((message ≢ []) × (server' ≡ server) × (live x' ≡ live x))
  unfolding start
  start_cases server x owns =
      let (result, handle, x₁) = httpd.httpd_start (config_of server) x in
      ground (
        arith,
        owns,
        contract.start_ok (config_of server) x,
        contract.start_failed (config_of server) x,
        register_cases server handle x₁,
      )

  stop_cases :
      (server : HttpServer W) (x : X)
      → Owns live others server x
      → let (message, server', x') = stop httpd server x in
        (message ≡ []) × (server'.native_handle ≡ nullptr) × (live x' ≡ others)
  unfolding stop
  stop_cases server x owns = ground (arith, owns, contract.stop_live server.native_handle others x)

  -- The destructor leaves no server of the object's up.
  pub destroy-live :
      (server : HttpServer W) (x : X)
      → Owns live others server x
      → live (destroy httpd server x) ≡ others
  unfolding destroy
  destroy-live server x owns = ground (arith, owns, stop_cases server x)

  call-Step :
      (c : Call) (server : HttpServer W) (x : X)
      → Owns live others server x
      → let (message, server', x') = call httpd self c server x in
        Step c (is_running server) message (is_running server') × Owns live others server' x'
  call-Step starts server x owns = elim (start_cases server x owns) [
    | inl (e, down, up, l) ↦ (Step-started _ _ _ (ground arith) e (ground arith), inr (up, l))
    | inr (e, same, l) ↦ (Step-refused _ _ _ e (ground arith), ground (arith, owns))
  ]
  call-Step stops server x owns =
      let (e, down, l) = stop_cases server x owns in
      (Step-stopped _ _ _ e (ground arith), inl (down, l))

  run-Owns :
      (cs : List Call) (server : HttpServer W) (x : X)
      → Owns live others server x
      → let (messages, server', x') = run httpd self cs server x in
        Trace cs (is_running server) messages (is_running server') × Owns live others server' x'
  unfolding run
  run-Owns [] server x owns = (done, owns)
  run-Owns (c ∷ cs) server x owns =
      let (message, server₁, x₁) = call httpd self c server x in
      let (step, owns₁) = call-Step c server x owns in
      let (trace, owns₂) = run-Owns cs server₁ x₁ owns₁ in (next step trace, owns₂)

  -- Whatever sequence of starts and stops is made of a server that owns what is up for it, the
  -- messages are those of the two-state machine, which `is_running` follows, afterwards the server
  -- still owns what is up for it, so that a start that fails midway leaves nothing behind, and
  -- destroying it then leaves just the servers of others. The httpd functions do what `Contract`
  -- says.
  pub run-Trace :
      (cs : List Call) (server : HttpServer W) (x : X)
      → Owns live others server x
      → let (messages, server', x') = run httpd self cs server x in
        Trace cs (is_running server) messages (is_running server')
        × Owns live others server' x'
        × (live (destroy httpd server' x') ≡ others)
  run-Trace cs server x owns =
      let (messages, server', x') = run httpd self cs server x in
      let (trace, owned) = run-Owns cs server x owns in
      (trace, owned, destroy-live server' x' owned)
