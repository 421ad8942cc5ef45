-- ===== src/HttpServer.antt =====
-- firmware/components/http_server: the requests, the responses and `handle`. A handler is called
-- with the state `W` of what it refers to. `start` and `stop` are in the children for the two
-- platforms, `Esp` and `Host`.
pub mod Esp
pub mod Host
use esp32_dust_extraction.Common.{
  ℕ, Bool, true, false, Option, none, some, Text, codes, if◌then◌else◌,
}

pub data Method : Type 0 where
  get post unsupported : Method

pub record Request : Type 0 where
  pub method : Method
  pub path : Text

pub record Response : Type 0 where
  pub status : ℕ
  pub body : Text
  pub content_type : Text

-- The default of `content_type`.
abbrev pub json_type : Text
json_type = codes "application/json"

abbrev pub RequestHandler : Type 0 → Type 0
RequestHandler W = Request → W → Response × W

pub record Config : Type 0 where
  pub port : ℕ

-- An address; 0 is `nullptr`.
abbrev pub Pointer : Type 0
Pointer = ℕ

abbrev pub nullptr : Pointer
nullptr = 0

-- An empty `std::function` is `none`.
pub record HttpServer (W : Type 0) : Type 0 where
  pub config : Config
  pub handler : Option (RequestHandler W)
  pub native_handle : Pointer

unfoldable pub new : {W : Type 0} → Config → Option (RequestHandler W) → HttpServer W
new config handler = record { config = config; handler = handler; native_handle = nullptr }

unfoldable pub port : {W : Type 0} → HttpServer W → ℕ
port server = server.config.port

unfoldable pub call_handler : {W : Type 0} → Option (RequestHandler W) → RequestHandler W
call_handler none request w = (
  record {
    status = 500;
    body = codes "{\"error\":\"request handler unavailable\"}";
    content_type = json_type;
  },
  w,
)
call_handler (some handler) request w = handler request w

abbrev method_not_allowed : Response
method_not_allowed = record {
  status = 405;
  body = codes "{\"error\":\"method not allowed\"}";
  content_type = json_type;
}

abbrev is_supported : Method → Bool
is_supported get = true
is_supported post = true
is_supported unsupported = false

unfoldable pub handle : {W : Type 0} → HttpServer W → RequestHandler W
unfolding call_handler
handle server request w =
    if is_supported request.method
    then call_handler server.handler request w
    else (method_not_allowed, w)
