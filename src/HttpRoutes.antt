-- ===== src/HttpRoutes.antt =====
-- firmware/components/http_routes: the handler of the HTTP server. The page, which the build
-- generates, is the parameter `html`.
pub mod Requests
pub mod Statuses
pub mod Calls
use esp32_dust_extraction.Common.{
  ℕ, ◌==◌, ◌||◌, Bool, true, false, not, ◌&&◌, Option, none, some, [], ◌∷◌, ◌++◌, Text, codes,
  text_eq, if◌then◌else◌,
}
use esp32_dust_extraction.CollectorApi
use esp32_dust_extraction.CollectorApi.{ICollectorControl}
use esp32_dust_extraction.HttpServer.{
  Method, get, post, unsupported, Request, Response, RequestHandler, json_type,
}

abbrev pub api_prefix : Text
api_prefix = codes "/api/"

unfoldable pub error : ℕ → Text → Response
error status message = record {
  status = status;
  body = codes "{\"error\":\"" ++ message ++ codes "\"}";
  content_type = json_type;
}

-- What stands before the first `?` (63) or `#` (35).
unfoldable pub strip_query : Text → Text
strip_query [] = []
strip_query (c ∷ uri) =
    let rest = strip_query uri in if (c == 63) || (c == 35) then [] else c ∷ rest

-- `std::string_view::starts_with`.
unfoldable pub starts_with : Text → Text → Bool
starts_with text [] = true
starts_with [] (_ ∷ _) = false
starts_with (a ∷ text) (b ∷ prefix) = (a == b) && starts_with text prefix

abbrev pub is_get : Method → Bool
is_get get = true
is_get post = false
is_get unsupported = false

abbrev pub api_method : Method → Option CollectorApi.Method
api_method get = some CollectorApi.get
api_method post = some CollectorApi.post
api_method unsupported = none

-- A response of the API, with the default content type.
abbrev pub deliver : {W : Type 0} → CollectorApi.Response × W → Response × W
deliver (response, w) =
    (record { status = response.status; body = response.body; content_type = json_type }, w)

unfoldable pub forward :
    {W : Type 0} → ICollectorControl W → Option CollectorApi.Method → Text → W → Response × W
forward api none path w = (error 405 (codes "method not allowed"), w)
forward api (some method) path w = deliver (CollectorApi.handle api method path w)

unfoldable pub make_request_handler : {W : Type 0} → Text → ICollectorControl W → RequestHandler W
unfolding forward
make_request_handler html api request w =
    let path = strip_query request.path in
    if text_eq path (codes "/")
    then (if not (is_get request.method)
        then (error 405 (codes "method not allowed"), w)
        else (record { status = 200; body = html; content_type = codes "text/html" }, w))
    else if starts_with path api_prefix
    then forward api (api_method request.method) path w
    else (error 404 (codes "not found"), w)
