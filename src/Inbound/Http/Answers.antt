-- ===== src/Inbound/Http/Answers.antt =====
-- crates/lore-auth-inbound/src/httpserver: the configuration, responses (response.rs) and request
-- bodies (body.rs). Header values that are written are taken to be valid.
use lore_auth_bridge.Base.{
  ℕ, ◌*◌, String, List, [], ◌∷◌, Option, HashMap, string_eq, Duration, from_secs,
}
use lore_auth_bridge.Service.Ports.{ResourceStore, StateStore}
use lore_auth_bridge.Service.Token.{TokenService}
use lore_auth_bridge.Service.Permission.{PermissionService}
use lore_auth_bridge.Service.Device.{DeviceService}
use lore_auth_bridge.Inbound.Reply.{Handler, present, ◌>>=◌}

-- A field of a JSON object that is written.
pub data Field : Type 0 where
  text_field : String → String → Field
  number_field : String → ℕ → Field

-- A body: nothing, a text, or a JSON object with its fields in order.
pub data Body : Type 0 where
  no_body : Body
  text : String → Body
  json : List Field → Body

pub record Response : Type 0 where
  pub status : ℕ
  pub headers : List (String × String)
  pub body : Body

unfoldable pub response_with_headers : ℕ → Body → List (String × String) → Response
response_with_headers status body headers = record {
  status = status;
  headers = headers;
  body = body;
}

unfoldable pub redirect_found : String → Response
unfolding response_with_headers
redirect_found location = response_with_headers 302 no_body (("location", location) ∷ [])

unfoldable pub html_response : ℕ → String → Response
unfolding response_with_headers
html_response status body =
    response_with_headers status (text body) (("content-type", "text/html; charset=utf-8") ∷ [])

unfoldable pub text_response : ℕ → String → Response
unfolding response_with_headers
text_response status body =
    response_with_headers status (text body) (("content-type", "text/plain; charset=utf-8") ∷ [])

unfoldable pub json_response : ℕ → List Field → Response
unfolding response_with_headers
json_response status fields =
    response_with_headers status (json fields) (("content-type", "application/json") ∷ [])

-- A URL, as far as it is read.
pub record Url : Type 0 where
  pub scheme : String
  pub host_str : Option String
  pub port : Option ℕ

pub record DeviceStartRequest : Type 0 where
  pub remote_url : String
  pub repository : String

-- What other packages do: `Url::parse`, `to_bytes` of a body up to a limit, and the decoders of forms
-- and of the two JSON requests.
pub record Web : Type 0 where
  pub parse_url : String → Option Url
  pub to_bytes : String → ℕ → Option String
  pub form_from_bytes : String → Option (HashMap String String)
  pub start_from_slice : String → Option DeviceStartRequest
  pub device_code_from_slice : String → Option String

pub record HttpConfig : Type 0 where
  pub public_base_url : String
  pub lore_auth_url : String
  pub default_remote_url : String
  pub session_ttl : Duration

-- `AppState`, with the services that the handlers here use.
pub record AppState (W : Type 0) : Type 0 where
  pub cfg : HttpConfig
  pub tokens : TokenService W
  pub resources : ResourceStore W
  pub permissions : PermissionService W
  pub state : StateStore W
  pub device : Option (DeviceService W)

abbrev pub max_json_body_bytes : ℕ
max_json_body_bytes = 64 * 1024

abbrev pub csrf_ttl : Duration
csrf_ttl = from_secs (10 * 60)

-- `limited_body`, `parse_form_body` and `decode_json_body`.
module _ {W : Type 0} (web : Web) where
  unfoldable pub limited_body : String → String → Handler W Response String
  unfolding text_response
  limited_body body too_large_message =
      present (web.to_bytes body max_json_body_bytes) (text_response 413 too_large_message)

  unfoldable pub parse_form_body : String → Handler W Response (HashMap String String)
  unfolding limited_body text_response
  parse_form_body body = do
    bytes ← limited_body body "form body too large"
    present (web.form_from_bytes bytes) (text_response 400 "invalid form")

  unfoldable pub decode_json_body :
      {T : Type 0} → (String → Option T) → String → Handler W Response T
  unfolding limited_body text_response
  decode_json_body from_slice body = do
    bytes ← limited_body body "json body too large"
    present (from_slice bytes) (text_response 400 "invalid json")
