-- ===== src/Inbound/Http/Session.antt =====
-- crates/lore-auth-inbound/src/httpserver/session.rs: the browser's session, its CSRF tokens, and who is
-- logged in. A header is there or not, and where it is there its value is visible ASCII or not.
pub mod Lookup
use Prim.Native.Char.{Char, code}
use Prim.Native.String.{char_at}
use Prim.Native.String as Str
use lore_auth_bridge.Base.{
  ℕ, String, Bool, true, false, not, ◌&&◌, ◌||◌, ◌==◌, string_eq, nat_eq, if◌then◌else◌, Option,
  none, some, List, [], ◌∷◌, Result, ok, err, CoreError, not_found, Act, HashMap, get, is_empty_str,
  trim, concat, eq_ignore_ascii_case,
}
use lore_auth_bridge.Model.{User, bridge_subject}
use lore_auth_bridge.Service.Ports.{StateStore}
use lore_auth_bridge.Inbound.Reply.{
  Reply, accept, reject, Handler, answer, refuse, require, call, observe, present, ◌>>=◌, ◌>>◌,
}
use lore_auth_bridge.Inbound.Http.Answers.{
  Response, HttpConfig, AppState, Web, Url, text_response, html_response, json_response,
  response_with_headers, no_body, json, text_field, parse_form_body, csrf_ttl,
}
use lore_auth_bridge.Inbound.Http.Text.{html_escape}

abbrev pub session_cookie_name : String
session_cookie_name = "lore_auth_session"

abbrev pub Headers : Type 0
Headers = HashMap String (Option String)

-- `headers.get(name).and_then(|value| value.to_str().ok())`.
unfoldable pub header_text : Headers → String → Option String
unfolding get
header_text headers name = elim (get headers name) [ none ↦ none | some value ↦ value ]

-- `split_once(c)`.
unfoldable pub split_once : Char → String → Option (String × String)
split_once d Str.[] = none
split_once d (Str.◌∷◌ c s) =
    let rest = split_once d s in
    if code c == code d
    then some ("", s)
    else elim rest [ none ↦ none | some (k, v) ↦ some (Str.◌∷◌ c k, v) ]

-- `split(c)`: the part before the first `c`, and the parts behind it.
unfoldable pub split_parts : Char → String → String × List String
split_parts d Str.[] = ("", [])
split_parts d (Str.◌∷◌ c s) =
    let (part, parts) = split_parts d s in
    if code c == code d then ("", part ∷ parts) else (Str.◌∷◌ c part, parts)

unfoldable pub split : Char → String → List String
unfolding split_parts
split d s = let (part, parts) = split_parts d s in part ∷ parts

-- The `for` loop of `cookie_value`: a part without `=` ends it.
unfoldable pub find_cookie : String → List String → Option String
unfolding trim split_once
find_cookie name [] = none
find_cookie name (part ∷ rest) =
    let others = find_cookie name rest in
    elim (split_once (char_at "=" 0) (trim part)) [
      | none ↦ none
      | some (key, value) ↦ if key == name then some value else others
    ]

unfoldable pub cookie_value : Headers → String → Option String
unfolding header_text find_cookie split
cookie_value headers name = elim (header_text headers "cookie") [
  | none ↦ none
  | some raw ↦ find_cookie name (split (char_at ";" 0) raw)
]

pub record BrowserSession : Type 0 where
  pub user : User
  pub session_id : String

-- What `current_browser_session` makes of the user of a session.
unfoldable pub session_result : String → Result User → Result (Option BrowserSession)
session_result session_id (ok user) = ok (some (record { user = user; session_id = session_id }))
session_result session_id (err not_found) = ok none
session_result session_id (err e) = err e

-- The id in the session cookie, where it is not empty.
unfoldable pub session_id_of : Headers → Option String
unfolding cookie_value is_empty_str
session_id_of headers = elim (cookie_value headers session_cookie_name) [
  | none ↦ none
  | some id ↦ if is_empty_str id then none else some id
]

unfoldable pub current_browser_session :
    {W : Type 0} → StateStore W → Headers → Act W (Option BrowserSession)
unfolding session_id_of session_result
current_browser_session state headers w = elim (session_id_of headers) [
  | none ↦ (ok none, w)
  | some id ↦ let (r, w') = state.user_by_browser_session id w in (session_result id r, w')
]

unfoldable pub optional_user : Result (Option BrowserSession) → Result (Option User)
optional_user (ok none) = ok none
optional_user (ok (some session)) = ok (some session.user)
optional_user (err e) = err e

unfoldable pub current_user : {W : Type 0} → AppState W → Headers → Act W (Option User)
unfolding current_browser_session optional_user
current_user state headers w =
    let (r, w') = current_browser_session state.state headers w in (optional_user r, w')

-- The header `Origin`, or `Referer` where there is none.
abbrev or_else : {A : Type 0} → Option A → Option A → Option A
or_else none o = o
or_else (some a) o = some a

unfoldable pub origin_text : Headers → String
unfolding get
origin_text headers = elim (or_else (get headers "origin") (get headers "referer")) [
  | none ↦ ""
  | some none ↦ ""
  | some (some raw) ↦ raw
]

abbrev pub opt_eq : {A : Type 0} → (A → A → Bool) → Option A → Option A → Bool
opt_eq eq none none = true
opt_eq eq (some a) (some b) = eq a b
opt_eq eq _ _ = false

abbrev pub url_origin_eq : Url → Url → Bool
url_origin_eq got public_url =
    got.scheme == public_url.scheme
    && opt_eq (λ a b. a == b) got.host_str public_url.host_str
    && opt_eq (λ a b. a == b) got.port public_url.port

unfoldable pub same_origin : Web → HttpConfig → Headers → Bool
unfolding origin_text is_empty_str
same_origin web cfg headers = elim (web.parse_url cfg.public_base_url) [
  | none ↦ false
  | some public_url ↦
      if is_empty_str (origin_text headers)
      then false
      else elim (web.parse_url (origin_text headers)) [
        | none ↦ false
        | some got ↦ url_origin_eq got public_url
      ]
]

unfoldable pub get_or_blank : HashMap String String → String → String
unfolding get
get_or_blank form name = elim (get form name) [ none ↦ "" | some value ↦ value ]

unfoldable pub is_secure : Headers → Bool
unfolding header_text eq_ignore_ascii_case
is_secure headers = elim (header_text headers "x-forwarded-proto") [
  | none ↦ false
  | some value ↦ eq_ignore_ascii_case value "https"
]

-- `show` is the `Display` of an `i64`.
unfoldable pub session_cookie : (ℕ → String) → String → ℕ → Bool → String
session_cookie show value expires_at secure = concat (
    session_cookie_name
    ∷ "="
    ∷ value
    ∷ "; Path=/; HttpOnly; SameSite=Lax; Expires="
    ∷ show expires_at
    ∷ (if secure then "; Secure" else "")
    ∷ [])

unfoldable pub clear_cookie : String → String
clear_cookie name = concat (name ∷ "=; Path=/; Max-Age=0; HttpOnly; SameSite=Lax" ∷ [])

-- `match current_browser_session(..)` where a caller without a session gets `missing`.
unfoldable pub require_session :
    {W : Type 0} → AppState W → Headers → Response → Handler W Response BrowserSession
unfolding current_browser_session text_response
require_session state headers missing = do
  found ←
      call (current_browser_session state.state headers)
        (λ _. text_response 500 "session unavailable")
  present found missing

-- `csrf.is_empty() || consume_csrf_token(..).is_err()`.
unfoldable pub spend_csrf :
    {W : Type 0} → AppState W → String → String → Handler W Response (Unit {0})
unfolding is_empty_str text_response
spend_csrf state session_id csrf = do
  require (not (is_empty_str csrf)) (text_response 403 "invalid csrf token")
  call (state.state.consume_csrf_token session_id csrf)
      (λ _. text_response 403 "invalid csrf token")

-- `csrf_token_from_request`.
unfoldable pub csrf_token_from_request :
    {W : Type 0} → Web → Headers → String → Handler W Response String
unfolding header_text trim is_empty_str parse_form_body get_or_blank
csrf_token_from_request web headers body = do
  let given : String = elim (header_text headers "x-csrf-token") [
    | none ↦ ""
    | some value ↦ trim value
  ]
  if not (is_empty_str given)
      then answer given
      else (do form ← parse_form_body web body; answer (get_or_blank form "csrf_token"))

-- A handler's answer: what it returns, early or at its end.
unfoldable pub respond : {W : Type 0} → Handler W Response Response → W → Response × W
respond handler w =
    let (reply, w') = handler w in
    (elim reply [ accept response ↦ response | reject response ↦ response ], w')
