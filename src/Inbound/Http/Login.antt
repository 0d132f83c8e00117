-- ===== src/Inbound/Http/Login.antt =====
-- crates/lore-auth-inbound/src/httpserver/login.rs: the top-level pages, and the login at an identity
-- provider with its callback.
pub mod Page
pub mod Callback
pub mod SignIn
use Prim.Native.String.{char_at}
use lore_auth_bridge.Base.{
  ℕ, ◌*◌, String, Bool, true, false, not, ◌==◌, string_eq, if◌then◌else◌, Option, none, some, List,
  [], ◌∷◌, ◌++◌, Result, ok, err, CoreError, not_found, auth_session_not_found, permission_denied,
  unauthenticated, unsupported, Act, HashMap, get, insert, is_empty_str, concat, trim_end_matches,
  Duration, from_secs,
}
use lore_auth_bridge.Model.{AuthSession, bridge_subject}
use lore_auth_bridge.Service.Ports.{IdentityProviderDescriptor}
use lore_auth_bridge.Service.Login.{
  LoginService, OAuthCallbackResult, begin_auth, complete_auth, has_provider, providers,
}
use lore_auth_bridge.Inbound.Reply.{
  Handler, answer, refuse, require, call, observe, present, ◌>>=◌, ◌>>◌,
}
use lore_auth_bridge.Inbound.Http.Answers.{
  Response, HttpConfig, AppState, text_response, html_response, redirect_found,
  response_with_headers, text,
}
use lore_auth_bridge.Inbound.Http.Text.{html_escape, string_or}
use lore_auth_bridge.Inbound.Http.Session.{
  Headers, current_user, is_secure, session_cookie, clear_cookie, get_or_blank, respond,
}
use lore_auth_bridge.Inbound.Http.Endpoints.{render_whoami}

abbrev pub state_cookie_name : String
state_cookie_name = "lore_oauth_state"

abbrev pub login_session_cookie_name : String
login_session_cookie_name = "lore_login_session"

abbrev pub login_state_ttl : Duration
login_state_ttl = from_secs (10 * 60)

-- What other packages do: the pairs of a query and the text of one pair, the percent encoding of a
-- path segment, a random token, and the `Display` of a number.
pub record LoginWeb (W : Type 0) : Type 0 where
  pub parse_pairs : String → List (String × String)
  pub append_pair : String → String → String
  pub encode_path_segment : String → String
  pub random_url_token : W → String × W
  pub show : ℕ → String

-- The services that only these handlers use.
pub record LoginApp (W : Type 0) : Type 0 where
  pub app : AppState W
  pub login : Option (LoginService W)
  pub jwks : Act W String

abbrev first_or_blank : Option (List String) → String
first_or_blank none = ""
first_or_blank (some []) = ""
first_or_blank (some (value ∷ _)) = value

-- `params.get(name).and_then(|values| values.first()).cloned().unwrap_or_default()`.
unfoldable pub first_param : HashMap String (List String) → String → String
unfolding get
first_param params name = first_or_blank (get params name)

abbrev or_no_values : Option (List String) → List String
or_no_values none = []
or_no_values (some values) = values

-- `out.entry(key).or_default().push(value)`.
unfoldable pub push_param :
    HashMap String (List String) → String × String → HashMap String (List String)
unfolding get insert
push_param out (key, value) = insert out key (or_no_values (get out key) ++ (value ∷ []))

unfoldable pub push_params :
    HashMap String (List String) → List (String × String) → HashMap String (List String)
unfolding push_param
push_params out [] = out
push_params out (pair ∷ pairs) = push_params (push_param out pair) pairs

unfoldable pub append_header : Response → String → String → Response
append_header response name value = record response {
  headers = response.headers ++ ((name, value) ∷ []);
}

unfoldable pub write_login_provider_error : CoreError → Response
unfolding text_response
write_login_provider_error unsupported = text_response 503 "identity provider login not configured"
write_login_provider_error not_found = text_response 404 "unknown identity provider"
write_login_provider_error _ = text_response 500 "login unavailable"

unfoldable pub write_callback_error : CoreError → Response
unfolding text_response
write_callback_error unsupported = text_response 503 "identity provider login not configured"
write_callback_error not_found = text_response 404 "unknown identity provider"
write_callback_error permission_denied = text_response 403 "login forbidden"
write_callback_error unauthenticated = text_response 401 "identity provider login failed"
write_callback_error _ = text_response 500 "login unavailable"

-- The refusal where the session of a nonce is not found.
unfoldable pub write_session_error : CoreError → Response
unfolding text_response
write_session_error not_found = text_response 404 "unknown or expired login session"
write_session_error auth_session_not_found = text_response 404 "unknown or expired login session"
write_session_error _ = text_response 500 "login session unavailable"

unfoldable pub handle_healthz : Response
unfolding text_response
handle_healthz = text_response 200 "ok\n"

module _ {W : Type 0} (web : LoginWeb W) where
  unfoldable pub query_params : String → HashMap String (List String)
  unfolding push_params
  query_params raw = push_params [] (web.parse_pairs raw)

  unfoldable pub auth_start_path : String → String → String
  unfolding is_empty_str
  auth_start_path provider_id login_nonce =
      let path = concat ("/auth/" ∷ web.encode_path_segment provider_id ∷ "/start" ∷ []) in
      if is_empty_str login_nonce
      then path
      else concat (path ∷ "?" ∷ web.append_pair "login_nonce" login_nonce ∷ [])

  unfoldable pub auth_callback_url : HttpConfig → String → String
  unfolding trim_end_matches
  auth_callback_url cfg provider_id = concat (
      trim_end_matches (char_at "/" 0) cfg.public_base_url
      ∷ "/auth/"
      ∷ web.encode_path_segment provider_id
      ∷ "/callback"
      ∷ [])

  unfoldable pub provider_items : String → List IdentityProviderDescriptor → List String
  unfolding html_escape string_or auth_start_path
  provider_items login_nonce [] = []
  provider_items login_nonce (provider ∷ rest) =
      "  <li><a href=\""
      ∷ html_escape (auth_start_path provider.id login_nonce)
      ∷ "\">"
      ∷ html_escape (string_or provider.display_name provider.id)
      ∷ "</a></li>\n"
      ∷ provider_items login_nonce rest

  unfoldable pub provider_picker_html : List IdentityProviderDescriptor → String → String
  unfolding provider_items
  provider_picker_html listed login_nonce = concat (
      "<h1>Choose identity provider</h1>\n<ul>\n"
      ∷ (provider_items login_nonce listed ++ ("</ul>" ∷ [])))

  -- What a page of login offers: the provider that is asked for, the only one, or a choice.
  unfoldable pub offer_providers :
      HashMap String String → List IdentityProviderDescriptor → String → Response
  unfolding get_or_blank is_empty_str redirect_found html_response text_response auth_start_path
      provider_picker_html
  offer_providers query listed login_nonce =
      let provider_id = get_or_blank query "provider" in
      let picker = provider_picker_html listed login_nonce in
      if not (is_empty_str provider_id)
      then redirect_found (auth_start_path provider_id login_nonce)
      else elim listed [
        | [] ↦ text_response 503 "identity provider login not configured"
        | provider ∷ [] ↦ redirect_found (auth_start_path provider.id login_nonce)
        | provider ∷ _ ∷ _ ↦ html_response 200 picker
      ]
