-- ===== src/Inbound/Http/Login/Page.antt =====
-- crates/lore-auth-inbound/src/httpserver/login.rs: the handlers. The path's parts, the query and the
-- headers of a request are their arguments.
use lore_auth_bridge.Base.{
  String, not, ◌==◌, string_eq, if◌then◌else◌, Option, none, some, [], ◌∷◌, HashMap, is_empty_str,
  concat,
}
use lore_auth_bridge.Model.{bridge_subject}
use lore_auth_bridge.Service.Login.{
  OAuthCallbackResult, begin_auth, complete_auth, has_provider, providers,
}
use lore_auth_bridge.Inbound.Reply.{Handler, accept, answer, require, call, present, ◌>>=◌, ◌>>◌}
use lore_auth_bridge.Inbound.Http.Answers.{
  Response, text_response, redirect_found, response_with_headers, text,
}
use lore_auth_bridge.Inbound.Http.Text.{string_or}
use lore_auth_bridge.Inbound.Http.Session.{
  Headers, current_user, is_secure, session_cookie, clear_cookie, get_or_blank, respond,
}
use lore_auth_bridge.Inbound.Http.Endpoints.{render_whoami}
use lore_auth_bridge.Inbound.Http.Login.{
  LoginWeb, LoginApp, state_cookie_name, login_session_cookie_name, login_state_ttl, first_param,
  query_params, auth_callback_url, append_header, offer_providers, write_login_provider_error,
  write_callback_error, write_session_error,
}

abbrev pub not_configured : Response
not_configured = text_response 503 "identity provider login not configured"

abbrev pub invalid_state : Response
invalid_state = text_response 400 "invalid oauth state"

-- The page after a callback, by what the login came to.
unfoldable pub callback_page : {W : Type 0} → LoginWeb W → Headers → OAuthCallbackResult → Response
unfolding render_whoami response_with_headers redirect_found append_header session_cookie
    clear_cookie is_secure
callback_page web headers result =
    if result.unknown_user
    then render_whoami result.identity
    else if result.cli_complete
    then response_with_headers 200
        (text "<h1>Login complete</h1><p>You can return to the Lore CLI.</p>")
        (("content-type", "text/html; charset=utf-8")
          ∷ ("set-cookie", clear_cookie login_session_cookie_name)
          ∷ [])
    else append_header
        (append_header (redirect_found "/") "set-cookie" (
          session_cookie web.show result.browser_session.id result.browser_session.expires_at
            (is_secure headers)))
        "set-cookie" (clear_cookie state_cookie_name)

module _ {W : Type 0} (web : LoginWeb W) (state : LoginApp W) where
  abbrev draw : Handler W Response String
  draw w = let (token, w') = web.random_url_token w in (accept token, w')

  unfoldable pub handle_index : Headers → W → Response × W
  unfolding respond current_user text_response string_or bridge_subject
  handle_index headers = respond (do
    found ← call (current_user state.app headers) (λ _. text_response 500 "session unavailable")
    elim found [
      | some user ↦ answer (
          text_response 200 (
            concat (
              "lore-auth-bridge\nlogged in as "
              ∷ string_or user.email (bridge_subject user)
              ∷ "\n"
              ∷ [])))
      | none ↦ answer (text_response 200 "lore-auth-bridge\nGET /login\n")
    ])

  unfoldable pub handle_jwks : W → Response × W
  unfolding respond response_with_headers text_response
  handle_jwks = respond (do
    body ← call state.jwks (λ _. text_response 500 "jwks unavailable")
    answer (response_with_headers 200 (text body) (("content-type", "application/json") ∷ [])))

  unfoldable pub handle_login : HashMap String String → W → Response × W
  unfolding respond text_response offer_providers providers
  handle_login query = respond (do
    login ← present state.login not_configured
    answer (offer_providers web query (providers login) ""))

  -- The nonce of a session of the command line that waits.
  unfoldable pub require_nonce : String → Handler W Response (Unit {0})
  unfolding write_session_error
  require_nonce nonce = do
    call (state.app.state.get_auth_session_by_nonce nonce) write_session_error
    answer tt

  unfoldable pub handle_login_session : String → HashMap String String → W → Response × W
  unfolding respond text_response require_nonce offer_providers providers
  handle_login_session nonce query = respond (do
    login ← present state.login not_configured
    require_nonce nonce
    answer (offer_providers web query (providers login) nonce))

  unfoldable pub handle_auth_start : String → HashMap String String → W → Response × W
  unfolding respond text_response has_provider get_or_blank is_empty_str require_nonce begin_auth
      auth_callback_url write_login_provider_error redirect_found
  handle_auth_start provider_id query = respond (do
    login ← present state.login not_configured
    require (has_provider login provider_id) (text_response 404 "unknown identity provider")
    let login_nonce = get_or_blank query "login_nonce"
    if is_empty_str login_nonce then answer tt else require_nonce login_nonce
    nonce ← draw
    made ←
        call
          (state.app.state.create_login_state
            (record {
              provider_id = provider_id;
              nonce = nonce;
              login_url_nonce = login_nonce;
              return_path = "";
              private_state = [];
            })
            login_state_ttl)
          (λ _. text_response 500 "state failed")
    result ←
        call
          (begin_auth login provider_id (record {
            state = made.0;
            nonce = nonce;
            redirect_url = auth_callback_url web state.app.cfg provider_id;
            login_hint = "";
          }))
          write_login_provider_error
    elim result.private_state [
      | [] ↦ answer tt
      | _ ∷ _ ↦
          call (state.app.state.set_login_state_private_state made.0 result.private_state)
            (λ _. text_response 500 "state failed")
    ]
    answer (redirect_found result.redirect_url))

  unfoldable pub handle_auth_callback : String → Option String → Headers → W → Response × W
  unfolding respond text_response query_params first_param is_empty_str complete_auth
      auth_callback_url write_callback_error callback_page
  handle_auth_callback provider_id query headers = respond (do
    login ← present state.login not_configured
    let params = query_params web (elim query [ none ↦ "" | some raw ↦ raw ])
    let oauth_state = first_param params "state"
    login_state ← call (state.app.state.consume_login_state oauth_state) (λ _. invalid_state)
    require (not (is_empty_str oauth_state)) invalid_state
    require (login_state.provider_id == provider_id) invalid_state
    result ←
        call
          (complete_auth login provider_id
            (record {
              code = first_param params "code";
              state = oauth_state;
              nonce = login_state.nonce;
              redirect_url = auth_callback_url web state.app.cfg provider_id;
              params = params;
              private_state = login_state.private_state;
            })
            login_state.login_url_nonce)
          write_callback_error
    answer (callback_page web headers result))
