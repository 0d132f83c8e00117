-- ===== src/Inbound/Http/Endpoints.antt =====
-- crates/lore-auth-inbound/src/httpserver/session.rs: the endpoints of a browser's session.
use lore_auth_bridge.Base.{
  String, Bool, true, false, none, some, [], ◌∷◌, ok, err, not_found, concat, string_eq,
}
use lore_auth_bridge.Model.{ExternalIdentity, default_external_identity, bridge_subject}
use lore_auth_bridge.Inbound.Reply.{Handler, answer, refuse, require, call, observe, ◌>>=◌, ◌>>◌}
use lore_auth_bridge.Inbound.Http.Answers.{
  Response, AppState, Web, text_response, html_response, json_response, response_with_headers,
  no_body, json, text_field, csrf_ttl,
}
use lore_auth_bridge.Inbound.Http.Text.{html_escape}
use lore_auth_bridge.Inbound.Http.Session.{
  Headers, BrowserSession, session_cookie_name, current_browser_session, same_origin, clear_cookie,
  require_session, spend_csrf, csrf_token_from_request, respond,
}

unfoldable pub show_bool : Bool → String
show_bool true = "true"
show_bool false = "false"

unfoldable pub render_whoami : ExternalIdentity → Response
unfolding html_response html_escape show_bool
render_whoami id = html_response 200 (
    concat (
      "<h1>Identity</h1><dl><dt>issuer</dt><dd>"
      ∷ html_escape id.issuer
      ∷ "</dd><dt>subject</dt><dd>"
      ∷ html_escape id.subject
      ∷ "</dd><dt>email</dt><dd>"
      ∷ html_escape id.email
      ∷ "</dd><dt>email_verified</dt><dd>"
      ∷ show_bool id.email_verified
      ∷ "</dd><dt>name</dt><dd>"
      ∷ html_escape id.display_name
      ∷ "</dd><dt>hosted_domain</dt><dd>"
      ∷ html_escape id.hosted_domain
      ∷ "</dd></dl><p>Ask the administrator to invite this verified email. No Lore token was issued.</p>"
      ∷ []))

module _ {W : Type 0} (state : AppState W) where
  abbrev not_logged_in : Response
  not_logged_in = text_response 401 "not logged in"

  unfoldable pub handle_whoami : Headers → W → Response × W
  unfolding respond require_session render_whoami text_response bridge_subject
  handle_whoami headers = respond (do
    session ← require_session state headers not_logged_in
    let user = session.user
    answer (
        render_whoami (record default_external_identity {
          issuer = "bridge";
          subject = bridge_subject user;
          email = user.email;
          display_name = user.display_name;
        })))

  unfoldable pub handle_me : Headers → W → Response × W
  unfolding respond require_session json_response bridge_subject text_response
  handle_me headers = respond (do
    session ← require_session state headers not_logged_in
    answer (
        json_response 200 (
          text_field "id" session.user.id
          ∷ text_field "email" session.user.email
          ∷ text_field "subject" (bridge_subject session.user)
          ∷ text_field "status" session.user.status
          ∷ [])))

  unfoldable pub handle_session_csrf : Headers → W → Response × W
  unfolding respond require_session response_with_headers text_response
  handle_session_csrf headers = respond (do
    session ← require_session state headers not_logged_in
    token ←
        call (state.state.create_csrf_token session.session_id csrf_ttl)
          (λ _. text_response 500 "csrf unavailable")
    answer (
        response_with_headers 200 (json (text_field "csrf_token" token ∷ [])) (
          ("content-type", "application/json")
          ∷ ("cache-control", "no-store")
          ∷ ("pragma", "no-cache")
          ∷ [])))

  abbrev signed_out : Response
  signed_out =
      response_with_headers 204 no_body (("set-cookie", clear_cookie session_cookie_name) ∷ [])

  -- The part of `handle_logout` for a caller with a session.
  unfoldable pub end_session :
      Web → Headers → String → BrowserSession → Handler W Response (Unit {0})
  unfolding same_origin csrf_token_from_request spend_csrf text_response
  end_session web headers body session = do
    require (same_origin web state.cfg headers) (text_response 403 "invalid origin")
    csrf ← csrf_token_from_request web headers body
    spend_csrf state session.session_id csrf
    revoked ← observe (state.state.revoke_browser_session session.session_id)
    elim revoked [
      | ok _ ↦ answer tt
      | err not_found ↦ answer tt
      | err _ ↦ refuse (text_response 500 "session unavailable")
    ]

  unfoldable pub handle_logout : Web → Headers → String → W → Response × W
  unfolding respond current_browser_session end_session response_with_headers clear_cookie
      text_response
  handle_logout web headers body = respond (do
    found ←
        call (current_browser_session state.state headers)
          (λ _. text_response 500 "session unavailable")
    elim found [ none ↦ answer tt | some session ↦ end_session web headers body session ]
    answer signed_out)
