-- ===== src/Inbound/Http/Device.antt =====
-- crates/lore-auth-inbound/src/httpserver/device.rs: the pages and endpoints of the device flow.
use lore_auth_bridge.Base.{
  String, not, string_eq, if◌then◌else◌, [], ◌∷◌, CoreError, invalid_argument, not_found,
  permission_denied, device_invalid_code, device_expired_code, device_authorization_not_pending,
  HashMap, concat, is_empty_str,
}
use lore_auth_bridge.Service.Device.{DeviceService, PreviewResult}
use lore_auth_bridge.Service.Device as Flow
use lore_auth_bridge.Inbound.Reply.{Handler, answer, require, call, present, ◌>>=◌, ◌>>◌}
use lore_auth_bridge.Inbound.Http.Answers.{
  Response, AppState, Web, text_response, html_response, json_response, redirect_found, text_field,
  number_field, parse_form_body, decode_json_body, csrf_ttl,
}
use lore_auth_bridge.Inbound.Http.Text.{html_escape}
use lore_auth_bridge.Inbound.Http.Session.{
  Headers, require_session, same_origin, get_or_blank, spend_csrf, respond,
}

unfoldable pub write_device_error : CoreError → Response
unfolding text_response
write_device_error device_invalid_code = text_response 400 "invalid device code"
write_device_error device_expired_code = text_response 400 "device code expired"
write_device_error device_authorization_not_pending =
    text_response 400 "invalid device authorization"
write_device_error (invalid_argument _) = text_response 400 "invalid device authorization"
write_device_error not_found = text_response 404 "device repository not found"
write_device_error permission_denied = text_response 403 "device authorization denied"
write_device_error _ = text_response 500 "device flow unavailable"

unfoldable pub device_confirm_html : String → String → PreviewResult → String
unfolding html_escape
device_confirm_html user_code csrf_token preview = concat (
    "<h1>Authorize device</h1><dl><dt>Repository</dt><dd>"
    ∷ html_escape preview.repository.name
    ∷ "</dd><dt>Repository remote</dt><dd>"
    ∷ html_escape preview.repository.remote_url
    ∷ "</dd><dt>Requested remote</dt><dd>"
    ∷ html_escape preview.requested_remote_url
    ∷ "</dd></dl><form method=\"post\" action=\"/device/approve\"><input type=\"hidden\" name=\"user_code\" value=\""
    ∷ html_escape user_code
    ∷ "\"><input type=\"hidden\" name=\"csrf_token\" value=\""
    ∷ html_escape csrf_token
    ∷ "\"><button type=\"submit\">Approve</button></form>"
    ∷ [])

abbrev code_form : String
code_form =
    "<h1>Authorize device</h1><form method=\"get\" action=\"/device\"><input name=\"user_code\" placeholder=\"AB12-CD34\"><button type=\"submit\">Continue</button></form>"

module _ {W : Type 0} (state : AppState W) where
  -- `let Some(device) = state.services.device.as_ref() else { .. }`.
  unfoldable pub device_service : Handler W Response (DeviceService W)
  unfolding text_response
  device_service = present state.device (text_response 503 "device flow not configured")

  unfoldable pub handle_device_page : HashMap String String → Headers → W → Response × W
  unfolding respond device_service get_or_blank is_empty_str require_session redirect_found
      Flow.preview write_device_error device_confirm_html html_response text_response
  handle_device_page query headers = respond (do
    device ← device_service
    let user_code = get_or_blank query "user_code"
    require (not (is_empty_str user_code)) (html_response 200 code_form)
    session ← require_session state headers (redirect_found "/login")
    preview ← call (Flow.preview device user_code) write_device_error
    csrf ←
        call (state.state.create_csrf_token session.session_id csrf_ttl)
          (λ _. text_response 500 "device approval unavailable")
    answer (html_response 200 (device_confirm_html user_code csrf preview)))

  unfoldable pub handle_device_approve : Web → Headers → String → W → Response × W
  unfolding respond device_service require_session redirect_found same_origin parse_form_body
      get_or_blank is_empty_str spend_csrf Flow.approve write_device_error html_response html_escape
      text_response
  handle_device_approve web headers body = respond (do
    device ← device_service
    session ← require_session state headers (redirect_found "/login")
    require (same_origin web state.cfg headers) (text_response 403 "invalid origin")
    form ← parse_form_body web body
    let user_code = get_or_blank form "user_code"
    require (not (is_empty_str user_code)) (text_response 403 "invalid csrf token")
    spend_csrf state session.session_id (get_or_blank form "csrf_token")
    repo ← call (Flow.approve device session.user.id user_code) write_device_error
    answer (
        html_response 200 (
          concat
            ("<h1>Device approved</h1><p>Repository: " ∷ html_escape repo.name ∷ "</p>" ∷ []))))

  unfoldable pub handle_device_start : Web → String → W → Response × W
  unfolding respond device_service decode_json_body is_empty_str Flow.start write_device_error
      json_response
  handle_device_start web body = respond (do
    device ← device_service
    req ← decode_json_body web web.start_from_slice body
    let remote_url =
        if is_empty_str req.remote_url then state.cfg.default_remote_url else req.remote_url
    result ← call (Flow.start device remote_url req.repository) write_device_error
    answer (
        json_response 200 (
          text_field "device_code" result.device_code
          ∷ text_field "user_code" result.user_code
          ∷ text_field "verification_uri" result.verification_uri
          ∷ number_field "expires_in" result.expires_in
          ∷ number_field "interval" result.interval
          ∷ [])))

  -- `debug_str` is the `{:?}` of a text.
  unfoldable pub handle_device_token : (String → String) → Web → String → W → Response × W
  unfolding respond device_service decode_json_body Flow.token write_device_error json_response
  handle_device_token debug_str web body = respond (do
    device ← device_service
    device_code ← decode_json_body web web.device_code_from_slice body
    result ← call (Flow.token device debug_str device_code) write_device_error
    answer (
        json_response 200 (
          text_field "status" result.status
          ∷ text_field "token_type" result.token_type
          ∷ text_field "access_token" result.access_token
          ∷ number_field "expires_in" result.expires_in
          ∷ text_field "auth_url" result.auth_url
          ∷ text_field "remote_url" result.remote_url
          ∷ [])))
