-- ===== src/Inbound/Http/Tokens.antt =====
-- crates/lore-auth-inbound/src/httpserver/tokens.rs: the page that issues tokens by hand.
pub mod Mint
pub mod Once
use lore_auth_bridge.Base.{
  ℕ, String, Bool, true, not, string_eq, if◌then◌else◌, Option, none, some, List, [], ◌∷◌, ◌++◌,
  map, ok, err, CoreError, invalid_argument, not_found, permission_denied, HashMap, get, insert,
  any, concat, is_empty_str,
}
use lore_auth_bridge.Model.{User, Resource, ResourcePermission, Permission, permission_eq}
use lore_auth_bridge.Service.Ports.{StateStore, ResourceStore}
use lore_auth_bridge.Service.Permission.{lookup}
use lore_auth_bridge.Service.Token.{manual_mint_authz}
use lore_auth_bridge.Inbound.Reply.{Handler, answer, require, call, ◌>>=◌, ◌>>◌}
use lore_auth_bridge.Inbound.Http.Answers.{
  Response, AppState, Web, text_response, html_response, response_with_headers, redirect_found,
  text, parse_form_body, csrf_ttl,
}
use lore_auth_bridge.Inbound.Http.Text.{html_escape}
use lore_auth_bridge.Inbound.Http.Session.{
  Headers, require_session, same_origin, get_or_blank, spend_csrf, respond,
}

-- `collect::<HashMap<_, _>>()`: of two entries with a key the later one stays.
unfoldable pub by_resource_id : List Resource → HashMap String Resource → HashMap String Resource
unfolding insert
by_resource_id [] m = m
by_resource_id (r ∷ rest) m = by_resource_id rest (insert m r.resource_id r)

-- The `filter` and the `filter_map` of `handle_token_page`.
unfoldable pub writable_repos : List ResourcePermission → HashMap String Resource → List Resource
unfolding any permission_eq get
writable_repos [] resources = []
writable_repos (p ∷ rest) resources =
    let others = writable_repos rest resources in
    if any (λ x. permission_eq x Permission.write) p.permission
    then elim (get resources p.resource_id) [ none ↦ others | some r ↦ r ∷ others ]
    else others

unfoldable pub option_tags : List Resource → List String
unfolding html_escape
option_tags [] = []
option_tags (repo ∷ rest) =
    "<option value=\""
    ∷ html_escape repo.name
    ∷ "\">"
    ∷ html_escape repo.name
    ∷ "</option>"
    ∷ option_tags rest

unfoldable pub token_page_html : User → List Resource → String → String
unfolding html_escape option_tags
token_page_html user repos csrf_token = concat (
    "<h1>Issue Lore token</h1><p>User: "
      ∷ html_escape user.email
      ∷ "</p><form method=\"post\" action=\"/tokens/mint\"><input type=\"hidden\" name=\"csrf_token\" value=\""
      ∷ html_escape csrf_token
      ∷ "\"><label>Repository<select name=\"repository\">"
      ∷ option_tags repos
    ++ "</select></label><button type=\"submit\">Issue writer token</button></form>" ∷ [])

unfoldable pub token_result_html : String → String → String → String → String
unfolding html_escape
token_result_html token auth_url remote_url repo = concat (
    "<h1>Lore token issued</h1><p>Repository: "
    ∷ html_escape repo
    ∷ "</p><p>Copy this command:</p><pre>lore auth login --token-type lore --token "
    ∷ html_escape token
    ∷ " --auth-url "
    ∷ html_escape auth_url
    ∷ " "
    ∷ html_escape remote_url
    ∷ "</pre><p>Token:</p><textarea rows=\"8\" cols=\"100\">"
    ∷ html_escape token
    ∷ "</textarea>"
    ∷ [])

unfoldable pub write_token_issue_error : CoreError → Response
unfolding text_response
write_token_issue_error (invalid_argument _) = text_response 400 "invalid token request"
write_token_issue_error not_found = text_response 403 "token not authorized"
write_token_issue_error permission_denied = text_response 403 "token not authorized"
write_token_issue_error _ = text_response 500 "token unavailable"

module _ {W : Type 0} (state : AppState W) where
  unfoldable pub handle_token_page : Headers → W → Response × W
  unfolding respond require_session redirect_found lookup by_resource_id writable_repos
      token_page_html html_response text_response
  handle_token_page headers = respond (do
    session ← require_session state headers (redirect_found "/login")
    accessible ←
        call (lookup state.permissions session.user.id (record { prefix = "" }))
          (λ _. text_response 500 "repositories unavailable")
    resources ← call state.resources.list (λ _. text_response 500 "repositories unavailable")
    let repos = writable_repos accessible (by_resource_id resources [])
    csrf ←
        call (state.state.create_csrf_token session.session_id csrf_ttl)
          (λ _. text_response 500 "token page unavailable")
    answer (html_response 200 (token_page_html session.user repos csrf)))

  -- `debug_str` is the `{:?}` of a text.
  unfoldable pub handle_token_mint : (String → String) → Web → Headers → String → W → Response × W
  unfolding respond require_session redirect_found same_origin parse_form_body get_or_blank
      spend_csrf is_empty_str manual_mint_authz token_result_html write_token_issue_error
      text_response response_with_headers
  handle_token_mint debug_str web headers body = respond (do
    session ← require_session state headers (redirect_found "/login")
    require (same_origin web state.cfg headers) (text_response 403 "invalid origin")
    form ← parse_form_body web body
    spend_csrf state session.session_id (get_or_blank form "csrf_token")
    let repo = get_or_blank form "repository"
    require (not (is_empty_str repo)) (text_response 400 "repository is required")
    token ←
        call (manual_mint_authz state.tokens debug_str session.user.id repo "writer" none)
          write_token_issue_error
    answer (
        response_with_headers 200
          (text (
            token_result_html token.token state.cfg.lore_auth_url state.cfg.default_remote_url
              repo))
          (("content-type", "text/html; charset=utf-8")
            ∷ ("cache-control", "no-store")
            ∷ ("pragma", "no-cache")
            ∷ ("referrer-policy", "no-referrer")
            ∷ [])))
