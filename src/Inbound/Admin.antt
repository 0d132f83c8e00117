-- ===== src/Inbound/Admin.antt =====
-- crates/lore-auth-inbound/src/admin/guard.rs: who may use the administration pages. The type of a
-- network and its `contains` are parameters.
pub mod Guard
use lore_auth_bridge.Base.{
  String, Bool, true, false, not, ◌==◌, string_eq, if◌then◌else◌, Option, none, some, List, [], ◌∷◌,
  Result, ok, err, CoreError, permission_denied, unauthenticated, any, is_empty, is_empty_str, trim,
  Duration, from_secs, ◌*◌, ℕ,
}
use lore_auth_bridge.Model.{normalize_email}
use lore_auth_bridge.Service.Ports.{StateStore}
use lore_auth_bridge.Inbound.Reply.{
  Reply, accept, reject, Handler, answer, refuse, require, call, observe, present, ◌>>=◌, ◌>>◌,
}
use lore_auth_bridge.Inbound.Peer.{IpAddr}
use lore_auth_bridge.Inbound.Http.{
  Response, text_response, Headers, BrowserSession, current_browser_session, respond,
}

pub record AdminConfig (IpNet : Type 0) : Type 0 where
  pub admin_emails : List String
  pub allowed_peer_cidrs : List IpNet

-- `not_found` of admin/mod.rs.
unfoldable pub not_found_page : Response
unfolding text_response
not_found_page = text_response 404 "not found"

abbrev pub admin_csrf_ttl : Duration
admin_csrf_ttl = from_secs (10 * 60)

-- The answer to a lookup of the session that fails.
unfoldable pub session_failure : CoreError → Response
unfolding not_found_page text_response
session_failure permission_denied = not_found_page
session_failure unauthenticated = not_found_page
session_failure _ = text_response 500 "session unavailable"

module _ (IpNet : Type 0) where
  unfoldable pub enabled : AdminConfig IpNet → Bool
  enabled cfg = not (is_empty cfg.admin_emails)

  -- The test of the caller's address.
  unfoldable pub peer_passes : (IpNet → IpAddr → Bool) → AdminConfig IpNet → Option IpAddr → Bool
  unfolding any
  peer_passes covers cfg none = is_empty cfg.allowed_peer_cidrs
  peer_passes covers cfg (some addr) =
      if is_empty cfg.allowed_peer_cidrs
      then true
      else any (λ cidr. covers cidr addr) cfg.allowed_peer_cidrs

  unfoldable pub is_admin_email : AdminConfig IpNet → String → Bool
  unfolding normalize_email is_empty_str any
  is_admin_email cfg email =
      if is_empty_str (normalize_email email)
      then false
      else any (λ admin. normalize_email admin == normalize_email email) cfg.admin_emails

  module _ {W : Type 0} (covers : IpNet → IpAddr → Bool) (cfg : AdminConfig IpNet)
      (state : StateStore W) where
    unfoldable pub require_admin : Headers → Option IpAddr → Handler W Response BrowserSession
    unfolding enabled peer_passes current_browser_session session_failure is_admin_email
        not_found_page
    require_admin headers peer = do
      require (enabled cfg) not_found_page
      require (peer_passes covers cfg peer) not_found_page
      found ← call (current_browser_session state headers) session_failure
      session ← present found not_found_page
      require (session.user.status == "active") not_found_page
      require (is_admin_email cfg session.user.email) not_found_page
      answer session

    -- `guard_middleware`; `next` is what stands behind it.
    unfoldable pub guard_middleware :
        Headers → Option IpAddr → (W → Response × W) → W → Response × W
    unfolding respond require_admin
    guard_middleware headers peer next =
        respond
          (do require_admin headers peer; λ w. let (response, w') = next w in (accept response, w'))

    unfoldable pub create_admin_csrf : BrowserSession → Handler W Response String
    unfolding text_response
    create_admin_csrf session =
        call (state.create_csrf_token session.session_id admin_csrf_ttl)
          (λ _. text_response 500 "csrf unavailable")

    unfoldable pub require_admin_csrf : BrowserSession → String → Handler W Response (Unit {0})
    unfolding trim is_empty_str text_response
    require_admin_csrf session csrf_token = do
      require (not (is_empty_str (trim csrf_token))) (text_response 403 "invalid csrf token")
      call (state.consume_csrf_token session.session_id csrf_token)
          (λ _. text_response 403 "invalid csrf token")

unfoldable pub admin_actor : BrowserSession → String
unfolding trim is_empty_str
admin_actor session =
    if not (is_empty_str (trim session.user.email)) then session.user.email else session.user.id
