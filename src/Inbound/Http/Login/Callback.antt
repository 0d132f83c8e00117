-- ===== src/Inbound/Http/Login/Callback.antt =====
-- crates/lore-auth-inbound/src/httpserver/login.rs: the branches of a callback.
use lore_auth_bridge.Base.{
  String, ◌≡◌, true, false, ◌==◌, string_eq, nat_eq, some, ok, err, CoreError, HashMap, List,
  is_empty_str, arith,
}
use lore_auth_bridge.Model.{LoginState}
use lore_auth_bridge.Memory.State.{World}
use lore_auth_bridge.Service.Ports.{CompleteAuthRequest}
use lore_auth_bridge.Service.Login.{LoginService, OAuthCallbackResult, complete_auth}
use lore_auth_bridge.Inbound.Http.Answers.{Response, text_response}
use lore_auth_bridge.Inbound.Http.Session.{Headers, respond}
use lore_auth_bridge.Inbound.Http.Login.{
  LoginWeb, LoginApp, query_params, first_param, auth_callback_url, write_callback_error,
}
use lore_auth_bridge.Inbound.Http.Login.Page.{handle_auth_callback, callback_page}

module _ (web : LoginWeb World) (app : LoginApp World) (provider_id raw : String) where
  abbrev params : HashMap String (List String)
  params = query_params web raw

  abbrev oauth_state : String
  oauth_state = first_param params "state"

  -- What the callback asks the provider, by the state that it consumed.
  abbrev pub request_of : LoginState → CompleteAuthRequest
  request_of login_state = record {
    code = first_param params "code";
    state = oauth_state;
    nonce = login_state.nonce;
    redirect_url = auth_callback_url web app.app.cfg provider_id;
    params = params;
    private_state = login_state.private_state;
  }

module _ (web : LoginWeb World) (app : LoginApp World) (service : LoginService World)
    (provider_id raw : String) (headers : Headers) (w : World) where
  abbrev callback : Response × World
  callback = handle_auth_callback web app provider_id (some raw) headers w

  module _ (configured : app.login ≡ some service) where
    pub callback-unknown_state :
        (e : CoreError) (v : World)
        → app.app.state.consume_login_state (oauth_state web app provider_id raw) w ≡ (err e, v)
        → callback ≡ (text_response 400 "invalid oauth state", v)
    unfolding handle_auth_callback respond
    callback-unknown_state e v q = ground (arith, configured, q)

    pub callback-no_state :
        (login_state : LoginState) (v : World)
        → app.app.state.consume_login_state (oauth_state web app provider_id raw) w
          ≡ (ok login_state, v)
        → is_empty_str (oauth_state web app provider_id raw) ≡ true
        → callback ≡ (text_response 400 "invalid oauth state", v)
    unfolding handle_auth_callback respond
    callback-no_state login_state v q h = ground (arith, configured, q, h)

    pub callback-other_provider :
        (login_state : LoginState) (v : World)
        → app.app.state.consume_login_state (oauth_state web app provider_id raw) w
          ≡ (ok login_state, v)
        → is_empty_str (oauth_state web app provider_id raw) ≡ false
        → (login_state.provider_id == provider_id) ≡ false
        → callback ≡ (text_response 400 "invalid oauth state", v)
    unfolding handle_auth_callback respond
    callback-other_provider login_state v q h p = ground (arith, configured, q, h, p)

    module _ (login_state : LoginState) (v u : World)
        (q : app.app.state.consume_login_state (oauth_state web app provider_id raw) w
          ≡ (ok login_state, v))
        (h : is_empty_str (oauth_state web app provider_id raw) ≡ false)
        (p : (login_state.provider_id == provider_id) ≡ true) where
      pub callback-failed :
          (e : CoreError)
          → complete_auth service provider_id
              (request_of web app provider_id raw login_state)
              login_state.login_url_nonce
              v
            ≡ (err e, u)
          → callback ≡ (write_callback_error e, u)
      unfolding handle_auth_callback respond
      callback-failed e c = ground (arith, configured, q, h, p, c)

      pub callback-completed :
          (result : OAuthCallbackResult)
          → complete_auth service provider_id
              (request_of web app provider_id raw login_state)
              login_state.login_url_nonce
              v
            ≡ (ok result, u)
          → callback ≡ (callback_page web headers result, u)
      unfolding handle_auth_callback respond
      callback-completed result c = ground (arith, configured, q, h, p, c)
