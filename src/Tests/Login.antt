-- ===== src/Tests/Login.antt =====
-- The theorem of the callback, at the small store with a login that waits for its callback.
use lore_auth_bridge.Base.{
  String, ◌≡◌, ◌↔◌, refl, true, ◌==◌, nat_eq, string_eq, some, [], ◌∷◌, ok, err, unsupported,
  not_found, from_secs, Act,
}
use lore_auth_bridge.Model.{ExternalIdentity, LoginState, default_external_identity}
use lore_auth_bridge.Memory.State.{World}
use lore_auth_bridge.Memory.Helpers.{external_identity_key}
use lore_auth_bridge.Memory.Accounts.{resolve_login}
use lore_auth_bridge.Memory.Sessions.{consume_login_state, create_browser_session}
use lore_auth_bridge.Memory.Sessions.OneTime.{login_state_once}
use lore_auth_bridge.Service.Ports.{IdentityProvider}
use lore_auth_bridge.Service.Login.{LoginService}
use lore_auth_bridge.Service.Wiring.{memory_accounts, memory_clock, memory_sessions, memory_tokens}
use lore_auth_bridge.Inbound.Http.{Response, HttpConfig, Headers}
use lore_auth_bridge.Inbound.Http.Login.{LoginWeb}
use lore_auth_bridge.Inbound.Http.Login.Page.{handle_auth_callback}
use lore_auth_bridge.Inbound.Http.Login.SignIn.{callback_of, IsSignedIn, callback-IsSignedIn}
use lore_auth_bridge.Tests.{test_world, test_state}
use lore_auth_bridge.Tests.Services.{config}

abbrev asserted : ExternalIdentity
asserted = record default_external_identity {
  provider_id = "idp";
  issuer = "https://idp";
  subject = "ann-at-idp";
}

abbrev waiting : LoginState
waiting = record {
  id = "login";
  provider_id = "idp";
  nonce = "nonce";
  login_url_nonce = "";
  return_path = "";
  private_state = [];
  expires_at = 1500;
}

abbrev waiting_world : World
waiting_world = record test_world {
  state = record test_state {
    login_states = ("live", waiting) ∷ [];
    identities =
        (
          external_identity_key asserted,
          record asserted { id = "identity"; user_id = "ann"; status = "active" },
        )
        ∷ [];
  };
}

abbrev provider : IdentityProvider World
provider = record {
  descriptor = record {
    id = "idp";
    provider_type = "oidc";
    display_name = "";
    issuer = "https://idp";
    trust_policy = record { email_binding = ""; allowed_email_domains = [] };
  };
  begin_auth = λ _ w. (err unsupported, w);
  complete_auth = λ _ w. (ok asserted, w);
}

abbrev service : LoginService World
service = record {
  cfg = record {
    public_base_url = "https://auth";
    session_ttl = from_secs 3600;
    auth_session_ttl = from_secs 600;
  };
  idps = record { lookup = λ _. some provider; default_id = "idp"; list = [] };
  users = memory_accounts;
  state = memory_sessions;
  tokens = memory_tokens config;
  clock = memory_clock;
}

abbrev http_config : HttpConfig
http_config = record {
  public_base_url = "https://auth";
  lore_auth_url = "https://auth";
  default_remote_url = "";
  session_ttl = from_secs 3600;
}

abbrev web : LoginWeb World
web = record {
  parse_pairs = λ raw. ("state", raw) ∷ ("code", "code") ∷ [];
  append_pair = λ name value. value;
  encode_path_segment = λ s. s;
  random_url_token = λ w. ("token", w);
  show = λ _. "0";
}

abbrev no_headers : Headers
no_headers = []

abbrev no_keys : Act World String
no_keys w = (err unsupported, w)

abbrev answered : String → String → Response × World
answered provider_id raw =
    callback_of web http_config config service no_keys provider_id raw no_headers waiting_world

live_test : (answered "idp" "live").0.status ≡ 302
unfolding handle_auth_callback consume_login_state resolve_login create_browser_session
live_test = refl

unknown_test : (answered "idp" "other").0.status ≡ 400
unfolding handle_auth_callback consume_login_state
unknown_test = refl

other_provider_test : (answered "other" "live").0.status ≡ 400
unfolding handle_auth_callback consume_login_state
other_provider_test = refl

callback-IsSignedIn_example :
    ((answered "idp" "live").0.status == 302) ≡ true
    ↔ IsSignedIn web http_config config service no_keys "idp" "live" no_headers waiting_world
        (answered "idp" "live").1
callback-IsSignedIn_example =
    callback-IsSignedIn web http_config config service no_keys "idp" "live" no_headers waiting_world

-- The login that waits cannot be completed twice.
login_state_once_example :
    (consume_login_state "live" (consume_login_state "live" waiting_world).1).0 ≡ err not_found
login_state_once_example = login_state_once "live" waiting_world
