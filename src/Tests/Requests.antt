-- ===== src/Tests/Requests.antt =====
-- The theorems of the requests that carry a token or a form, at the small store.
use lore_auth_bridge.Base.{
  String, ◌≡◌, ◌≢◌, ◌↔◌, refl, false, Option, none, some, List, [], ◌∷◌, ok, In, inl, HashMap, get,
  string_eq, from_secs, is_empty_str,
}
use lore_auth_bridge.Model.{VerifiedAuthn}
use lore_auth_bridge.Memory.State.{World}
use lore_auth_bridge.Memory.Sessions.{consume_csrf_token, user_by_browser_session}
use lore_auth_bridge.Memory.Sessions.OneTime.{attempts}
use lore_auth_bridge.Memory.Accounts.{principal_by_user_id, principal_by_authn_token_jti}
use lore_auth_bridge.Memory.Resources.{get_by_name, get_by_resource_id}
use lore_auth_bridge.Memory.Grants.{can_access}
use lore_auth_bridge.Memory.Nesting.{widen}
use lore_auth_bridge.Memory.Tokens.{sign_authz, record_issued, verify}
use lore_auth_bridge.Service.Login.{LoginService}
use lore_auth_bridge.Service.Token.Authorize.{MayWrite}
use lore_auth_bridge.Inbound.Reply.{accept, reject}
use lore_auth_bridge.Inbound.Status.Hides.{not_authorized}
use lore_auth_bridge.Inbound.Auth.{
  Request, CheckUserPermissionRequest, CheckUserPermissionResponse, PermittedResource,
  bearer_from_request, resolve_subject_user, check_user_permission,
  exchange_user_token_for_multiresource_token,
}
use lore_auth_bridge.Inbound.Auth.Check.{
  memory_server, memory_permissions, Writable, Refused, check_user_permission_iff,
}
use lore_auth_bridge.Inbound.Auth.Hides.{exchange_server, exchange_call_hides}
use lore_auth_bridge.Service.Wiring.{memory_accounts, memory_clock, memory_sessions}
use lore_auth_bridge.Service.Token.{verify_authn}
use lore_auth_bridge.Service.Wiring.{memory_tokens}
use lore_auth_bridge.Service.Device.{DeviceService}
use lore_auth_bridge.Inbound.Http.{Response, HttpConfig, Web, Url}
use lore_auth_bridge.Inbound.Http.Tokens.{handle_token_mint}
use lore_auth_bridge.Inbound.Http.Tokens.Mint.{memory_app}
use lore_auth_bridge.Inbound.Http.Tokens.Once.{mint_once}
use lore_auth_bridge.Tests.{test_world, test_state}
use lore_auth_bridge.Tests.Services.{config, ann_token}
use lore_auth_bridge.Tests.Inbound.{session_world, headers}

-- One page of the server, and one form.
abbrev server_url : Url
server_url = record { scheme = "https"; host_str = some "auth"; port = none }

abbrev form : HashMap String String
form = ("csrf_token", "token") ∷ ("repository", "game") ∷ []

abbrev web : Web
web = record {
  parse_url = λ _. some server_url;
  to_bytes = λ body _. some body;
  form_from_bytes = λ _. some form;
  start_from_slice = λ _. none;
  device_code_from_slice = λ _. none;
}

abbrev http_config : HttpConfig
http_config = record {
  public_base_url = "https://auth";
  lore_auth_url = "https://auth";
  default_remote_url = "";
  session_ttl = from_secs 3600;
}

abbrev no_device : Option (DeviceService World)
no_device = none

abbrev mint : World → Response × World
mint = handle_token_mint (memory_app http_config config no_device) (λ s. s) web headers "form"

mint_test : (mint session_world).0.status ≡ 200
unfolding handle_token_mint user_by_browser_session consume_csrf_token principal_by_user_id
    get_by_name can_access widen get_by_resource_id sign_authz record_issued
mint_test = refl

mint_once_example :
    (handle_token_mint
      (memory_app http_config config no_device)
      (λ s. s)
      web
      headers
      "form"
      (attempts (mint session_world).1 (("session", "token") ∷ []))).0.status
    ≢ 200
mint_once_example =
    mint_once http_config config no_device (λ s. s) web headers headers "form" "form" "form" "form"
      form form session_world (mint session_world).1 (mint session_world).0
      (("session", "token") ∷ []) refl refl refl refl refl refl mint_test

-- The store with a token of Ann's, and a login service without providers.
abbrev bearer_world : World
bearer_world = record test_world {
  state = record test_state {
    issued_tokens = ("jti", ann_token) ∷ [];
    tokens =
        (
          "bearer",
          record {
            subject = "user:ann";
            jti = "jti";
            idp = "";
            expires_at = 2000;
            audience = "auth" ∷ [];
            raw_claims = [];
          },
        )
        ∷ [];
  };
}

abbrev login : LoginService World
login = record {
  cfg = record {
    public_base_url = "https://auth";
    session_ttl = from_secs 3600;
    auth_session_ttl = from_secs 600;
  };
  idps = record { lookup = λ _. none; default_id = ""; list = [] };
  users = memory_accounts;
  state = memory_sessions;
  tokens = memory_tokens config;
  clock = memory_clock;
}

abbrev asked : Request (List String)
asked = record { authorization = some " Bearer bearer "; message = "urc-secret" ∷ [] }

bearer_test : bearer_from_request asked ≡ some "Bearer bearer"
unfolding bearer_from_request
bearer_test = refl

abbrev verified : VerifiedAuthn
verified = record {
  subject = "user:ann";
  principal = record {
    user_id = "ann";
    token_subject = "user:ann";
    token_idp = "bridge";
    display_name = "ann";
    preferred_username = "ann@example.com";
    groups = "devs" ∷ [];
  };
  user = record {
    id = "ann";
    email = "ann@example.com";
    display_name = "ann";
    status = "active";
    last_login_at = 0;
  };
}

abbrev later : World
later = record bearer_world { ticks = 1 }

verify_test :
    verify_authn (memory_tokens config) "Bearer bearer" bearer_world ≡ (ok verified, later)
unfolding verify_authn verify principal_by_authn_token_jti
verify_test = refl

named : is_empty_str "ann" ≡ false
unfolding is_empty_str
named = refl

no_secret : ¬ MayWrite later "ann" "urc-secret"
unfolding get
no_secret (r, q, _) = cc q

exchange_call_hides_example :
    (exchange_user_token_for_multiresource_token
      (exchange_server config login memory_permissions)
      asked
      bearer_world).0
    ≡ reject not_authorized
exchange_call_hides_example =
    exchange_call_hides config login memory_permissions asked "Bearer bearer" verified bearer_world
      later "urc-secret" bearer_test verify_test named (inl refl) no_secret

abbrev checked : Request CheckUserPermissionRequest
checked = record {
  authorization = some "bearer";
  message = record { resource_id = "urc-game" ∷ "urc-secret" ∷ []; target_user = none };
}

subject_test :
    resolve_subject_user (memory_server login (memory_tokens config)) checked bearer_world
    ≡ (accept verified.user, later)
unfolding resolve_subject_user verify principal_by_authn_token_jti
subject_test = refl

check_user_permission_iff_example :
    (r : CheckUserPermissionResponse) × (check_user_permission
        (memory_server login (memory_tokens config))
        checked
        bearer_world
      ≡ (accept r, later))
    × ((p : PermittedResource)
        → (In p r.allowed_resource_permission
            ↔ ((id : String) × In id checked.message.resource_id × Writable later "ann" id p))
          × (In p r.denied_resource_permission
              ↔ ((id : String) × In id checked.message.resource_id × Refused later "ann" id p)))
check_user_permission_iff_example =
    check_user_permission_iff login (memory_tokens config) checked bearer_world later verified.user
      subject_test
