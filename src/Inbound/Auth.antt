-- ===== src/Inbound/Auth.antt =====
-- crates/lore-auth-inbound/src/grpcauth.rs: the handlers of the service `UrcAuthApi`. A request is its
-- header `authorization`, where it has one that is visible ASCII, and its message; an answer leaves out `next_page_token`, which is
-- always `None`.
pub mod Check
pub mod Hides
use lore_auth_bridge.Base.{
  ℕ, String, Bool, true, false, not, string_eq, nat_eq, pair_eq, if◌then◌else◌, Option, none, some,
  List, [], ◌∷◌, map, ◌++◌, is_empty, is_empty_str, trim, ok, err,
}
use lore_auth_bridge.Model.{
  User, VerifiedAuthn, SignedToken, Permission, permission_as_str, bridge_subject, display,
}
use lore_auth_bridge.Service.Token.{TokenService, verify_authn, exchange_authz}
use lore_auth_bridge.Service.Permission.{PermissionService, CheckedPermission}
use lore_auth_bridge.Service.Permission
use lore_auth_bridge.Service.Login.{LoginService}
use lore_auth_bridge.Service.Login
use lore_auth_bridge.Inbound.Reply.{Handler, answer, refuse, require, call, present, ◌>>=◌, ◌>>◌}
use lore_auth_bridge.Inbound.Status.{
  Status, code_invalid_argument, code_internal, code_unauthenticated, code_unimplemented,
  auth_session_status, resource_token_exchange_status,
}

pub record UrcAuthServer (W : Type 0) : Type 0 where
  pub login : LoginService W
  pub tokens : TokenService W
  pub permissions : PermissionService W

pub record Request (T : Type 0) : Type 0 where
  pub authorization : Option String
  pub message : T

-- `TargetUser`: its only variant is a user token.
pub record CheckUserPermissionRequest : Type 0 where
  pub resource_id : List String
  pub target_user : Option (Option String)

pub record UserToken : Type 0 where
  pub user_token : String
  pub expires_at : ℕ
  pub user_id : String
  pub user_name : String

pub record PermittedResource : Type 0 where
  pub resource_id : String
  pub permission : List String

pub record CheckUserPermissionResponse : Type 0 where
  pub allowed_resource_permission : List PermittedResource
  pub denied_resource_permission : List PermittedResource

pub record GetAuthSessionRequest : Type 0 where
  pub session_code : String
  pub client_state : String

unfoldable pub bearer_from_request : {T : Type 0} → Request T → Option String
unfolding trim is_empty_str
bearer_from_request request = elim request.authorization [
  | none ↦ none
  | some value ↦ if is_empty_str (trim value) then none else some (trim value)
]

unfoldable pub user_token : SignedToken → User → UserToken
unfolding bridge_subject display
user_token token user = record {
  user_token = token.token;
  expires_at = token.expires_at;
  user_id = bridge_subject user;
  user_name = display user;
}

unfoldable pub permissions_to_strings : List Permission → List String
unfolding permission_as_str
permissions_to_strings = map permission_as_str

-- The `for` loop of `check_user_permission` at an item.
unfoldable pub split_checked :
    CheckedPermission → CheckUserPermissionResponse → CheckUserPermissionResponse
unfolding permissions_to_strings
split_checked item response =
    if item.allowed
    then record response {
      allowed_resource_permission =
          response.allowed_resource_permission
          ++ record {
            resource_id = item.resource_id;
            permission = permissions_to_strings item.permission;
          }
            ∷ [];
    }
    else record response {
      denied_resource_permission =
          response.denied_resource_permission
          ++ record { resource_id = item.resource_id; permission = [] } ∷ [];
    }

unfoldable pub split_all :
    List CheckedPermission → CheckUserPermissionResponse → CheckUserPermissionResponse
unfolding split_checked
split_all [] response = response
split_all (item ∷ rest) response = split_all rest (split_checked item response)

abbrev pub internal : String → Status
internal text = record { code = code_internal; message = text }

abbrev pub unauthenticated_status : String → Status
unauthenticated_status text = record { code = code_unauthenticated; message = text }

abbrev pub invalid_status : String → Status
invalid_status text = record { code = code_invalid_argument; message = text }

-- The methods that the service does not offer.
abbrev unimplemented : String → Status
unimplemented text = record { code = code_unimplemented; message = text }

module _ {W T A : Type 0} where
  unfoldable pub refresh_auth_session : Request T → Handler W Status A
  refresh_auth_session request = refuse (unimplemented "method RefreshAuthSession not implemented")

  unfoldable pub verify_user : Request T → Handler W Status A
  verify_user request = refuse (unimplemented "method VerifyUser not implemented")

  unfoldable pub exchange_external_token_for_user_token : Request T → Handler W Status A
  exchange_external_token_for_user_token request =
      refuse (unimplemented "method ExchangeExternalTokenForUserToken not implemented")

  unfoldable pub exchange_api_key_for_user_token : Request T → Handler W Status A
  exchange_api_key_for_user_token request =
      refuse (unimplemented "method ExchangeAPIKeyForUserToken not implemented")

  unfoldable pub get_user_info : Request T → Handler W Status A
  get_user_info request = refuse (unimplemented "method GetUserInfo not implemented")

  unfoldable pub get_user_id : Request T → Handler W Status A
  get_user_id request = refuse (unimplemented "method GetUserId not implemented")

  unfoldable pub get_provider_user_id : Request T → Handler W Status A
  get_provider_user_id request = refuse (unimplemented "method GetProviderUserId not implemented")

unfoldable pub health_check : {W T : Type 0} → Request T → Handler W Status String
health_check request = answer "ok"

module _ {W : Type 0} (server : UrcAuthServer W) where
  open server use {login, tokens, permissions}

  unfoldable pub authn_from_request : {T : Type 0} → Request T → Handler W Status VerifiedAuthn
  unfolding bearer_from_request verify_authn
  authn_from_request request = do
    bearer ←
        present (bearer_from_request request)
          (unauthenticated_status "authorization header required")
    call (verify_authn tokens bearer) (λ _. unauthenticated_status "invalid authn token")

  -- The token of the target user, where there is one.
  abbrev target_token : CheckUserPermissionRequest → Option String
  target_token req = elim req.target_user [
    | some (some token) ↦ if is_empty_str token then none else some token
    | _ ↦ none
  ]

  unfoldable pub resolve_subject_user : Request CheckUserPermissionRequest → Handler W Status User
  unfolding is_empty_str verify_authn authn_from_request
  resolve_subject_user request = elim (target_token request.message) [
    | some token ↦ (do
      authn ← call (verify_authn tokens token) (λ _. invalid_status "invalid target_user token")
      answer authn.user)
    | none ↦ (do authn ← authn_from_request request; answer authn.user)
  ]

  unfoldable pub start_auth_session : Request String → Handler W Status Login.StartAuthSessionResult
  unfolding Login.start_auth_session
  start_auth_session request =
      call (Login.start_auth_session login request.message)
        (λ _. internal "failed to start auth session")

  unfoldable pub get_auth_session :
      Request GetAuthSessionRequest → Handler W Status (Option UserToken)
  unfolding Login.get_auth_session auth_session_status user_token
  get_auth_session request = do
    let req = request.message
    result ←
        call (Login.get_auth_session login req.session_code req.client_state) auth_session_status
    answer (if not result.ready then none else some (user_token result.token result.user))

  unfoldable pub exchange_user_token_for_multiresource_token :
      Request (List String) → Handler W Status UserToken
  unfolding authn_from_request exchange_authz resource_token_exchange_status user_token
  exchange_user_token_for_multiresource_token request = do
    authn ← authn_from_request request
    require (not (is_empty request.message)) (invalid_status "resource_id is required")
    token ← call (exchange_authz tokens authn request.message none) resource_token_exchange_status
    answer (user_token token authn.user)

  unfoldable pub check_user_permission :
      Request CheckUserPermissionRequest → Handler W Status CheckUserPermissionResponse
  unfolding resolve_subject_user Permission.check split_all
  check_user_permission request = do
    user ← resolve_subject_user request
    checked ←
        call (Permission.check permissions user.id request.message.resource_id)
          (λ _. internal "acl evaluation failed")
    answer (
        split_all checked
          (record { allowed_resource_permission = []; denied_resource_permission = [] }))

  unfoldable pub lookup_user_permissions :
      Request String → Handler W Status (List PermittedResource)
  unfolding authn_from_request Permission.lookup permissions_to_strings
  lookup_user_permissions request = do
    authn ← authn_from_request request
    found ←
        call (Permission.lookup permissions authn.user.id (record { prefix = request.message }))
          (λ _. internal "lookup failed")
    answer (
        map
          (λ p. record {
            resource_id = p.resource_id;
            permission = permissions_to_strings p.permission;
          })
          found)
