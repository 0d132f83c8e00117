-- ===== src/Service/Ports.antt =====
-- crates/lore-auth-core/src/ports.rs: the ports as records of methods on a state `W`. The clock that
-- the services read is a method too.
use lore_auth_bridge.Base.{
  ℕ, String, Bool, not, string_eq, nat_eq, pair_eq, if◌then◌else◌, Option, List, [], ◌∷◌, Act,
  HashMap, Duration,
}
use lore_auth_bridge.Base.{is_zero, zero_duration}
use lore_auth_bridge.Model.{
  User, UserListFilter, LoginResolutionRequest, TokenPrincipal, LoginBindingResult, AddUserInput,
  AddInvitationInput, IdentityInvitation, ResourceFilter, ResourcePermission, Resource,
  AuthnTokenInput, AuthzTokenInput, SignedToken, VerifyOptions, VerifiedToken, IssuedToken,
  DeviceAuthorization, CreateDeviceAuthorizationInput, AuthSession, LoginState, LoginStateInput,
  BrowserSession, ExternalIdentity, LoginTrustPolicy,
}

pub record AccountDirectory (W : Type 0) : Type 0 where
  pub user_by_id : String → Act W User
  pub list_users : UserListFilter → Act W (List User)
  pub resolve_login : LoginResolutionRequest → Act W (TokenPrincipal × LoginBindingResult)
  pub principal_by_user_id : String → Act W TokenPrincipal
  pub principal_by_authn_token_jti : String → Act W TokenPrincipal
  pub add_user : AddUserInput → Act W User
  pub add_invitation : AddInvitationInput → Act W (User × IdentityInvitation)
  pub disable_user : String → Act W (Unit {0})
  pub enable_user : String → Act W (Unit {0})

pub record AuthorizationPolicy (W : Type 0) : Type 0 where
  pub can_access : String → String → String → Act W Bool
  pub list_accessible : String → ResourceFilter → Act W (List ResourcePermission)

pub record ResourceStore (W : Type 0) : Type 0 where
  pub get_by_id : String → Act W Resource
  pub get_by_resource_id : String → Act W Resource
  pub get_by_name : String → Act W Resource
  pub list : Act W (List Resource)
  pub upsert : Resource → Act W (Unit {0})
  pub delete : String → Act W (Unit {0})

pub record TokenSigner (W : Type 0) : Type 0 where
  pub sign_authn : AuthnTokenInput → Act W SignedToken
  pub sign_authz : AuthzTokenInput → Act W SignedToken
  pub verify : String → VerifyOptions → Act W VerifiedToken

pub record IssuedTokenLog (W : Type 0) : Type 0 where
  pub log_token : IssuedToken → Act W (Unit {0})

pub record DeviceAuthorizationStore (W : Type 0) : Type 0 where
  pub create_device_authorization : CreateDeviceAuthorizationInput → Act W DeviceAuthorization
  pub device_by_user_code : String → Act W DeviceAuthorization
  pub device_by_device_code : String → Act W DeviceAuthorization
  pub approve_device_authorization : String → String → Act W (Unit {0})
  pub consume_device_authorization : String → Act W (Unit {0})
  pub expire_device_authorization : String → Act W (Unit {0})

pub record DeviceCodeGenerator (W : Type 0) : Type 0 where
  pub device_code : Act W String
  pub user_code : Act W String

pub record StateStore (W : Type 0) : Type 0 where
  pub create_auth_session : String → Duration → Act W (String × AuthSession)
  pub get_auth_session_by_code : String → Act W AuthSession
  pub get_auth_session_by_nonce : String → Act W AuthSession
  pub complete_auth_session : String → String → Act W (Unit {0})
  pub consume_auth_session : String → Act W (Unit {0})
  pub create_login_state : LoginStateInput → Duration → Act W (String × LoginState)
  pub set_login_state_private_state : String → List ℕ → Act W (Unit {0})
  pub consume_login_state : String → Act W LoginState
  pub create_browser_session : String → Duration → Act W BrowserSession
  pub user_by_browser_session : String → Act W User
  pub revoke_browser_session : String → Act W (Unit {0})
  pub create_csrf_token : String → Duration → Act W String
  pub consume_csrf_token : String → String → Act W (Unit {0})
  pub match_client_state : AuthSession → String → Act W Bool

pub record IdentityProviderDescriptor : Type 0 where
  pub id : String
  pub provider_type : String
  pub display_name : String
  pub issuer : String
  pub trust_policy : LoginTrustPolicy

pub record BeginAuthRequest : Type 0 where
  pub state : String
  pub nonce : String
  pub redirect_url : String
  pub login_hint : String

pub record BeginAuthResult : Type 0 where
  pub redirect_url : String
  pub private_state : List ℕ

pub record CompleteAuthRequest : Type 0 where
  pub code : String
  pub state : String
  pub nonce : String
  pub redirect_url : String
  pub params : HashMap String (List String)
  pub private_state : List ℕ

pub record IdentityProvider (W : Type 0) : Type 0 where
  pub descriptor : IdentityProviderDescriptor
  pub begin_auth : BeginAuthRequest → Act W BeginAuthResult
  pub complete_auth : CompleteAuthRequest → Act W ExternalIdentity

pub record IdentityProviderRegistry (W : Type 0) : Type 0 where
  pub lookup : String → Option (IdentityProvider W)
  pub default_id : String
  pub list : List IdentityProviderDescriptor

-- `SystemTime::now()` in seconds since the epoch, as `now_unix` reads it.
pub record SystemClock (W : Type 0) : Type 0 where
  pub now_unix : Act W ℕ

-- `first_nonzero`.
unfoldable pub first_nonzero : List Duration → Duration
unfolding is_zero
first_nonzero [] = zero_duration
first_nonzero (d ∷ rest) = let others = first_nonzero rest in if not (is_zero d) then d else others
