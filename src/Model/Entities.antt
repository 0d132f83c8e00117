-- ===== src/Model/Entities.antt =====
-- crates/lore-auth-core/src/model.rs: the entities and the inputs of the ports, as records. An
-- `i64` is its bit pattern, a `usize` a number and a `Vec<u8>` a list of numbers; an optional
-- `SystemTime` is its seconds since the epoch. A value named `default_..` is the derived `Default`.
use lore_auth_bridge.Base.{
  ℕ, String, Bool, false, List, [], Option, string_eq, if◌then◌else◌, Duration, is_empty_str,
  concat, ◌∷◌,
}
use lore_auth_bridge.Model.Roles.{Permission}

pub record Group : Type 0 where
  pub id : String
  pub name : String
  pub description : String

pub record Grant : Type 0 where
  pub id : String
  pub subject_type : String
  pub subject_id : String
  pub repository_id : String
  pub role : String

pub record GrantEvidence : Type 0 where
  pub subject_type : String
  pub subject_id : String
  pub subject_name : String
  pub role : String
  pub path : String

pub record AdminAuditEntry : Type 0 where
  pub id : String
  pub actor : String
  pub action : String
  pub object_type : String
  pub object_id : String
  pub detail : String
  pub created_at : ℕ

pub record SigningKeyMeta : Type 0 where
  pub kid : String
  pub alg : String
  pub public_jwk_json : String
  pub private_key_path : String
  pub status : String

pub record ExternalIdentity : Type 0 where
  pub id : String
  pub user_id : String
  pub provider_id : String
  pub issuer : String
  pub subject : String
  pub subject_strategy : String
  pub email : String
  pub email_verified : Bool
  pub display_name : String
  pub picture_url : String
  pub hosted_domain : String
  pub status : String

abbrev pub default_external_identity : ExternalIdentity
default_external_identity = record {
  id = "";
  user_id = "";
  provider_id = "";
  issuer = "";
  subject = "";
  subject_strategy = "";
  email = "";
  email_verified = false;
  display_name = "";
  picture_url = "";
  hosted_domain = "";
  status = "";
}

pub record User : Type 0 where
  pub id : String
  pub email : String
  pub display_name : String
  pub status : String
  pub last_login_at : ℕ

abbrev pub default_user : User
default_user = record { id = ""; email = ""; display_name = ""; status = ""; last_login_at = 0 }

pub record UserListFilter : Type 0 where
  pub query : String
  pub limit : ℕ

pub record TokenPrincipal : Type 0 where
  pub user_id : String
  pub token_subject : String
  pub token_idp : String
  pub display_name : String
  pub preferred_username : String
  pub groups : List String

pub record LoginBindingResult : Type 0 where
  pub status : String
  pub external_identity_id : String
  pub invitation_id : String

pub record LoginTrustPolicy : Type 0 where
  pub email_binding : String
  pub allowed_email_domains : List String

pub record LoginResolutionRequest : Type 0 where
  pub identity : ExternalIdentity
  pub policy : LoginTrustPolicy

pub record AddUserInput : Type 0 where
  pub email : String
  pub display_name : String

pub record IdentityInvitation : Type 0 where
  pub id : String
  pub user_id : String
  pub provider_id : String
  pub issuer : String
  pub email : String
  pub binding_policy : String
  pub status : String
  pub accepted_identity_id : String
  pub expires_at : ℕ
  pub accepted_at : ℕ

abbrev pub default_identity_invitation : IdentityInvitation
default_identity_invitation = record {
  id = "";
  user_id = "";
  provider_id = "";
  issuer = "";
  email = "";
  binding_policy = "";
  status = "";
  accepted_identity_id = "";
  expires_at = 0;
  accepted_at = 0;
}

pub record AddInvitationInput : Type 0 where
  pub provider_id : String
  pub issuer : String
  pub email : String
  pub display_name : String
  pub binding_policy : String
  pub expires_at : ℕ

pub record Resource : Type 0 where
  pub id : String
  pub name : String
  pub remote_url : String
  pub lore_repository_id : String
  pub resource_id : String
  pub status : String

abbrev pub default_resource : Resource
default_resource = record {
  id = "";
  name = "";
  remote_url = "";
  lore_repository_id = "";
  resource_id = "";
  status = "";
}

pub record ResourcePermission : Type 0 where
  pub resource_id : String
  pub permission : List Permission

pub record ResourceFilter : Type 0 where
  pub prefix : String

pub record CreateDeviceAuthorizationInput : Type 0 where
  pub device_code : String
  pub user_code : String
  pub requested_remote_url : String
  pub requested_repository_id : String
  pub ttl : Duration

pub record DeviceAuthorization : Type 0 where
  pub id : String
  pub requested_remote_url : String
  pub requested_repository_id : String
  pub approved_user_id : String
  pub status : String
  pub created_at : ℕ
  pub expires_at : ℕ
  pub approved_at : ℕ
  pub consumed_at : ℕ

abbrev pub default_device_authorization : DeviceAuthorization
default_device_authorization = record {
  id = "";
  requested_remote_url = "";
  requested_repository_id = "";
  approved_user_id = "";
  status = "";
  created_at = 0;
  expires_at = 0;
  approved_at = 0;
  consumed_at = 0;
}

pub record AuthSession : Type 0 where
  pub id : String
  pub client_state_hash : String
  pub status : String
  pub user_id : String
  pub login_url_nonce : String
  pub expires_at : ℕ

abbrev pub default_auth_session : AuthSession
default_auth_session = record {
  id = "";
  client_state_hash = "";
  status = "";
  user_id = "";
  login_url_nonce = "";
  expires_at = 0;
}

pub record LoginStateInput : Type 0 where
  pub provider_id : String
  pub nonce : String
  pub login_url_nonce : String
  pub return_path : String
  pub private_state : List ℕ

pub record LoginState : Type 0 where
  pub id : String
  pub provider_id : String
  pub nonce : String
  pub login_url_nonce : String
  pub return_path : String
  pub private_state : List ℕ
  pub expires_at : ℕ

pub record BrowserSession : Type 0 where
  pub id : String
  pub user_id : String
  pub expires_at : ℕ

pub record AuthnTokenInput : Type 0 where
  pub issuer : String
  pub audience : List String
  pub subject : String
  pub name : String
  pub preferred_username : String
  pub groups : List String
  pub idp : String
  pub ttl : Duration
  pub now : Option ℕ
  pub jti : String

pub record AuthzTokenInput : Type 0 where
  pub issuer : String
  pub audience : List String
  pub subject : String
  pub name : String
  pub preferred_username : String
  pub groups : List String
  pub idp : String
  pub resources : List ResourcePermission
  pub ttl : Duration
  pub now : Option ℕ
  pub jti : String

pub record SignedToken : Type 0 where
  pub token : String
  pub jti : String
  pub kid : String
  pub lore_resource_id : String
  pub issued_at : ℕ
  pub expires_at : ℕ
  pub permissions : List Permission
  pub audience : List String

abbrev pub default_signed_token : SignedToken
default_signed_token = record {
  token = "";
  jti = "";
  kid = "";
  lore_resource_id = "";
  issued_at = 0;
  expires_at = 0;
  permissions = [];
  audience = [];
}

pub record VerifiedToken : Type 0 where
  pub subject : String
  pub jti : String
  pub idp : String
  pub expires_at : ℕ
  pub audience : List String
  pub raw_claims : List ℕ

pub record VerifyOptions : Type 0 where
  pub issuer : String
  pub audience : String

pub record IssuedToken : Type 0 where
  pub jti : String
  pub kind : String
  pub user_id : String
  pub repository_id : String
  pub lore_resource_id : String
  pub role : String
  pub kid : String
  pub audience : List String
  pub issued_at : ℕ
  pub expires_at : ℕ

abbrev pub default_issued_token : IssuedToken
default_issued_token = record {
  jti = "";
  kind = "";
  user_id = "";
  repository_id = "";
  lore_resource_id = "";
  role = "";
  kid = "";
  audience = [];
  issued_at = 0;
  expires_at = 0;
}

pub record VerifiedAuthn : Type 0 where
  pub subject : String
  pub principal : TokenPrincipal
  pub user : User

-- `User::bridge_subject`, `User::display`, `User::preferred_username`.
unfoldable pub bridge_subject : User → String
bridge_subject user = concat ("user:" ∷ user.id ∷ [])

unfoldable pub display : User → String
unfolding bridge_subject is_empty_str
display user = if is_empty_str user.display_name then bridge_subject user else user.display_name

unfoldable pub preferred_username_of : User → String
unfolding bridge_subject is_empty_str
preferred_username_of user = if is_empty_str user.email then bridge_subject user else user.email
