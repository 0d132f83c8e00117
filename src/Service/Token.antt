-- ===== src/Service/Token.antt =====
-- crates/lore-auth-core/src/service/token.rs: issue, verification and exchange of tokens.
pub mod Authorize
pub mod Exchange
pub mod Disabled
use lore_auth_bridge.Base.{
  ℕ, zero, suc, ◌+◌, ◌≤◌, ◌<◌, String, Bool, true, false, not, ◌&&◌, ◌||◌, ◌==◌, string_eq, nat_eq,
  pair_eq, if◌then◌else◌, Option, none, some, List, [], ◌∷◌, map, ◌++◌, Result, ok, err, CoreError,
  invalid_argument, not_found, permission_denied, auth_session_not_found, unauthenticated,
  unsupported, Act, pure, raise, lift, guard, ok_or, map_err, modify, gets, ◌>>=◌, ◌>>◌, HashMap,
  get, insert, remove, update, push_entry, get_or_empty, values, keep, any, find, sort_by, take,
  str_leb, is_empty_str, trim, has_prefix, strip_prefix, concat, Duration, i64_leb, i64_add, leb,
  ltb, to_ascii_lowercase, eq_ignore_ascii_case,
}
use lore_auth_bridge.Base.{contains, is_empty, token_issue_failed, i64_sub, i64_max_zero}
use lore_auth_bridge.Model.{
  User, TokenPrincipal, VerifiedToken, VerifiedAuthn, SignedToken, ResourcePermission, Permission,
  default_issued_token,
}
use lore_auth_bridge.Service.Ports.{
  AccountDirectory, AuthorizationPolicy, ResourceStore, TokenSigner, IssuedTokenLog,
  DeviceAuthorizationStore, DeviceCodeGenerator, StateStore, IdentityProviderDescriptor,
  BeginAuthRequest, BeginAuthResult, CompleteAuthRequest, IdentityProvider,
  IdentityProviderRegistry, SystemClock, first_nonzero,
}

pub record TokenConfig : Type 0 where
  pub issuer : String
  pub audience : List String
  pub auth_service_audience : String
  pub authn_ttl : Duration
  pub authz_ttl : Duration

pub record TokenService (W : Type 0) : Type 0 where
  pub cfg : TokenConfig
  pub accounts : AccountDirectory W
  pub resources : ResourceStore W
  pub authz : AuthorizationPolicy W
  pub signer : TokenSigner W
  pub log : Option (IssuedTokenLog W)

unfoldable pub user_from_token_principal : TokenPrincipal → User
user_from_token_principal principal = record {
  id = principal.user_id;
  email = principal.preferred_username;
  display_name = principal.display_name;
  status = "active";
  last_login_at = 0;
}

-- `ttl.unwrap_or(default)`.
unfoldable pub ttl_or : Option Duration → Duration → Duration
ttl_or none default = default
ttl_or (some ttl) default = ttl

-- `expires_in_seconds`, at a reading of the clock.
unfoldable pub expires_in_seconds : ℕ → ℕ → ℕ
unfolding i64_sub i64_max_zero
expires_in_seconds expires_at now = i64_max_zero (i64_sub expires_at now)

unfoldable pub authn_audience : TokenConfig → List String
unfolding is_empty_str contains
authn_audience cfg =
    if not (is_empty_str cfg.auth_service_audience)
      && not (contains cfg.audience cfg.auth_service_audience)
    then cfg.audience ++ cfg.auth_service_audience ∷ []
    else cfg.audience

-- The part of the header's value behind `Bearer `.
unfoldable pub compact_of : String → String
unfolding trim strip_prefix
compact_of bearer =
    trim (elim (strip_prefix "Bearer " (trim bearer)) [ none ↦ bearer | some t ↦ t ])

-- `VerifiedAuthn` with the identity provider of the token, where it names one.
unfoldable pub verified_authn : VerifiedToken → TokenPrincipal → VerifiedAuthn
unfolding is_empty_str user_from_token_principal
verified_authn verified principal =
    let named : TokenPrincipal =
      if is_empty_str verified.idp
      then principal
      else record principal { token_idp = verified.idp } in
    record { subject = verified.subject; principal = named; user = user_from_token_principal named }

module _ {W : Type 0} (service : TokenService W) where
  open service use {cfg, accounts, resources, authz, signer, log}

  -- `record`: nothing is written where no log is configured.
  unfoldable pub record_token : SignedToken → String → String → String → Act W (Unit {0})
  record_token signed user_id kind role = elim log [
    | none ↦ pure tt
    | some l ↦
        map_err
          (l.log_token (record default_issued_token {
            jti = signed.jti;
            kind = kind;
            user_id = user_id;
            lore_resource_id = signed.lore_resource_id;
            role = role;
            kid = signed.kid;
            audience = signed.audience;
            issued_at = signed.issued_at;
            expires_at = signed.expires_at;
          }))
          (λ _. token_issue_failed)
  ]

  unfoldable pub mint_authn : String → Option Duration → Act W (SignedToken × User)
  unfolding user_from_token_principal authn_audience ttl_or record_token
  mint_authn user_id ttl = do
    principal ← accounts.principal_by_user_id user_id
    let user = user_from_token_principal principal
    signed ←
        map_err
          (signer.sign_authn (record {
            issuer = cfg.issuer;
            audience = authn_audience cfg;
            subject = principal.token_subject;
            name = principal.display_name;
            preferred_username = principal.preferred_username;
            groups = principal.groups;
            idp = principal.token_idp;
            ttl = ttl_or ttl cfg.authn_ttl;
            now = none;
            jti = "";
          }))
          (λ _. token_issue_failed)
    record_token signed user.id "authn" "authn"
    pure (signed, user)

  unfoldable pub verify_authn : String → Act W VerifiedAuthn
  unfolding compact_of is_empty_str verified_authn
  verify_authn bearer = do
    guard (not (is_empty_str (compact_of bearer))) unauthenticated
    verified ←
        map_err
          (signer.verify (compact_of bearer)
            (record { issuer = cfg.issuer; audience = cfg.auth_service_audience }))
          (λ _. unauthenticated)
    guard (not (is_empty_str verified.jti)) unauthenticated
    principal ← accounts.principal_by_authn_token_jti verified.jti
    pure (verified_authn verified principal)

  -- The loop of `exchange_authz`.
  unfoldable pub authorize_resources : String → List String → Act W (List ResourcePermission)
  authorize_resources user_id [] = pure []
  authorize_resources user_id (resource_id ∷ rest) = do
    resource ← resources.get_by_resource_id resource_id
    allowed ← authz.can_access user_id resource.resource_id "write"
    guard allowed permission_denied
    others ← authorize_resources user_id rest
    pure (
        record {
          resource_id = resource.resource_id;
          permission = Permission.read ∷ Permission.write ∷ [];
        }
        ∷ others)

  unfoldable pub exchange_authz : VerifiedAuthn → List String → Option Duration → Act W SignedToken
  unfolding is_empty_str authorize_resources ttl_or record_token
  exchange_authz authn resource_ids ttl = do
    guard (not (is_empty_str authn.principal.user_id)) unauthenticated
    guard (not (is_empty resource_ids)) (invalid_argument "resource_id is required")
    granted ← authorize_resources authn.principal.user_id resource_ids
    signed ←
        map_err
          (signer.sign_authz (record {
            issuer = cfg.issuer;
            audience = cfg.audience;
            subject = authn.principal.token_subject;
            name = authn.principal.display_name;
            preferred_username = authn.principal.preferred_username;
            groups = authn.principal.groups;
            idp = authn.principal.token_idp;
            resources = granted;
            ttl = ttl_or ttl cfg.authz_ttl;
            now = none;
            jti = "";
          }))
          (λ _. token_issue_failed)
    record_token signed authn.principal.user_id "authz" "authz"
    pure signed

  -- The message shows the role as `{:?}`; `debug_str` is that function.
  unfoldable pub manual_mint_authz :
      (String → String) → String → String → String → Option Duration → Act W SignedToken
  unfolding is_empty_str exchange_authz user_from_token_principal
  manual_mint_authz debug_str user_id repo_name given ttl = do
    let role = if is_empty_str given then "writer" else given
    guard (role == "writer")
        (invalid_argument (concat ("MVP only issues writer tokens; got " ∷ debug_str role ∷ [])))
    principal ← accounts.principal_by_user_id user_id
    resource ← resources.get_by_name repo_name
    allowed ← authz.can_access principal.user_id resource.resource_id "write"
    guard allowed permission_denied
    exchange_authz
        (record {
          subject = principal.token_subject;
          principal = principal;
          user = user_from_token_principal principal;
        })
        (resource.resource_id ∷ []) ttl
