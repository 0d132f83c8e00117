-- ===== src/Service/Device.antt =====
-- crates/lore-auth-core/src/service/device.rs: the device authorization flow.
pub mod Keeps
pub mod Redeem
use lore_auth_bridge.Base.{
  ℕ, String, not, ◌&&◌, ◌||◌, ◌==◌, string_eq, nat_eq, pair_eq, if◌then◌else◌, none, [], ◌∷◌,
  CoreError, not_found, permission_denied, Act, pure, raise, guard, map_err, ◌>>=◌, ◌>>◌,
  is_empty_str, concat, Duration, i64_leb,
}
use Prim.Native.String.{char_at}
use lore_auth_bridge.Base.{
  device_invalid_code, device_expired_code, device_authorization_not_pending,
  device_incomplete_authorization, saturate_i64, from_secs, trim_end_matches,
}
use lore_auth_bridge.Model.{Resource, DeviceAuthorization}
use lore_auth_bridge.Service.Token.{TokenService, manual_mint_authz, expires_in_seconds}
use lore_auth_bridge.Service.Ports.{
  AccountDirectory, AuthorizationPolicy, ResourceStore, DeviceAuthorizationStore,
  DeviceCodeGenerator, SystemClock, first_nonzero,
}

pub record DeviceConfig : Type 0 where
  pub public_base_url : String
  pub auth_url : String
  pub device_code_ttl : Duration
  pub poll_interval : Duration

pub record StartResult : Type 0 where
  pub device_code : String
  pub user_code : String
  pub verification_uri : String
  pub expires_in : ℕ
  pub interval : ℕ

pub record TokenResult : Type 0 where
  pub status : String
  pub token_type : String
  pub access_token : String
  pub expires_in : ℕ
  pub auth_url : String
  pub remote_url : String

abbrev pub default_token_result : TokenResult
default_token_result = record {
  status = "";
  token_type = "";
  access_token = "";
  expires_in = 0;
  auth_url = "";
  remote_url = "";
}

pub record Repository : Type 0 where
  pub name : String
  pub remote_url : String

pub record PreviewResult : Type 0 where
  pub repository : Repository
  pub requested_remote_url : String

pub record DeviceService (W : Type 0) : Type 0 where
  pub cfg : DeviceConfig
  pub devices : DeviceAuthorizationStore W
  pub resources : ResourceStore W
  pub authz : AuthorizationPolicy W
  pub accounts : AccountDirectory W
  pub tokens : TokenService W
  pub codes : DeviceCodeGenerator W
  pub clock : SystemClock W

-- `seconds`.
unfoldable pub seconds : Duration → ℕ
unfolding saturate_i64
seconds ttl = saturate_i64 ttl.secs

-- `invalid_device_code`.
unfoldable pub invalid_device_code : CoreError → CoreError
invalid_device_code not_found = device_invalid_code
invalid_device_code other = other

module _ {W : Type 0} (service : DeviceService W) where
  open service use {cfg, devices, resources, authz, accounts, tokens, codes, clock}

  unfoldable pub find_by_user_code : String → Act W DeviceAuthorization
  unfolding invalid_device_code
  find_by_user_code user_code = map_err (devices.device_by_user_code user_code) invalid_device_code

  unfoldable pub find_by_device_code : String → Act W DeviceAuthorization
  unfolding invalid_device_code
  find_by_device_code device_code =
      map_err (devices.device_by_device_code device_code) invalid_device_code

  unfoldable pub ensure_pending : DeviceAuthorization → Act W (Unit {0})
  unfolding i64_leb is_empty_str
  ensure_pending device = do
    guard (device.status == "pending") device_authorization_not_pending
    now ← clock.now_unix
    if i64_leb device.expires_at now
        then (do devices.expire_device_authorization device.id; raise device_expired_code)
        else guard (not (is_empty_str device.requested_repository_id))
            device_incomplete_authorization

  unfoldable pub repository_for_device : DeviceAuthorization → Act W Resource
  unfolding is_empty_str
  repository_for_device device = do
    guard (not (is_empty_str device.requested_repository_id)) device_incomplete_authorization
    resources.get_by_id device.requested_repository_id

  unfoldable pub start : String → String → Act W StartResult
  unfolding first_nonzero seconds trim_end_matches
  start remote_url repo_name = do
    repo ← resources.get_by_name repo_name
    device_code ← codes.device_code
    user_code ← codes.user_code
    let ttl = first_nonzero (cfg.device_code_ttl ∷ from_secs 600 ∷ [])
    devices.create_device_authorization (record {
      device_code = device_code;
      user_code = user_code;
      requested_remote_url = remote_url;
      requested_repository_id = repo.id;
      ttl = ttl;
    })
    pure (record {
      device_code = device_code;
      user_code = user_code;
      verification_uri =
          concat (trim_end_matches (char_at "/" 0) cfg.public_base_url ∷ "/device" ∷ []);
      expires_in = seconds ttl;
      interval = seconds (first_nonzero (cfg.poll_interval ∷ from_secs 5 ∷ []));
    })

  unfoldable pub preview : String → Act W PreviewResult
  unfolding find_by_user_code ensure_pending repository_for_device
  preview user_code = do
    device ← find_by_user_code user_code
    ensure_pending device
    repo ← repository_for_device device
    pure (record {
      repository = record { name = repo.name; remote_url = repo.remote_url };
      requested_remote_url = device.requested_remote_url;
    })

  unfoldable pub approve : String → String → Act W Repository
  unfolding find_by_user_code ensure_pending repository_for_device
  approve user_id user_code = do
    device ← find_by_user_code user_code
    ensure_pending device
    repo ← repository_for_device device
    allowed ← authz.can_access user_id repo.resource_id "write"
    guard allowed permission_denied
    principal ← accounts.principal_by_user_id user_id
    devices.approve_device_authorization device.id principal.user_id
    pure (record { name = repo.name; remote_url = repo.remote_url })

  -- The last part of `token`, for a device that was approved.
  unfoldable pub redeem : (String → String) → DeviceAuthorization → Act W TokenResult
  unfolding is_empty_str repository_for_device manual_mint_authz expires_in_seconds
  redeem debug_str device = do
    guard
        (not (is_empty_str device.approved_user_id || is_empty_str device.requested_repository_id))
        device_incomplete_authorization
    repo ← repository_for_device device
    signed ← manual_mint_authz tokens debug_str device.approved_user_id repo.name "writer" none
    devices.consume_device_authorization device.id
    now ← clock.now_unix
    pure (record {
      status = "ok";
      token_type = "lore";
      access_token = signed.token;
      expires_in = expires_in_seconds signed.expires_at now;
      auth_url = cfg.auth_url;
      remote_url = repo.remote_url;
    })

  unfoldable pub token : (String → String) → String → Act W TokenResult
  unfolding find_by_device_code i64_leb redeem
  token debug_str device_code = do
    device ← find_by_device_code device_code
    now ← clock.now_unix
    if i64_leb device.expires_at now && device.status == "pending"
        then (do
          devices.expire_device_authorization device.id
          pure (record default_token_result { status = "expired_token" }))
        else if device.status == "pending"
        then pure (record default_token_result { status = "authorization_pending" })
        else if device.status == "approved"
        then redeem debug_str device
        else pure (record default_token_result { status = device.status })
