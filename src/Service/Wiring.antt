-- ===== src/Service/Wiring.antt =====
-- The in-memory store as the adapter behind each port, as the adapters' tests wire it.
use lore_auth_bridge.Base.{ok, some}
use lore_auth_bridge.Memory.State.{World}
use lore_auth_bridge.Memory.State
use lore_auth_bridge.Memory.Accounts
use lore_auth_bridge.Memory.Grants
use lore_auth_bridge.Memory.Resources
use lore_auth_bridge.Memory.Devices
use lore_auth_bridge.Memory.Sessions
use lore_auth_bridge.Memory.Tokens
use lore_auth_bridge.Service.Token.{TokenService, TokenConfig}
use lore_auth_bridge.Service.Ports.{
  AccountDirectory, AuthorizationPolicy, ResourceStore, TokenSigner, IssuedTokenLog,
  DeviceAuthorizationStore, StateStore, SystemClock,
}

abbrev pub memory_accounts : AccountDirectory World
memory_accounts = record {
  user_by_id = Accounts.user_by_id;
  list_users = Accounts.list_users;
  resolve_login = Accounts.resolve_login;
  principal_by_user_id = Accounts.principal_by_user_id;
  principal_by_authn_token_jti = Accounts.principal_by_authn_token_jti;
  add_user = Accounts.add_user;
  add_invitation = Accounts.add_invitation;
  disable_user = Accounts.disable_user;
  enable_user = Accounts.enable_user;
}

abbrev pub memory_authz : AuthorizationPolicy World
memory_authz = record { can_access = Grants.can_access; list_accessible = Grants.list_accessible }

abbrev pub memory_resources : ResourceStore World
memory_resources = record {
  get_by_id = Resources.get_by_id;
  get_by_resource_id = Resources.get_by_resource_id;
  get_by_name = Resources.get_by_name;
  list = Resources.list;
  upsert = Resources.upsert;
  delete = Resources.delete;
}

abbrev pub memory_signer : TokenSigner World
memory_signer = record {
  sign_authn = Tokens.sign_authn;
  sign_authz = Tokens.sign_authz;
  verify = Tokens.verify;
}

abbrev pub memory_log : IssuedTokenLog World
memory_log = record { log_token = Tokens.record_issued }

abbrev pub memory_devices : DeviceAuthorizationStore World
memory_devices = record {
  create_device_authorization = Devices.create_device_authorization;
  device_by_user_code = Devices.device_by_user_code;
  device_by_device_code = Devices.device_by_device_code;
  approve_device_authorization = Devices.approve_device_authorization;
  consume_device_authorization = Devices.consume_device_authorization;
  expire_device_authorization = Devices.expire_device_authorization;
}

abbrev pub memory_sessions : StateStore World
memory_sessions = record {
  create_auth_session = Sessions.create_auth_session;
  get_auth_session_by_code = Sessions.get_auth_session_by_code;
  get_auth_session_by_nonce = Sessions.get_auth_session_by_nonce;
  complete_auth_session = Sessions.complete_auth_session;
  consume_auth_session = Sessions.consume_auth_session;
  create_login_state = Sessions.create_login_state;
  set_login_state_private_state = Sessions.set_login_state_private_state;
  consume_login_state = Sessions.consume_login_state;
  create_browser_session = Sessions.create_browser_session;
  user_by_browser_session = Sessions.user_by_browser_session;
  revoke_browser_session = Sessions.revoke_browser_session;
  create_csrf_token = Sessions.create_csrf_token;
  consume_csrf_token = Sessions.consume_csrf_token;
  match_client_state =
      λ session client_state w. (ok (Sessions.match_client_state w.env session client_state), w);
}

abbrev pub memory_clock : SystemClock World
memory_clock = record { now_unix = State.now_unix }

-- A `TokenService` over the store, with the store as its log.
abbrev pub memory_tokens : TokenConfig → TokenService World
memory_tokens cfg = record {
  cfg = cfg;
  accounts = memory_accounts;
  resources = memory_resources;
  authz = memory_authz;
  signer = memory_signer;
  log = some memory_log;
}
