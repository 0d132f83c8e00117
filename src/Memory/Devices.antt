-- ===== src/Memory/Devices.antt =====
-- crates/lore-auth-adapters/src/memory/devices.rs: the authorizations of the device flow.
pub mod Steps
pub mod History
use lore_auth_bridge.Base.{
  ℕ, zero, suc, ◌+◌, ◌≤◌, ◌<◌, String, Bool, true, false, not, ◌&&◌, ◌||◌, ◌==◌, string_eq, nat_eq,
  pair_eq, if◌then◌else◌, Option, none, some, List, [], ◌∷◌, map, ◌++◌, Result, ok, err, CoreError,
  invalid_argument, not_found, permission_denied, auth_session_not_found, unauthenticated,
  unsupported, Act, pure, raise, lift, guard, ok_or, map_err, modify, gets, ◌>>=◌, ◌>>◌, HashMap,
  get, insert, remove, update, push_entry, get_or_empty, values, keep, any, find, sort_by, take,
  str_leb, is_empty_str, trim, has_prefix, strip_prefix, concat, Duration, i64_leb, i64_add, leb,
  ltb, to_ascii_lowercase, eq_ignore_ascii_case,
}
use lore_auth_bridge.Model.{
  DeviceAuthorization, CreateDeviceAuthorizationInput, default_device_authorization,
}
use lore_auth_bridge.Memory.State.{
  State, Env, World, CsrfToken, new_uuid, now_unix, unix_or_now, unix_after, seconds_or_default,
  hash_secret, hash_code, ensure_jti, get_state, put_state, get_env,
}

unfoldable pub create_device_authorization :
    CreateDeviceAuthorizationInput → Act World DeviceAuthorization
unfolding is_empty_str trim new_uuid now_unix unix_after hash_code insert
create_device_authorization input = do
  guard
      (not (
        is_empty_str (trim input.device_code)
        || is_empty_str (trim input.user_code)
        || is_empty_str (trim input.requested_repository_id)))
      (invalid_argument "device_code, user_code, and requested_repository_id are required")
  id ← new_uuid
  created_at ← now_unix
  expires_at ← unix_after input.ttl
  env ← get_env
  state ← get_state
  let device : DeviceAuthorization = record default_device_authorization {
    id = id;
    requested_remote_url = input.requested_remote_url;
    requested_repository_id = input.requested_repository_id;
    status = "pending";
    created_at = created_at;
    expires_at = expires_at;
  }
  put_state (record state {
    device_code_index = insert state.device_code_index (hash_code env input.device_code) id;
    user_code_index = insert state.user_code_index (hash_code env input.user_code) id;
    device_authorizations = insert state.device_authorizations id device;
  })
  pure device

-- A device behind one of the two indices.
unfoldable pub device_by_index : State → HashMap String String → String → Result DeviceAuthorization
unfolding get
device_by_index state index hash = elim (get index hash) [
  | none ↦ err not_found
  | some id ↦ ok_or (get state.device_authorizations id) not_found
]

unfoldable pub device_by_user_code : String → Act World DeviceAuthorization
unfolding device_by_index hash_code
device_by_user_code user_code = do
  env ← get_env
  state ← get_state
  lift (device_by_index state state.user_code_index (hash_code env user_code))

unfoldable pub device_by_device_code : String → Act World DeviceAuthorization
unfolding device_by_index hash_code
device_by_device_code device_code = do
  env ← get_env
  state ← get_state
  lift (device_by_index state state.device_code_index (hash_code env device_code))

unfoldable pub put_device : State → String → DeviceAuthorization → State
unfolding insert
put_device state id device = record state {
  device_authorizations = insert state.device_authorizations id device;
}

unfoldable pub approve_device_authorization : String → String → Act World (Unit {0})
unfolding get now_unix i64_leb put_device
approve_device_authorization id user_id = do
  state ← get_state
  device ← lift (ok_or (get state.device_authorizations id) not_found)
  now ← now_unix
  guard (not (not (device.status == "pending") || i64_leb device.expires_at now)) not_found
  approved_at ← now_unix
  put_state (
      put_device state id (record device {
        status = "approved";
        approved_user_id = user_id;
        approved_at = approved_at;
      }))

unfoldable pub consume_device_authorization : String → Act World (Unit {0})
unfolding get now_unix put_device
consume_device_authorization id = do
  state ← get_state
  device ← lift (ok_or (get state.device_authorizations id) not_found)
  guard (device.status == "approved") not_found
  consumed_at ← now_unix
  put_state (put_device state id (record device { status = "consumed"; consumed_at = consumed_at }))

unfoldable pub expire_device_authorization : String → Act World (Unit {0})
unfolding get put_device
expire_device_authorization id = do
  state ← get_state
  elim (get state.device_authorizations id) [
    | none ↦ pure tt
    | some device ↦
        if device.status == "pending"
        then put_state (put_device state id (record device { status = "expired" }))
        else pure tt
  ]
