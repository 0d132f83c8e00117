-- ===== src/Memory/Sessions.antt =====
-- crates/lore-auth-adapters/src/memory/state.rs: authentication sessions, login states, browser
-- sessions and CSRF tokens.
pub mod OneTime
use lore_auth_bridge.Base.{
  ℕ, zero, suc, ◌+◌, ◌≤◌, ◌<◌, String, Bool, true, false, not, ◌&&◌, ◌||◌, ◌==◌, string_eq, nat_eq,
  pair_eq, if◌then◌else◌, Option, none, some, List, [], ◌∷◌, map, ◌++◌, Result, ok, err, CoreError,
  invalid_argument, not_found, permission_denied, auth_session_not_found, unauthenticated,
  unsupported, Act, pure, raise, lift, guard, ok_or, map_err, modify, gets, ◌>>=◌, ◌>>◌, HashMap,
  get, insert, remove, update, push_entry, get_or_empty, values, keep, any, find, sort_by, take,
  str_leb, is_empty_str, trim, has_prefix, strip_prefix, concat, Duration, i64_leb, i64_add, leb,
  ltb, to_ascii_lowercase, eq_ignore_ascii_case,
}
use lore_auth_bridge.Model.{
  AuthSession, LoginState, LoginStateInput, BrowserSession, User, default_auth_session,
}
use lore_auth_bridge.Memory.State.{
  State, Env, World, CsrfToken, new_uuid, now_unix, unix_or_now, unix_after, seconds_or_default,
  hash_secret, hash_code, ensure_jti, get_state, put_state, get_env,
}
use lore_auth_bridge.Memory.Helpers.{not_expired}

unfoldable pub create_auth_session : String → Duration → Act World (String × AuthSession)
unfolding new_uuid unix_after hash_secret insert
create_auth_session client_state ttl = do
  code ← new_uuid
  id ← new_uuid
  env ← get_env
  login_url_nonce ← new_uuid
  expires_at ← unix_after ttl
  state ← get_state
  let session : AuthSession = record default_auth_session {
    id = id;
    client_state_hash = hash_secret env client_state;
    status = "pending";
    login_url_nonce = login_url_nonce;
    expires_at = expires_at;
  }
  put_state (record state {
    auth_session_codes = insert state.auth_session_codes (hash_secret env code) id;
    auth_sessions = insert state.auth_sessions id session;
  })
  pure (code, session)

unfoldable pub get_auth_session_by_code : String → Act World AuthSession
unfolding hash_secret get not_expired
get_auth_session_by_code code = do
  env ← get_env
  state ← get_state
  id ← lift (ok_or (get state.auth_session_codes (hash_secret env code)) auth_session_not_found)
  session ← lift (ok_or (get state.auth_sessions id) auth_session_not_found)
  not_expired session

unfoldable pub get_auth_session_by_nonce : String → Act World AuthSession
unfolding find not_expired
get_auth_session_by_nonce nonce = do
  state ← get_state
  session ← lift (
      ok_or (find (λ session. session.login_url_nonce == nonce) (values state.auth_sessions))
        auth_session_not_found)
  not_expired session

unfoldable pub put_auth_session : State → String → AuthSession → State
unfolding insert
put_auth_session state id session = record state {
  auth_sessions = insert state.auth_sessions id session;
}

unfoldable pub complete_auth_session : String → String → Act World (Unit {0})
unfolding get now_unix i64_leb put_auth_session
complete_auth_session id user_id = do
  state ← get_state
  session ← lift (ok_or (get state.auth_sessions id) auth_session_not_found)
  now ← now_unix
  guard (not (not (session.status == "pending") || i64_leb session.expires_at now))
      auth_session_not_found
  put_state (put_auth_session state id (record session { status = "completed"; user_id = user_id }))

unfoldable pub consume_auth_session : String → Act World (Unit {0})
unfolding get now_unix i64_leb put_auth_session
consume_auth_session id = do
  state ← get_state
  session ← lift (ok_or (get state.auth_sessions id) auth_session_not_found)
  now ← now_unix
  guard (not (not (session.status == "completed") || i64_leb session.expires_at now))
      auth_session_not_found
  put_state (put_auth_session state id (record session { status = "consumed" }))

unfoldable pub create_login_state : LoginStateInput → Duration → Act World (String × LoginState)
unfolding new_uuid unix_after hash_secret insert
create_login_state input ttl = do
  state_value ← new_uuid
  id ← new_uuid
  expires_at ← unix_after ttl
  env ← get_env
  state ← get_state
  let login_state : LoginState = record {
    id = id;
    provider_id = input.provider_id;
    nonce = input.nonce;
    login_url_nonce = input.login_url_nonce;
    return_path = input.return_path;
    private_state = input.private_state;
    expires_at = expires_at;
  }
  put_state (record state {
    login_states = insert state.login_states (hash_secret env state_value) login_state;
  })
  pure (state_value, login_state)

unfoldable pub set_login_state_private_state : String → List ℕ → Act World (Unit {0})
unfolding hash_secret get now_unix i64_leb insert
set_login_state_private_state state_value private_state = do
  env ← get_env
  state ← get_state
  login_state ← lift (ok_or (get state.login_states (hash_secret env state_value)) not_found)
  now ← now_unix
  guard (not (i64_leb login_state.expires_at now)) not_found
  put_state (record state {
    login_states =
        insert state.login_states (hash_secret env state_value)
          (record login_state { private_state = private_state });
  })

-- The state is taken out before its age is tested.
unfoldable pub consume_login_state : String → Act World LoginState
unfolding hash_secret get now_unix i64_leb remove
consume_login_state state_value = do
  env ← get_env
  state ← get_state
  put_state
      (record state { login_states = remove state.login_states (hash_secret env state_value) })
  login_state ← lift (ok_or (get state.login_states (hash_secret env state_value)) not_found)
  now ← now_unix
  guard (not (i64_leb login_state.expires_at now)) not_found
  pure login_state

unfoldable pub create_browser_session : String → Duration → Act World BrowserSession
unfolding new_uuid unix_after insert
create_browser_session user_id ttl = do
  id ← new_uuid
  expires_at ← unix_after ttl
  state ← get_state
  put_state (record state { browser_sessions = insert state.browser_sessions id user_id })
  pure (record { id = id; user_id = user_id; expires_at = expires_at })

unfoldable pub user_by_browser_session : String → Act World User
unfolding get
user_by_browser_session session_id = do
  state ← get_state
  user_id ← lift (ok_or (get state.browser_sessions session_id) not_found)
  user ← lift (ok_or (get state.users user_id) not_found)
  guard (user.status == "active") not_found
  pure user

unfoldable pub revoke_browser_session : String → Act World (Unit {0})
unfolding remove
revoke_browser_session session_id = do
  state ← get_state
  put_state (record state { browser_sessions = remove state.browser_sessions session_id })

unfoldable pub create_csrf_token : String → Duration → Act World String
unfolding new_uuid hash_secret unix_after insert
create_csrf_token session_id ttl = do
  token ← new_uuid
  env ← get_env
  expires_at ← unix_after ttl
  state ← get_state
  put_state (record state {
    csrf_tokens =
        insert state.csrf_tokens (hash_secret env token)
          (record { session_id = session_id; expires_at = expires_at; consumed = false });
  })
  pure token

unfoldable pub consume_csrf_token : String → String → Act World (Unit {0})
unfolding hash_secret get now_unix i64_leb insert
consume_csrf_token session_id token = do
  env ← get_env
  state ← get_state
  csrf ← lift (ok_or (get state.csrf_tokens (hash_secret env token)) not_found)
  now ← now_unix
  guard (not (not (csrf.session_id == session_id) || csrf.consumed || i64_leb csrf.expires_at now))
      not_found
  put_state (record state {
    csrf_tokens =
        insert state.csrf_tokens (hash_secret env token) (record csrf { consumed = true });
  })

unfoldable pub match_client_state : Env → AuthSession → String → Bool
unfolding hash_secret
match_client_state env session client_state =
    session.client_state_hash == hash_secret env client_state
