-- ===== src/Memory/State.antt =====
-- crates/lore-auth-adapters/src/memory/mod.rs: the store's state, the clock and the random ids. A
-- lock is held for the whole of each method, so a method is one step on the state.
use lore_auth_bridge.Base.{
  ℕ, suc, String, Bool, List, [], ok, Option, none, some, HashMap, Act, Result, i64_add, Duration,
  is_zero, saturate_i64, if◌then◌else◌, trim, to_ascii_uppercase, is_empty_str, pure, ◌>>=◌,
}
use lore_auth_bridge.Model.{
  User, ExternalIdentity, IdentityInvitation, Resource, Group, AuthSession, LoginState,
  VerifiedToken, IssuedToken, AdminAuditEntry, DeviceAuthorization,
}

pub record CsrfToken : Type 0 where
  pub session_id : String
  pub expires_at : ℕ
  pub consumed : Bool

pub record State : Type 0 where
  pub users : HashMap String User
  pub identities : HashMap String ExternalIdentity
  pub invitations : HashMap String IdentityInvitation
  pub resources : HashMap String Resource
  pub grants : HashMap (String × String) (HashMap String String)
  pub groups : HashMap String Group
  pub group_members : HashMap String (List String)
  pub group_groups : HashMap String (List String)
  pub auth_sessions : HashMap String AuthSession
  pub auth_session_codes : HashMap String String
  pub login_states : HashMap String LoginState
  pub browser_sessions : HashMap String String
  pub csrf_tokens : HashMap String CsrfToken
  pub tokens : HashMap String VerifiedToken
  pub issued_tokens : HashMap String IssuedToken
  pub admin_audit : List AdminAuditEntry
  pub device_authorizations : HashMap String DeviceAuthorization
  pub device_code_index : HashMap String String
  pub user_code_index : HashMap String String

-- What the store takes from outside: the n-th random UUID, the n-th reading of the system clock in
-- seconds since the epoch (0 if it stands before the epoch), SHA-256 in hexadecimal, and the `{:?}`
-- form of a text.
pub record Env : Type 0 where
  pub new_v4 : ℕ → String
  pub clock : ℕ → ℕ
  pub sha256_hex : String → String
  pub debug_str : String → String

-- The store with its surroundings: how many ids were drawn, and how often the clock was read.
pub record World : Type 0 where
  pub env : Env
  pub drawn : ℕ
  pub ticks : ℕ
  pub state : State

abbrev pub empty_state : State
empty_state = record {
  users = [];
  identities = [];
  invitations = [];
  resources = [];
  grants = [];
  groups = [];
  group_members = [];
  group_groups = [];
  auth_sessions = [];
  auth_session_codes = [];
  login_states = [];
  browser_sessions = [];
  csrf_tokens = [];
  tokens = [];
  issued_tokens = [];
  admin_audit = [];
  device_authorizations = [];
  device_code_index = [];
  user_code_index = [];
}

-- `Uuid::new_v4().to_string()`.
unfoldable pub new_uuid : Act World String
new_uuid w = (ok (w.env.new_v4 w.drawn), record w { drawn = suc w.drawn })

-- `now_unix`, `unix_or_now(None)`.
unfoldable pub now_unix : Act World ℕ
unfolding saturate_i64
now_unix w = (ok (saturate_i64 (w.env.clock w.ticks)), record w { ticks = suc w.ticks })

-- `unix_or_now`.
unfoldable pub unix_or_now : Option ℕ → Act World ℕ
unix_or_now none = now_unix
unix_or_now (some seconds) = pure (saturate_i64 seconds)

-- `seconds_or_default`.
unfoldable pub seconds_or_default : Duration → ℕ → ℕ
unfolding saturate_i64 is_zero
seconds_or_default ttl default = saturate_i64 (if is_zero ttl then default else ttl.secs)

-- `unix_after`.
unfoldable pub unix_after : Duration → Act World ℕ
unfolding now_unix seconds_or_default i64_add
unix_after ttl = do now ← now_unix; pure (i64_add now (seconds_or_default ttl 0))

-- `hash_secret` and `hash_code`.
unfoldable pub hash_secret : Env → String → String
unfolding trim
hash_secret env value = env.sha256_hex (trim value)

unfoldable pub hash_code : Env → String → String
unfolding hash_secret to_ascii_uppercase
hash_code env value = hash_secret env (to_ascii_uppercase (trim value))

-- `ensure_jti`.
unfoldable pub ensure_jti : String → Act World String
unfolding new_uuid is_empty_str
ensure_jti jti = if is_empty_str jti then new_uuid else pure jti

-- A method that reads the state, and one that replaces it.
abbrev pub with_state : {A : Type 0} → (State → Result A) → Act World A
with_state f w = (f w.state, w)

abbrev pub put_state : State → Act World (Unit {0})
put_state s w = (ok tt, record w { state = s })

abbrev pub get_state : Act World State
get_state w = (ok w.state, w)

abbrev pub get_env : Act World Env
get_env w = (ok w.env, w)
