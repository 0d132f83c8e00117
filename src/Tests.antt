-- ===== src/Tests.antt =====
-- A small store, and the theorems at it.
pub mod Examples
pub mod Services
pub mod Inbound
pub mod Requests
pub mod Login
pub mod Adapters
use lore_auth_bridge.Base.{ℕ, zero, suc, String, Bool, true, false, List, [], ◌∷◌, concat}
use lore_auth_bridge.Model.{User, Group, Resource, DeviceAuthorization, LoginState, TokenPrincipal}
use lore_auth_bridge.Memory.State.{State, Env, World, CsrfToken, empty_state}

-- Ids that all differ, a clock that stands at 1000, and secrets stored as they are.
abbrev ticks_of : ℕ → String
ticks_of zero = ""
ticks_of (suc n) = concat ("i" ∷ ticks_of n ∷ [])

abbrev pub test_env : Env
test_env = record { new_v4 = ticks_of; clock = λ _. 1000; sha256_hex = λ s. s; debug_str = λ s. s }

abbrev user : String → String → User
user id status = record {
  id = id;
  email = concat (id ∷ "@example.com" ∷ []);
  display_name = id;
  status = status;
  last_login_at = 0;
}

abbrev group : String → Group
group name = record { id = name; name = name; description = "" }

abbrev pub test_resource : Resource
test_resource = record {
  id = "game-id";
  name = "game";
  remote_url = "";
  lore_repository_id = "game";
  resource_id = "urc-game";
  status = "active";
}

abbrev pub test_device : DeviceAuthorization
test_device = record {
  id = "device";
  requested_remote_url = "";
  requested_repository_id = "game-id";
  approved_user_id = "ann";
  status = "approved";
  created_at = 900;
  expires_at = 1500;
  approved_at = 950;
  consumed_at = 0;
}

abbrev csrf_token : CsrfToken
csrf_token = record { session_id = "session"; expires_at = 1500; consumed = false }

-- Ann is in `devs`, which is in `all`; `all` may write the repository.
abbrev pub test_state : State
test_state = record empty_state {
  users = ("ann", user "ann" "active") ∷ ("bob", user "bob" "disabled") ∷ [];
  groups = ("devs", group "devs") ∷ ("all", group "all") ∷ [];
  group_members = ("ann", "devs" ∷ []) ∷ [];
  group_groups = ("all", "devs" ∷ []) ∷ [];
  resources = ("urc-game", test_resource) ∷ [];
  grants = (("group", "all"), ("urc-game", "writer") ∷ []) ∷ [];
  device_authorizations = ("device", test_device) ∷ [];
  csrf_tokens = ("token", csrf_token) ∷ [];
}

abbrev pub test_world : World
test_world = record { env = test_env; drawn = 0; ticks = 0; state = test_state }
