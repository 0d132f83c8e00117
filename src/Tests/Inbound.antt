-- ===== src/Tests/Inbound.antt =====
-- The theorems of names, of the gRPC and HTTP handlers and of the guard, at the small store.
use lore_auth_bridge.Base.{
  ℕ, ◌+◌, String, ◌≡◌, ◌↔◌, ◌⊎◌, refl, Bool, true, false, ◌==◌, nat_eq, string_eq, none, some, List,
  [], ◌∷◌, HashMap, get, length, is_empty_str,
}
use lore_auth_bridge.Model.{
  Permission, Role, role_from_name, permission_from_name, role_as_str, permission_as_str,
  for_repository_id, repository_id_from_resource_id,
}
use lore_auth_bridge.Model.RoundTrips.{from_name_iff, resource_id_roundtrip}
use lore_auth_bridge.Memory.State.{World}
use lore_auth_bridge.Memory.Nesting.{
  paths_loop, seed_paths, direct_group_ids_for_user, group_paths_for_user,
}
use lore_auth_bridge.Memory.Nesting.Paths.{group_paths_for_user-finishes}
use lore_auth_bridge.Inbound.Reply.{Handler, accept, reject, answer}
use lore_auth_bridge.Inbound.Status.{Status}
use lore_auth_bridge.Inbound.RateLimit.{Limiter, Buckets, allow}
use lore_auth_bridge.Inbound.Peer.{IpAddr, v4, v6}
use lore_auth_bridge.Inbound.Rebac.{delete_resource, guarded_call}
use lore_auth_bridge.Inbound.Rebac.Delete.{memory_rebac, delete_resource_twice}
use lore_auth_bridge.Inbound.Rebac.Allowlist.{
  not_allowed, GuardedCall, Guards, serve_all, serve_all-Guards,
}
use lore_auth_bridge.Inbound.Http.{Response, Headers, html_escape, html_response}
use lore_auth_bridge.Inbound.Http.Text.Escape.{escape_each, is_plain, html_escape_lem}
use lore_auth_bridge.Inbound.Http.Middleware.{http_allow}
use lore_auth_bridge.Inbound.Http.Middleware.Limits.{http_allow_eq}
use lore_auth_bridge.Inbound.Admin.{AdminConfig, not_found_page, guard_middleware}
use lore_auth_bridge.Inbound.Admin.Guard.{IsAdmin, guard_middleware_lem}
use lore_auth_bridge.Service.Wiring.{memory_sessions}
use lore_auth_bridge.Base.{all_chars, suc}
use lore_auth_bridge.Tests.{test_world, test_state}

from_name_iff_example :
    ((role_from_name "admin" ≡ some Role.admin) ↔ ("admin" ≡ role_as_str Role.admin))
    × ((permission_from_name "admin" ≡ some Permission.read)
        ↔ ("admin" ≡ permission_as_str Permission.read))
from_name_iff_example = from_name_iff "admin" Role.admin Permission.read

game_test : for_repository_id "game" ≡ some "urc-game"
unfolding for_repository_id
game_test = refl

resource_id_roundtrip_example :
    (repository_id_from_resource_id "urc-game" ≡ repository_id_from_resource_id "game")
    × (for_repository_id "urc-game" ≡ some "urc-game")
resource_id_roundtrip_example = resource_id_roundtrip "game" "urc-game" game_test

group_paths_for_user-finishes_example :
    (m : HashMap String String) × (paths_loop
        (suc (
          length (seed_paths test_state (direct_group_ids_for_user test_state "ann") [] []).1
          + length test_state.group_groups))
        test_state
        (seed_paths test_state (direct_group_ids_for_user test_state "ann") [] []).0
        (seed_paths test_state (direct_group_ids_for_user test_state "ann") [] []).1
      ≡ some m)
    × (group_paths_for_user test_state "ann" ≡ m)
group_paths_for_user-finishes_example = group_paths_for_user-finishes test_state "ann"

game_named : is_empty_str "urc-game" ≡ false
unfolding is_empty_str
game_named = refl

delete_resource_twice_example :
    ((delete_resource memory_rebac "urc-game" test_world).0 ≡ accept tt)
    × (get (delete_resource memory_rebac "urc-game" test_world).1.state.resources "urc-game" ≡ none)
    × (delete_resource memory_rebac "urc-game"
          (delete_resource memory_rebac "urc-game" test_world).1
        ≡ (accept tt, (delete_resource memory_rebac "urc-game" test_world).1))
delete_resource_twice_example = delete_resource_twice "urc-game" test_world game_named

-- A network of one address.
abbrev covers : ℕ → IpAddr → Bool
covers net (v4 n) = net == n
covers net (v6 n) = false

-- 127.0.0.1 is let in, 10.0.0.1 is not.
abbrev localhost : ℕ
localhost = 2130706433

abbrev ran : Handler World Status String
ran = answer "ran"

abbrev path : String
path = "/ucs.auth.RebacApi/CreateResource"

-- A deletion from 10.0.0.1, and one from 127.0.0.1.
abbrev deletions : List (GuardedCall World (Unit {0}))
deletions =
    record {
      path = "/ucs.auth.RebacApi/DeleteResource";
      remote = some (v4 167772161);
      inner = delete_resource memory_rebac "urc-game";
    }
    ∷ record {
      path = "/ucs.auth.RebacApi/DeleteResource";
      remote = some (v4 localhost);
      inner = delete_resource memory_rebac "urc-game";
    }
    ∷ []

deletions_test :
    (serve_all ℕ covers (localhost ∷ []) deletions test_world).0
    ≡ reject not_allowed ∷ accept tt ∷ []
unfolding serve_all guarded_call delete_resource lore_auth_bridge.Memory.Resources.delete
deletions_test = refl

serve_all-Guards_example :
    Guards ℕ covers
      (localhost ∷ [])
      test_world
      deletions
      (serve_all ℕ covers (localhost ∷ []) deletions test_world).0
      (serve_all ℕ covers (localhost ∷ []) deletions test_world).1
serve_all-Guards_example = serve_all-Guards ℕ covers (localhost ∷ []) deletions test_world

abbrev limiter : Limiter
limiter = record { limit = 2; window = 60 }

abbrev buckets : Buckets
buckets = ("peer", record { start = 100; count = 1 }) ∷ []

http_allow_eq_example : http_allow limiter "peer" 120 buckets ≡ allow limiter "peer" 120 buckets
http_allow_eq_example = http_allow_eq limiter "peer" 120 buckets

html_escape_lem_example :
    (html_escape "<b>&\"x'" ≡ escape_each "<b>&\"x'")
    × (all_chars is_plain (html_escape "<b>&\"x'") ≡ true)
html_escape_lem_example = html_escape_lem "<b>&\"x'"

-- The store with a session of Ann's browser.
abbrev pub session_world : World
session_world = record test_world {
  state = record test_state { browser_sessions = ("session", "ann") ∷ [] };
}

abbrev pub headers : Headers
headers =
    ("cookie", some "theme=dark; lore_auth_session=session") ∷ ("origin", some "https://auth") ∷ []

abbrev admins : AdminConfig ℕ
admins = record { admin_emails = "Ann@Example.com" ∷ []; allowed_peer_cidrs = localhost ∷ [] }

abbrev page : World → Response × World
page w = (html_response 200 "dashboard", w)

guard_middleware_lem_example :
    (IsAdmin ℕ covers admins session_world headers (some (v4 localhost))
      × (guard_middleware ℕ covers admins memory_sessions headers
            (some (v4 localhost))
            page
            session_world
          ≡ page session_world))
    ⊎ ((¬ IsAdmin ℕ covers admins session_world headers (some (v4 localhost)))
        × (guard_middleware ℕ covers admins memory_sessions headers
              (some (v4 localhost))
              page
              session_world
            ≡ (not_found_page, session_world)))
guard_middleware_lem_example =
    guard_middleware_lem ℕ covers admins session_world headers (some (v4 localhost)) page
