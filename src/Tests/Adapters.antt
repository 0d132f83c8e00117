-- ===== src/Tests/Adapters.antt =====
-- The theorems of the adapters beside the store, at small values.
use lore_auth_bridge.Base.{
  String, ◌≡◌, ◌↔◌, refl, Bool, ◌==◌, string_eq, if◌then◌else◌, some, List, [], ◌∷◌, In, ok,
  unsupported, raise, pure, any, arith, Bool-cases, inl, inr,
}
use lore_auth_bridge.Model.{Permission, permission_eq, permission_as_str}
use lore_auth_bridge.Memory.State.{World}
use lore_auth_bridge.Service.Ports.{IdentityProvider}
use lore_auth_bridge.Adapters.Authz.{
  Tuple, Engine, allowed, denied, relations_of, check_allowed_with_resolver,
  check_any_relation_with_resolver, resource_permissions_with_resolver,
  reachable_group_ids_from_tuples,
}
use lore_auth_bridge.Adapters.Authz.Agree.{may, permissions_agree}
use lore_auth_bridge.Adapters.Authz.Reach.{Reaches, reachable_group_ids_iff}
use lore_auth_bridge.Adapters.Registry.{Registry, register, get_provider, new_registry}
use lore_auth_bridge.Adapters.Registry.Register.{get_provider-register}
use lore_auth_bridge.Tests.{test_world}

-- Ann is in `devs`, which is in `all`.
abbrev tuples : List Tuple
tuples =
    record {
      object_type = "group";
      object_id = "all";
      relation = "member";
      subject_type = "group";
      subject_id = "devs#member";
    }
    ∷ record {
      object_type = "group";
      object_id = "devs";
      relation = "member";
      subject_type = "user";
      subject_id = "ann";
    }
    ∷ []

reachable_group_ids_iff_example :
    In "all" (reachable_group_ids_from_tuples tuples "ann") ↔ Reaches tuples "ann" "all"
reachable_group_ids_iff_example = reachable_group_ids_iff tuples "ann" "all"

-- An engine for which each user is a writer, and nothing else.
abbrev writers : String → Bool
writers relation = relation == "writer"

abbrev engine : Engine World
engine = record {
  read_active_repository_grants = λ _. pure [];
  read_user_reachable_groups = λ _. pure [];
  candidate_resource_ids = λ _ _. pure [];
  read_candidate_grants = λ _. pure [];
  resolve_check = λ _ _ relation _. ok (if writers relation then allowed else denied);
  debug_str = λ s. s;
}

answers :
    (relation : String)
    → check_allowed_with_resolver engine tuples "urc-game" relation "ann" ≡ ok (writers relation)
unfolding check_allowed_with_resolver
answers relation = elim (Bool-cases (writers relation)) [
  | inl e ↦ ground (arith, e)
  | inr e ↦ ground (arith, e)
]

permissions_agree_example :
    (ps : List Permission) × (resource_permissions_with_resolver engine tuples "ann" "urc-game"
        test_world
      ≡ (ok ps, test_world))
    × ((p : Permission)
        → (any (λ x. permission_eq x p) ps ≡ may writers p)
          × (check_any_relation_with_resolver engine tuples "urc-game" "ann"
                (relations_of (permission_as_str p))
              ≡ ok (may writers p)))
permissions_agree_example =
    permissions_agree engine tuples "ann" "urc-game" writers answers test_world

abbrev provider : IdentityProvider World
provider = record {
  descriptor = record {
    id = "corp";
    provider_type = "static";
    display_name = "corp";
    issuer = "https://idp";
    trust_policy = record { email_binding = ""; allowed_email_domains = [] };
  };
  begin_auth = λ _. raise unsupported;
  complete_auth = λ _. raise unsupported;
}

abbrev registry : Registry World
registry = record { default_id = "corp"; by_id = ("corp", provider) ∷ [] }

register_test : register (λ s. s) (new_registry "corp") provider ≡ (ok tt, registry)
unfolding register new_registry
register_test = refl

get_provider-register_example :
    (get_provider registry "other" ≡ (
      if provider.descriptor.id == "other"
      then some provider
      else get_provider (new_registry "corp") "other"))
    × ((register (λ s. s) registry provider).1 ≡ registry)
get_provider-register_example =
    get_provider-register (λ s. s) (new_registry "corp") registry provider provider "other"
      register_test refl
