-- ===== src/Service/Permission.antt =====
-- crates/lore-auth-core/src/service/permission.rs: permission lookups for callers.
use lore_auth_bridge.Base.{
  String, Bool, false, string_eq, nat_eq, pair_eq, Option, none, some, List, [], ◌∷◌, ok, err, Act,
  pure, ◌>>=◌,
}
use lore_auth_bridge.Model.{Permission, Resource, ResourceFilter, ResourcePermission}
use lore_auth_bridge.Service.Ports.{AuthorizationPolicy, ResourceStore}

pub record PermissionService (W : Type 0) : Type 0 where
  pub resources : ResourceStore W
  pub authz : AuthorizationPolicy W

pub record CheckedPermission : Type 0 where
  pub resource_id : String
  pub allowed : Bool
  pub permission : List Permission

module _ {W : Type 0} (service : PermissionService W) where
  open service use {resources, authz}

  -- `let Ok(resource) = .. else { .. }`: any error of the lookup reads as "not allowed".
  abbrev try_lookup : String → Act W (Option Resource)
  try_lookup resource_id w =
      let (r, w') = resources.get_by_resource_id resource_id w in
      (ok (elim r [ ok resource ↦ some resource | err _ ↦ none ]), w')

  unfoldable pub check : String → List String → Act W (List CheckedPermission)
  check user_id [] = pure []
  check user_id (resource_id ∷ rest) = do
    found ← try_lookup resource_id
    first ← elim found [
      | none ↦ pure (record { resource_id = resource_id; allowed = false; permission = [] })
      | some resource ↦ (do
        allowed ← authz.can_access user_id resource.resource_id "write"
        pure (record {
          resource_id = resource.resource_id;
          allowed = allowed;
          permission = Permission.read ∷ Permission.write ∷ [];
        }))
    ]
    others ← check user_id rest
    pure (first ∷ others)

  unfoldable pub lookup : String → ResourceFilter → Act W (List ResourcePermission)
  lookup user_id filter = authz.list_accessible user_id filter

  unfoldable pub can_access : String → String → String → Act W Bool
  can_access user_id resource_id action = authz.can_access user_id resource_id action
