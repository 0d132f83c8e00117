-- ===== src/Adapters/Authz.antt =====
-- crates/lore-auth-adapters/src/authz.rs and permissions.rs: access by the tuples of a snapshot. The
-- queries that read tuples and the engine that resolves a check are parameters; the condition of a
-- tuple is always empty and is left out.
mod Tuples
unfoldable pub use Tuples.*
pub mod Agree
pub mod Reach
use lore_auth_bridge.Base.{
  ℕ, zero, suc, String, Bool, true, false, not, ◌&&◌, ◌||◌, ◌==◌, string_eq, if◌then◌else◌, Option,
  none, some, List, [], ◌∷◌, ◌++◌, map, length, Result, ok, err, invalid_argument, Act, pure, raise,
  lift, ◌>>=◌, ◌>>◌, concat, contains, keep, sort_by, str_leb, is_empty, strip_suffix,
}
use lore_auth_bridge.Model.{
  Permission, ResourcePermission, ResourceFilter, for_repository_id, repository_id_from_resource_id,
  role_from_name, role_allows,
}
use lore_auth_bridge.Adapters.Authz.Tuples.{Tuple, validate_snapshot_can_access_roles}

-- permissions.rs.
pub record PermissionSet : Type 0 where
  pub read : Bool
  pub write : Bool
  pub admin : Bool

abbrev pub empty_set : PermissionSet
empty_set = record { read = false; write = false; admin = false }

unfoldable pub insert_permission : PermissionSet → Permission → PermissionSet
insert_permission set Permission.read = record set { read = true }
insert_permission set Permission.write = record set { write = true }
insert_permission set Permission.admin = record set { admin = true }

unfoldable pub into_permissions : PermissionSet → List Permission
into_permissions set =
    (if set.read then Permission.read ∷ [] else [])
    ++ (if set.write then Permission.write ∷ [] else [])
    ++ (if set.admin then Permission.admin ∷ [] else [])

-- `authz_core::CheckResult`.
pub data CheckResult : Type 0 where
  allowed denied : CheckResult
  condition_required : List String → CheckResult

-- What the database and the engine do: the tuples of the grants on an active repository, `NotFound`
-- where there is none, those of the groups above a user, the resources that may concern a user, the
-- tuples of their grants, and the check of a resource, a relation and a user against a snapshot.
pub record Engine (W : Type 0) : Type 0 where
  pub read_active_repository_grants : String → Act W (List Tuple)
  pub read_user_reachable_groups : String → Act W (List Tuple)
  pub candidate_resource_ids : String → String → Act W (List String)
  pub read_candidate_grants : List String → Act W (List Tuple)
  pub resolve_check : List Tuple → String → String → String → Result CheckResult
  pub debug_str : String → String

abbrev join_comma : List String → String
join_comma [] = ""
join_comma (p ∷ []) = p
join_comma (p ∷ q ∷ rest) = concat (p ∷ ", " ∷ join_comma (q ∷ rest) ∷ [])

-- The relations that an action asks for.
unfoldable pub relations_of : String → List String
relations_of action =
    if action == "read"
    then "reader" ∷ "writer" ∷ "admin" ∷ []
    else if action == "write"
    then "writer" ∷ "admin" ∷ []
    else "admin" ∷ []

-- The part of `resource_permissions_with_resolver` behind the check for the admin relation.
unfoldable pub plain_permissions : Bool → Bool → List Permission
unfolding into_permissions insert_permission
plain_permissions reader writer =
    let reads =
      if reader || writer then insert_permission empty_set Permission.read else empty_set in
    into_permissions (if writer then insert_permission reads Permission.write else reads)

module _ {W : Type 0} (engine : Engine W) where
  unfoldable pub can_access_snapshot : String → String → String → Act W (List Tuple)
  unfolding repository_id_from_resource_id validate_snapshot_can_access_roles
  can_access_snapshot resource_id user_id action = do
    grants ← engine.read_active_repository_grants (repository_id_from_resource_id resource_id)
    groups ← engine.read_user_reachable_groups user_id
    lift (validate_snapshot_can_access_roles engine.debug_str (grants ++ groups) user_id action)
    pure (grants ++ groups)

  unfoldable pub check_allowed_with_resolver : List Tuple → String → String → String → Result Bool
  check_allowed_with_resolver snapshot resource_id relation user_id =
      elim (engine.resolve_check snapshot resource_id relation user_id) [
        | err e ↦ err e
        | ok allowed ↦ ok true
        | ok denied ↦ ok false
        | ok (condition_required params) ↦
            err (invalid_argument (concat ("authz: condition required: " ∷ join_comma params ∷ [])))
      ]

  unfoldable pub check_any_relation_with_resolver :
      List Tuple → String → String → List String → Result Bool
  unfolding check_allowed_with_resolver
  check_any_relation_with_resolver snapshot resource_id user_id [] = ok false
  check_any_relation_with_resolver snapshot resource_id user_id (relation ∷ rest) =
      let others = check_any_relation_with_resolver snapshot resource_id user_id rest in
      elim (check_allowed_with_resolver snapshot resource_id relation user_id) [
        | err e ↦ err e
        | ok b ↦ if b then ok true else others
      ]

  unfoldable pub can_access : String → String → String → Act W Bool
  unfolding can_access_snapshot check_any_relation_with_resolver relations_of
  can_access user_id resource_id action = do
    snapshot ← can_access_snapshot resource_id user_id action
    lift (check_any_relation_with_resolver snapshot resource_id user_id (relations_of action))

  unfoldable pub resource_permissions_with_resolver :
      List Tuple → String → String → Act W (List Permission)
  unfolding check_allowed_with_resolver plain_permissions
  resource_permissions_with_resolver snapshot user_id resource_id = do
    admin ← lift (check_allowed_with_resolver snapshot resource_id "admin" user_id)
    if admin then pure (Permission.read ∷ Permission.write ∷ Permission.admin ∷ []) else (do
      reader ← lift (check_allowed_with_resolver snapshot resource_id "reader" user_id)
      writer ← lift (check_allowed_with_resolver snapshot resource_id "writer" user_id)
      pure (plain_permissions reader writer))

  unfoldable pub list_accessible_snapshot :
      String → ResourceFilter → Act W (List String × List Tuple)
  list_accessible_snapshot user_id filter = do
    resource_ids ← engine.candidate_resource_ids user_id filter.prefix
    if is_empty resource_ids then pure (resource_ids, []) else (do
      grants ← engine.read_candidate_grants resource_ids
      groups ← engine.read_user_reachable_groups user_id
      pure (resource_ids, grants ++ groups))

  -- The loop of `list_accessible`.
  unfoldable pub list_permissions :
      List Tuple → String → List String → Act W (List ResourcePermission)
  unfolding resource_permissions_with_resolver
  list_permissions snapshot user_id [] = pure []
  list_permissions snapshot user_id (resource_id ∷ rest) = do
    permissions ← resource_permissions_with_resolver snapshot user_id resource_id
    others ← list_permissions snapshot user_id rest
    pure (
        if not (is_empty permissions)
        then record { resource_id = resource_id; permission = permissions } ∷ others
        else others)

  unfoldable pub list_accessible : String → ResourceFilter → Act W (List ResourcePermission)
  unfolding list_accessible_snapshot list_permissions
  list_accessible user_id filter = do
    found ← list_accessible_snapshot user_id filter
    list_permissions found.1 user_id found.0
