-- ===== src/Memory/Resources.antt =====
-- crates/lore-auth-adapters/src/memory/resources.rs, and `add_test_resource` of memory/mod.rs.
use lore_auth_bridge.Base.{
  String, not, ◌==◌, string_eq, nat_eq, pair_eq, if◌then◌else◌, none, some, List, not_found, Act,
  pure, lift, ok_or, ◌>>=◌, ◌>>◌, get, insert, remove, values, keep, find, sort_by, str_leb,
  is_empty_str,
}
use lore_auth_bridge.Model.{Resource, for_repository_id, repository_id_from_resource_id}
use lore_auth_bridge.Memory.State.{World, new_uuid, get_state, put_state}
use lore_auth_bridge.Memory.Helpers.{normalize_resource_for_upsert}

-- `add_test_resource` fills what is empty and stores the resource under its resource id.
unfoldable pub fill_resource : Resource → Resource
unfolding for_repository_id repository_id_from_resource_id is_empty_str
fill_resource resource =
    let resource_id =
      if is_empty_str resource.resource_id
      then elim (for_repository_id resource.lore_repository_id) [ none ↦ "" | some id ↦ id ]
      else resource.resource_id in
    record resource {
      resource_id = resource_id;
      lore_repository_id =
          if is_empty_str resource.lore_repository_id
          then repository_id_from_resource_id resource_id
          else resource.lore_repository_id;
      status = if is_empty_str resource.status then "active" else resource.status;
    }

-- `if id.is_empty() { Uuid::new_v4() }`.
unfoldable pub id_or_new : String → Act World String
unfolding new_uuid is_empty_str
id_or_new id = if is_empty_str id then new_uuid else pure id

unfoldable pub add_test_resource : Resource → Act World Resource
unfolding id_or_new fill_resource insert
add_test_resource resource = do
  id ← id_or_new resource.id
  let filled = fill_resource (record resource { id = id })
  state ← get_state
  put_state (record state { resources = insert state.resources filled.resource_id filled })
  pure filled

unfoldable pub upsert : Resource → Act World (Unit {0})
unfolding normalize_resource_for_upsert add_test_resource
upsert resource = do
  normalized ← lift (normalize_resource_for_upsert resource)
  add_test_resource normalized
  pure tt

unfoldable pub delete : String → Act World (Unit {0})
unfolding get remove
delete resource_id = do
  state ← get_state
  lift (ok_or (get state.resources resource_id) not_found)
  put_state (record state { resources = remove state.resources resource_id })

unfoldable pub get_by_id : String → Act World Resource
unfolding find
get_by_id id = do
  state ← get_state
  lift (ok_or (find (λ resource. resource.id == id) (values state.resources)) not_found)

unfoldable pub get_by_resource_id : String → Act World Resource
unfolding get
get_by_resource_id resource_id = do
  state ← get_state
  lift (ok_or (get state.resources resource_id) not_found)

unfoldable pub get_by_name : String → Act World Resource
unfolding find
get_by_name name = do
  state ← get_state
  lift (ok_or (find (λ resource. resource.name == name) (values state.resources)) not_found)

unfoldable pub list : Act World (List Resource)
unfolding keep sort_by str_leb
list = do
  state ← get_state
  pure (
      sort_by (λ left right. str_leb left.resource_id right.resource_id)
        (keep (λ resource. not (resource.status == "deleted")) (values state.resources)))
