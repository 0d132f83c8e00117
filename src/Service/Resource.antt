-- ===== src/Service/Resource.antt =====
-- crates/lore-auth-core/src/service/resource.rs: the synchronization of resources.
use lore_auth_bridge.Base.{String, string_eq, nat_eq, pair_eq, List, Act}
use lore_auth_bridge.Model.{Resource, default_resource}
use lore_auth_bridge.Service.Ports.{ResourceStore}

pub record ResourceService (W : Type 0) : Type 0 where
  pub store : ResourceStore W

module _ {W : Type 0} (service : ResourceService W) where
  open service use {store}

  unfoldable pub create_resource : String → String → Act W (Unit {0})
  create_resource resource_id resource_name =
      store.upsert (record default_resource { resource_id = resource_id; name = resource_name })

  unfoldable pub delete_resource : String → Act W (Unit {0})
  delete_resource resource_id = store.delete resource_id

  unfoldable pub get_resource : String → Act W Resource
  get_resource resource_id = store.get_by_resource_id resource_id

  unfoldable pub get_by_name : String → Act W Resource
  get_by_name name = store.get_by_name name

  unfoldable pub list : Act W (List Resource)
  list = store.list
