-- ===== src/Inbound/Rebac/Delete.antt =====
-- The deletion of a resource through grpcrebac.rs, over the in-memory store.
use lore_auth_bridge.Base.{
  String, ◌≡◌, refl, ◌∙◌, inl, inr, false, none, some, string_eq, get, remove, get-remove,
  is_empty_str, Option-cases, arith, beq_self,
}
use lore_auth_bridge.Model.{Resource}
use lore_auth_bridge.Memory.State.{World}
use lore_auth_bridge.Memory.Resources.{delete}
use lore_auth_bridge.Service.Resource.{ResourceService}
use lore_auth_bridge.Service.Wiring.{memory_resources}
use lore_auth_bridge.Inbound.Reply.{accept}
use lore_auth_bridge.Inbound.Rebac.{delete_resource}

abbrev pub memory_rebac : ResourceService World
memory_rebac = record { store = memory_resources }

-- The store without a resource.
abbrev pub without : String → World → World
without id w = record w { state = record (w.state) { resources = remove w.state.resources id } }

delete-missing :
    (id : String) (w : World)
    → is_empty_str id ≡ false
    → get w.state.resources id ≡ none
    → delete_resource memory_rebac id w ≡ (accept tt, w)
unfolding delete_resource delete
delete-missing id w h e = ground (arith, h, e)

delete-there :
    (id : String) (w : World) (r : Resource)
    → is_empty_str id ≡ false
    → get w.state.resources id ≡ some r
    → delete_resource memory_rebac id w ≡ (accept tt, without id w)
unfolding delete_resource delete
delete-there id w r h e = ground (arith, h, e)

-- A deletion of a resource by a nonempty id succeeds, whether it is there or not; then it is gone, and
-- to delete it again succeeds too and changes nothing.
pub delete_resource_twice :
    (id : String) (w : World)
    → is_empty_str id ≡ false
    → ((delete_resource memory_rebac id w).0 ≡ accept tt)
      × (get (delete_resource memory_rebac id w).1.state.resources id ≡ none)
      × (delete_resource memory_rebac id (delete_resource memory_rebac id w).1
          ≡ (accept tt, (delete_resource memory_rebac id w).1))
delete_resource_twice id w h = elim (Option-cases (get w.state.resources id)) [
  | inl e ↦ rw (delete-missing id w h e) (refl, e, delete-missing id w h e)
  | inr (r, e) ↦
      let gone : get (without id w).state.resources id ≡ none =
        get-remove w.state.resources id id ∙ rw (beq_self id) refl in
      rw (delete-there id w r h e) (refl, gone, delete-missing id (without id w) h gone)
]
