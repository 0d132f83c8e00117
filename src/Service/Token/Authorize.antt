-- ===== src/Service/Token/Authorize.antt =====
-- The loop over the resources of a token exchange in service/token.rs, over the in-memory store.
use lore_auth_bridge.Base.{
  String, ◌≡◌, ◌⊎◌, inl, inr, refl, ◌∙◌, sym, subst, Bool, true, false, string_eq, none, some, List,
  [], ◌∷◌, ok, err, CoreError, pure, guard, ◌>>=◌, get, In, arith, Option-cases, Bool-cases,
  permission_denied, not_found,
}
use lore_auth_bridge.Model.{Resource, ResourcePermission, Permission}
use lore_auth_bridge.Memory.State.{World}
use lore_auth_bridge.Memory.Grants.{allowed, can_access}
use lore_auth_bridge.Memory.Resources.{get_by_resource_id}
use lore_auth_bridge.Service.Token.{TokenConfig, authorize_resources}
use lore_auth_bridge.Service.Wiring.{memory_tokens}

guard-eq-ok :
    (b : Bool) (e : CoreError) (w v : World) → guard b e w ≡ (ok tt, v) → (b ≡ true) × (w ≡ v)
guard-eq-ok true e w v h = (refl, cc)
guard-eq-ok false e w v h = cc

-- The two errors of a resource that is missing and of one that the user may not write.
abbrev pub IsRefusal : CoreError → Type 0
IsRefusal e = (e ≡ not_found) ⊎ (e ≡ permission_denied)

-- The resource is there, and the user may write it.
abbrev pub MayWrite : World → String → String → Type 0
MayWrite w user_id id =
    (r : Resource) × (get w.state.resources id ≡ some r)
    × (allowed w.state user_id r.resource_id "write" ≡ true)

abbrev granted : Resource → ResourcePermission
granted r = record {
  resource_id = r.resource_id;
  permission = Permission.read ∷ Permission.write ∷ [];
}

module _ (cfg : TokenConfig) (user_id : String) where
  authorize-none :
      (id : String) (rest : List String) (w : World)
      → get w.state.resources id ≡ none
      → authorize_resources (memory_tokens cfg) user_id (id ∷ rest) w ≡ (err not_found, w)
  unfolding authorize_resources get_by_resource_id
  authorize-none id rest w e = ground (arith, e)

  authorize-denied :
      (id : String) (rest : List String) (w : World) (r : Resource)
      → get w.state.resources id ≡ some r
      → allowed w.state user_id r.resource_id "write" ≡ false
      → authorize_resources (memory_tokens cfg) user_id (id ∷ rest) w ≡ (err permission_denied, w)
  unfolding authorize_resources get_by_resource_id can_access
  authorize-denied id rest w r e f = ground (arith, e, f)

  authorize-next :
      (id : String) (rest : List String) (w : World) (r : Resource)
      → get w.state.resources id ≡ some r
      → allowed w.state user_id r.resource_id "write" ≡ true
      → authorize_resources (memory_tokens cfg) user_id (id ∷ rest) w
        ≡ (authorize_resources (memory_tokens cfg) user_id rest >>= λ others.
              pure (granted r ∷ others))
            w
  unfolding authorize_resources get_by_resource_id can_access
  authorize-next id rest w r e f = ground (arith, e, f)

  -- The loop over the requested ids never writes; it ends with what it grants where the user may write
  -- all of them, and with an error where there is one that the user may not.
  pub authorize-cases :
      (ids : List String) (w : World)
      → ((out : List ResourcePermission) × (authorize_resources (memory_tokens cfg) user_id ids w
            ≡ (ok out, w))
          × ((id : String) → In id ids → MayWrite w user_id id))
        ⊎ ((e : CoreError) × (authorize_resources (memory_tokens cfg) user_id ids w ≡ (err e, w))
            × IsRefusal e
            × ((id : String) × In id ids × (MayWrite w user_id id → ⊥)))
  authorize-cases [] w = inl ([], unfold authorize_resources in refl, λ id i. absurd i)
  authorize-cases (id ∷ rest) w = elim (Option-cases (get w.state.resources id)) [
    | inl e ↦
        inr
          (not_found, authorize-none id rest w e, inl refl, (id, inl refl, λ (r, f, _). cc (e, f)))
    | inr (r, e) ↦ elim (Bool-cases (allowed w.state user_id r.resource_id "write")) [
      | inr f ↦ inr (
        permission_denied,
        authorize-denied id rest w r e f,
        inr refl,
        (id, inl refl, λ (r', e', f'). denied r r' e f e' f'),
      )
      | inl f ↦ elim (authorize-cases rest w) [
        | inl (out, q, all) ↦ inl (
          granted r ∷ out,
          authorize-next id rest w r e f ∙ rw q refl,
          λ x i. head_or r e f all x i,
        )
        | inr (x, q, k, (y, i, refused)) ↦
            inr (x, authorize-next id rest w r e f ∙ rw q refl, k, (y, inr i, refused))
      ]
    ]
  ]
    where
      denied :
          (r r' : Resource)
          → get w.state.resources id ≡ some r
          → allowed w.state user_id r.resource_id "write" ≡ false
          → get w.state.resources id ≡ some r'
          → allowed w.state user_id r'.resource_id "write" ≡ true
          → ⊥
      denied r r' e f e' f' = cc (e, f, e', f')

      head_or :
          (r : Resource)
          → get w.state.resources id ≡ some r
          → allowed w.state user_id r.resource_id "write" ≡ true
          → ((x : String) → In x rest → MayWrite w user_id x)
          → (x : String) → In x (id ∷ rest)
          → MayWrite w user_id x
      head_or r e f all x (inl q) = subst (MayWrite w user_id) (sym q) (r, e, f)
      head_or r e f all x (inr i) = all x i
