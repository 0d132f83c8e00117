-- ===== src/Memory/Grants/Access.antt =====
-- Who has access, by the grants and the nesting of groups.
use lore_auth_bridge.Base.{
  String, ◌≡◌, ◌↔◌, inl, inr, refl, subst, Bool, true, some, List, [], ◌∷◌, map, any, In, any-In,
  any_of_In, string_eq, pair_eq, get, IsMap, Option-cases, ap, Result, ok,
}
use lore_auth_bridge.Model.{role_allows}
use lore_auth_bridge.Memory.State.{State, World}
use lore_auth_bridge.Memory.Nesting.{
  direct_group_ids_for_user, member_groups, grant_subject_keys_for_user,
}
use lore_auth_bridge.Memory.Nesting.Relation.{Nested}
use lore_auth_bridge.Memory.Nesting.Closure.{member_groups_iff}
use lore_auth_bridge.Memory.Grants.{grants_of, subject_allows, allowed, can_access}

-- A grant to the subject with a role that allows the action.
abbrev pub Grants : State → String × String → String → String → Type 0
Grants state subject resource_id action =
    (role : String) × (get (grants_of state subject) resource_id ≡ some role)
    × (role_allows role action ≡ true)

-- The rule of access: a grant to the user, or to a group in which a direct group of the user is nested.
pub data MayAccess (state : State) (user_id resource_id action : String) : Type 0 where
  by_user :
      Grants state ("user", user_id) resource_id action → MayAccess state user_id resource_id action
  by_group :
      (g d : String)
      → In d (direct_group_ids_for_user state user_id)
      → Nested state.group_groups g d
      → Grants state ("group", g) resource_id action
      → MayAccess state user_id resource_id action

subject_allows-Grants :
    (state : State) (resource_id action : String) (subject : String × String)
    → subject_allows state resource_id action subject ≡ true
    → Grants state subject resource_id action
unfolding subject_allows
subject_allows-Grants state resource_id action subject h =
    elim (Option-cases (get (grants_of state subject) resource_id)) [
      | inl e ↦ cc (rw (e, subject_allows) at h)
      | inr (role, e) ↦ (role, e, rw (e, subject_allows) at h)
    ]

Grants-subject_allows :
    (state : State) (resource_id action : String) (subject : String × String)
    → Grants state subject resource_id action
    → subject_allows state resource_id action subject ≡ true
unfolding subject_allows
Grants-subject_allows state resource_id action subject (role, e, h) = rw (e, subject_allows) h

In-map_group :
    (k : String × String) (gs : List String)
    → In k (map (λ g. ("group", g)) gs)
    → (g : String) × In g gs × (k ≡ ("group", g))
In-map_group k [] i = absurd i
In-map_group k (g ∷ gs) (inl e) = (g, inl refl, e)
In-map_group k (g ∷ gs) (inr i) = let (h, j, e) = In-map_group k gs i in (h, inr j, e)

In-map_of_group :
    (g : String) (gs : List String)
    → In g gs
    → In {A = String × String} ("group", g) (map (λ x. ("group", x)) gs)
In-map_of_group g [] i = absurd i
In-map_of_group g (x ∷ gs) (inl e) = inl (ap (λ (t : String). ("group", t)) e)
In-map_of_group g (x ∷ gs) (inr i) = inr (In-map_of_group g gs i)

pub allowed_iff :
    (state : State) (user_id resource_id action : String)
    → IsMap state.group_groups
    → (allowed state user_id resource_id action ≡ true) ↔ MayAccess state user_id resource_id action
unfolding allowed grant_subject_keys_for_user
allowed_iff state user_id resource_id action u = (
  λ h.
      let (k, i, a) =
        any-In (subject_allows state resource_id action) (grant_subject_keys_for_user state user_id)
          h in
      found k i (subject_allows-Grants state resource_id action k a),
  λ m. granted m,
)
  where
    found :
        (k : String × String)
        → In k (("user", user_id) ∷ map (λ g. ("group", g)) (member_groups state user_id))
        → Grants state k resource_id action
        → MayAccess state user_id resource_id action
    found k (inl e) g = by_user (subst (λ t. Grants state t resource_id action) e g)
    found k (inr i) w =
        let (g, j, e) = In-map_group k (member_groups state user_id) i in
        let (d, l, n) = (member_groups_iff state user_id g u).0 j in
        by_group g d l n (subst (λ t. Grants state t resource_id action) e w)

    granted :
        MayAccess state user_id resource_id action
        → any
            (subject_allows state resource_id action)
            (("user", user_id) ∷ map (λ g. ("group", g)) (member_groups state user_id))
          ≡ true
    granted (by_user w) =
        any_of_In (subject_allows state resource_id action)
          (grant_subject_keys_for_user state user_id) ("user", user_id) (inl refl)
          (Grants-subject_allows state resource_id action ("user", user_id) w)
    granted (by_group g d i n w) =
        any_of_In (subject_allows state resource_id action)
          (grant_subject_keys_for_user state user_id) ("group", g)
          (inr (
            In-map_of_group g (member_groups state user_id)
              ((member_groups_iff state user_id g u).1 (d, i, n))))
          (Grants-subject_allows state resource_id action ("group", g) w)

-- Where the nesting has one entry for each group, `can_access` never fails, leaves the store as it is,
-- and answers `true` exactly by the rule of access: a grant whose role allows the action, to the user or
-- to a group in which a direct group of the user is nested at any depth.
pub can_access_iff :
    (w : World) (user_id resource_id action : String)
    → IsMap w.state.group_groups
    → (can_access user_id resource_id action w
        ≡ (ok (allowed w.state user_id resource_id action), w))
      × ((can_access user_id resource_id action w ≡ (ok true, w))
          ↔ MayAccess w.state user_id resource_id action)
unfolding can_access
can_access_iff w user_id resource_id action u = (
  refl,
  (
    λ h. (allowed_iff w.state user_id resource_id action u).0 (answer h),
    λ m. rw ((allowed_iff w.state user_id resource_id action u).1 m),
  ),
)
  where
    answer : {b : Bool} → ◌≡◌ {A = Result Bool × World} (ok b, w) (ok true, w) → b ≡ true
    answer h = cc h
