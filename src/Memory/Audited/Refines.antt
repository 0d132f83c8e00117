-- ===== src/Memory/Audited/Refines.antt =====
-- The audited methods of memory/audited.rs against those of the plain store.
use lore_auth_bridge.Base.{
  String, ◌≡◌, inl, inr, true, false, [], ◌∷◌, Result-cases, ok, err, Act, ◌==◌, string_eq, arith,
  Bool-cases, not, concat, ◌∙◌, ap, sym, ◌&&◌, In, get_or_empty, contains, contains-In, beq_self,
  str_eq→eq, invalid_argument,
}
use lore_auth_bridge.Memory.State.{State, World}
use lore_auth_bridge.Memory.Helpers.{resolve_group_id}
use lore_auth_bridge.Memory.Grants.{drop_grant}
use lore_auth_bridge.Memory.Groups
use lore_auth_bridge.Memory.Groups.{nest_group, unnest_group, nest_ids, unnest_ids}
use lore_auth_bridge.Memory.Grants
use lore_auth_bridge.Memory.Accounts
use lore_auth_bridge.Memory.Accounts.{put_user}
use lore_auth_bridge.Memory.Audited
use lore_auth_bridge.Memory.Audited.{push_audit, already_nested}
use lore_auth_bridge.Memory.Audited.Log.{
  Refines, keeps, IsNew, Planned, plainly, audited, IsLogless, by_plan,
}
use lore_auth_bridge.Memory.Audited.Nesting.{
  member_plan, add_member, add_group_member-plain, add_group_member-audited, remove_member,
  remove_group_member-plain, remove_group_member-audited, member_plan-IsLogless, add_member-silent,
  remove_member-silent, unnest_plan, remove_group_group-plain, remove_group_group-audited,
  unnest_plan-IsLogless, silent_plan, nest_group-IsSilent,
}
use lore_auth_bridge.Memory.Audited.Plans.{
  drop_plan, remove_grant-plain, remove_grant-audited, status_plan, disable_user-plain,
  disable_user-audited, enable_user-plain, enable_user-audited, drop_plan-IsLogless,
  status_plan-IsLogless,
}

nest_plan : String → String → World → Planned
nest_plan parent member w = elim (nest_group w.state parent member) [
  | err e ↦ err e
  | ok s ↦ ok (s, parent, concat ("member_group=" ∷ member ∷ []))
]

nest_plan-IsLogless : (parent member : String) (w : World) → IsLogless w (nest_plan parent member w)
unfolding nest_plan
nest_plan-IsLogless parent member w =
    silent_plan w parent (concat ("member_group=" ∷ member ∷ [])) (nest_group w.state parent member)
      (nest_group-IsSilent w.state parent member)

add_group_group-plain :
    (w : World) (parent member : String)
    → Groups.add_group_group parent member w ≡ plainly w (nest_plan parent member w)
unfolding Groups.add_group_group nest_plan
add_group_group-plain w parent member = ground arith

add_group_group-audited :
    (w : World) (actor parent member : String)
    → already_nested w.state parent member ≡ false
    → Audited.add_group_group actor parent member w
      ≡ audited actor "group.nest.add" "group" w (nest_plan parent member w)
unfolding Audited.add_group_group nest_plan
add_group_group-audited w actor parent member e = ground (arith, e)

already_nested-same :
    (s : State) (parent member : String)
    → already_nested s parent member ≡ true
    → nest_group s parent member ≡ ok s
unfolding already_nested nest_group nest_ids
already_nested-same s parent member e = ground (arith, e)

-- Both names stand for groups, and the one lists the other.
abbrev pub IsNested : State → String → String → Type 0
IsNested s parent member =
    (p : String) × (m : String) × (resolve_group_id s parent ≡ ok p)
    × (resolve_group_id s member ≡ ok m)
    × In m (get_or_empty s.group_groups p)

IsNested-already_nested :
    (s : State) (parent member : String)
    → already_nested s parent member ≡ true
    → IsNested s parent member
unfolding already_nested
IsNested-already_nested s parent member e = elim (Result-cases (resolve_group_id s parent)) [
  | inr (x, a) ↦ cc (rw (a, already_nested) at e)
  | inl (p, a) ↦ elim (Result-cases (resolve_group_id s member)) [
    | inr (x, b) ↦ cc (rw (a, b, already_nested) at e)
    | inl (m, b) ↦
        let listed : contains (get_or_empty s.group_groups p) m ≡ true = ground (arith, e, a, b) in
        (p, m, a, b, (contains-In (get_or_empty s.group_groups p) m).0 listed)
  ]
]

nest_group_self :
    (s : State) (parent member p : String)
    → resolve_group_id s parent ≡ ok p
    → resolve_group_id s member ≡ ok p
    → nest_group s parent member ≡ err (invalid_argument "group cannot contain itself")
unfolding nest_group nest_ids
nest_group_self s parent member p a b = ground (arith, a, b, beq_self p)

already_nested_iff :
    (s : State) (parent member p m : String)
    → resolve_group_id s parent ≡ ok p
    → resolve_group_id s member ≡ ok m
    → already_nested s parent member ≡ (not (p == m) && contains (get_or_empty s.group_groups p) m)
unfolding already_nested
already_nested_iff s parent member p m a b = ground (arith, a, b)

nest_plan-IsNew :
    (w : World) (parent member : String)
    → already_nested w.state parent member ≡ false
    → IsNew (IsNested w.state parent member) (nest_plan parent member w)
unfolding nest_plan
nest_plan-IsNew w parent member e x h (p, m, a, b, i) = elim (Bool-cases (p == m)) [
  | inl same ↦
      let b' : resolve_group_id w.state member ≡ ok p = b ∙ ap ok (sym (str_eq→eq p m same)) in
      cc (rw (nest_group_self w.state parent member p a b', nest_plan) at h)
  | inr other ↦
      let listed = (contains-In (get_or_empty w.state.group_groups p) m).1 i in
      cc (rw (other, listed) at (already_nested_iff w.state parent member p m a b), e)
]

-- `add_group_group` of the audited store writes an entry only where there is a new edge.
add_group_group-Refines :
    (w : World) (actor parent member : String)
    → Refines
        (IsNested w.state parent member)
        actor
        "group.nest.add"
        "group"
        w
        (Groups.add_group_group parent member w)
        (Audited.add_group_group actor parent member w)
unfolding Groups.add_group_group Audited.add_group_group
add_group_group-Refines w actor parent member =
    elim (Bool-cases (already_nested w.state parent member)) [
      | inl e ↦
          let same = already_nested-same w.state parent member e in
          keeps tt (IsNested-already_nested w.state parent member e) (ground (arith, e, same))
            (ground (arith, e, same)) (ground (arith, e, same)) (ground (arith, e, same))
      | inr e ↦
          by_plan "group.nest.add" "group" (nest_plan parent member w)
            (nest_plan-IsLogless parent member w) (nest_plan-IsNew w parent member e)
            (add_group_group-plain w parent member)
            (add_group_group-audited w actor parent member e)
    ]

-- The calls of the audited store that answer `()`, with the methods of both stores.
pub data AuditedCall : Type 0 where
  add_group_member remove_group_member add_group_group remove_group_group :
      String → String → AuditedCall
  remove_grant : String → String → String → String → AuditedCall
  disable_user enable_user : String → AuditedCall

abbrev pub plain_call : AuditedCall → Act World (Unit {0})
plain_call (add_group_member group user) = Groups.add_group_member group user
plain_call (remove_group_member group user) = Groups.remove_group_member group user
plain_call (add_group_group parent member) = Groups.add_group_group parent member
plain_call (remove_group_group parent member) = Groups.remove_group_group parent member
plain_call (remove_grant subject_type subject repo role) =
    Grants.remove_grant subject_type subject repo role
plain_call (disable_user user) = Accounts.disable_user user
plain_call (enable_user user) = Accounts.enable_user user

abbrev pub audited_call : String → AuditedCall → Act World (Unit {0})
audited_call actor (add_group_member group user) = Audited.add_group_member actor group user
audited_call actor (remove_group_member group user) = Audited.remove_group_member actor group user
audited_call actor (add_group_group parent member) = Audited.add_group_group actor parent member
audited_call actor (remove_group_group parent member) =
    Audited.remove_group_group actor parent member
audited_call actor (remove_grant subject_type subject repo role) =
    Audited.remove_grant actor subject_type subject repo role
audited_call actor (disable_user user) = Audited.disable_user actor user
audited_call actor (enable_user user) = Audited.enable_user actor user

-- What a call asks for is there already. Only to nest groups again is no change.
abbrev pub IsThere : AuditedCall → World → Type 0
IsThere (add_group_group parent member) w = IsNested w.state parent member
IsThere _ w = ⊥

-- The action and the type of the object in the entry of a call.
abbrev pub action_of : AuditedCall → String
action_of (add_group_member _ _) = "group.member.add"
action_of (remove_group_member _ _) = "group.member.remove"
action_of (add_group_group _ _) = "group.nest.add"
action_of (remove_group_group _ _) = "group.nest.remove"
action_of (remove_grant _ _ _ _) = "grant.remove"
action_of (disable_user _) = "user.disable"
action_of (enable_user _) = "user.enable"

abbrev pub object_type_of : AuditedCall → String
object_type_of (add_group_member _ _) = "group"
object_type_of (remove_group_member _ _) = "group"
object_type_of (add_group_group _ _) = "group"
object_type_of (remove_group_group _ _) = "group"
object_type_of (remove_grant _ _ _ _) = "grant"
object_type_of (disable_user _) = "user"
object_type_of (enable_user _) = "user"

-- The audited forms of seven writes (to add and remove a member of a group, to nest and unnest groups, to
-- remove a grant, to disable and enable a user) do to the rest of the state what the plain ones do, and
-- answer the same. Where such a write succeeds, just one entry is added to the log, with the actor, the
-- action and the type of the object, unless the call nests a group that the parent lists already: then
-- neither store changes, the log included. An error changes nothing in either store.
pub audited_call-Refines :
    (actor : String) (c : AuditedCall) (w : World)
    → Refines
        (IsThere c w)
        actor
        (action_of c)
        (object_type_of c)
        w
        (plain_call c w)
        (audited_call actor c w)
audited_call-Refines actor (add_group_member group user) w =
    by_plan "group.member.add" "group" (member_plan (add_member group) group user w)
      (member_plan-IsLogless (add_member group) group user w (add_member-silent group w.state))
      (λ _ _ z. z) (add_group_member-plain w group user)
      (add_group_member-audited w actor group user)
audited_call-Refines actor (remove_group_member group user) w =
    by_plan "group.member.remove" "group" (member_plan (remove_member group) group user w)
      (member_plan-IsLogless (remove_member group) group user w
        (remove_member-silent group w.state))
      (λ _ _ z. z) (remove_group_member-plain w group user)
      (remove_group_member-audited w actor group user)
audited_call-Refines actor (add_group_group parent member) w =
    add_group_group-Refines w actor parent member
audited_call-Refines actor (remove_group_group parent member) w =
    by_plan "group.nest.remove" "group" (unnest_plan parent member w)
      (unnest_plan-IsLogless parent member w) (λ _ _ z. z)
      (remove_group_group-plain w parent member) (remove_group_group-audited w actor parent member)
audited_call-Refines actor (remove_grant subject_type subject repo role) w =
    by_plan "grant.remove" "grant" (drop_plan subject_type subject repo role w)
      (drop_plan-IsLogless subject_type subject repo role w) (λ _ _ z. z)
      (remove_grant-plain w subject_type subject repo role)
      (remove_grant-audited w actor subject_type subject repo role)
audited_call-Refines actor (disable_user user) w =
    by_plan "user.disable" "user" (status_plan (λ _. true) "disabled" user w)
      (status_plan-IsLogless (λ _. true) "disabled" user w) (λ _ _ z. z) (disable_user-plain w user)
      (disable_user-audited w actor user)
audited_call-Refines actor (enable_user user) w =
    by_plan "user.enable" "user" (status_plan (λ u. not (u.status == "deleted")) "active" user w)
      (status_plan-IsLogless (λ u. not (u.status == "deleted")) "active" user w) (λ _ _ z. z)
      (enable_user-plain w user) (enable_user-audited w actor user)
