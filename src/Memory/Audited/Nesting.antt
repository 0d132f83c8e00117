-- ===== src/Memory/Audited/Nesting.antt =====
-- The writes of groups in memory/audited.rs, as plans.
use lore_auth_bridge.Base.{
  String, ◌≡◌, refl, Bool, true, false, List, [], ◌∷◌, Result, ok, err, ◌==◌, string_eq, arith,
  some, none, get, push_entry, update, keep, contains, insert, remove_first, get_or_empty,
  not_found, not, concat, if◌then◌else◌, Option,
}
use lore_auth_bridge.Memory.State.{State, World}
use lore_auth_bridge.Memory.Helpers.{resolve_user_id, resolve_group_id}
use lore_auth_bridge.Memory.Nesting.{group_group_would_cycle}
use lore_auth_bridge.Memory.Groups
use lore_auth_bridge.Memory.Groups.{nest_group, unnest_group, nest_ids, unnest_ids}
use lore_auth_bridge.Memory.Audited
use lore_auth_bridge.Memory.Audited.{push_audit, already_nested}
use lore_auth_bridge.Memory.Audited.Log.{Planned, plainly, audited, IsLogless}

-- What each call plans.
abbrev pub member_plan : (State → String → State) → String → String → World → Planned
member_plan f group user w = elim (resolve_user_id w.state user) [
  | err e ↦ err e
  | ok id ↦ ok (f w.state id, group, concat ("user=" ∷ user ∷ []))
]

pub add_member : String → State → String → State
unfolding push_entry
add_member group s id = record s { group_members = push_entry s.group_members id group }

pub add_group_member-plain :
    (w : World) (group user : String)
    → Groups.add_group_member group user w ≡ plainly w (member_plan (add_member group) group user w)
unfolding Groups.add_group_member add_member
add_group_member-plain w group user = ground arith

pub add_group_member-audited :
    (w : World) (actor group user : String)
    → Audited.add_group_member actor group user w
      ≡ audited actor "group.member.add" "group" w (member_plan (add_member group) group user w)
unfolding Audited.add_group_member add_member
add_group_member-audited w actor group user = ground arith

pub remove_member : String → State → String → State
unfolding update keep
remove_member group s id = record s {
  group_members = update s.group_members id (keep (λ name. not (name == group)));
}

pub remove_group_member-plain :
    (w : World) (group user : String)
    → Groups.remove_group_member group user w
      ≡ plainly w (member_plan (remove_member group) group user w)
unfolding Groups.remove_group_member remove_member
remove_group_member-plain w group user = ground arith

pub remove_group_member-audited :
    (w : World) (actor group user : String)
    → Audited.remove_group_member actor group user w
      ≡ audited actor "group.member.remove" "group" w
          (member_plan (remove_member group) group user w)
unfolding Audited.remove_group_member remove_member
remove_group_member-audited w actor group user = ground arith

pub add_member-silent :
    (group : String) (s : State) (id : String) → (add_member group s id).admin_audit ≡ s.admin_audit
unfolding add_member
add_member-silent group s id = refl

pub remove_member-silent :
    (group : String) (s : State) (id : String)
    → (remove_member group s id).admin_audit ≡ s.admin_audit
unfolding remove_member
remove_member-silent group s id = refl

pub member_plan-IsLogless :
    (f : State → String → State) (group user : String) (w : World)
    → ((id : String) → (f w.state id).admin_audit ≡ w.state.admin_audit)
    → IsLogless w (member_plan f group user w)
member_plan-IsLogless f group user w h = by_user (resolve_user_id w.state user)
  where
    by_user :
        (r : Result String)
        → IsLogless w (elim r as (λ _. Planned) [
          | err e ↦ err e
          | ok id ↦ ok (f w.state id, group, concat ("user=" ∷ user ∷ []))
        ])
    by_user (err e) = tt
    by_user (ok id) = h id

pub unnest_plan : String → String → World → Planned
unnest_plan parent member w = elim (unnest_group w.state parent member) [
  | err e ↦ err e
  | ok s ↦ ok (s, parent, concat ("member_group=" ∷ member ∷ []))
]

pub remove_group_group-plain :
    (w : World) (parent member : String)
    → Groups.remove_group_group parent member w ≡ plainly w (unnest_plan parent member w)
unfolding Groups.remove_group_group unnest_plan
remove_group_group-plain w parent member = ground arith

pub remove_group_group-audited :
    (w : World) (actor parent member : String)
    → Audited.remove_group_group actor parent member w
      ≡ audited actor "group.nest.remove" "group" w (unnest_plan parent member w)
unfolding Audited.remove_group_group unnest_plan
remove_group_group-audited w actor parent member = ground arith

-- A resolved call that succeeds keeps the log.
abbrev IsSilent : State → Result State → Type 0
IsSilent s (err e) = Unit
IsSilent s (ok t) = t.admin_audit ≡ s.admin_audit

if-IsSilent :
    (s : State) (b : Bool) (x y : Result State)
    → IsSilent s x
    → IsSilent s y
    → IsSilent s (if b then x else y)
if-IsSilent s true x y i j = i
if-IsSilent s false x y i j = j

unnest_ids-IsSilent : (s : State) (p m : String) → IsSilent s (unnest_ids s p m)
unfolding unnest_ids
unnest_ids-IsSilent s p m = by_members (get s.group_groups p)
  where
    by_members :
        (o : Option (List String))
        → IsSilent s (elim o as (λ _. Result State) [
          | none ↦ err not_found
          | some ms ↦
              if contains ms m
              then ok (record s { group_groups = insert s.group_groups p (remove_first ms m) })
              else err not_found
        ])
    by_members none = tt
    by_members (some ms) = if-IsSilent s (contains ms m) _ _ refl tt

nest_ids-IsSilent : (s : State) (p m : String) → IsSilent s (nest_ids s p m)
unfolding nest_ids
nest_ids-IsSilent s p m = if-IsSilent s (p == m) _ _ tt (
    if-IsSilent s (contains (get_or_empty s.group_groups p) m) _ _ refl
      (if-IsSilent s (group_group_would_cycle s p m) _ _ tt refl))

resolved-IsSilent :
    (s : State) (f : String → String → Result State) (a b : Result String)
    → ((p m : String) → IsSilent s (f p m))
    → IsSilent s (elim a as (λ _. Result State) [
      | err e ↦ err e
      | ok p ↦ elim b as (λ _. Result State) [ err e ↦ err e | ok m ↦ f p m ]
    ])
resolved-IsSilent s f (err e) b h = tt
resolved-IsSilent s f (ok p) (err e) h = tt
resolved-IsSilent s f (ok p) (ok m) h = h p m

unnest_group-IsSilent : (s : State) (p m : String) → IsSilent s (unnest_group s p m)
unfolding unnest_group
unnest_group-IsSilent s p m =
    resolved-IsSilent s (unnest_ids s) (resolve_group_id s p) (resolve_group_id s m)
      (unnest_ids-IsSilent s)

pub nest_group-IsSilent : (s : State) (p m : String) → IsSilent s (nest_group s p m)
unfolding nest_group
nest_group-IsSilent s p m =
    resolved-IsSilent s (nest_ids s) (resolve_group_id s p) (resolve_group_id s m)
      (nest_ids-IsSilent s)

pub silent_plan :
    (w : World) (object_id detail : String) (r : Result State)
    → IsSilent w.state r
    → IsLogless w (elim r as (λ _. Planned) [ err e ↦ err e | ok s ↦ ok (s, object_id, detail) ])
silent_plan w object_id detail (err e) k = tt
silent_plan w object_id detail (ok s) k = k

pub unnest_plan-IsLogless :
    (parent member : String) (w : World) → IsLogless w (unnest_plan parent member w)
unfolding unnest_plan
unnest_plan-IsLogless parent member w =
    silent_plan w parent (concat ("member_group=" ∷ member ∷ []))
      (unnest_group w.state parent member) (unnest_group-IsSilent w.state parent member)
