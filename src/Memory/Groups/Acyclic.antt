-- ===== src/Memory/Groups/Acyclic.antt =====
-- The nesting of groups stays free of cycles under memory/groups.rs.

use lore_auth_bridge.Base.{
  String, ◌≡◌, refl, sym, subst, false, string_eq, List, [], ◌∷◌, Result, ok, err, get_or_empty,
  remove_first, In-remove_first, contains, In, Bool-cases, Option-cases, get, some, arith, inl, inr,
  Act,
}
use lore_auth_bridge.Memory.State.{State, World}
use lore_auth_bridge.Memory.Helpers.{resolve_group_id}
use lore_auth_bridge.Memory.Nesting.{Edges, group_group_would_cycle}
use lore_auth_bridge.Memory.Nesting.Relation.{Nested, IsAcyclic}
use lore_auth_bridge.Memory.Nesting.Cycle.{group_group_would_cycle_iff}
use lore_auth_bridge.Memory.Groups.{
  nest_group, unnest_group, unnest_ids, add_group_group, remove_group_group,
}
use lore_auth_bridge.Memory.Groups.Edges.{
  nest_group-Nests, resolved_ok, push_entry-IsAcyclic, insert-IsAcyclic,
}

not-would_cycle :
    (state : State) (p m : String)
    → group_group_would_cycle state p m ≡ false
    → ¬ Nested state.group_groups m p
not-would_cycle state p m e n = cc ((group_group_would_cycle_iff state p m).1 n)

nest_group-IsAcyclic :
    (state after : State) (parent member : String)
    → IsAcyclic state.group_groups
    → nest_group state parent member ≡ ok after
    → IsAcyclic after.group_groups
nest_group-IsAcyclic state after parent member a h =
    elim (nest_group-Nests state after parent member h) [
      | inl same ↦ subst (λ (s : State). IsAcyclic s.group_groups) same a
      | inr (p, m, apart, e) ↦
          subst IsAcyclic (sym e)
            (push_entry-IsAcyclic state.group_groups p m (not-would_cycle state p m apart) a)
    ]

pub get_or_empty-some :
    (edges : Edges) (p : String) (ms : List String)
    → get edges p ≡ some ms
    → get_or_empty edges p ≡ ms
unfolding get_or_empty
get_or_empty-some edges p ms e = rw (e, get_or_empty)

unnest_ids-IsAcyclic :
    (state after : State) (p m : String)
    → IsAcyclic state.group_groups
    → unnest_ids state p m ≡ ok after
    → IsAcyclic after.group_groups
unfolding unnest_ids
unnest_ids-IsAcyclic state after p m a h = elim (Option-cases (get state.group_groups p)) [
  | inl e ↦ cc (rw (e, unnest_ids) at h)
  | inr (ms, e) ↦ elim (Bool-cases (contains ms m)) [
    | inl f ↦ subst IsAcyclic (ground (arith, e, f)) (
        insert-IsAcyclic state.group_groups p (remove_first ms m)
          (λ x i.
            subst (In x) (sym (get_or_empty-some state.group_groups p ms e))
              (In-remove_first ms m x i))
          a)
    | inr f ↦ cc (rw (e, f, unnest_ids) at h)
  ]
]

unnest_group-IsAcyclic :
    (state after : State) (parent member : String)
    → IsAcyclic state.group_groups
    → unnest_group state parent member ≡ ok after
    → IsAcyclic after.group_groups
unfolding unnest_group
unnest_group-IsAcyclic state after parent member a h =
    let (p, m, _, _, e) =
      resolved_ok (resolve_group_id state parent) (resolve_group_id state member) (unnest_ids state)
        after h in
    unnest_ids-IsAcyclic state after p m a e

-- The calls that change the nesting.
pub data NestingCall : Type 0 where
  nest unnest : String → String → NestingCall

abbrev pub call : NestingCall → Act World (Unit {0})
call (nest parent member) = add_group_group parent member
call (unnest parent member) = remove_group_group parent member

-- The store after a history of calls, whether they succeed or fail.
unfoldable pub run : World → List NestingCall → World
run w [] = w
run w (c ∷ cs) = run (call c w).1 cs

-- A call that computes a new state, or fails and keeps the old one.
pub after_put :
    (P : State → Type 0) (w : World) (r : Result State)
    → P w.state
    → ((s : State) → r ≡ ok s → P s)
    → P (elim r as (λ _. World) [ ok s ↦ record w { state = s } | err _ ↦ w ]).state
after_put P w (ok s) old new = new s refl
after_put P w (err e) old new = old

pub after_nest :
    (w : World) (p m : String)
    → (add_group_group p m w).1
      ≡ elim (nest_group w.state p m) as (λ _. World) [ ok s ↦ record w { state = s } | err _ ↦ w ]
unfolding add_group_group
after_nest w p m = ground arith

pub after_unnest :
    (w : World) (p m : String)
    → (remove_group_group p m w).1 ≡ elim (unnest_group w.state p m) as (λ _. World) [
      | ok s ↦ record w { state = s }
      | err _ ↦ w
    ]
unfolding remove_group_group
after_unnest w p m = ground arith

call-IsAcyclic :
    (w : World) (c : NestingCall)
    → IsAcyclic w.state.group_groups
    → IsAcyclic (call c w).1.state.group_groups
call-IsAcyclic w (nest p m) a =
    subst (λ (v : World). IsAcyclic v.state.group_groups) (sym (after_nest w p m))
      (after_put (λ (s : State). IsAcyclic s.group_groups) w (nest_group w.state p m) a
        (λ s e. nest_group-IsAcyclic w.state s p m a e))
call-IsAcyclic w (unnest p m) a =
    subst (λ (v : World). IsAcyclic v.state.group_groups) (sym (after_unnest w p m))
      (after_put (λ (s : State). IsAcyclic s.group_groups) w (unnest_group w.state p m) a
        (λ s e. unnest_group-IsAcyclic w.state s p m a e))

-- From a store in which no group is nested in one of its members, no history of `add_group_group` and
-- `remove_group_group` calls, failing ones included, leads to one in which some group is.
pub run-IsAcyclic :
    (w : World) (cs : List NestingCall)
    → IsAcyclic w.state.group_groups
    → IsAcyclic (run w cs).state.group_groups
unfolding run
run-IsAcyclic w [] a = a
run-IsAcyclic w (c ∷ cs) a = run-IsAcyclic (call c w).1 cs (call-IsAcyclic w c a)
