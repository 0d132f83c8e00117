-- ===== src/Memory/Groups.antt =====
-- crates/lore-auth-adapters/src/memory/groups.rs: groups, their members and their nesting.
pub mod Edges
pub mod Acyclic
pub mod Members
pub mod Links
use lore_auth_bridge.Base.{
  ℕ, String, Bool, true, false, not, ◌&&◌, ◌||◌, ◌==◌, string_eq, if◌then◌else◌, Option, none, some,
  List, [], ◌∷◌, map, ◌++◌, Result, ok, err, CoreError, invalid_argument, not_found, Act, pure,
  raise, lift, guard, ok_or, ◌>>=◌, ◌>>◌, HashMap, get, insert, update, push_entry, get_or_empty,
  values, keep, contains, any, find, sort_by, str_leb, remove_first, is_empty_str, trim,
}
use lore_auth_bridge.Model.{Group, User, normalize_email}
use lore_auth_bridge.Memory.State.{State, World, new_uuid, get_state, put_state}
use lore_auth_bridge.Memory.Helpers.{resolve_user_id, resolve_group_id, group_by_name_or_id}
use lore_auth_bridge.Memory.Nesting.{group_group_would_cycle}

unfoldable pub add_group : String → String → Act World Group
unfolding new_uuid is_empty_str trim
add_group name description = do
  guard (not (is_empty_str (trim name))) (invalid_argument "group name must not be empty")
  id ← new_uuid
  state ← get_state
  let group : Group = record { id = id; name = trim name; description = description }
  put_state (record state { groups = insert state.groups group.name group })
  pure group

unfoldable pub add_group_member : String → String → Act World (Unit {0})
unfolding resolve_user_id push_entry
add_group_member group user_email_or_id = do
  state ← get_state
  user_id ← lift (resolve_user_id state user_email_or_id)
  put_state (record state { group_members = push_entry state.group_members user_id group })

unfoldable pub remove_group_member : String → String → Act World (Unit {0})
unfolding resolve_user_id update keep
remove_group_member group user_email_or_id = do
  state ← get_state
  user_id ← lift (resolve_user_id state user_email_or_id)
  put_state (record state {
    group_members = update state.group_members user_id (keep (λ name. not (name == group)));
  })

-- The tests of `add_group_group` on the two resolved ids.
unfoldable pub nest_ids : State → String → String → Result State
unfolding get_or_empty contains group_group_would_cycle push_entry
nest_ids state parent_group_id member_group_id =
    if parent_group_id == member_group_id
    then err (invalid_argument "group cannot contain itself")
    else if contains (get_or_empty state.group_groups parent_group_id) member_group_id
    then ok state
    else if group_group_would_cycle state parent_group_id member_group_id
    then err (invalid_argument "group nesting would create a cycle")
    else ok (record state {
      group_groups = push_entry state.group_groups parent_group_id member_group_id;
    })

-- The steps of `add_group_group` on the state.
unfoldable pub nest_group : State → String → String → Result State
unfolding resolve_group_id nest_ids
nest_group state parent_group member_group = elim (resolve_group_id state parent_group) [
  | err e ↦ err e
  | ok parent_group_id ↦ elim (resolve_group_id state member_group) [
    | err e ↦ err e
    | ok member_group_id ↦ nest_ids state parent_group_id member_group_id
  ]
]

unfoldable pub add_group_group : String → String → Act World (Unit {0})
unfolding nest_group
add_group_group parent_group member_group = do
  state ← get_state
  nested ← lift (nest_group state parent_group member_group)
  put_state nested

-- The steps of `remove_group_group` behind the two resolved ids.
unfoldable pub unnest_ids : State → String → String → Result State
unfolding get contains insert remove_first
unnest_ids state parent_group_id member_group_id = elim (get state.group_groups parent_group_id) [
  | none ↦ err not_found
  | some members ↦
      if contains members member_group_id
      then ok (record state {
        group_groups =
            insert state.group_groups parent_group_id (remove_first members member_group_id);
      })
      else err not_found
]

unfoldable pub unnest_group : State → String → String → Result State
unfolding resolve_group_id unnest_ids
unnest_group state parent_group member_group = elim (resolve_group_id state parent_group) [
  | err e ↦ err e
  | ok parent_group_id ↦ elim (resolve_group_id state member_group) [
    | err e ↦ err e
    | ok member_group_id ↦ unnest_ids state parent_group_id member_group_id
  ]
]

unfoldable pub remove_group_group : String → String → Act World (Unit {0})
unfolding unnest_group
remove_group_group parent_group member_group = do
  state ← get_state
  rest ← lift (unnest_group state parent_group member_group)
  put_state rest

unfoldable pub list_groups : Act World (List Group)
unfolding sort_by str_leb
list_groups = do
  state ← get_state
  pure (sort_by (λ left right. str_leb left.name right.name) (values state.groups))

-- The order of `(normalize_email(email), id)`.
unfoldable pub user_leb : User → User → Bool
unfolding normalize_email str_leb
user_leb left right =
    let a = normalize_email left.email in
    let b = normalize_email right.email in if a == b then str_leb left.id right.id else str_leb a b

-- The users behind the entries whose groups name the group, by its id or its name.
unfoldable pub members_of : State → Group → HashMap String (List String) → List User
unfolding any get
members_of state group [] = []
members_of state group ((user_id, groups) ∷ rest) =
    let others = members_of state group rest in
    if any (λ member. member == group.id || member == group.name) groups
    then elim (get state.users user_id) [
      | none ↦ others
      | some user ↦ if not (user.status == "deleted") then user ∷ others else others
    ]
    else others

unfoldable pub list_group_members : String → Act World (List User)
unfolding group_by_name_or_id members_of sort_by user_leb
list_group_members name_or_id = do
  state ← get_state
  group ← lift (group_by_name_or_id state name_or_id)
  pure (sort_by user_leb (members_of state group state.group_members))

unfoldable pub groups_by_id : State → List String → List Group
unfolding find
groups_by_id state [] = []
groups_by_id state (group_id ∷ rest) =
    elim (find (λ group. group.id == group_id) (values state.groups)) [
      | none ↦ groups_by_id state rest
      | some group ↦ group ∷ groups_by_id state rest
    ]

unfoldable pub list_group_groups : String → Act World (List Group)
unfolding group_by_name_or_id groups_by_id get_or_empty sort_by str_leb
list_group_groups name_or_id = do
  state ← get_state
  group ← lift (group_by_name_or_id state name_or_id)
  pure (
      sort_by (λ left right. str_leb left.name right.name)
        (groups_by_id state (get_or_empty state.group_groups group.id)))
