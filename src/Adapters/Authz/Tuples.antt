-- ===== src/Adapters/Authz/Tuples.antt =====
-- crates/lore-auth-adapters/src/authz.rs: the tuples of a snapshot, and what is read off them.
use lore_auth_bridge.Base.{
  ℕ, zero, suc, String, Bool, true, false, not, ◌&&◌, ◌||◌, ◌==◌, string_eq, if◌then◌else◌, Option,
  none, some, List, [], ◌∷◌, length, Result, ok, err, invalid_argument, concat, contains, keep,
  sort_by, str_leb, strip_suffix,
}
use lore_auth_bridge.Model.{for_repository_id, role_from_name, role_allows}

-- `authz_core::Tuple` and `TupleFilter`.
pub record Tuple : Type 0 where
  pub object_type : String
  pub object_id : String
  pub relation : String
  pub subject_type : String
  pub subject_id : String

pub record TupleFilter : Type 0 where
  pub object_type : Option String
  pub object_id : Option String
  pub relation : Option String
  pub subject_type : Option String
  pub subject_id : Option String

unfoldable pub matches_filter_value : String → Option String → Bool
matches_filter_value value none = true
matches_filter_value value (some expected) = expected == value

unfoldable pub tuple_matches_filter : Tuple → TupleFilter → Bool
unfolding matches_filter_value
tuple_matches_filter tuple filter =
    matches_filter_value tuple.object_type filter.object_type
    && matches_filter_value tuple.object_id filter.object_id
    && matches_filter_value tuple.relation filter.relation
    && matches_filter_value tuple.subject_type filter.subject_type
    && matches_filter_value tuple.subject_id filter.subject_id

unfoldable pub filtered_tuples : List Tuple → TupleFilter → List Tuple
unfolding keep tuple_matches_filter
filtered_tuples tuples filter = keep (λ tuple. tuple_matches_filter tuple filter) tuples

abbrev first : List Tuple → Option Tuple
first [] = none
first (tuple ∷ rest) = some tuple

-- The readers of a snapshot.
unfoldable pub read_user_tuple :
    List Tuple → String → String → String → String → String → Option Tuple
unfolding filtered_tuples
read_user_tuple tuples object_type object_id relation subject_type subject_id = first (
    filtered_tuples tuples (record {
      object_type = some object_type;
      object_id = some object_id;
      relation = some relation;
      subject_type = some subject_type;
      subject_id = some subject_id;
    }))

unfoldable pub read_userset_tuples : List Tuple → String → String → String → List Tuple
unfolding filtered_tuples
read_userset_tuples tuples object_type object_id relation = filtered_tuples tuples (record {
  object_type = some object_type;
  object_id = some object_id;
  relation = some relation;
  subject_type = some "group";
  subject_id = none;
})

unfoldable pub read_starting_with_user : List Tuple → String → String → List Tuple
unfolding filtered_tuples
read_starting_with_user tuples subject_type subject_id = filtered_tuples tuples (record {
  object_type = none;
  object_id = none;
  relation = none;
  subject_type = some subject_type;
  subject_id = some subject_id;
})

unfoldable pub read_user_tuple_batch :
    List Tuple → String → String → List String → String → String → Option Tuple
unfolding read_user_tuple
read_user_tuple_batch tuples object_type object_id [] subject_type subject_id = none
read_user_tuple_batch tuples object_type object_id (relation ∷ rest) subject_type subject_id =
    let others = read_user_tuple_batch tuples object_type object_id rest subject_type subject_id in
    elim (read_user_tuple tuples object_type object_id relation subject_type subject_id) [
      | some tuple ↦ some tuple
      | none ↦ others
    ]

-- `unwrap_or_default()` of a text.
abbrev or_blank : Option String → String
or_blank none = ""
or_blank (some s) = s

unfoldable pub grant_tuple : String → String → String → String → Tuple
unfolding for_repository_id
grant_tuple lore_repository_id relation subject_type raw_subject_id = record {
  object_type = "resource";
  object_id = or_blank (for_repository_id lore_repository_id);
  relation = relation;
  subject_type = subject_type;
  subject_id =
      if subject_type == "group" then concat (raw_subject_id ∷ "#member" ∷ []) else raw_subject_id;
}

-- `reachable_group_ids_from_tuples`: the direct groups, then a loop that adds groups until a run over
-- the tuples adds none. A `HashSet` is the list of its elements; the loop takes fuel.
unfoldable pub is_user_member : String → Tuple → Bool
is_user_member user_id tuple =
    tuple.object_type == "group"
    && tuple.relation == "member"
    && tuple.subject_type == "user"
    && tuple.subject_id == user_id

unfoldable pub direct_ids : List Tuple → String → List String
unfolding is_user_member contains
direct_ids [] user_id = []
direct_ids (tuple ∷ rest) user_id =
    let others = direct_ids rest user_id in
    if is_user_member user_id tuple && not (contains others tuple.object_id)
    then tuple.object_id ∷ others
    else others

-- The group that is a member, of a tuple that nests groups.
unfoldable pub member_group : Tuple → Option String
unfolding strip_suffix
member_group tuple =
    if tuple.object_type == "group" && tuple.relation == "member" && tuple.subject_type == "group"
    then strip_suffix "#member" tuple.subject_id
    else none

unfoldable pub reach_pass : List Tuple → List String → Bool → List String × Bool
unfolding member_group contains
reach_pass [] group_ids changed = (group_ids, changed)
reach_pass (tuple ∷ rest) group_ids changed = elim (member_group tuple) [
  | none ↦ reach_pass rest group_ids changed
  | some member ↦
      reach_pass rest
        (if contains group_ids member && not (contains group_ids tuple.object_id)
          then tuple.object_id ∷ group_ids
          else group_ids)
        (changed || (contains group_ids member && not (contains group_ids tuple.object_id)))
]

unfoldable pub reach_loop : ℕ → List Tuple → List String → Option (List String)
unfolding reach_pass
reach_loop zero tuples group_ids = none
reach_loop (suc fuel) tuples group_ids =
    let (wider, changed) = reach_pass tuples group_ids false in
    let again = reach_loop fuel tuples wider in if changed then again else some wider

abbrev or_none : Option (List String) → List String
or_none none = []
or_none (some ids) = ids

unfoldable pub reachable_group_ids_from_tuples : List Tuple → String → List String
unfolding reach_loop direct_ids
reachable_group_ids_from_tuples tuples user_id =
    or_none (reach_loop (suc (length tuples)) tuples (direct_ids tuples user_id))

-- The roles that reach the user, in `validate_snapshot_can_access_roles`.
unfoldable pub roles_of : List Tuple → List String → String → List String
unfolding strip_suffix contains
roles_of [] group_ids user_id = []
roles_of (tuple ∷ rest) group_ids user_id =
    let others = roles_of rest group_ids user_id in
    if not (tuple.object_type == "resource")
    then others
    else if tuple.subject_type == "user"
    then (if tuple.subject_id == user_id then tuple.relation ∷ others else others)
    else if tuple.subject_type == "group"
    then elim (strip_suffix "#member" tuple.subject_id) [
      | none ↦ others
      | some group_id ↦ if contains group_ids group_id then tuple.relation ∷ others else others
    ]
    else others

-- The loop over the sorted roles; `debug_str` is the `{:?}` of a text.
unfoldable pub validate_roles : (String → String) → List String → String → Result (Unit {0})
unfolding role_from_name role_allows
validate_roles debug_str [] action = ok tt
validate_roles debug_str (role ∷ rest) action =
    let others = validate_roles debug_str rest action in
    if role == "admin" then ok tt else elim (role_from_name role) [
      | none ↦ err (invalid_argument (concat ("unknown grant role " ∷ debug_str role ∷ [])))
      | some _ ↦ if role_allows role action then ok tt else others
    ]

unfoldable pub validate_snapshot_can_access_roles :
    (String → String) → List Tuple → String → String → Result (Unit {0})
unfolding roles_of reachable_group_ids_from_tuples validate_roles sort_by str_leb
validate_snapshot_can_access_roles debug_str tuples user_id action =
    validate_roles debug_str
      (sort_by str_leb (roles_of tuples (reachable_group_ids_from_tuples tuples user_id) user_id))
      action
