-- ===== src/Memory/Grants.antt =====
-- crates/lore-auth-adapters/src/memory/grants.rs: grants, access checks and their evidence.
pub mod Access
use lore_auth_bridge.Base.{
  ℕ, String, Bool, true, false, not, ◌&&◌, ◌||◌, ◌==◌, string_eq, pair_eq, if◌then◌else◌, Option,
  none, some, List, [], ◌∷◌, map, ◌++◌, Result, ok, err, CoreError, invalid_argument, not_found,
  Act, pure, raise, lift, guard, ◌>>=◌, ◌>>◌, HashMap, get, insert, remove, update, values, keep,
  any, find, sort_by, str_leb, is_empty_str, trim, has_prefix, concat,
}
use lore_auth_bridge.Model.{
  Grant, GrantEvidence, ResourceFilter, ResourcePermission, Permission, User, role_allows,
  role_permissions, is_known_role, permission_as_str, permission_eq, repository_id_from_resource_id,
}
use lore_auth_bridge.Memory.State.{State, Env, World, new_uuid, get_state, put_state, get_env}
use lore_auth_bridge.Memory.Helpers.{
  resolve_grant_subject_id, resolve_resource_id_for_repo, resolve_exact_resource_id,
  repository_pk_for_resource_id, group_label,
}
use lore_auth_bridge.Memory.Nesting.{grant_subject_keys_for_user, group_paths_for_user}

-- The grants of one subject: resource id to role.
unfoldable pub grants_of : State → String × String → HashMap String String
unfolding get
grants_of state subject = elim (get state.grants subject) [ none ↦ [] | some roles ↦ roles ]

-- One step of the iterator chain in `can_access`.
unfoldable pub subject_allows : State → String → String → String × String → Bool
unfolding grants_of get role_allows
subject_allows state resource_id action subject = elim (get (grants_of state subject) resource_id) [
  | none ↦ false
  | some role ↦ role_allows role action
]

unfoldable pub allowed : State → String → String → String → Bool
unfolding grant_subject_keys_for_user subject_allows any
allowed state user_id resource_id action =
    any (subject_allows state resource_id action) (grant_subject_keys_for_user state user_id)

unfoldable pub can_access : String → String → String → Act World Bool
unfolding allowed
can_access user_id resource_id action = do
  state ← get_state
  pure (allowed state user_id resource_id action)

-- `HashSet<Permission>::extend`.
unfoldable pub extend_permissions : List Permission → List Permission → List Permission
unfolding any permission_eq
extend_permissions set [] = set
extend_permissions set (p ∷ ps) =
    extend_permissions (if any (permission_eq p) set then set else set ++ p ∷ []) ps

-- The inner loop of `list_accessible`: the grants of one subject.
unfoldable pub collect_grants :
    Env
    → String
    → HashMap String String
    → HashMap String (List Permission)
    → Result (HashMap String (List Permission))
unfolding role_permissions is_empty_str has_prefix extend_permissions get insert
collect_grants env prefix [] resources = ok resources
collect_grants env prefix ((resource_id, role) ∷ rest) resources =
    let skipped = collect_grants env prefix rest resources in
    if not (is_empty_str prefix) && not (has_prefix prefix resource_id)
    then skipped
    else elim (role_permissions role) [
      | none ↦ err (invalid_argument (concat ("unknown role " ∷ env.debug_str role ∷ [])))
      | some permission ↦ collect_grants env prefix rest (
          insert resources resource_id (
            extend_permissions (elim (get resources resource_id) [ none ↦ [] | some ps ↦ ps ])
              permission))
    ]

unfoldable pub collect_subjects :
    Env
    → State
    → String
    → List (String × String)
    → HashMap String (List Permission)
    → Result (HashMap String (List Permission))
unfolding collect_grants grants_of
collect_subjects env state prefix [] resources = ok resources
collect_subjects env state prefix (subject ∷ rest) resources =
    elim (collect_grants env prefix (grants_of state subject) resources) [
      | err e ↦ err e
      | ok collected ↦ collect_subjects env state prefix rest collected
    ]

unfoldable pub list_accessible : String → ResourceFilter → Act World (List ResourcePermission)
unfolding collect_subjects grant_subject_keys_for_user sort_by str_leb permission_as_str
list_accessible user_id filter = do
  state ← get_state
  env ← get_env
  resources ←
      lift (collect_subjects env state filter.prefix (grant_subject_keys_for_user state user_id) [])
  pure (
      sort_by (λ left right. str_leb left.resource_id right.resource_id)
        (map
          (λ (e : String × List Permission). record {
            resource_id = e.0;
            permission = sort_by (λ p q. str_leb (permission_as_str p) (permission_as_str q)) e.1;
          })
          resources))

-- `entry(key).or_default().insert(resource_id, role)`.
unfoldable pub put_grant : State → String × String → String → String → State
unfolding grants_of insert
put_grant state subject resource_id role = record state {
  grants = insert state.grants subject (insert (grants_of state subject) resource_id role);
}

unfoldable pub add_grant : String → String → String → String → Act World Grant
unfolding is_known_role resolve_grant_subject_id resolve_resource_id_for_repo put_grant new_uuid
add_grant subject_type subject repo role = do
  env ← get_env
  guard (is_known_role role)
      (invalid_argument (concat ("unknown grant role " ∷ env.debug_str role ∷ [])))
  state ← get_state
  subject_id ← lift (resolve_grant_subject_id env state subject_type subject)
  resource_id ← lift (resolve_resource_id_for_repo state repo)
  put_state (put_grant state (subject_type, subject_id) resource_id role)
  id ← new_uuid
  pure (record {
    id = id;
    subject_type = subject_type;
    subject_id = subject_id;
    repository_id = repo;
    role = role;
  })

-- `if let Some(resources) = grants.get_mut(key) { resources.remove(resource_id) }`.
unfoldable pub drop_grant : State → String × String → String → State
unfolding update remove
drop_grant state subject resource_id = record state {
  grants = update state.grants subject (λ resources. remove resources resource_id);
}

-- The role that is asked for is not read.
unfoldable pub remove_grant : String → String → String → String → Act World (Unit {0})
unfolding resolve_grant_subject_id resolve_resource_id_for_repo drop_grant
remove_grant subject_type subject repo _role = do
  env ← get_env
  state ← get_state
  subject_id ← lift (resolve_grant_subject_id env state subject_type subject)
  resource_id ← lift (resolve_resource_id_for_repo state repo)
  put_state (drop_grant state (subject_type, subject_id) resource_id)

-- The inner loop of `list_grants`.
unfoldable pub grants_on :
    State → Option String → String × String → HashMap String String → List Grant
unfolding repository_pk_for_resource_id repository_id_from_resource_id
grants_on state resource_filter subject [] = []
grants_on state resource_filter subject ((resource_id, role) ∷ rest) =
    let others = grants_on state resource_filter subject rest in
    let grant : Grant = record {
      id = "";
      subject_type = subject.0;
      subject_id = subject.1;
      repository_id = elim (repository_pk_for_resource_id state resource_id) [
        | none ↦ repository_id_from_resource_id resource_id
        | some id ↦ id
      ];
      role = role;
    } in
    elim resource_filter [
      | none ↦ grant ∷ others
      | some wanted ↦ if wanted == resource_id then grant ∷ others else others
    ]

unfoldable pub all_grants_on :
    State → Option String → HashMap (String × String) (HashMap String String) → List Grant
unfolding grants_on
all_grants_on state resource_filter [] = []
all_grants_on state resource_filter ((subject, resources) ∷ rest) =
    grants_on state resource_filter subject resources ++ all_grants_on state resource_filter rest

-- Lexicographic `<=` of equally long tuples of texts.
unfoldable pub texts_leb : List String → List String → Bool
unfolding str_leb
texts_leb [] ys = true
texts_leb (x ∷ xs) [] = false
texts_leb (x ∷ xs) (y ∷ ys) = if x == y then texts_leb xs ys else str_leb x y

unfoldable pub grant_key : Grant → List String
grant_key g = g.repository_id ∷ g.subject_type ∷ g.subject_id ∷ g.role ∷ []

unfoldable pub list_grants : String → Act World (List Grant)
unfolding resolve_resource_id_for_repo all_grants_on sort_by texts_leb grant_key is_empty_str trim
list_grants repo = do
  state ← get_state
  resource_filter ←
      if is_empty_str (trim repo)
      then pure none
      else (do id ← lift (resolve_resource_id_for_repo state repo); pure (some id))
  pure (
      sort_by (λ left right. texts_leb (grant_key left) (grant_key right))
        (all_grants_on state resource_filter state.grants))

unfoldable pub evidence_key : GrantEvidence → List String
evidence_key e = e.path ∷ e.subject_type ∷ e.subject_id ∷ e.role ∷ []

-- The loop over the paths in `grants_for_user_on_repository`.
unfoldable pub group_evidence : State → String → String → HashMap String String → List GrantEvidence
unfolding grants_of get group_label
group_evidence state user_label resource_id [] = []
group_evidence state user_label resource_id ((group_id, group_path) ∷ rest) =
    let others = group_evidence state user_label resource_id rest in
    elim (get (grants_of state ("group", group_id)) resource_id) [
      | none ↦ others
      | some role ↦
          record {
            subject_type = "group";
            subject_id = group_id;
            subject_name = group_label state group_id;
            role = role;
            path = concat ("user:" ∷ user_label ∷ " -> " ∷ group_path ∷ " -> grant" ∷ []);
          }
          ∷ others
    ]

unfoldable pub user_evidence : State → String → String → String → List GrantEvidence
unfolding grants_of get
user_evidence state user_label user_id resource_id =
    elim (get (grants_of state ("user", user_id)) resource_id) [
      | none ↦ []
      | some role ↦
          record {
            subject_type = "user";
            subject_id = user_id;
            subject_name = user_label;
            role = role;
            path = concat ("user:" ∷ user_label ∷ " -> grant" ∷ []);
          }
          ∷ []
    ]

-- `.get(user_id).filter(|user| user.status != "deleted").ok_or(NotFound)`.
unfoldable pub known_user : State → String → Result User
unfolding get
known_user state user_id = elim (get state.users user_id) [
  | none ↦ err not_found
  | some user ↦ if not (user.status == "deleted") then ok user else err not_found
]

unfoldable pub grants_for_user_on_repository : String → String → Act World (List GrantEvidence)
unfolding resolve_exact_resource_id known_user user_evidence group_evidence group_paths_for_user
    sort_by texts_leb evidence_key is_empty_str trim
grants_for_user_on_repository user_id requested = do
  state ← get_state
  resource_id ← lift (resolve_exact_resource_id state requested)
  user ← lift (known_user state user_id)
  let user_label = if is_empty_str (trim user.email) then user.id else user.email
  pure (
      sort_by (λ left right. texts_leb (evidence_key left) (evidence_key right))
        (user_evidence state user_label user_id resource_id
          ++ group_evidence state user_label resource_id (group_paths_for_user state user_id)))
