-- ===== src/Memory/Audited.antt =====
-- crates/lore-auth-adapters/src/memory/audited.rs: the store of one actor, whose writes leave an entry
-- in the audit log.
pub mod Log
pub mod Nesting
pub mod Plans
pub mod Refines
use lore_auth_bridge.Base.{
  ℕ, zero, suc, ◌+◌, ◌≤◌, ◌<◌, String, Bool, true, false, not, ◌&&◌, ◌||◌, ◌==◌, string_eq, nat_eq,
  pair_eq, if◌then◌else◌, Option, none, some, List, [], ◌∷◌, map, ◌++◌, Result, ok, err, CoreError,
  invalid_argument, not_found, permission_denied, auth_session_not_found, unauthenticated,
  unsupported, Act, pure, raise, lift, guard, ok_or, map_err, modify, gets, ◌>>=◌, ◌>>◌, HashMap,
  get, insert, remove, update, push_entry, get_or_empty, values, keep, any, find, sort_by, take,
  str_leb, is_empty_str, trim, has_prefix, strip_prefix, concat, Duration, i64_leb, i64_add, leb,
  ltb, to_ascii_lowercase, eq_ignore_ascii_case, contains_str,
}
use lore_auth_bridge.Base.{contains}
use lore_auth_bridge.Model.{
  User, Group, Grant, Resource, IdentityInvitation, AddUserInput, AddInvitationInput,
  for_repository_id, is_known_role,
}
use lore_auth_bridge.Memory.State.{
  State, Env, World, CsrfToken, new_uuid, now_unix, unix_or_now, unix_after, seconds_or_default,
  hash_secret, hash_code, ensure_jti, get_state, put_state, get_env,
}
use lore_auth_bridge.Memory.Helpers.{
  admin_audit_entry, grant_detail, resolve_user_id, resolve_group_id, resolve_grant_subject_id,
  resolve_resource_id_for_repo, validated_account_email, normalize_resource_for_upsert,
}
use lore_auth_bridge.Memory.Groups.{nest_group, unnest_group}
use lore_auth_bridge.Memory.Grants.{put_grant, drop_grant}
use lore_auth_bridge.Memory.Accounts.{put_user, invitation_records}
use lore_auth_bridge.Memory.Resources.{id_or_new}

-- `state.admin_audit.push(admin_audit_entry(&self.actor, ..))`, the last step of each method.
unfoldable pub push_audit : String → String → String → String → String → Act World (Unit {0})
unfolding admin_audit_entry
push_audit actor action object_type object_id detail = do
  entry ← admin_audit_entry actor action object_type object_id detail
  state ← get_state
  put_state (record state { admin_audit = state.admin_audit ++ entry ∷ [] })

unfoldable pub add_group : String → String → String → Act World Group
unfolding new_uuid is_empty_str trim insert push_audit
add_group actor name description = do
  guard (not (is_empty_str (trim name))) (invalid_argument "group name must not be empty")
  id ← new_uuid
  let group : Group = record { id = id; name = trim name; description = description }
  state ← get_state
  put_state (record state { groups = insert state.groups group.name group })
  push_audit actor "group.add" "group" group.id (concat ("name=" ∷ group.name ∷ []))
  pure group

unfoldable pub add_group_member : String → String → String → Act World (Unit {0})
unfolding resolve_user_id push_entry push_audit
add_group_member actor group user_email_or_id = do
  state ← get_state
  user_id ← lift (resolve_user_id state user_email_or_id)
  put_state (record state { group_members = push_entry state.group_members user_id group })
  push_audit actor "group.member.add" "group" group (concat ("user=" ∷ user_email_or_id ∷ []))

unfoldable pub remove_group_member : String → String → String → Act World (Unit {0})
unfolding resolve_user_id update keep push_audit
remove_group_member actor group user_email_or_id = do
  state ← get_state
  user_id ← lift (resolve_user_id state user_email_or_id)
  put_state (record state {
    group_members = update state.group_members user_id (keep (λ name. not (name == group)));
  })
  push_audit actor "group.member.remove" "group" group (concat ("user=" ∷ user_email_or_id ∷ []))

-- An edge that is there already is no change, and leaves no entry.
unfoldable pub already_nested : State → String → String → Bool
unfolding resolve_group_id get_or_empty contains
already_nested state parent_group member_group = elim (resolve_group_id state parent_group) [
  | err _ ↦ false
  | ok parent_group_id ↦ elim (resolve_group_id state member_group) [
    | err _ ↦ false
    | ok member_group_id ↦
        not (parent_group_id == member_group_id)
        && contains (get_or_empty state.group_groups parent_group_id) member_group_id
  ]
]

unfoldable pub add_group_group : String → String → String → Act World (Unit {0})
unfolding nest_group already_nested push_audit
add_group_group actor parent_group member_group = do
  state ← get_state
  nested ← lift (nest_group state parent_group member_group)
  put_state nested
  if already_nested state parent_group member_group
      then pure tt
      else push_audit actor "group.nest.add" "group" parent_group
          (concat ("member_group=" ∷ member_group ∷ []))

unfoldable pub remove_group_group : String → String → String → Act World (Unit {0})
unfolding unnest_group push_audit
remove_group_group actor parent_group member_group = do
  state ← get_state
  rest ← lift (unnest_group state parent_group member_group)
  put_state rest
  push_audit actor "group.nest.remove" "group" parent_group
      (concat ("member_group=" ∷ member_group ∷ []))

-- The id of the grant is drawn before the subject is resolved.
unfoldable pub add_grant : String → String → String → String → String → Act World Grant
unfolding is_known_role new_uuid resolve_grant_subject_id resolve_resource_id_for_repo put_grant
    grant_detail push_audit
add_grant actor subject_type subject repo role = do
  env ← get_env
  guard (is_known_role role)
      (invalid_argument (concat ("unknown grant role " ∷ env.debug_str role ∷ [])))
  id ← new_uuid
  state ← get_state
  subject_id ← lift (resolve_grant_subject_id env state subject_type subject)
  resource_id ← lift (resolve_resource_id_for_repo state repo)
  put_state (put_grant state (subject_type, subject_id) resource_id role)
  push_audit actor "grant.add" "grant" id (grant_detail subject_type subject_id repo role)
  pure (record {
    id = id;
    subject_type = subject_type;
    subject_id = subject_id;
    repository_id = repo;
    role = role;
  })

unfoldable pub remove_grant : String → String → String → String → String → Act World (Unit {0})
unfolding resolve_grant_subject_id resolve_resource_id_for_repo drop_grant grant_detail push_audit
remove_grant actor subject_type subject repo role = do
  env ← get_env
  state ← get_state
  subject_id ← lift (resolve_grant_subject_id env state subject_type subject)
  resource_id ← lift (resolve_resource_id_for_repo state repo)
  put_state (drop_grant state (subject_type, subject_id) resource_id)
  push_audit actor "grant.remove" "grant"
      (concat (subject_type ∷ ":" ∷ subject_id ∷ ":" ∷ repo ∷ ":" ∷ role ∷ []))
      (grant_detail subject_type subject_id repo role)

unfoldable pub add_user : String → AddUserInput → Act World User
unfolding validated_account_email new_uuid put_user push_audit
add_user actor input = do
  email ← lift (validated_account_email input.email)
  id ← new_uuid
  let user : User = record {
    id = id;
    email = email;
    display_name = input.display_name;
    status = "active";
    last_login_at = 0;
  }
  state ← get_state
  put_state (put_user state id user)
  push_audit actor "user.add" "user" user.id (concat ("email=" ∷ user.email ∷ []))
  pure user

unfoldable pub add_invitation : String → AddInvitationInput → Act World (User × IdentityInvitation)
unfolding is_empty_str trim validated_account_email new_uuid invitation_records insert push_audit
add_invitation actor input = do
  guard (not (is_empty_str (trim input.provider_id) || is_empty_str (trim input.issuer)))
      (invalid_argument "provider_id, issuer, and email are required")
  email ← lift (validated_account_email input.email)
  user_id ← new_uuid
  invitation_id ← new_uuid
  let made = invitation_records input email user_id invitation_id
  state ← get_state
  put_state (record state {
    users = insert state.users user_id made.0;
    invitations = insert state.invitations invitation_id made.1;
  })
  push_audit actor "user.invite" "user" user_id
      (concat ("email=" ∷ email ∷ " invitation_id=" ∷ invitation_id ∷ []))
  pure made

unfoldable pub disable_user : String → String → Act World (Unit {0})
unfolding resolve_user_id get put_user push_audit
disable_user actor user_id_or_email = do
  state ← get_state
  user_id ← lift (resolve_user_id state user_id_or_email)
  user ← lift (ok_or (get state.users user_id) not_found)
  put_state (put_user state user_id (record user { status = "disabled" }))
  push_audit actor "user.disable" "user" user_id (concat ("email=" ∷ user.email ∷ []))

unfoldable pub enable_user : String → String → Act World (Unit {0})
unfolding resolve_user_id get put_user push_audit
enable_user actor user_id_or_email = do
  state ← get_state
  user_id ← lift (resolve_user_id state user_id_or_email)
  user ← lift (ok_or (get state.users user_id) not_found)
  guard (not (user.status == "deleted")) not_found
  put_state (put_user state user_id (record user { status = "active" }))
  push_audit actor "user.enable" "user" user_id (concat ("email=" ∷ user.email ∷ []))

-- What `upsert` stores.
unfoldable pub stored_resource : Resource → Act World Resource
unfolding normalize_resource_for_upsert id_or_new is_empty_str
stored_resource resource = do
  normalized ← lift (normalize_resource_for_upsert resource)
  id ← id_or_new normalized.id
  pure (record normalized {
    id = id;
    status = if is_empty_str normalized.status then "active" else normalized.status;
  })

unfoldable pub upsert : String → Resource → Act World (Unit {0})
unfolding stored_resource insert push_audit
upsert actor requested = do
  resource ← stored_resource requested
  state ← get_state
  put_state (record state { resources = insert state.resources resource.resource_id resource })
  push_audit actor "repository.add" "repository" resource.resource_id
      (concat ("name=" ∷ resource.name ∷ " lore_repository_id=" ∷ resource.lore_repository_id ∷ []))

-- Not the removal of the unaudited store: the resource stays, marked as deleted.
unfoldable pub delete : String → String → Act World (Unit {0})
unfolding for_repository_id get insert push_audit
delete actor resource_id = do
  id ←
      lift
        (ok_or (for_repository_id resource_id) (invalid_argument "resource_id must not be empty"))
  state ← get_state
  resource ← lift (ok_or (get state.resources id) not_found)
  put_state (record state {
    resources = insert state.resources id (record resource { status = "deleted" });
  })
  push_audit actor "repository.disable" "repository" id ""
