-- ===== src/Memory/Helpers.antt =====
-- crates/lore-auth-adapters/src/memory/mod.rs: the routines that the ports' methods share.
use lore_auth_bridge.Base.{
  ℕ, String, Bool, true, false, not, ◌&&◌, ◌||◌, ◌==◌, string_eq, pair_eq, if◌then◌else◌, Option,
  none, some, List, [], ◌∷◌, Result, ok, err, invalid_argument, not_found, permission_denied,
  auth_session_not_found, ok_or, get, values, find, any, is_empty_str, trim, concat,
  eq_ignore_ascii_case, to_ascii_lowercase, after_last, i64_leb, max, Act, ◌>>=◌, pure,
}
use Prim.Native.String.{char_at}
use Prim.Native.Char.{nul}
use lore_auth_bridge.Model.{
  User, Group, Resource, ExternalIdentity, LoginTrustPolicy, TokenPrincipal, AuthSession,
  AdminAuditEntry, for_repository_id, repository_id_from_resource_id,
  normalize_valid_lore_repository_id, normalize_valid_account_email, bridge_subject, display,
  preferred_username_of,
}
use lore_auth_bridge.Memory.State.{State, Env, World, new_uuid, now_unix}

-- `active_user`.
unfoldable pub active_user : State → String → Result User
unfolding get
active_user state user_id = elim (get state.users user_id) [
  | none ↦ err not_found
  | some user ↦ if not (user.status == "active") then err permission_denied else ok user
]

-- `resolve_user_id`: an id or an email; the first match in the map's order.
unfoldable pub resolve_user_id : State → String → Result String
unfolding find
resolve_user_id state email_or_id =
    elim (find (λ user. user.id == email_or_id || user.email == email_or_id) (values state.users)) [
      | none ↦ err not_found
      | some user ↦ ok user.id
    ]

-- `group_by_name_or_id`: ids come before names.
unfoldable pub group_by_name_or_id : State → String → Result Group
unfolding find
group_by_name_or_id state group =
    elim (find (λ candidate. candidate.id == group) (values state.groups)) [
      | some candidate ↦ ok candidate
      | none ↦ ok_or (find (λ candidate. candidate.name == group) (values state.groups)) not_found
    ]

-- `resolve_group_id`.
unfoldable pub resolve_group_id : State → String → Result String
unfolding group_by_name_or_id
resolve_group_id state group = elim (group_by_name_or_id state group) [
  | ok g ↦ ok g.id
  | err e ↦ err e
]

-- `resolve_grant_subject_id`.
unfoldable pub resolve_grant_subject_id : Env → State → String → String → Result String
unfolding resolve_user_id resolve_group_id
resolve_grant_subject_id env state subject_type subject =
    if subject_type == "user"
    then elim (resolve_user_id state subject) [
      | ok id ↦ ok id
      | err _ ↦ err (invalid_argument (concat ("unknown grant user " ∷ env.debug_str subject ∷ [])))
    ]
    else if subject_type == "group"
    then elim (resolve_group_id state subject) [
      | ok id ↦ ok id
      | err _ ↦
          err (invalid_argument (concat ("unknown grant group " ∷ env.debug_str subject ∷ [])))
    ]
    else err (
        invalid_argument (concat ("unknown grant subject_type " ∷ env.debug_str subject_type ∷ [])))

-- `resolve_resource_id_for_repo`: by name, among the resources that are not deleted.
unfoldable pub resolve_resource_id_for_repo : State → String → Result String
unfolding find trim is_empty_str
resolve_resource_id_for_repo state untrimmed =
    let repo = trim untrimmed in
    if is_empty_str repo
    then err (invalid_argument "repo must not be empty")
    else elim (find (λ resource. not (resource.status == "deleted") && resource.name == repo)
        (values state.resources)) [ none ↦ err not_found | some resource ↦ ok resource.resource_id ]

-- `resolve_exact_resource_id`.
unfoldable pub resolve_exact_resource_id : State → String → Result String
unfolding for_repository_id repository_id_from_resource_id trim get
resolve_exact_resource_id state resource_id =
    elim (for_repository_id (repository_id_from_resource_id (trim resource_id))) [
      | none ↦ err (invalid_argument "resource_id must not be empty")
      | some id ↦ elim (get state.resources id) [
        | none ↦ err not_found
        | some resource ↦
            if not (resource.status == "deleted") then ok resource.resource_id else err not_found
      ]
    ]

-- `repository_pk_for_resource_id`.
unfoldable pub repository_pk_for_resource_id : State → String → Option String
unfolding get is_empty_str
repository_pk_for_resource_id state resource_id = elim (get state.resources resource_id) [
  | none ↦ none
  | some resource ↦ if not (is_empty_str resource.id) then some resource.id else none
]

-- `validated_lore_repository_id`.
unfoldable pub validated_lore_repository_id : String → Result String
unfolding normalize_valid_lore_repository_id
validated_lore_repository_id value =
    ok_or (normalize_valid_lore_repository_id value)
      (invalid_argument "lore_repository_id must be 1-128 characters of A-Z, a-z, 0-9, '-' or '_'")

-- `normalize_resource_for_upsert`.
unfoldable pub normalize_resource_for_upsert : Resource → Result Resource
unfolding validated_lore_repository_id repository_id_from_resource_id for_repository_id trim
    is_empty_str
normalize_resource_for_upsert resource =
    elim (if is_empty_str (trim resource.resource_id)
      then validated_lore_repository_id resource.lore_repository_id
      else validated_lore_repository_id
          (repository_id_from_resource_id (trim resource.resource_id))) [
            | err e ↦ err e
            | ok repository_id ↦ elim (for_repository_id repository_id) [
              | none ↦ err (invalid_argument "resource_id is required")
              | some id ↦
                  ok (record resource { lore_repository_id = repository_id; resource_id = id })
            ]
          ]

-- `validated_account_email`: the email as it was typed, without the spaces around it.
unfoldable pub validated_account_email : String → Result String
unfolding normalize_valid_account_email trim
validated_account_email value = elim (normalize_valid_account_email (trim value)) [
  | none ↦ err (invalid_argument "email must contain '@' and no whitespace")
  | some _ ↦ ok (trim value)
]

-- `group_label`.
unfoldable pub group_label : State → String → String
unfolding find
group_label state group_id = elim (find (λ group. group.id == group_id) (values state.groups)) [
  | none ↦ group_id
  | some group ↦ group.name
]

-- The text "\0".
abbrev nul_str : String
nul_str = String.◌∷◌ nul String.[]

-- `external_identity_key`.
unfoldable pub external_identity_key : ExternalIdentity → String
external_identity_key identity =
    concat (identity.provider_id ∷ nul_str ∷ identity.issuer ∷ nul_str ∷ identity.subject ∷ [])

-- `allows_verified_email_invitation_binding`.
unfoldable pub allows_verified_email_invitation_binding : LoginTrustPolicy → Bool
unfolding trim
allows_verified_email_invitation_binding policy =
    trim policy.email_binding == "verified_email_invitation"

-- `email_domain`.
unfoldable pub email_domain : String → Option String
unfolding trim to_ascii_lowercase after_last is_empty_str
email_domain untrimmed = elim (after_last (char_at "@" 0) (to_ascii_lowercase (trim untrimmed))) [
  | none ↦ none
  | some domain ↦ if is_empty_str domain then none else some domain
]

-- `email_domain_allowed`.
unfoldable pub email_domain_allowed : String → List String → Bool
unfolding email_domain any eq_ignore_ascii_case trim
email_domain_allowed email [] = true
email_domain_allowed email (a ∷ allowed) = elim (email_domain email) [
  | none ↦ false
  | some domain ↦
      any (λ allowed_domain. eq_ignore_ascii_case (trim allowed_domain) domain) (a ∷ allowed)
]

-- `principal_from_user`.
unfoldable pub principal_from_user : User → String → List String → TokenPrincipal
unfolding bridge_subject display preferred_username_of
principal_from_user user token_idp groups = record {
  user_id = user.id;
  token_subject = bridge_subject user;
  token_idp = token_idp;
  display_name = display user;
  preferred_username = preferred_username_of user;
  groups = groups;
}

-- `not_expired`.
unfoldable pub not_expired : AuthSession → Act World AuthSession
unfolding now_unix i64_leb
not_expired session = do
  now ← now_unix
  if i64_leb session.expires_at now then (λ w. (err auth_session_not_found, w)) else pure session

-- `admin_audit_entry`.
unfoldable pub admin_audit_entry :
    String → String → String → String → String → Act World AdminAuditEntry
unfolding new_uuid now_unix
admin_audit_entry actor action object_type object_id detail = do
  id ← new_uuid
  now ← now_unix
  pure (record {
    id = id;
    actor = actor;
    action = action;
    object_type = object_type;
    object_id = object_id;
    detail = detail;
    created_at = now;
  })

-- `grant_detail`.
unfoldable pub grant_detail : String → String → String → String → String
grant_detail subject_type subject_id repo role = concat (
    "subject_type=" ∷ subject_type ∷ " subject_id=" ∷ subject_id ∷ " repo=" ∷ repo ∷ " role=" ∷ role
    ∷ [])

-- `effective_limit`.
unfoldable pub effective_limit : ℕ → ℕ
effective_limit limit = max limit 1
