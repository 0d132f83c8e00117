-- ===== src/Memory/Accounts.antt =====
-- crates/lore-auth-adapters/src/memory/accounts.rs: users, invitations and the resolution of logins.
use lore_auth_bridge.Base.{
  ℕ, String, Bool, not, ◌&&◌, ◌||◌, ◌==◌, string_eq, nat_eq, pair_eq, if◌then◌else◌, Option, none,
  some, List, Result, ok, err, invalid_argument, not_found, Act, pure, raise, lift, guard, ok_or,
  ◌>>=◌, ◌>>◌, get, insert, update, get_or_empty, values, keep, find, sort_by, take, is_empty_str,
  trim, i64_leb, to_ascii_lowercase, eq_ignore_ascii_case, contains_str,
}
use lore_auth_bridge.Model.{
  User, ExternalIdentity, IdentityInvitation, LoginResolutionRequest, LoginBindingResult,
  TokenPrincipal, AddUserInput, AddInvitationInput, UserListFilter, normalize_email,
  default_identity_invitation,
}
use lore_auth_bridge.Memory.State.{State, World, new_uuid, now_unix, get_state, put_state}
use lore_auth_bridge.Memory.Helpers.{
  active_user, resolve_user_id, principal_from_user, external_identity_key,
  allows_verified_email_invitation_binding, email_domain_allowed, validated_account_email,
  effective_limit,
}
use lore_auth_bridge.Memory.Groups.{user_leb}

-- The test of the invitations in `resolve_login`.
unfoldable pub invites : ExternalIdentity → ℕ → IdentityInvitation → Bool
unfolding i64_leb trim eq_ignore_ascii_case
invites identity now invitation =
    invitation.provider_id == identity.provider_id
    && invitation.issuer == identity.issuer
    && invitation.status == "pending"
    && (invitation.expires_at == 0 || not (i64_leb invitation.expires_at now))
    && trim invitation.binding_policy == "verified_email_invitation"
    && eq_ignore_ascii_case (trim invitation.email) (trim identity.email)

-- The first half: an active identity under the key.
unfoldable pub existing_identity : State → String → Option ExternalIdentity
unfolding get
existing_identity state key = elim (get state.identities key) [
  | none ↦ none
  | some existing ↦ if existing.status == "active" then some existing else none
]

unfoldable pub login_existing :
    State → ExternalIdentity → ExternalIdentity → Result (TokenPrincipal × LoginBindingResult)
unfolding active_user principal_from_user get_or_empty
login_existing state identity existing = elim (active_user state existing.user_id) [
  | err e ↦ err e
  | ok user ↦ ok (
    principal_from_user user identity.provider_id
        (get_or_empty state.group_members existing.user_id),
    record { status = "existing"; external_identity_id = existing.id; invitation_id = "" },
  )
]

-- Whether the identity may be bound by an invitation at all.
unfoldable pub may_bind : LoginResolutionRequest → Bool
unfolding is_empty_str trim allows_verified_email_invitation_binding email_domain_allowed
may_bind req =
    req.identity.email_verified
    && not (is_empty_str (trim req.identity.email))
    && allows_verified_email_invitation_binding req.policy
    && email_domain_allowed req.identity.email req.policy.allowed_email_domains

-- The second half: the identity is stored, then the user made active, then the invitation taken.
unfoldable pub bind_invitation :
    ExternalIdentity
    → String
    → String
    → IdentityInvitation
    → Act World (TokenPrincipal × LoginBindingResult)
unfolding new_uuid is_empty_str insert get update active_user principal_from_user get_or_empty
bind_invitation identity key invitation_id invitation = do
  id ← new_uuid
  state ← get_state
  let external : ExternalIdentity = record identity {
    id = id;
    user_id = invitation.user_id;
    subject_strategy =
        if is_empty_str identity.subject_strategy then "oidc_sub" else identity.subject_strategy;
    status = "active";
  }
  put_state (record state { identities = insert state.identities key external })
  user ← lift (ok_or (get state.users invitation.user_id) not_found)
  let bound : User = record user {
    email = identity.email;
    display_name = identity.display_name;
    status = "active";
  }
  let accept =
      λ (i : IdentityInvitation). record i { status = "accepted"; accepted_identity_id = id }
  put_state (record state {
    identities = insert state.identities key external;
    users = insert state.users invitation.user_id bound;
    invitations = update state.invitations invitation_id accept;
  })
  state' ← get_state
  active ← lift (active_user state' invitation.user_id)
  pure (
    principal_from_user active identity.provider_id
        (get_or_empty state'.group_members invitation.user_id),
    record {
      status = "bound_invitation";
      external_identity_id = id;
      invitation_id = invitation_id;
    },
  )

unfoldable pub resolve_login :
    LoginResolutionRequest → Act World (TokenPrincipal × LoginBindingResult)
unfolding external_identity_key existing_identity login_existing may_bind now_unix find invites
    bind_invitation
resolve_login req = do
  let key = external_identity_key req.identity
  state ← get_state
  elim (existing_identity state key) [
    | some existing ↦ lift (login_existing state req.identity existing)
    | none ↦
        if may_bind req
        then (do
          now ← now_unix
          elim (find (λ (e : String × IdentityInvitation). invites req.identity now e.1)
              state.invitations) [
                | none ↦ raise not_found
                | some (invitation_id, invitation) ↦
                    bind_invitation req.identity key invitation_id invitation
              ])
        else raise not_found
  ]

unfoldable pub principal_by_user_id : String → Act World TokenPrincipal
unfolding active_user principal_from_user get_or_empty
principal_by_user_id user_id = do
  state ← get_state
  user ← lift (active_user state user_id)
  pure (principal_from_user user "bridge" (get_or_empty state.group_members user_id))

unfoldable pub principal_by_authn_token_jti : String → Act World TokenPrincipal
unfolding get now_unix i64_leb is_empty_str principal_from_user get_or_empty
principal_by_authn_token_jti jti = do
  state ← get_state
  issued ← lift (ok_or (get state.issued_tokens jti) not_found)
  now ← now_unix
  guard
      (issued.kind == "authn"
        && not (i64_leb issued.expires_at now)
        && not (is_empty_str issued.user_id))
      not_found
  user ← lift (ok_or (get state.users issued.user_id) not_found)
  guard (user.status == "active") not_found
  pure (principal_from_user user "bridge" (get_or_empty state.group_members issued.user_id))

unfoldable pub put_user : State → String → User → State
unfolding insert
put_user state id user = record state { users = insert state.users id user }

unfoldable pub add_user : AddUserInput → Act World User
unfolding validated_account_email new_uuid put_user
add_user input = do
  email ← lift (validated_account_email input.email)
  id ← new_uuid
  state ← get_state
  let user : User = record {
    id = id;
    email = email;
    display_name = input.display_name;
    status = "active";
    last_login_at = 0;
  }
  put_state (put_user state id user)
  pure user

-- The two records that `add_invitation` makes.
unfoldable pub invitation_records :
    AddInvitationInput → String → String → String → User × IdentityInvitation
unfolding is_empty_str trim
invitation_records input email user_id invitation_id = (
  record {
    id = user_id;
    email = email;
    display_name = input.display_name;
    status = "pending";
    last_login_at = 0;
  },
  record default_identity_invitation {
    id = invitation_id;
    user_id = user_id;
    provider_id = input.provider_id;
    issuer = input.issuer;
    email = email;
    binding_policy =
        if is_empty_str (trim input.binding_policy)
        then "verified_email_invitation"
        else input.binding_policy;
    status = "pending";
    expires_at = input.expires_at;
  },
)

unfoldable pub add_invitation : AddInvitationInput → Act World (User × IdentityInvitation)
unfolding is_empty_str trim validated_account_email new_uuid invitation_records insert
add_invitation input = do
  guard (not (is_empty_str (trim input.provider_id) || is_empty_str (trim input.issuer)))
      (invalid_argument "provider_id, issuer, and email are required")
  email ← lift (validated_account_email input.email)
  user_id ← new_uuid
  invitation_id ← new_uuid
  let made = invitation_records input email user_id invitation_id
  state ← get_state
  put_state (record state {
    users = insert state.users user_id made.0;
    invitations = insert state.invitations invitation_id made.1;
  })
  pure made

unfoldable pub disable_user : String → Act World (Unit {0})
unfolding resolve_user_id get put_user
disable_user user_id_or_email = do
  state ← get_state
  user_id ← lift (resolve_user_id state user_id_or_email)
  user ← lift (ok_or (get state.users user_id) not_found)
  put_state (put_user state user_id (record user { status = "disabled" }))

unfoldable pub enable_user : String → Act World (Unit {0})
unfolding resolve_user_id get put_user
enable_user user_id_or_email = do
  state ← get_state
  user_id ← lift (resolve_user_id state user_id_or_email)
  user ← lift (ok_or (get state.users user_id) not_found)
  guard (not (user.status == "deleted")) not_found
  put_state (put_user state user_id (record user { status = "active" }))

unfoldable pub user_by_id : String → Act World User
unfolding get
user_by_id user_id = do
  state ← get_state
  user ← lift (ok_or (get state.users user_id) not_found)
  guard (not (user.status == "deleted")) not_found
  pure user

-- The two filters of `list_users`.
unfoldable pub is_listed : String → User → Bool
unfolding is_empty_str normalize_email contains_str to_ascii_lowercase
is_listed query user =
    not (user.status == "deleted")
    && (is_empty_str query
        || contains_str (normalize_email user.email) query
        || contains_str (to_ascii_lowercase user.display_name) query)

unfoldable pub list_users : UserListFilter → Act World (List User)
unfolding trim to_ascii_lowercase effective_limit keep is_listed sort_by user_leb take
list_users filter = do
  state ← get_state
  let query = to_ascii_lowercase (trim filter.query)
  pure (
      take (effective_limit filter.limit)
        (sort_by user_leb (keep (is_listed query) (values state.users))))
