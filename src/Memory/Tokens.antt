-- ===== src/Memory/Tokens.antt =====
-- crates/lore-auth-adapters/src/memory/tokens.rs: the store as token signer and as log.
use lore_auth_bridge.Base.{
  ℕ, String, string_eq, nat_eq, pair_eq, none, some, List, [], ◌∷◌, ◌++◌, unauthenticated,
  unsupported, Act, pure, raise, lift, ok_or, ◌>>=◌, ◌>>◌, get, insert, strip_prefix, concat,
  i64_add,
}
use lore_auth_bridge.Model.{
  AuthnTokenInput, AuthzTokenInput, SignedToken, VerifiedToken, VerifyOptions, IssuedToken,
  AdminAuditEntry, SigningKeyMeta, ResourcePermission, Permission, default_signed_token,
}
use lore_auth_bridge.Memory.State.{
  World, new_uuid, unix_or_now, seconds_or_default, ensure_jti, get_state, put_state,
}

unfoldable pub sign_authn : AuthnTokenInput → Act World SignedToken
unfolding ensure_jti unix_or_now seconds_or_default i64_add new_uuid insert
sign_authn input = do
  jti ← ensure_jti input.jti
  issued_at ← unix_or_now input.now
  let expires_at = i64_add issued_at (seconds_or_default input.ttl 3600)
  nonce ← new_uuid
  let token = concat ("authn:" ∷ input.subject ∷ ":" ∷ nonce ∷ [])
  state ← get_state
  put_state (record state {
    tokens = insert state.tokens token (record {
      subject = input.subject;
      jti = jti;
      idp = input.idp;
      expires_at = expires_at;
      audience = input.audience;
      raw_claims = [];
    });
  })
  pure (record default_signed_token {
    token = token;
    jti = jti;
    kid = "memory";
    issued_at = issued_at;
    expires_at = expires_at;
    audience = input.audience;
  })

-- `resources.first()`: the resource id and the permissions of the first, or the defaults.
unfoldable pub first_resource : List ResourcePermission → String × List Permission
first_resource [] = ("", [])
first_resource (resource ∷ rest) = (resource.resource_id, resource.permission)

unfoldable pub sign_authz : AuthzTokenInput → Act World SignedToken
unfolding ensure_jti unix_or_now seconds_or_default i64_add new_uuid first_resource
sign_authz input = do
  jti ← ensure_jti input.jti
  issued_at ← unix_or_now input.now
  let expires_at = i64_add issued_at (seconds_or_default input.ttl 900)
  nonce ← new_uuid
  let first = first_resource input.resources
  pure (record {
    token = concat ("authz:" ∷ input.subject ∷ ":" ∷ nonce ∷ []);
    jti = jti;
    kid = "memory";
    lore_resource_id = first.0;
    issued_at = issued_at;
    expires_at = expires_at;
    permissions = first.1;
    audience = input.audience;
  })

-- The options are not read.
unfoldable pub verify : String → VerifyOptions → Act World VerifiedToken
unfolding strip_prefix get
verify compact _opts = do
  state ← get_state
  lift (
      ok_or
        (get state.tokens (elim (strip_prefix "Bearer " compact) [ none ↦ compact | some t ↦ t ]))
        unauthenticated)

-- `IssuedTokenLog::record`.
unfoldable pub record_issued : IssuedToken → Act World (Unit {0})
unfolding insert
record_issued token = do
  state ← get_state
  put_state (record state { issued_tokens = insert state.issued_tokens token.jti token })

-- `AdminAuditLog::record`.
unfoldable pub record_audit : AdminAuditEntry → Act World (Unit {0})
record_audit entry = do
  state ← get_state
  put_state (record state { admin_audit = state.admin_audit ++ entry ∷ [] })

-- `SigningKeyAdmin`.
unfoldable pub generate_active_key : String → String → ℕ → Act World SigningKeyMeta
generate_active_key _kid _alg _bits = raise unsupported

unfoldable pub list_keys : Act World (List SigningKeyMeta)
list_keys = pure []
