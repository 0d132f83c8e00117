-- ===== src/Service/Token/Exchange.antt =====
-- What a token exchange of service/token.rs takes and gives, over the in-memory store.
use lore_auth_bridge.Base.{
  String, ◌≡◌, inl, inr, refl, ap, ◌∙◌, sym, true, false, string_eq, Option, none, some, List, [],
  ◌∷◌, Result, ok, err, CoreError, Act, continue, map_err, token_issue_failed, ◌>>=◌,
  get-insert_self, get, In, arith, Bool-cases, is_empty_str, Duration, unauthenticated,
  invalid_argument, is_empty,
}
use lore_auth_bridge.Model.{
  ResourcePermission, VerifiedAuthn, SignedToken, IssuedToken, AuthzTokenInput,
}
use lore_auth_bridge.Memory.State.{World, now_unix}
use lore_auth_bridge.Memory.Tokens.{record_issued, sign_authz}
use lore_auth_bridge.Service.Token.{
  TokenConfig, authorize_resources, exchange_authz, record_token, ttl_or,
}
use lore_auth_bridge.Service.Wiring.{memory_tokens}
use lore_auth_bridge.Service.Token.Authorize.{MayWrite, IsRefusal, authorize-cases}

-- The store's own log has the token under its id, as issued to the user.
abbrev pub IsIssued : World → SignedToken → String → Type 0
IsIssued v signed user_id =
    (t : IssuedToken) × (get v.state.issued_tokens signed.jti ≡ some t)
    × (t.user_id ≡ user_id)
    × (t.kind ≡ "authz")

-- A method that succeeds goes on.
bind-ok :
    {A B : Type 0} (m : Act World A) (f : A → Act World B) (w : World) (a : A) (u : World)
    → m w ≡ (ok a, u)
    → (m >>= f) w ≡ f a u
bind-ok m f w a u e = ap (λ (t : Result _ × World). continue t.0 f t.1) e

map_err-ok :
    {A : Type 0} (m : Act World A) (f : CoreError → CoreError) (w : World) (a : A) (u : World)
    → m w ≡ (ok a, u)
    → map_err m f w ≡ (ok a, u)
map_err-ok m f w a u e = rw e refl

-- What `exchange_authz` has signed.
abbrev pub request :
    TokenConfig → VerifiedAuthn → Option Duration → List ResourcePermission → AuthzTokenInput
request cfg authn ttl out = record {
  issuer = cfg.issuer;
  audience = cfg.audience;
  subject = authn.principal.token_subject;
  name = authn.principal.display_name;
  preferred_username = authn.principal.preferred_username;
  groups = authn.principal.groups;
  idp = authn.principal.token_idp;
  resources = out;
  ttl = ttl_or ttl cfg.authz_ttl;
  now = none;
  jti = "";
}

sign_authz-total :
    (cfg : TokenConfig) (authn : VerifiedAuthn) (ttl : Option Duration)
    (out : List ResourcePermission) (w : World)
    → (signed : SignedToken) × (v : World) × (sign_authz (request cfg authn ttl out) w
        ≡ (ok signed, v))
unfolding sign_authz now_unix
sign_authz-total cfg authn ttl out w = (_, _, refl)

record_token-eq :
    (cfg : TokenConfig) (signed : SignedToken) (user_id : String) (w : World)
    → (v : World) × (record_token (memory_tokens cfg) signed user_id "authz" "authz" w ≡ (ok tt, v))
      × IsIssued v signed user_id
unfolding record_token record_issued
record_token-eq cfg signed user_id w =
    (_, refl, (_, get-insert_self w.state.issued_tokens signed.jti _, refl, refl))

module _ (cfg : TokenConfig) (authn : VerifiedAuthn) (ids : List String) (ttl : Option Duration)
    (w : World) where
  exchange-no_user :
      is_empty_str authn.principal.user_id ≡ true
      → (exchange_authz (memory_tokens cfg) authn ids ttl w).0 ≡ err unauthenticated
  unfolding exchange_authz
  exchange-no_user e = ground (arith, e)

  exchange-no_ids :
      is_empty_str authn.principal.user_id ≡ false
      → is_empty ids ≡ true
      → (exchange_authz (memory_tokens cfg) authn ids ttl w).0
        ≡ err (invalid_argument "resource_id is required")
  unfolding exchange_authz
  exchange-no_ids e f = ground (arith, e, f)

  exchange-err :
      (x : CoreError)
      → is_empty_str authn.principal.user_id ≡ false
      → is_empty ids ≡ false
      → authorize_resources (memory_tokens cfg) authn.principal.user_id ids w ≡ (err x, w)
      → (exchange_authz (memory_tokens cfg) authn ids ttl w).0 ≡ err x
  unfolding exchange_authz
  exchange-err x e f q = ground (arith, e, f, q)

  exchange-signs :
      (out : List ResourcePermission) (signed : SignedToken) (u v : World)
      → is_empty_str authn.principal.user_id ≡ false
      → is_empty ids ≡ false
      → authorize_resources (memory_tokens cfg) authn.principal.user_id ids w ≡ (ok out, w)
      → sign_authz (request cfg authn ttl out) w ≡ (ok signed, u)
      → record_token (memory_tokens cfg) signed authn.principal.user_id "authz" "authz" u
        ≡ (ok tt, v)
      → exchange_authz (memory_tokens cfg) authn ids ttl w ≡ (ok signed, v)
  unfolding exchange_authz ttl_or
  exchange-signs out signed u v e f q g h =
      rw (e, f, q)
        (bind-ok (map_err (sign_authz (request cfg authn ttl out)) (λ _. token_issue_failed)) _ w
            signed u (map_err-ok (sign_authz (request cfg authn ttl out)) _ w signed u g)
          ∙ bind-ok
              (record_token (memory_tokens cfg) signed authn.principal.user_id "authz" "authz") _ u
              tt v h)

  exchange-ok :
      (out : List ResourcePermission)
      → is_empty_str authn.principal.user_id ≡ false
      → is_empty ids ≡ false
      → authorize_resources (memory_tokens cfg) authn.principal.user_id ids w ≡ (ok out, w)
      → (signed : SignedToken) × (v : World) × (exchange_authz (memory_tokens cfg) authn ids ttl w
          ≡ (ok signed, v))
        × IsIssued v signed authn.principal.user_id
  exchange-ok out e f q =
      let (signed, u, g) = sign_authz-total cfg authn ttl out w in
      let (v, h, i) = record_token-eq cfg signed authn.principal.user_id u in
      (signed, v, exchange-signs out signed u v e f q g h, i)

-- A token exchange over the in-memory store that succeeds was asked for by a user and for at least one
-- resource, and each of the resources asked for exists and is one that the user may write, by the grants
-- at that moment.
pub exchange_authz_sound :
    (cfg : TokenConfig) (authn : VerifiedAuthn) (ids : List String) (ttl : Option Duration)
    (w v : World) (signed : SignedToken)
    → exchange_authz (memory_tokens cfg) authn ids ttl w ≡ (ok signed, v)
    → (is_empty_str authn.principal.user_id ≡ false)
      × (is_empty ids ≡ false)
      × ((id : String) → In id ids → MayWrite w authn.principal.user_id id)
exchange_authz_sound cfg authn ids ttl w v signed h =
    elim (Bool-cases (is_empty_str authn.principal.user_id)) [
      | inl e ↦ absurd (failed unauthenticated (exchange-no_user cfg authn ids ttl w e))
      | inr e ↦ elim (Bool-cases (is_empty ids)) [
        | inl f ↦ absurd (
            failed (invalid_argument "resource_id is required")
              (exchange-no_ids cfg authn ids ttl w e f))
        | inr f ↦ elim (authorize-cases cfg authn.principal.user_id ids w) [
          | inl (out, q, all) ↦ (e, f, all)
          | inr (x, q, _, _) ↦ absurd (failed x (exchange-err cfg authn ids ttl w x e f q))
        ]
      ]
    ]
  where
    failed : (x : CoreError) → (exchange_authz (memory_tokens cfg) authn ids ttl w).0 ≡ err x → ⊥
    failed x q = cc (sym q ∙ ap (λ (t : Result SignedToken × World). t.0) h)

-- Over the in-memory store an exchange that is asked for by a user, for at least one resource, succeeds
-- where the user may write all of them, and the token is then in the log, under its id, as one issued to
-- that user.
pub exchange_authz_complete :
    (cfg : TokenConfig) (authn : VerifiedAuthn) (ids : List String) (ttl : Option Duration)
    (w : World)
    → is_empty_str authn.principal.user_id ≡ false
    → is_empty ids ≡ false
    → ((id : String) → In id ids → MayWrite w authn.principal.user_id id)
    → (signed : SignedToken) × (v : World) × (exchange_authz (memory_tokens cfg) authn ids ttl w
        ≡ (ok signed, v))
      × IsIssued v signed authn.principal.user_id
exchange_authz_complete cfg authn ids ttl w e f may =
    elim (authorize-cases cfg authn.principal.user_id ids w) [
      | inl (out, q, all) ↦ exchange-ok cfg authn ids ttl w out e f q
      | inr (x, q, _, (id, i, refused)) ↦ absurd (refused (may id i))
    ]

some_id : (ids : List String) (id : String) → In id ids → is_empty ids ≡ false
some_id [] id i = absurd i
some_id (x ∷ ids) id i = refl

-- A resource that the user may not write, or that is missing, makes the exchange fail with one of two
-- errors.
pub exchange_authz_refused :
    (cfg : TokenConfig) (authn : VerifiedAuthn) (ids : List String) (ttl : Option Duration)
    (w : World) (id : String)
    → is_empty_str authn.principal.user_id ≡ false
    → In id ids
    → ¬ MayWrite w authn.principal.user_id id
    → (e : CoreError) × ((exchange_authz (memory_tokens cfg) authn ids ttl w).0 ≡ err e)
      × IsRefusal e
exchange_authz_refused cfg authn ids ttl w id e i refused =
    elim (authorize-cases cfg authn.principal.user_id ids w) [
      | inl (out, q, all) ↦ absurd (refused (all id i))
      | inr (x, q, k, _) ↦ (x, exchange-err cfg authn ids ttl w x e (some_id ids id i) q, k)
    ]
