-- ===== src/Service/Device/Keeps.antt =====
-- What a mint of service/token.rs leaves alone in the in-memory store: the devices and
-- the CSRF tokens.
use lore_auth_bridge.Base.{
  String, ◌≡◌, refl, sym, ap, ◌∙◌, Bool, true, false, inl, inr, string_eq, Option, List, [], ◌∷◌,
  Result, ok, err, CoreError, is_empty, is_empty_str, not, unauthenticated, invalid_argument,
  token_issue_failed, permission_denied, Act, guard, pure, map_err, ◌>>=◌, >>=-eq-ok, arith,
  Duration, HashMap,
}
use lore_auth_bridge.Model.{DeviceAuthorization, SignedToken, VerifiedAuthn, AuthzTokenInput}
use lore_auth_bridge.Memory.State.{World, Env, CsrfToken, now_unix}
use lore_auth_bridge.Memory.Accounts.{principal_by_user_id}
use lore_auth_bridge.Memory.Grants.{can_access}
use lore_auth_bridge.Memory.Resources.{get_by_name}
use lore_auth_bridge.Memory.Tokens.{sign_authz, record_issued}
use lore_auth_bridge.Service.Token.{
  TokenConfig, authorize_resources, exchange_authz, manual_mint_authz, record_token, ttl_or,
  user_from_token_principal,
}
use lore_auth_bridge.Service.Token.Authorize.{authorize-cases}
use lore_auth_bridge.Service.Token.Exchange.{request}
use lore_auth_bridge.Service.Wiring.{memory_tokens}

-- The devices and the CSRF tokens, with what their secrets are hashed with.
abbrev pub kept_part : World → HashMap String DeviceAuthorization × HashMap String CsrfToken × Env
kept_part w = (w.state.device_authorizations, w.state.csrf_tokens, w.env)

-- Where a method succeeds, they are what they were.
pub record Keeps {A : Type 0} (m : Act World A) : Type 0 where
  pub kept : (w u : World) (a : A) → m w ≡ (ok a, u) → kept_part u ≡ kept_part w

pub bind-Keeps :
    {A B : Type 0} (m : Act World A) (f : A → Act World B)
    → Keeps m
    → ((a : A) → Keeps (f a))
    → Keeps (m >>= f)
bind-Keeps m f k l = record {
  kept = λ w v b h. let (a, u, p, q) = >>=-eq-ok m f w h in (l a).kept u v b q ∙ k.kept w u a p;
}

-- A method that leaves them alone whatever it answers.
pub always-Keeps :
    {A : Type 0} (m : Act World A) → ((w : World) → kept_part (m w).1 ≡ kept_part w) → Keeps m
always-Keeps m k = record {
  kept = λ w u a h. ap (λ (t : Result _ × World). kept_part t.1) (sym h) ∙ k w;
}

pub guard-Keeps : (b : Bool) (e : CoreError) → Keeps (guard b e)
guard-Keeps true e = always-Keeps (guard true e) (λ w. refl)
guard-Keeps false e = always-Keeps (guard false e) (λ w. refl)

map_err-Keeps :
    {A : Type 0} (m : Act World A) (f : CoreError → CoreError) → Keeps m → Keeps (map_err m f)
map_err-Keeps {A} m f k = record {
  kept = λ w u a h. k.kept w u a (go w u a (m w).0 (m w).1 refl h);
}
  where
    go :
        (w u : World) (a : A) (r : Result A) (v : World)
        → m w ≡ (r, v)
        → ◌≡◌ {A = Result A × World}
            (elim r as (λ _. Result A) [ ok x ↦ ok x | err e ↦ err (f e) ], v)
            (ok a, u)
        → m w ≡ (ok a, u)
    go w u a (ok x) v e q = e ∙ q
    go w u a (err x) v e q = cc

principal-Keeps : (id : String) → Keeps (principal_by_user_id id)
unfolding principal_by_user_id
principal-Keeps id = always-Keeps (principal_by_user_id id) (λ w. ground arith)

get_by_name-Keeps : (name : String) → Keeps (get_by_name name)
unfolding get_by_name
get_by_name-Keeps name = always-Keeps (get_by_name name) (λ w. ground arith)

can_access-Keeps : (u i a : String) → Keeps (can_access u i a)
unfolding can_access
can_access-Keeps u i a = always-Keeps (can_access u i a) (λ w. refl)

sign_authz-Keeps : (input : AuthzTokenInput) → Keeps (sign_authz input)
unfolding sign_authz now_unix
sign_authz-Keeps input = always-Keeps (sign_authz input) (λ w. ground arith)

record_token-Keeps :
    (cfg : TokenConfig) (signed : SignedToken) (id kind role : String)
    → Keeps (record_token (memory_tokens cfg) signed id kind role)
unfolding record_token record_issued
record_token-Keeps cfg signed id kind role =
    always-Keeps (record_token (memory_tokens cfg) signed id kind role) (λ w. refl)

authorize-Keeps :
    (cfg : TokenConfig) (id : String) (ids : List String)
    → Keeps (authorize_resources (memory_tokens cfg) id ids)
authorize-Keeps cfg id ids = always-Keeps (authorize_resources (memory_tokens cfg) id ids) (λ w.
    elim (authorize-cases cfg id ids w) [
      | inl (_, q, _) ↦ ap (λ (t : Result _ × World). kept_part t.1) q
      | inr (_, q, _, _) ↦ ap (λ (t : Result _ × World). kept_part t.1) q
    ])

pub pure-Keeps : {A : Type 0} (a : A) → Keeps (pure {W = World} a)
pure-Keeps a = always-Keeps (pure a) (λ w. refl)

exchange-Keeps :
    (cfg : TokenConfig) (authn : VerifiedAuthn) (ids : List String) (ttl : Option Duration)
    → Keeps (exchange_authz (memory_tokens cfg) authn ids ttl)
unfolding exchange_authz ttl_or
exchange-Keeps cfg authn ids ttl =
    bind-Keeps _ _ (guard-Keeps (not (is_empty_str authn.principal.user_id)) unauthenticated) (λ _.
      bind-Keeps _ _ (guard-Keeps (not (is_empty ids)) (invalid_argument "resource_id is required"))
        (λ _. bind-Keeps _ _ (authorize-Keeps cfg authn.principal.user_id ids) (λ granted.
          bind-Keeps _ _
            (map_err-Keeps (sign_authz (request cfg authn ttl granted)) (λ _. token_issue_failed)
              (sign_authz-Keeps (request cfg authn ttl granted)))
            (λ signed.
              bind-Keeps _ _ (record_token-Keeps cfg signed authn.principal.user_id "authz" "authz")
                (λ _. pure-Keeps signed)))))

pub mint-Keeps :
    (cfg : TokenConfig) (debug_str : String → String) (id repo : String) (ttl : Option Duration)
    → Keeps (manual_mint_authz (memory_tokens cfg) debug_str id repo "writer" ttl)
unfolding manual_mint_authz user_from_token_principal
mint-Keeps cfg debug_str id repo ttl = bind-Keeps _ _ (principal-Keeps id) (λ principal.
    bind-Keeps _ _ (get_by_name-Keeps repo) (λ resource.
      bind-Keeps _ _ (can_access-Keeps principal.user_id resource.resource_id "write") (λ may.
        bind-Keeps _ _ (guard-Keeps may permission_denied) (λ _.
          exchange-Keeps cfg
            (record {
              subject = principal.token_subject;
              principal = principal;
              user = user_from_token_principal principal;
            })
            (resource.resource_id ∷ []) ttl))))
