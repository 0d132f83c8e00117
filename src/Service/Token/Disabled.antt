-- ===== src/Service/Token/Disabled.antt =====
-- What memory/accounts.rs takes away from a user who is disabled, as service/token.rs meets it.
use lore_auth_bridge.Base.{
  String, ◌≡◌, subst, CoreError, refl, sym, ap, ◌∙◌, inl, inr, string_eq, ◌==◌, false, Option, none,
  some, Option-cases, Result, Result-cases, ok, err, permission_denied, not_found, Duration, get,
  get-insert_self, arith, Bool-cases, is_empty_str, if◌then◌else◌, ◌||◌, [], ◌∷◌, invalid_argument,
  concat,
}
use lore_auth_bridge.Model.{User, IssuedToken}
use lore_auth_bridge.Memory.State.{World}
use lore_auth_bridge.Memory.Helpers.{resolve_user_id, active_user}
use lore_auth_bridge.Memory.Accounts.{
  disable_user, put_user, principal_by_user_id, principal_by_authn_token_jti,
}
use lore_auth_bridge.Service.Token.{TokenConfig, mint_authn, manual_mint_authz}
use lore_auth_bridge.Service.Wiring.{memory_tokens}

-- What a user who is disabled is told: whether the role asked for is one that is issued comes first.
abbrev pub manual_refusal : (String → String) → String → CoreError
manual_refusal debug_str role =
    if is_empty_str role || role == "writer"
    then permission_denied
    else invalid_argument (concat ("MVP only issues writer tokens; got " ∷ debug_str role ∷ []))

-- The user stands in the store as disabled.
abbrev pub IsDisabled : World → String → Type 0
IsDisabled w id = (u : User) × (get w.state.users id ≡ some u) × (u.status ≡ "disabled")

disable-no_user :
    (name : String) (w : World) (e : CoreError)
    → resolve_user_id w.state name ≡ err e
    → disable_user name w ≡ (err e, w)
unfolding disable_user
disable-no_user name w e q = ground (arith, q)

disable-no_record :
    (name id : String) (w : World)
    → resolve_user_id w.state name ≡ ok id
    → get w.state.users id ≡ none
    → disable_user name w ≡ (err not_found, w)
unfolding disable_user
disable-no_record name id w q n = ground (arith, q, n)

disable-found :
    (name id : String) (u : User) (w : World)
    → resolve_user_id w.state name ≡ ok id
    → get w.state.users id ≡ some u
    → disable_user name w
      ≡ (ok tt, record w { state = put_user w.state id (record u { status = "disabled" }) })
unfolding disable_user
disable-found name id u w q n = ground (arith, q, n)

put_user-get : (w : World) (id : String) (u : User) → get (put_user w.state id u).users id ≡ some u
unfolding put_user
put_user-get w id u = get-insert_self w.state.users id u

disable_user-IsDisabled :
    (name : String) (w v : World)
    → disable_user name w ≡ (ok tt, v)
    → (id : String) × (resolve_user_id w.state name ≡ ok id) × IsDisabled v id
disable_user-IsDisabled name w v h = elim (Result-cases (resolve_user_id w.state name)) [
  | inr (e, q) ↦ cc (disable-no_user name w e q, h)
  | inl (id, q) ↦ elim (Option-cases (get w.state.users id)) [
    | inl n ↦ cc (disable-no_record name id w q n, h)
    | inr (u, n) ↦
        let after =
          ap (λ (t : Result (Unit {0}) × World). t.1) (sym (disable-found name id u w q n) ∙ h) in
        (
          id,
          q,
          subst (λ (t : World). IsDisabled t id) after
              (
                record u { status = "disabled" },
                put_user-get w id (record u { status = "disabled" }),
                refl,
              ),
        )
  ]
]

active_user-refused :
    (w : World) (id : String) → IsDisabled w id → active_user w.state id ≡ err permission_denied
unfolding active_user
active_user-refused w id (u, e, d) =
    let off : (u.status == "active") ≡ false = rw d refl in ground (arith, e, off)

module _ (id : String) (w : World) (d : IsDisabled w id) where
  jti-refused :
      (jti : String) (t : IssuedToken)
      → get w.state.issued_tokens jti ≡ some t
      → t.user_id ≡ id
      → (principal_by_authn_token_jti jti w).0 ≡ err not_found
  unfolding principal_by_authn_token_jti
  jti-refused jti t e q =
      let off : (d.0.status == "active") ≡ false = rw d.2 refl in
      let found : get w.state.users t.user_id ≡ some d.0 = rw q d.1 in ground (arith, e, off, found)

module _ (cfg : TokenConfig) (id : String) (w : World) (d : IsDisabled w id) where
  principal-refused : principal_by_user_id id w ≡ (err permission_denied, w)
  unfolding principal_by_user_id
  principal-refused = ground (arith, active_user-refused w id d)

  mint-refused :
      (ttl : Option Duration) → mint_authn (memory_tokens cfg) id ttl w ≡ (err permission_denied, w)
  unfolding mint_authn
  mint-refused ttl = ground (arith, principal-refused)

  manual_mint-refused :
      (debug_str : String → String) (repo role : String) (ttl : Option Duration)
      → manual_mint_authz (memory_tokens cfg) debug_str id repo role ttl w
        ≡ (err (manual_refusal debug_str role), w)
  unfolding manual_mint_authz
  manual_mint-refused debug_str repo role ttl = elim (Bool-cases (is_empty_str role)) [
    | inl e ↦ rw e (ground (arith, e, principal-refused))
    | inr e ↦ elim (Bool-cases (role == "writer")) [
      | inl k ↦ ground (arith, e, k, principal-refused)
      | inr k ↦ ground (arith, e, k)
    ]
  ]

-- Once `disable_user` succeeds, the user whom the name stood for stands in the store as disabled, and
-- is refused both kinds of token, with nothing changed: `mint_authn` answers `PermissionDenied`, and
-- `manual_mint_authz` answers it where no role or the writer's is asked for, and `InvalidArgument` with
-- the role in its message where another is.
pub no_mint_after_disable :
    (cfg : TokenConfig) (debug_str : String → String) (name repo role : String)
    (ttl : Option Duration) (w v : World)
    → disable_user name w ≡ (ok tt, v)
    → (id : String) × (resolve_user_id w.state name ≡ ok id)
      × IsDisabled v id
      × (mint_authn (memory_tokens cfg) id ttl v ≡ (err permission_denied, v))
      × (manual_mint_authz (memory_tokens cfg) debug_str id repo role ttl v
          ≡ (err (manual_refusal debug_str role), v))
no_mint_after_disable cfg debug_str name repo role ttl w v h =
    let (id, q, d) = disable_user-IsDisabled name w v h in
    (id, q, d, mint-refused cfg id v d ttl, manual_mint-refused cfg id v d debug_str repo role ttl)

-- Once `disable_user` succeeds, `principal_by_authn_token_jti` answers `NotFound` for each token that was
-- issued to the user whom the name stood for.
pub no_principal_after_disable :
    (name id jti : String) (t : IssuedToken) (w v : World)
    → disable_user name w ≡ (ok tt, v)
    → resolve_user_id w.state name ≡ ok id
    → get v.state.issued_tokens jti ≡ some t
    → t.user_id ≡ id
    → (principal_by_authn_token_jti jti v).0 ≡ err not_found
no_principal_after_disable name id jti t w v h r e q =
    let (id', r', d) = disable_user-IsDisabled name w v h in
    jti-refused id' v d jti t e (q ∙ ok_inj (sym r ∙ r'))
  where
    ok_inj : {a b : String} → ◌≡◌ {A = Result String} (ok a) (ok b) → a ≡ b
    ok_inj k = cc k
