-- ===== src/Service/Login.antt =====
-- crates/lore-auth-core/src/service/login.rs: interactive logins and their sessions.
use lore_auth_bridge.Base.{
  String, Bool, true, false, not, ◌&&◌, ◌||◌, ◌==◌, string_eq, nat_eq, pair_eq, if◌then◌else◌, none,
  some, List, [], ◌∷◌, Result, ok, err, CoreError, invalid_argument, not_found,
  auth_session_not_found, unauthenticated, unsupported, Act, pure, raise, lift, guard, map_err,
  ◌>>=◌, ◌>>◌, is_empty_str, concat, Duration, i64_leb,
}
use Prim.Native.String.{char_at}
use lore_auth_bridge.Base.{from_secs, trim_end_matches}
use lore_auth_bridge.Model.{
  ExternalIdentity, User, SignedToken, TokenPrincipal, BrowserSession, default_external_identity,
  default_user, default_signed_token,
}
use lore_auth_bridge.Service.Token.{TokenService, mint_authn}
use lore_auth_bridge.Service.Ports.{
  AccountDirectory, StateStore, IdentityProviderDescriptor, BeginAuthRequest, BeginAuthResult,
  CompleteAuthRequest, IdentityProvider, IdentityProviderRegistry, SystemClock, first_nonzero,
}

pub record LoginConfig : Type 0 where
  pub public_base_url : String
  pub session_ttl : Duration
  pub auth_session_ttl : Duration

pub record LoginService (W : Type 0) : Type 0 where
  pub cfg : LoginConfig
  pub idps : IdentityProviderRegistry W
  pub users : AccountDirectory W
  pub state : StateStore W
  pub tokens : TokenService W
  pub clock : SystemClock W

pub record StartAuthSessionResult : Type 0 where
  pub session_code : String
  pub login_url : String

pub record AuthSessionTokenResult : Type 0 where
  pub token : SignedToken
  pub user : User
  pub ready : Bool

abbrev pub default_session_token_result : AuthSessionTokenResult
default_session_token_result = record {
  token = default_signed_token;
  user = default_user;
  ready = false;
}

pub record OAuthCallbackResult : Type 0 where
  pub identity : ExternalIdentity
  pub user : User
  pub browser_session : BrowserSession
  pub unknown_user : Bool
  pub cli_complete : Bool

abbrev pub default_browser_session : BrowserSession
default_browser_session = record { id = ""; user_id = ""; expires_at = 0 }

abbrev pub default_callback_result : OAuthCallbackResult
default_callback_result = record {
  identity = default_external_identity;
  user = default_user;
  browser_session = default_browser_session;
  unknown_user = false;
  cli_complete = false;
}

-- `normalize_identity`: the provider's id and issuer are filled in, and must fit.
unfoldable pub normalize_identity :
    ExternalIdentity → IdentityProviderDescriptor → Result ExternalIdentity
unfolding is_empty_str
normalize_identity identity descriptor =
    let provider_id =
      if is_empty_str identity.provider_id then descriptor.id else identity.provider_id in
    let issuer = if is_empty_str identity.issuer then descriptor.issuer else identity.issuer in
    if not (provider_id == descriptor.id)
    then err unauthenticated
    else if not (is_empty_str descriptor.issuer) && not (issuer == descriptor.issuer)
    then err unauthenticated
    else ok (record identity { provider_id = provider_id; issuer = issuer })

-- `user_from_principal`.
unfoldable pub user_from_principal : TokenPrincipal → User
user_from_principal principal = record {
  id = principal.user_id;
  email = principal.preferred_username;
  display_name = principal.display_name;
  status = "active";
  last_login_at = 0;
}

-- The function `auth_session_not_found`.
unfoldable pub session_error : CoreError → CoreError
session_error not_found = auth_session_not_found
session_error other = other

-- The errors after which a callback goes on without the session of its nonce.
unfoldable pub is_missing_session : CoreError → Bool
is_missing_session not_found = true
is_missing_session auth_session_not_found = true
is_missing_session other = false

-- `match` on a method's result.
abbrev pub try_ : {W A : Type 0} → Act W A → Act W (Result A)
try_ m w = let (r, w') = m w in (ok r, w')

module _ {W : Type 0} (service : LoginService W) where
  open service use {cfg, idps, users, state, tokens, clock}

  -- `identity_provider`: the provider, and its descriptor with the id filled in.
  unfoldable pub identity_provider :
      String → Result (IdentityProvider W × IdentityProviderDescriptor)
  unfolding is_empty_str
  identity_provider given =
      let provider_id = if is_empty_str given then idps.default_id else given in
      if is_empty_str provider_id then err unsupported else elim (idps.lookup provider_id) [
        | none ↦ err not_found
        | some provider ↦
            let d = provider.descriptor in
            ok (provider, record d { id = if is_empty_str d.id then provider_id else d.id })
      ]

  unfoldable pub begin_auth : String → BeginAuthRequest → Act W BeginAuthResult
  unfolding identity_provider
  begin_auth provider_id req = do
    found ← lift (identity_provider provider_id)
    found.0.begin_auth req

  unfoldable pub auth_code_url : String → Act W String
  unfolding begin_auth
  auth_code_url state_value = do
    begun ←
        begin_auth ""
          (record { state = state_value; nonce = ""; redirect_url = ""; login_hint = "" })
    pure begun.redirect_url

  unfoldable pub providers : List IdentityProviderDescriptor
  providers = idps.list

  unfoldable pub default_provider_id : String
  default_provider_id = idps.default_id

  unfoldable pub has_provider : String → Bool
  unfolding is_empty_str
  has_provider given =
      let provider_id = if is_empty_str given then idps.default_id else given in
      not (is_empty_str provider_id)
      && elim (idps.lookup provider_id) [ none ↦ false | some _ ↦ true ]

  unfoldable pub start_auth_session : String → Act W StartAuthSessionResult
  unfolding first_nonzero trim_end_matches
  start_auth_session client_state = do
    let ttl = first_nonzero (cfg.auth_session_ttl ∷ cfg.session_ttl ∷ from_secs 600 ∷ [])
    made ← state.create_auth_session client_state ttl
    pure (record {
      session_code = made.0;
      login_url = concat (
          trim_end_matches (char_at "/" 0) cfg.public_base_url
          ∷ "/login/session/"
          ∷ made.1.login_url_nonce
          ∷ []);
    })

  unfoldable pub get_auth_session : String → String → Act W AuthSessionTokenResult
  unfolding session_error i64_leb is_empty_str mint_authn
  get_auth_session session_code client_state = do
    session ← map_err (state.get_auth_session_by_code session_code) session_error
    now ← clock.now_unix
    guard (not (i64_leb session.expires_at now)) auth_session_not_found
    matches ← state.match_client_state session client_state
    guard matches (invalid_argument "client_state mismatch")
    if not (session.status == "completed") || is_empty_str session.user_id
        then pure default_session_token_result
        else (do
          minted ← mint_authn tokens session.user_id none
          state.consume_auth_session session.id
          pure (record { token = minted.0; user = minted.1; ready = true }))

  -- The end of `complete_auth` where no session of the command line waits.
  unfoldable pub open_browser_session : ExternalIdentity → User → Act W OAuthCallbackResult
  unfolding first_nonzero
  open_browser_session identity user = do
    browser_session ←
        state.create_browser_session user.id (first_nonzero (cfg.session_ttl ∷ from_secs 3600 ∷ []))
    pure (record default_callback_result {
      identity = identity;
      user = user;
      browser_session = browser_session;
    })

  -- The end of `complete_auth`, once the user is known.
  unfoldable pub finish_login : ExternalIdentity → User → String → Act W OAuthCallbackResult
  unfolding is_empty_str is_missing_session open_browser_session
  finish_login identity user login_nonce =
      if is_empty_str login_nonce then open_browser_session identity user else (do
        session ← try_ (state.get_auth_session_by_nonce login_nonce)
        elim session [
          | ok auth_session ↦ (do
            state.complete_auth_session auth_session.id user.id
            pure (record default_callback_result {
              identity = identity;
              user = user;
              cli_complete = true;
            }))
          | err e ↦ if is_missing_session e then open_browser_session identity user else raise e
        ])

  unfoldable pub complete_auth : String → CompleteAuthRequest → String → Act W OAuthCallbackResult
  unfolding identity_provider normalize_identity user_from_principal finish_login
  complete_auth provider_id req login_nonce = do
    found ← lift (identity_provider provider_id)
    claimed ← map_err (found.0.complete_auth req) (λ _. unauthenticated)
    identity ← lift (normalize_identity claimed found.1)
    resolved ←
        try_ (users.resolve_login (record { identity = identity; policy = found.1.trust_policy }))
    elim resolved [
      | ok login ↦ finish_login identity (user_from_principal login.0) login_nonce
      | err not_found ↦
          pure (record default_callback_result { identity = identity; unknown_user = true })
      | err e ↦ raise e
    ]

  unfoldable pub complete_oauth_callback : String → String → Act W OAuthCallbackResult
  unfolding complete_auth
  complete_oauth_callback code login_nonce =
      complete_auth ""
        (record {
          code = code;
          state = "";
          nonce = "";
          redirect_url = "";
          params = [];
          private_state = [];
        })
        login_nonce
