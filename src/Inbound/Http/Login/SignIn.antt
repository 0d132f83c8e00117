-- ===== src/Inbound/Http/Login/SignIn.antt =====
-- crates/lore-auth-inbound/src/httpserver/login.rs: what stands behind a callback that signs a browser
-- in, over the in-memory store.
use lore_auth_bridge.Base.{
  String, ◌≡◌, ◌∙◌, ◌↔◌, refl, sym, ap, subst, inl, inr, true, false, not, ◌&&◌, ◌==◌, string_eq,
  nat_eq, none, some, ok, i64_leb, CoreError, is_empty_str, arith, Bool-cases, Act, unsupported,
  not_found, permission_denied, unauthenticated,
}
use lore_auth_bridge.Model.{LoginState}
use lore_auth_bridge.Memory.State.{World}
use lore_auth_bridge.Memory.Sessions.{consume_login_state}
use lore_auth_bridge.Memory.Sessions.OneTime
use lore_auth_bridge.Memory.Sessions.OneTime.{consume_login_state_ok, live-consume_login_state}
use lore_auth_bridge.Service.Token.{TokenConfig}
use lore_auth_bridge.Service.Login.{LoginService, OAuthCallbackResult, complete_auth}
use lore_auth_bridge.Inbound.Http.Answers.{
  Response, HttpConfig, text_response, response_with_headers, html_response, redirect_found,
}
use lore_auth_bridge.Inbound.Http.Endpoints.{render_whoami}
use lore_auth_bridge.Inbound.Http.Session.{Headers}
use lore_auth_bridge.Inbound.Http.Tokens.Mint.{Result-cases, memory_app}
use lore_auth_bridge.Inbound.Http.Login.{
  LoginWeb, LoginApp, append_header, query_params, first_param, write_callback_error,
}
use lore_auth_bridge.Inbound.Http.Login.Page.{handle_auth_callback, callback_page}
use lore_auth_bridge.Inbound.Http.Login.Callback.{
  request_of, callback-unknown_state, callback-no_state, callback-other_provider, callback-failed,
  callback-completed,
}

write_callback_error-refuses : (x : CoreError) → ((write_callback_error x).status == 302) ≡ false
unfolding write_callback_error text_response response_with_headers
write_callback_error-refuses unsupported = refl
write_callback_error-refuses not_found = refl
write_callback_error-refuses permission_denied = refl
write_callback_error-refuses unauthenticated = refl
write_callback_error-refuses _ = refl

text_response-other : (t : String) → ((text_response 400 t).status == 302) ≡ false
unfolding text_response response_with_headers
text_response-other t = refl

callback_page_iff :
    {W : Type 0} (web : LoginWeb W) (headers : Headers) (result : OAuthCallbackResult)
    → ((callback_page web headers result).status == 302)
      ≡ (not result.unknown_user && not result.cli_complete)
unfolding callback_page render_whoami html_response response_with_headers redirect_found
    append_header
callback_page_iff web headers result = elim (Bool-cases result.unknown_user) [
  | inl e ↦ ground (arith, e)
  | inr e ↦ elim (Bool-cases result.cli_complete) [
    | inl f ↦ ground (arith, e, f)
    | inr f ↦ ground (arith, e, f)
  ]
]

-- The server over the store.
abbrev pub login_app :
    HttpConfig → TokenConfig → LoginService World → Act World String → LoginApp World
login_app cfg token_cfg service jwks = record {
  app = memory_app cfg token_cfg none;
  login = some service;
  jwks = jwks;
}

module _ (web : LoginWeb World) (cfg : HttpConfig) (token_cfg : TokenConfig)
    (service : LoginService World) (jwks : Act World String) (provider_id raw : String)
    (headers : Headers) (w : World) where
  abbrev app : LoginApp World
  app = login_app cfg token_cfg service jwks

  abbrev asked_state : String
  asked_state = first_param (query_params web raw) "state"

  -- The store holds the state in the query, which has not expired and was made for this provider. It is
  -- taken out, and on the store without it the provider completes, with its nonce and private state, the
  -- login of a known user, for whom no session of the command line waits.
  abbrev pub IsSignedIn : World → Type 0
  IsSignedIn u =
      (login_state : LoginState) × (result : OAuthCallbackResult) × (OneTime.login_state w
          asked_state
        ≡ some login_state)
      × (i64_leb login_state.expires_at (OneTime.time w) ≡ false)
      × (is_empty_str asked_state ≡ false)
      × ((login_state.provider_id == provider_id) ≡ true)
      × (OneTime.login_state (OneTime.taken w asked_state) asked_state ≡ none)
      × (complete_auth service provider_id (request_of web app provider_id raw login_state)
            login_state.login_url_nonce (OneTime.taken w asked_state)
          ≡ (ok result, u))
      × ((not result.unknown_user && not result.cli_complete) ≡ true)

  abbrev pub callback_of : Response × World
  callback_of = handle_auth_callback web app provider_id (some raw) headers w

  abbrev IsFound : Response × World → Type 0
  IsFound answered = (answered.0.status == 302) ≡ true

  refused :
      (answered : Response × World) (t : String) (v : World)
      → answered ≡ (text_response 400 t, v)
      → IsFound answered
      → ⊥
  refused answered t v q h = cc (text_response-other t, subst IsFound q h)

  completed :
      (login_state : LoginState) (v u : World) (result : OAuthCallbackResult)
      → consume_login_state asked_state w ≡ (ok login_state, v)
      → is_empty_str asked_state ≡ false
      → (login_state.provider_id == provider_id) ≡ true
      → complete_auth service provider_id
          (request_of web app provider_id raw login_state)
          login_state.login_url_nonce
          v
        ≡ (ok result, u)
      → callback_of ≡ (callback_page web headers result, u)
  completed login_state v u result q h p c =
      callback-completed web app service provider_id raw headers w refl login_state v u q h p result
        c

  signs_in :
      (login_state : LoginState) (v : World)
      → consume_login_state asked_state w ≡ (ok login_state, v)
      → is_empty_str asked_state ≡ false
      → (login_state.provider_id == provider_id) ≡ true
      → IsFound callback_of
      → IsSignedIn callback_of.1
  signs_in login_state v q h p found =
      let request = request_of web app provider_id raw login_state in
      elim (Result-cases
        (complete_auth service provider_id request login_state.login_url_nonce v)) [
          | inr (e, u, c) ↦ absurd (
              cc (
                write_callback_error-refuses e,
                subst IsFound
                    (callback-failed web app service provider_id raw headers w refl login_state v u
                      q h p e c)
                    found,
              ))
          | inl (result, u, c) ↦
              let e = completed login_state v u result q h p c in
              let (held, live, after) = consume_login_state_ok asked_state w v login_state q in
              (
                login_state,
                result,
                held,
                live,
                h,
                p,
                OneTime.taken-login_state w asked_state,
                subst
                      (λ t.
                        complete_auth service provider_id request login_state.login_url_nonce t
                        ≡ (ok result, u))
                      after c
                    ∙ ap (λ (x : Response × World). (ok result, x.1)) (sym e),
                sym (callback_page_iff web headers result) ∙ subst IsFound e found,
              )
        ]

  -- A callback with a query, at a configured login service over the in-memory store, answers with a
  -- redirect exactly where the state in its query is not empty, the store still holds it and it has not
  -- expired, it was made for the provider of the path, and with its nonce and private state the login
  -- completes for a known user with no session of the command line. That login starts on the store with
  -- the state removed, which then holds it no more, and with the clock read once; the store after the
  -- callback is the one that the login leaves.
  pub callback-IsSignedIn : (callback_of.0.status == 302) ≡ true ↔ IsSignedIn callback_of.1
  callback-IsSignedIn = (forward, backward)
    where
      forward : (callback_of.0.status == 302) ≡ true → IsSignedIn callback_of.1
      forward found = elim (Result-cases (consume_login_state asked_state w)) [
        | inr (e, v, q) ↦ absurd (
            refused callback_of "invalid oauth state" v
              (callback-unknown_state web app service provider_id raw headers w refl e v q) found)
        | inl (login_state, v, q) ↦ elim (Bool-cases (is_empty_str asked_state)) [
          | inl h ↦ absurd (
              refused callback_of "invalid oauth state" v
                (callback-no_state web app service provider_id raw headers w refl login_state v q h)
                found)
          | inr h ↦ elim (Bool-cases (login_state.provider_id == provider_id)) [
            | inl p ↦ signs_in login_state v q h p found
            | inr p ↦ absurd (
                refused callback_of "invalid oauth state" v
                  (callback-other_provider web app service provider_id raw headers w refl
                    login_state v q h p)
                  found)
          ]
        ]
      ]

      backward : IsSignedIn callback_of.1 → (callback_of.0.status == 302) ≡ true
      backward (login_state, result, held, live, h, p, gone, c, known) =
          ap (λ (x : Response × World). x.0.status == 302)
            (completed login_state (OneTime.taken w asked_state) callback_of.1 result
              (live-consume_login_state asked_state w login_state held live) h p c)
          ∙ callback_page_iff web headers result
          ∙ known
