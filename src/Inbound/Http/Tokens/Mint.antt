-- ===== src/Inbound/Http/Tokens/Mint.antt =====
-- What stands behind a token that httpserver/tokens.rs issues, over the in-memory store.
use lore_auth_bridge.Base.{
  ℕ, String, ◌≡◌, ◌≢◌, refl, sym, ap, ◌∙◌, ◌⊎◌, inl, inr, true, false, ◌==◌, string_eq, nat_eq,
  Option, none, some, Result, ok, err, CoreError, not_found, permission_denied, invalid_argument,
  HashMap, is_empty_str, arith, Bool-cases,
}
use lore_auth_bridge.Model.{SignedToken}
use lore_auth_bridge.Memory.State.{World}
use lore_auth_bridge.Memory.Sessions.{consume_csrf_token}
use lore_auth_bridge.Service.Device.{DeviceService}
use lore_auth_bridge.Service.Token.{TokenConfig, manual_mint_authz}
use lore_auth_bridge.Service.Wiring.{memory_tokens, memory_resources, memory_authz, memory_sessions}
use lore_auth_bridge.Inbound.Http.{
  Response, HttpConfig, AppState, Web, Headers, BrowserSession, text_response, redirect_found,
  response_with_headers, current_browser_session, require_session, same_origin, get_or_blank,
  spend_csrf, respond, parse_form_body, limited_body, max_json_body_bytes,
}
use lore_auth_bridge.Inbound.Http.Session.Lookup.{HasSession, current_browser_session-cases}
use lore_auth_bridge.Inbound.Http.Tokens.{handle_token_mint, write_token_issue_error}

-- The server over the store.
abbrev pub memory_app : HttpConfig → TokenConfig → Option (DeviceService World) → AppState World
memory_app cfg token_cfg device = record {
  cfg = cfg;
  tokens = memory_tokens token_cfg;
  resources = memory_resources;
  permissions = record { resources = memory_resources; authz = memory_authz };
  state = memory_sessions;
  device = device;
}

write_token_issue_error-fails : (x : CoreError) → (write_token_issue_error x).status ≢ 200
unfolding write_token_issue_error text_response response_with_headers
write_token_issue_error-fails not_found h = absurd (omega (arith, h))
write_token_issue_error-fails permission_denied h = absurd (omega (arith, h))
write_token_issue_error-fails (invalid_argument _) h = absurd (omega (arith, h))
write_token_issue_error-fails _ h = absurd (omega (arith, h))

-- A page with another status is no token.
text_response-fails : (n : ℕ) (t : String) → (n == 200) ≡ false → (text_response n t).status ≢ 200
unfolding text_response response_with_headers
text_response-fails n t h q = ground (arith, h, q)

redirect_found-fails : (t : String) → (redirect_found t).status ≢ 200
unfolding redirect_found response_with_headers
redirect_found-fails t q = absurd (omega (arith, q))

pub Result-cases :
    {A : Type 0} (r : Result A × World)
    → ((a : A) × (v : World) × (r ≡ (ok a, v))) ⊎ ((e : CoreError) × (v : World) × (r ≡ (err e, v)))
Result-cases (ok a, v) = inl (a, v, refl)
Result-cases (err e, v) = inr (e, v, refl)

module _ (cfg : HttpConfig) (token_cfg : TokenConfig) (device : Option (DeviceService World))
    (debug_str : String → String) (web : Web) (headers : Headers) (body bytes : String)
    (form : HashMap String String) where
  abbrev mint : World → Response × World
  mint = handle_token_mint (memory_app cfg token_cfg device) debug_str web headers body

  abbrev token : String
  token = get_or_blank form "csrf_token"

  abbrev repo : String
  repo = get_or_blank form "repository"

  abbrev Decodes : Type 0
  Decodes =
      (web.to_bytes body max_json_body_bytes ≡ some bytes) × (web.form_from_bytes bytes ≡ some form)

  module _ (w : World) where
    mint-stranger :
        current_browser_session memory_sessions headers w ≡ (ok none, w)
        → mint w ≡ (redirect_found "/login", w)
    unfolding handle_token_mint require_session respond
    mint-stranger c = ground (arith, c)

    module _ (s : BrowserSession)
        (c : current_browser_session memory_sessions headers w ≡ (ok (some s), w)) where
      mint-elsewhere :
          same_origin web cfg headers ≡ false → mint w ≡ (text_response 403 "invalid origin", w)
      unfolding handle_token_mint require_session respond
      mint-elsewhere o = ground (arith, c, o)

      module _ (o : same_origin web cfg headers ≡ true) (d : Decodes) where
        mint-blank :
            is_empty_str token ≡ true → mint w ≡ (text_response 403 "invalid csrf token", w)
        unfolding handle_token_mint require_session respond parse_form_body limited_body spend_csrf
        mint-blank e = ground (arith, c, o, d.0, d.1, e)

        mint-refused :
            (x : CoreError) (u : World)
            → is_empty_str token ≡ false
            → consume_csrf_token s.session_id token w ≡ (err x, u)
            → mint w ≡ (text_response 403 "invalid csrf token", u)
        unfolding handle_token_mint require_session respond parse_form_body limited_body spend_csrf
        mint-refused x u e k = ground (arith, c, o, d.0, d.1, e, k)

        module _ (u : World) (e : is_empty_str token ≡ false)
            (k : consume_csrf_token s.session_id token w ≡ (ok tt, u)) where
          mint-nowhere :
              is_empty_str repo ≡ true → mint w ≡ (text_response 400 "repository is required", u)
          unfolding handle_token_mint require_session respond parse_form_body limited_body
              spend_csrf
          mint-nowhere r = ground (arith, c, o, d.0, d.1, e, k, r)

          mint-failed :
              (x : CoreError) (v : World)
              → is_empty_str repo ≡ false
              → manual_mint_authz (memory_tokens token_cfg) debug_str s.user.id repo "writer" none u
                ≡ (err x, v)
              → mint w ≡ (write_token_issue_error x, v)
          unfolding handle_token_mint require_session respond parse_form_body limited_body
              spend_csrf
          mint-failed x v r m = ground (arith, c, o, d.0, d.1, e, k, r, m)

          mint-issued :
              (signed : SignedToken) (v : World)
              → is_empty_str repo ≡ false
              → manual_mint_authz (memory_tokens token_cfg) debug_str s.user.id repo "writer" none u
                ≡ (ok signed, v)
              → (mint w).1 ≡ v
          unfolding handle_token_mint require_session respond parse_form_body limited_body
              spend_csrf
          mint-issued signed v r m = ground (arith, c, o, d.0, d.1, e, k, r, m)

  -- What a token rests on: a session, a request from a page of the server, a CSRF token of the session
  -- that was good until now, and a mint that succeeds.
  abbrev pub IsChecked : World → World → Type 0
  IsChecked w v =
      (s : BrowserSession) × (u : World) × (signed : SignedToken) × HasSession w headers s
      × (same_origin web cfg headers ≡ true)
      × (consume_csrf_token s.session_id (get_or_blank form "csrf_token") w ≡ (ok tt, u))
      × (manual_mint_authz (memory_tokens token_cfg) debug_str s.user.id
            (get_or_blank form "repository") "writer" none u
          ≡ (ok signed, v))

  other_page :
      (w u : World) (r : Response) → r.status ≢ 200 → mint w ≡ (r, u) → (mint w).0.status ≢ 200
  other_page w u r n e q = n (sym (ap (λ (t : Response × World). t.0.status) e) ∙ q)

  pub mint-IsChecked :
      (w : World)
      → web.to_bytes body max_json_body_bytes ≡ some bytes
      → web.form_from_bytes bytes ≡ some form
      → (handle_token_mint (memory_app cfg token_cfg device) debug_str web headers body w).0.status
        ≡ 200
      → IsChecked w
          (handle_token_mint (memory_app cfg token_cfg device) debug_str web headers body w).1
  mint-IsChecked w d f h = elim (current_browser_session-cases w headers) [
    | inr (_, c) ↦ absurd (other_page w w _ (redirect_found-fails "/login") (mint-stranger w c) h)
    | inl (s, k, c) ↦ elim (Bool-cases (same_origin web cfg headers)) [
      | inr o ↦ absurd (
          other_page w w _ (text_response-fails 403 "invalid origin" refl) (mint-elsewhere w s c o)
            h)
      | inl o ↦ elim (Bool-cases (is_empty_str token)) [
        | inl e ↦ absurd (
            other_page w w _ (text_response-fails 403 "invalid csrf token" refl)
              (mint-blank w s c o (d, f) e) h)
        | inr e ↦ elim (Result-cases (consume_csrf_token s.session_id token w)) [
          | inr (x, u, q) ↦ absurd (
              other_page w u _ (text_response-fails 403 "invalid csrf token" refl)
                (mint-refused w s c o (d, f) x u e q) h)
          | inl (_, u, q) ↦ let (signed, m) = mint_at s u c o e q in (s, u, signed, k, o, q, m)
        ]
      ]
    ]
  ]
    where
      mint_at :
          (s : BrowserSession) (u : World)
          → current_browser_session memory_sessions headers w ≡ (ok (some s), w)
          → same_origin web cfg headers ≡ true
          → is_empty_str token ≡ false
          → consume_csrf_token s.session_id token w ≡ (ok tt, u)
          → (signed : SignedToken) × (manual_mint_authz
                (memory_tokens token_cfg)
                debug_str
                s.user.id
                repo
                "writer"
                none
                u
              ≡ (ok signed, (mint w).1))
      mint_at s u c o e q = elim (Bool-cases (is_empty_str repo)) [
        | inl r ↦ absurd (
            other_page w u _ (text_response-fails 400 "repository is required" refl)
              (mint-nowhere w s c o (d, f) u e q r) h)
        | inr r ↦
            elim (Result-cases (
              manual_mint_authz (memory_tokens token_cfg) debug_str s.user.id repo "writer" none
                u)) [
                  | inr (x, v, m) ↦ absurd (
                      other_page w v _ (write_token_issue_error-fails x)
                        (mint-failed w s c o (d, f) u e q x v r m) h)
                  | inl (signed, v, m) ↦ (
                    signed,
                    m
                        ∙ ap (λ z. (ok signed, z))
                            (sym (mint-issued w s c o (d, f) u e q signed v r m)),
                  )
                ]
      ]
