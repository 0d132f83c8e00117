-- ===== src/Inbound/Http/Tokens/Once.antt =====
-- A form of httpserver/tokens.rs that is sent twice, over the in-memory store.
use lore_auth_bridge.Base.{
  String, ◌≡◌, ◌≢◌, sym, ap, subst, ◌∙◌, Option, none, some, List, ok, HashMap, get, string_eq,
  Result,
}
use lore_auth_bridge.Memory.State.{World, hash_secret}
use lore_auth_bridge.Memory.Sessions.OneTime.{
  IsSpent, attempts, attempts-IsSpent, consume_csrf_token-IsSpent, IsSpent-refused,
}
use lore_auth_bridge.Service.Device.{DeviceService}
use lore_auth_bridge.Service.Device.Keeps.{kept_part, mint-Keeps}
use lore_auth_bridge.Service.Token.{TokenConfig}
use lore_auth_bridge.Inbound.Http.{
  Response, HttpConfig, Web, Headers, get_or_blank, max_json_body_bytes,
}
use lore_auth_bridge.Inbound.Http.Tokens.{handle_token_mint}
use lore_auth_bridge.Inbound.Http.Tokens.Mint.{memory_app, mint-IsChecked}

-- Whether a token was used is seen in the part of the store that a mint leaves alone.
kept-IsSpent :
    (token : String) (u v : World) → kept_part v ≡ kept_part u → IsSpent token u → IsSpent token v
kept-IsSpent token u v h (c, e, s) = (c, ap (λ t. get t.1 (hash_secret t.2 token)) h ∙ e, s)

-- A form that got a token gets no second one: once a request to mint a token was answered with `200 OK`,
-- and whatever attempts to use CSRF tokens follow, no request with the CSRF token of that form is
-- answered with `200 OK` again, whoever sends it and whatever else it holds.
pub mint_once :
    (cfg : HttpConfig) (token_cfg : TokenConfig) (device : Option (DeviceService World))
    (debug_str : String → String) (web : Web) (headers other : Headers)
    (body bytes later read : String) (form again : HashMap String String) (w v : World)
    (r : Response) (tries : List (String × String))
    → web.to_bytes body max_json_body_bytes ≡ some bytes
    → web.form_from_bytes bytes ≡ some form
    → web.to_bytes later max_json_body_bytes ≡ some read
    → web.form_from_bytes read ≡ some again
    → get_or_blank again "csrf_token" ≡ get_or_blank form "csrf_token"
    → handle_token_mint (memory_app cfg token_cfg device) debug_str web headers body w ≡ (r, v)
    → r.status ≡ 200
    → (handle_token_mint
        (memory_app cfg token_cfg device)
        debug_str
        web
        other
        later
        (attempts v tries)).0.status
      ≢ 200
mint_once cfg token_cfg device debug_str web headers other body bytes later read form again w v r
      tries d f d' f' t h q z =
    let (s, u, signed, _, _, k, m) =
      mint-IsChecked cfg token_cfg device debug_str web headers body bytes form w d f
        (ap (λ (x : Response × World). x.0.status) h ∙ q) in
    let spent : IsSpent (get_or_blank form "csrf_token") v =
      kept-IsSpent (get_or_blank form "csrf_token") u v
        ((mint-Keeps token_cfg debug_str s.user.id (get_or_blank form "repository") none).kept u v
          signed (m ∙ ap (λ (x : Response × World). (ok signed, x.1)) h))
        (consume_csrf_token-IsSpent s.session_id (get_or_blank form "csrf_token") w u k) in
    let (s', u', _, _, _, k', _) =
      mint-IsChecked cfg token_cfg device debug_str web other later read again (attempts v tries) d'
        f' z in
    cc (
      IsSpent-refused s'.session_id (get_or_blank again "csrf_token") (attempts v tries) (
          subst (λ x. IsSpent x (attempts v tries)) (sym t)
            (attempts-IsSpent v tries (get_or_blank form "csrf_token") spent)),
      ap (λ (x : Result (Unit {0}) × World). x.0) k',
    )
