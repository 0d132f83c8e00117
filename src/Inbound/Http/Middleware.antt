-- ===== src/Inbound/Http/Middleware.antt =====
-- crates/lore-auth-inbound/src/httpserver/middleware.rs: the headers of every response, and the limiter
-- of the public paths. Time is as in the limiter of ratelimit.rs, whose records are used.
pub mod Limits
use Prim.Native.String as Str
use lore_auth_bridge.Base.{
  ℕ, suc, String, Bool, true, false, not, ◌&&◌, ◌||◌, ◌==◌, string_eq, nat_eq, if◌then◌else◌,
  Option, none, some, List, [], ◌∷◌, ◌++◌, HashMap, get, insert, leb, has_prefix, is_empty_str,
  keep, remove,
}
use lore_auth_bridge.Inbound.RateLimit.{Limiter, Bucket, Buckets, is_current}
use lore_auth_bridge.Inbound.Http.Answers.{Response, text_response}

-- `ends_with(p)`.
unfoldable pub has_suffix : String → String → Bool
unfolding is_empty_str
has_suffix p Str.[] = is_empty_str p
has_suffix p (Str.◌∷◌ c s) = Str.◌∷◌ c s == p || has_suffix p s

unfoldable pub is_rate_limited_http_path : String → Bool
unfolding has_prefix has_suffix
is_rate_limited_http_path path =
    path == "/api/device/start"
    || path == "/api/device/token"
    || path == "/login"
    || (has_prefix "/auth/" path && has_suffix "/start" path)

-- `.get(key).copied().filter(..)` of the buckets.
unfoldable pub current_bucket : Limiter → String → ℕ → Buckets → Option Bucket
unfolding get is_current
current_bucket limiter key now buckets = elim (get buckets key) [
  | none ↦ none
  | some bucket ↦ if is_current limiter.window now bucket then some bucket else none
]

-- `HttpLimiter::allow`, at a reading of the clock.
unfoldable pub http_allow : Limiter → String → ℕ → Buckets → Bool × Buckets
unfolding current_bucket insert keep is_current
http_allow limiter key now buckets =
    if limiter.limit == 0 || limiter.window == 0
    then (true, buckets)
    else elim (current_bucket limiter key now buckets) [
      | none ↦ (
        true,
        keep (λ e. is_current limiter.window now e.1)
            (insert buckets key (record { start = now; count = 1 })),
      )
      | some bucket ↦
          if leb limiter.limit bucket.count
          then (false, buckets)
          else (true, insert buckets key (record bucket { count = suc bucket.count }))
    ]

-- `rate_limit_public`, at the path and the key of the caller; `next` is what stands behind it.
unfoldable pub rate_limit_public :
    {W : Type 0}
    → Limiter
    → String
    → String
    → ℕ
    → (W → Response × W)
    → Buckets × W
    → Response × Buckets × W
unfolding is_rate_limited_http_path http_allow text_response
rate_limit_public {W = W} limiter path key now next (buckets, w) =
    let (passes, after) =
      if◌then◌else◌ {A = Bool × Buckets} (is_rate_limited_http_path path)
        (http_allow limiter key now buckets) (true, buckets) in
    let (response, w') = next w in
    if◌then◌else◌ {A = Response × Buckets × W} passes (response, after, w')
      (text_response 429 "rate limit exceeded", after, w)

-- `HeaderMap::insert`: the values that the name had go.
unfoldable pub set_header : String → String → List (String × String) → List (String × String)
unfolding remove
set_header name value headers = (name, value) ∷ remove headers name

abbrev pub admin_policy : String
admin_policy =
    "default-src 'none'; base-uri 'none'; connect-src 'self'; form-action 'self'; frame-ancestors 'none'; object-src 'none'; script-src 'self'; style-src 'self'"

abbrev pub page_policy : String
page_policy =
    "default-src 'none'; base-uri 'none'; form-action 'self'; frame-ancestors 'none'; object-src 'none'; script-src 'none'"

-- `security_headers`, at the path of the request.
unfoldable pub security_headers : {W : Type 0} → String → (W → Response × W) → W → Response × W
unfolding has_prefix set_header
security_headers path next w =
    let (response, w') = next w in
    (
      record response {
        headers =
            set_header "content-security-policy"
              (if has_prefix "/admin" path then admin_policy else page_policy)
              (set_header "referrer-policy" "no-referrer"
                (set_header "x-content-type-options" "nosniff" response.headers));
      },
      w',
    )
