-- ===== src/Inbound/Http/Middleware/Limits.antt =====
-- The limiter of middleware.rs is the limiter of ratelimit.rs, and its refusals hold requests back.
use lore_auth_bridge.Base.{
  ℕ, String, ◌≡◌, refl, inl, inr, string_eq, nat_eq, [], ◌∷◌, get, insert, keep, arith,
  Option-cases,
}
use lore_auth_bridge.Inbound.RateLimit.{Limiter, Buckets, is_current, prune, open_bucket, allow}
use lore_auth_bridge.Inbound.Http.Middleware.{current_bucket, http_allow}

prune-keep :
    (m : Buckets) (now window : ℕ) → prune m now window ≡ keep (λ e. is_current window now e.1) m
unfolding prune keep
prune-keep [] now window = refl
prune-keep ((k, b) ∷ m) now window = ground (arith, prune-keep m now window)

-- The HTTP server's limiter lets through what the limiter of the gRPC service lets through, and keeps
-- the same buckets.
pub http_allow_eq :
    (limiter : Limiter) (key : String) (now : ℕ) (buckets : Buckets)
    → http_allow limiter key now buckets ≡ allow limiter key now buckets
unfolding http_allow allow current_bucket open_bucket
http_allow_eq limiter key now buckets =
    let same =
      prune-keep (insert buckets key (record { start = now; count = 1 })) now limiter.window in
    elim (Option-cases (get buckets key)) [
      | inl e ↦ ground (arith, e, same)
      | inr (b, e) ↦ ground (arith, e, same)
    ]
