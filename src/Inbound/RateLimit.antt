-- ===== src/Inbound/RateLimit.antt =====
-- crates/lore-auth-inbound/src/ratelimit.rs: the limiter behind the gRPC service. An `Instant` is a
-- number of nanoseconds from some start, and `duration_since` stops at zero; the window is a number
-- of nanoseconds too. The lock is held from the lookup to the end, so a call is one step.
pub mod Window
use lore_auth_bridge.Base.{
  ℕ, suc, ◌-◌, String, Bool, true, false, ◌||◌, not, string_eq, nat_eq, ◌==◌, if◌then◌else◌, Option,
  none, some, List, [], ◌∷◌, HashMap, get, insert, ltb, leb,
}

pub record Limiter : Type 0 where
  pub limit : ℕ
  pub window : ℕ

pub record Bucket : Type 0 where
  pub start : ℕ
  pub count : ℕ

abbrev pub Buckets : Type 0
Buckets = HashMap String Bucket

-- `now.duration_since(bucket.start) < self.window`.
unfoldable pub is_current : ℕ → ℕ → Bucket → Bool
is_current window now bucket = ltb (now - bucket.start) window

-- `prune`.
unfoldable pub prune : Buckets → ℕ → ℕ → Buckets
unfolding is_current
prune [] now window = []
prune ((key, bucket) ∷ rest) now window =
    let others = prune rest now window in
    if is_current window now bucket then (key, bucket) ∷ others else others

-- A first call, or one after the window: a new bucket, and the old ones go.
unfoldable pub open_bucket : Limiter → String → ℕ → Buckets → Bool × Buckets
unfolding insert prune
open_bucket limiter key now buckets =
    (true, prune (insert buckets key (record { start = now; count = 1 })) now limiter.window)

-- `Limiter::allow`, at a reading of the clock.
unfoldable pub allow : Limiter → String → ℕ → Buckets → Bool × Buckets
unfolding get is_current open_bucket insert
allow limiter key now buckets =
    if limiter.limit == 0 || limiter.window == 0 then (true, buckets) else elim (get buckets key) [
      | none ↦ open_bucket limiter key now buckets
      | some bucket ↦
          if not (is_current limiter.window now bucket)
          then open_bucket limiter key now buckets
          else if leb limiter.limit bucket.count
          then (false, buckets)
          else (true, insert buckets key (record bucket { count = suc bucket.count }))
    ]
