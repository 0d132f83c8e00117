-- ===== src/Base/Words.antt =====
-- `i64` as its bit pattern below 2^64, and `Duration`.
use Prim.Native.Nat.{ℕ, ◌+◌, ◌-◌, ◌%◌, ◌^◌, ◌≤◌}
use mathlib.Core.Path.{◌≡◌}
use mathlib.Core.Bool.{Bool, ◌&&◌}
use native.Mathlib.Omega.{arith}
use lore_auth_bridge.Base.Tests.{ltb, leb, ◌==◌, nat_eq, if◌then◌else◌}

abbrev pub i64_max : ℕ
i64_max = 2 ^ 63 - 1

-- Wrapping addition and subtraction of a release build.
unfoldable pub i64_add : ℕ → ℕ → ℕ
i64_add a b = (a + b) % 2 ^ 64

unfoldable pub i64_sub : ℕ → ℕ → ℕ
i64_sub a b = (a + 2 ^ 64 - b % 2 ^ 64) % 2 ^ 64

-- Signed comparison of two patterns: the offset turns it into an unsigned one.
unfoldable pub i64_leb : ℕ → ℕ → Bool
i64_leb a b = leb ((a + 2 ^ 63) % 2 ^ 64) ((b + 2 ^ 63) % 2 ^ 64)

-- `a.max(0)`.
unfoldable pub i64_max_zero : ℕ → ℕ
i64_max_zero a = if ltb (a % 2 ^ 64) (2 ^ 63) then a % 2 ^ 64 else 0

-- On patterns of values that are not negative the signed test is the plain one.
pub i64_leb-leb : (a b : ℕ) → a ≤ i64_max → b ≤ i64_max → i64_leb a b ≡ leb a b
unfolding i64_leb
i64_leb-leb a b p q = ground arith

-- `std::time::Duration`.
pub record Duration : Type 0 where
  pub secs : ℕ
  pub nanos : ℕ

unfoldable pub is_zero : Duration → Bool
is_zero d = d.secs == 0 && d.nanos == 0

abbrev pub zero_duration : Duration
zero_duration = record { secs = 0; nanos = 0 }

abbrev pub from_secs : ℕ → Duration
from_secs n = record { secs = n; nanos = 0 }

-- `i64::try_from(n).unwrap_or(i64::MAX)` of a `u64`.
unfoldable pub saturate_i64 : ℕ → ℕ
saturate_i64 n = if leb n i64_max then n else i64_max
