-- ===== src/RateLimit.antt =====
-- src/http/hardening.rs: the rate limit on new sessions. Instants count nanoseconds, and each taking
-- of a token has the reading of the clock that it makes.
pub mod Bound
pub mod Limiter
pub mod Built
mod Tests
use rust_mcp_core.Common.Map
use rust_mcp_core.Common.{
  Bool, Option, String, false, if◌then◌else◌, leb, min, nat_eq, none, some, string_eq, true,
  unwrap_or, ℕ, ◌%◌, ◌*◌, ◌+◌, ◌-◌, ◌/◌, ◌^◌,
}
use rust_mcp_core.Common.Map.{Map}

pub record RateBucketSpec : Type 0 where
  pub capacity : ℕ
  pub refill_per_sec : ℕ

pub record TokenBucket : Type 0 where
  pub tokens : ℕ
  pub last_refill : ℕ
  pub rem_nanos : ℕ

abbrev pub nanos_per_sec : ℕ
nanos_per_sec = 1000000000

abbrev pub u64_max : ℕ
u64_max = 2 ^ 64 - 1

abbrev pub u128_max : ℕ
u128_max = 2 ^ 128 - 1

-- `TokenBucket::new`
unfoldable pub new : RateBucketSpec → ℕ → TokenBucket
new spec now = record { tokens = spec.capacity; last_refill = now; rem_nanos = 0 }

-- `elapsed_nanos.saturating_mul(refill_per_sec).saturating_add(rem_nanos)`; the difference of two
-- instants is zero if the later one is not later
unfoldable pub refill_nanos : RateBucketSpec → ℕ → TokenBucket → ℕ
refill_nanos spec now b =
    min (min ((now - b.last_refill) * spec.refill_per_sec) u128_max + b.rem_nanos) u128_max

-- the bucket after its refill
unfoldable pub refilled : RateBucketSpec → ℕ → TokenBucket → TokenBucket
unfolding refill_nanos
refilled spec now b =
    let refill = refill_nanos spec now b in
    let produced = min (refill / nanos_per_sec) u64_max in
    record {
      tokens = min (min (b.tokens + produced) u64_max) spec.capacity;
      last_refill = now;
      rem_nanos = refill % nanos_per_sec;
    }

-- `if self.tokens >= 1`
unfoldable pub spend : TokenBucket → TokenBucket × Bool
spend b = if leb 1 b.tokens then (record b { tokens = b.tokens - 1 }, true) else (b, false)

unfoldable pub take_token : RateBucketSpec → ℕ → TokenBucket → TokenBucket × Bool
unfolding refilled spend
take_token spec now b = spend (refilled spec now b)

pub record SessionCreationRateLimiter : Type 0 where
  pub global : Option (RateBucketSpec × TokenBucket)
  pub per_ip : Option (RateBucketSpec × Map String TokenBucket)

-- the bucket of all peers
unfoldable pub allow_global :
    ℕ → Option (RateBucketSpec × TokenBucket) → Option (RateBucketSpec × TokenBucket) × Bool
unfolding take_token
allow_global now none = (none, true)
allow_global now (some (spec, b)) =
    let (after, allowed) = take_token spec now b in (some (spec, after), allowed)

-- the bucket of a key, made at `fresh` if there is none
unfoldable pub allow_per_ip :
    (fresh now : ℕ)
    → Option String
    → Option (RateBucketSpec × Map String TokenBucket)
    → Option (RateBucketSpec × Map String TokenBucket) × Bool
unfolding take_token new
allow_per_ip fresh now key none = (none, true)
allow_per_ip fresh now key (some (spec, buckets)) =
    let name = unwrap_or "unknown-peer" key in
    let b = unwrap_or (new spec fresh) (Map.get name buckets) in
    let (after, allowed) = take_token spec now b in
    (some (spec, Map.insert name after buckets), allowed)

-- `allow_with_key`; the three readings of the clock are in their order
unfoldable pub allow_with_key :
    (global_now fresh now : ℕ)
    → Option String
    → SessionCreationRateLimiter
    → SessionCreationRateLimiter × Bool
unfolding allow_global allow_per_ip
allow_with_key global_now fresh now key l =
    let (global, passed) = allow_global global_now l.global in
    let (per_ip, allowed) = allow_per_ip fresh now key l.per_ip in
    if passed
    then (record { global = global; per_ip = per_ip }, allowed)
    else (record l { global = global }, false)
