-- ===== src/RateLimit/Built.antt =====
-- src/http/hardening.rs and src/config/loader.rs: an active limit is never left out.
use rust_mcp_core.Common.{
  Bool, Option, and_then, ap, false, false≢true, none, not, ok, refl, some, subst, sym, true, ℕ,
  ◌&&◌, ◌∙◌, ◌≡◌,
}
use rust_mcp_core.Config.{
  McpConfig, StreamableHttpHardeningConfig, StreamableHttpPerIpRateBucketConfig,
  StreamableHttpRateBucketConfig, StreamableHttpRateLimitConfig, StreamableHttpRateLimitKeySource,
  has_any_bucket, is_active,
}
use rust_mcp_core.Loader.{idle_rate, session_of, validate_streamable_http_hardening_semantics}
use rust_mcp_core.Loader.Checks.{hardening_valid}
use rust_mcp_core.Loader.Conditions.{HasBucket, Whenever, idle_rate_iff}
use rust_mcp_core.RateLimit.{RateBucketSpec, SessionCreationRateLimiter}
use rust_mcp_core.RateLimit.Limiter.{
  build_session_creation_rate_limiter, creation_rate_of, global_bucket, key_source_of, limiter_of,
  per_ip_buckets, to_spec, to_spec_per_ip,
}

-- The capacity and the refill of a bucket, where there is one.
abbrev pub spec_of : {A : Type 0} → Option (RateBucketSpec × A) → Option RateBucketSpec
spec_of none = none
spec_of (some (spec, a)) = some spec

spec-global_bucket :
    (now : ℕ) (bucket : Option StreamableHttpRateBucketConfig)
    → spec_of (global_bucket now bucket) ≡ and_then bucket (λ b. some (to_spec b))
unfolding global_bucket
spec-global_bucket now none = refl
spec-global_bucket now (some b) = refl

spec-per_ip_buckets :
    (bucket : Option StreamableHttpPerIpRateBucketConfig)
    → spec_of (per_ip_buckets bucket) ≡ and_then bucket (λ b. some (to_spec_per_ip b))
unfolding per_ip_buckets
spec-per_ip_buckets none = refl
spec-per_ip_buckets (some b) = refl

-- Where the checks of the hardening pass, an active rate of new sessions gives a limiter, with the
-- capacity and the refill of the configuration for each of its buckets.
pub active_rate_is_limited :
    (config : McpConfig) (hardening : StreamableHttpHardeningConfig)
    (rate : StreamableHttpRateLimitConfig) (now : ℕ)
    → validate_streamable_http_hardening_semantics config ≡ ok tt
    → config.streamable_http.hardening ≡ some hardening
    → creation_rate_of hardening ≡ some rate
    → is_active rate.enabled ≡ true
    → (limiter : SessionCreationRateLimiter) × (source : StreamableHttpRateLimitKeySource)
      × (build_session_creation_rate_limiter now hardening ≡ some (limiter, source))
      × (spec_of limiter.global ≡ and_then rate.global (λ b. some (to_spec b)))
      × (spec_of limiter.per_ip ≡ and_then rate.per_ip (λ b. some (to_spec_per_ip b)))
unfolding build_session_creation_rate_limiter limiter_of
active_rate_is_limited config hardening rate now checked hardened rated active =
    let (stateless, (inbound, creation)) = hardening_valid config checked in
    let rates : and_then (session_of config) (λ s. s.creation_rate) ≡ some rate =
      ap (λ h. and_then (and_then h (λ x. x.session)) (λ s. s.creation_rate)) hardened ∙ rated in
    let not_idle : idle_rate rate ≡ false =
      (idle_rate_iff rate).1 (subst (Whenever HasBucket) rates creation) in
    let bucket : has_any_bucket rate ≡ true =
      has_bucket (is_active rate.enabled) (has_any_bucket rate) active not_idle in
    (
      record { global = global_bucket now rate.global; per_ip = per_ip_buckets rate.per_ip },
      key_source_of rate.per_ip,
      rw (rated, active, bucket, build_session_creation_rate_limiter, limiter_of) refl,
      spec-global_bucket now rate.global,
      spec-per_ip_buckets rate.per_ip,
    )
  where
    has_bucket : (a b : Bool) → a ≡ true → (a && not b) ≡ false → b ≡ true
    has_bucket true true h k = refl
    has_bucket true false h k = absurd (false≢true (sym k))
    has_bucket false b h k = absurd (false≢true h)
