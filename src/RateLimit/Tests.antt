-- ===== src/RateLimit/Tests.antt =====
-- Runs of the rate limit (src/http/hardening.rs).
use rust_mcp_core.Common.{
  List, [], arith, false, none, ok, refl, some, true, ℕ, ◌*◌, ◌+◌, ◌-◌, ◌∷◌, ◌≡◌, ◌≤◌,
}
use rust_mcp_core.Config.{
  McpConfig, StreamableHttpHardeningConfig, StreamableHttpRateLimitConfig,
  StreamableHttpRateLimitKeySource, x_forwarded_for,
}
use rust_mcp_core.Config.Samples.{bare_config}
use rust_mcp_core.Loader.{validate_streamable_http_hardening_semantics}
use rust_mcp_core.Policy.{optional}
use rust_mcp_core.RateLimit.{
  RateBucketSpec, SessionCreationRateLimiter, nanos_per_sec, new, take_token,
}
use rust_mcp_core.RateLimit.Bound.{Ordered, granted, granted_bound, last_of}
use rust_mcp_core.RateLimit.Built.{active_rate_is_limited, spec_of}
use rust_mcp_core.RateLimit.Limiter.{
  apply_inbound_rate_limit_layer, build_session_creation_rate_limiter, extract_rate_limit_key,
  global_layer, layer_settings, layers_of, nonempty, rate_bucket_burst_size, rate_bucket_period,
  to_spec,
}
use rust_mcp_core.Text.{is_empty, split_char, trim}

abbrev spec : RateBucketSpec
spec = record { capacity = 2; refill_per_sec = 1 }

abbrev times : List ℕ
times = 10 ∷ 11 ∷ 12 ∷ 2000000000 ∷ []

in_order : Ordered spec 10 times
in_order = ((omega arith), ((omega arith), ((omega arith), ((omega arith), tt))))

granted_bound_example :
    nanos_per_sec * granted spec times (new spec 10)
    ≤ nanos_per_sec * 2 + (last_of spec 10 times - 10) * 1
granted_bound_example = granted_bound spec times 10 in_order

three : granted spec times (new spec 10) ≡ 3
unfolding granted take_token new
three = refl

abbrev one_per_second : StreamableHttpRateLimitConfig
one_per_second = record {
  enabled = none;
  global = some (record { capacity = 3; refill_per_sec = 1 });
  per_ip = none;
}

abbrev hardened : StreamableHttpHardeningConfig
hardened = record {
  max_request_bytes = 1048576;
  catch_panics = true;
  sanitize_sensitive_headers = true;
  session = some (record {
    max_sessions = none;
    idle_ttl_secs = none;
    max_lifetime_secs = none;
    creation_rate = some one_per_second;
  });
  rate_limit = some one_per_second;
}

abbrev hardened_server : McpConfig
hardened_server = record bare_config {
  streamable_http = record { session_mode = optional; hardening = some hardened };
}

active_rate_is_limited_run :
    (limiter : SessionCreationRateLimiter) × (source : StreamableHttpRateLimitKeySource)
    × (build_session_creation_rate_limiter 7 hardened ≡ some (limiter, source))
    × (spec_of limiter.global ≡ some (record { capacity = 3; refill_per_sec = 1 }))
    × (spec_of limiter.per_ip ≡ none)
unfolding validate_streamable_http_hardening_semantics to_spec
active_rate_is_limited_run =
    active_rate_is_limited hardened_server hardened one_per_second 7 refl refl refl refl

one_layer :
    apply_inbound_rate_limit_layer (λ period burst_size. true) hardened
    ≡ ok (global_layer 1000000000 3 ∷ [])
unfolding apply_inbound_rate_limit_layer layers_of layer_settings rate_bucket_period
    rate_bucket_burst_size
one_layer = refl

forwarded_key :
    extract_rate_limit_key
      (record {
        is_post = true;
        has_session_id = false;
        x_forwarded_for_text = some " 10.0.0.1 , 10.0.0.2";
        peer_ip = some "127.0.0.1";
      })
      x_forwarded_for
    ≡ "10.0.0.1"
unfolding extract_rate_limit_key split_char trim nonempty is_empty
forwarded_key = refl
