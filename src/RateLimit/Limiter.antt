-- ===== src/RateLimit/Limiter.antt =====
-- src/http/hardening.rs: the limits that the configuration asks for, and the key of a request. Of a
-- request stands here what is read of it; the router of the library is the list of its layers, and
-- `finish` says which settings the library's builder accepts.
use rust_mcp_core.Common.{
  Bool, List, Option, String, [], and_then, if◌then◌else◌, ltb, max, nat_eq, none, not, ok, some,
  string_eq, unwrap_or, ℕ, ◌&&◌, ◌++◌, ◌/◌, ◌<>◌, ◌==◌, ◌>>=◌, ◌^◌, ◌||◌, ◌∷◌,
}
use rust_mcp_core.Common.Map.{Map}
use rust_mcp_core.Config.{
  StreamableHttpHardeningConfig, StreamableHttpPerIpRateBucketConfig,
  StreamableHttpRateBucketConfig, StreamableHttpRateLimitConfig, StreamableHttpRateLimitKeySource,
  has_any_bucket, is_active, peer_addr, x_forwarded_for,
}
use rust_mcp_core.Errors.{Fallible, fail, invalid_request}
use rust_mcp_core.RateLimit.{
  RateBucketSpec, SessionCreationRateLimiter, TokenBucket, nanos_per_sec, new,
}
use rust_mcp_core.Text.{is_empty, split_char, trim}

-- What is read of a request: if its method is POST, if it has a session header, the text of its
-- `x-forwarded-for`, if that is one, and the address of its peer.
pub record HttpRequest : Type 0 where
  pub is_post : Bool
  pub has_session_id : Bool
  pub x_forwarded_for_text : Option String
  pub peer_ip : Option String

unfoldable pub is_session_creation_request : HttpRequest → Bool
is_session_creation_request request = request.is_post && not request.has_session_id

unfoldable pub request_peer_key : HttpRequest → String
request_peer_key request = unwrap_or "unknown-peer" request.peer_ip

abbrev pub first_part : List String → Option String
first_part [] = none
first_part (part ∷ parts) = some part

unfoldable pub nonempty : String → Option String
unfolding is_empty
nonempty s = if is_empty s then none else some s

unfoldable pub extract_rate_limit_key : HttpRequest → StreamableHttpRateLimitKeySource → String
unfolding request_peer_key split_char trim nonempty
extract_rate_limit_key request peer_addr = request_peer_key request
extract_rate_limit_key request x_forwarded_for = unwrap_or (request_peer_key request) (
    and_then request.x_forwarded_for_text
      (λ text. and_then (first_part (split_char b',' text)) (λ part. nonempty (trim part))))

unfoldable pub to_spec : StreamableHttpRateBucketConfig → RateBucketSpec
to_spec config = record { capacity = config.capacity; refill_per_sec = config.refill_per_sec }

unfoldable pub to_spec_per_ip : StreamableHttpPerIpRateBucketConfig → RateBucketSpec
to_spec_per_ip config = record {
  capacity = config.capacity;
  refill_per_sec = config.refill_per_sec;
}

unfoldable pub global_bucket :
    (now : ℕ) → Option StreamableHttpRateBucketConfig → Option (RateBucketSpec × TokenBucket)
unfolding to_spec new
global_bucket now none = none
global_bucket now (some bucket) = some (to_spec bucket, new (to_spec bucket) now)

unfoldable pub per_ip_buckets :
    Option StreamableHttpPerIpRateBucketConfig → Option (RateBucketSpec × Map String TokenBucket)
unfolding to_spec_per_ip
per_ip_buckets none = none
per_ip_buckets (some bucket) = some (to_spec_per_ip bucket, [])

abbrev pub key_source_of :
    Option StreamableHttpPerIpRateBucketConfig → StreamableHttpRateLimitKeySource
key_source_of none = peer_addr
key_source_of (some bucket) = bucket.key_source

abbrev pub creation_rate_of : StreamableHttpHardeningConfig → Option StreamableHttpRateLimitConfig
creation_rate_of hardening = and_then hardening.session (λ s. s.creation_rate)

-- the limiter and the source of its keys
unfoldable pub limiter_of :
    (now : ℕ)
    → StreamableHttpRateLimitConfig
    → Option (SessionCreationRateLimiter × StreamableHttpRateLimitKeySource)
unfolding global_bucket per_ip_buckets
limiter_of now rate =
    if not (is_active rate.enabled) || not (has_any_bucket rate)
    then none
    else some (
      record { global = global_bucket now rate.global; per_ip = per_ip_buckets rate.per_ip },
      key_source_of rate.per_ip,
    )

unfoldable pub build_session_creation_rate_limiter :
    (now : ℕ)
    → StreamableHttpHardeningConfig
    → Option (SessionCreationRateLimiter × StreamableHttpRateLimitKeySource)
unfolding limiter_of
build_session_creation_rate_limiter now hardening =
    and_then (creation_rate_of hardening) (limiter_of now)

abbrev pub u32_limit : ℕ
u32_limit = 2 ^ 32

unfoldable pub rate_bucket_period : (refill_per_sec : ℕ) → (config_path : String) → Fallible ℕ
rate_bucket_period refill_per_sec config_path =
    if refill_per_sec == 0
    then fail invalid_request (config_path <> ".refill_per_sec must be greater than 0")
    else ok (max (nanos_per_sec / refill_per_sec) 1)

unfoldable pub rate_bucket_burst_size : (capacity : ℕ) → (config_path : String) → Fallible ℕ
rate_bucket_burst_size capacity config_path =
    if capacity == 0
    then fail invalid_request (config_path <> ".capacity must be greater than 0")
    else if ltb capacity u32_limit
    then ok capacity
    else fail invalid_request
        (config_path <> ".capacity exceeds maximum supported value 4294967295")

-- A layer of the library, with its period and its burst size.
pub data Layer : Type 0 where
  global_layer : (period burst_size : ℕ) → Layer
  per_ip_layer : (period burst_size : ℕ) → StreamableHttpRateLimitKeySource → Layer

unfoldable pub layer_settings :
    (finish : ℕ → ℕ → Bool)
    → (capacity refill_per_sec : ℕ) → (config_path : String) → (ℕ → ℕ → Layer)
    → Fallible Layer
unfolding rate_bucket_period rate_bucket_burst_size
layer_settings finish capacity refill_per_sec config_path layer = do
  period ← rate_bucket_period refill_per_sec config_path
  burst_size ← rate_bucket_burst_size capacity config_path
  (if finish period burst_size
      then ok (layer period burst_size)
      else fail invalid_request (config_path <> " must define positive rate values"))

-- the layer of a bucket that may be missing, after those before it
abbrev pub and_layer :
    {A : Type 0} → Option A → (A → Fallible Layer) → List Layer → Fallible (List Layer)
and_layer none build layers = ok layers
and_layer (some bucket) build layers = build bucket >>= λ layer. ok (layers ++ (layer ∷ []))

unfoldable pub layers_of :
    (finish : ℕ → ℕ → Bool) → Option StreamableHttpRateLimitConfig → Fallible (List Layer)
unfolding layer_settings
layers_of finish none = ok []
layers_of finish (some rate) =
    if not (is_active rate.enabled)
    then ok []
    else if not (has_any_bucket rate)
    then fail invalid_request
        "transport.streamable_http.hardening.rate_limit requires global or per_ip when enabled"
    else (and_layer rate.global
          (λ b.
            layer_settings finish b.capacity b.refill_per_sec
              "transport.streamable_http.hardening.rate_limit.global" global_layer)
          []
        >>= and_layer rate.per_ip (λ b.
          layer_settings finish b.capacity b.refill_per_sec
            "transport.streamable_http.hardening.rate_limit.per_ip"
            (λ period burst_size. per_ip_layer period burst_size b.key_source)))

-- `apply_inbound_rate_limit_layer`, with the layers that it adds
unfoldable pub apply_inbound_rate_limit_layer :
    (finish : ℕ → ℕ → Bool) → StreamableHttpHardeningConfig → Fallible (List Layer)
unfolding layers_of
apply_inbound_rate_limit_layer finish hardening = layers_of finish hardening.rate_limit
