-- ===== src/Discovery.antt =====
-- src/auth/inbound/provider.rs: the issuer and the keys of an auth provider, from its configuration or
use rust_mcp_core.HttpClient.{Bytes}
-- by discovery, with the caches and their locks. The HTTP client, the parsers of its answers and of
-- URLs, and the clock are parameters; `S` is what the client changes. What is logged is left out.
pub mod Urls
pub mod Caches
pub mod Candidates
mod Tests
use Prim.Native.Char.{Char, code}
use rust_mcp_core.Auth.Provider.{AuthProviderConfig}
use rust_mcp_core.Common.{
  List, Option, String, [], and_then, err, if◌then◌else◌, ltb, none, ok, some, ℕ, ◌*◌, ◌-◌, ◌∷◌,
}
use rust_mcp_core.Discovery.Urls.{ParsedUrl, config_issuer, config_jwks_url, discovery_candidates}
use rust_mcp_core.Errors.{Fallible}
use rust_mcp_core.HttpClient.{
  Bytes, OutboundHttpRequest, OutboundHttpResponse, default_request, is_success,
}
use rust_mcp_core.RateLimit.{nanos_per_sec}

pub record TimedCacheEntry (A : Type 0) : Type 0 where
  pub fetched_at : ℕ
  pub value : A

pub record DiscoveryDocument : Type 0 where
  pub issuer : Option String
  pub jwks_uri : Option String

-- `ChronoDuration::minutes(10)`, in nanoseconds, for both caches
abbrev pub ttl : ℕ
ttl = 10 * 60 * nanos_per_sec

-- The caches of a provider with keys in `J`, and what is outside of it.
pub record World (S J : Type 0) : Type 0 where
  pub discovery_cache : Option (TimedCacheEntry DiscoveryDocument)
  pub jwks_cache : Option (TimedCacheEntry J)
  pub outside : S

-- What the provider calls: the client, the readers of its answers, the parser of URLs, the clock, and
-- what other calls do while this one waits for the lock of a cache.
pub record Outside (S J : Type 0) : Type 0 where
  pub send : OutboundHttpRequest → S → S × Fallible OutboundHttpResponse
  pub read_document : Bytes → Fallible DiscoveryDocument
  pub read_keys : Bytes → Fallible J
  pub parse_url : String → Option ParsedUrl
  pub now : S → ℕ
  pub wait_for_lock : World S J → World S J

-- the parts of an `AuthProvider` that do not change
pub record AuthProvider : Type 0 where
  pub config : AuthProviderConfig
  pub outbound_timeout_ms : Option ℕ
  pub outbound_max_response_bytes : Option ℕ

unfoldable pub fresh_value : {A : Type 0} → (now : ℕ) → Option (TimedCacheEntry A) → Option A
fresh_value now none = none
fresh_value now (some entry) = if ltb (now - entry.fetched_at) ttl then some entry.value else none

abbrev pub to_option : {A : Type 0} → Fallible A → Option A
to_option (ok a) = some a
to_option (err e) = none

module _ {S J : Type 0} (o : Outside S J) where
  -- A cache of the provider: how it is read and written.
  unfoldable pub cached_fetch :
      {A : Type 0}
      → (read : World S J → Option (TimedCacheEntry A))
      → (write : TimedCacheEntry A → World S J → World S J)
      → (fetch : World S J → World S J × Option A) → World S J
      → World S J × Option A
  unfolding fresh_value
  cached_fetch read write fetch w = elim (fresh_value (o.now w.outside) (read w)) [
    | some value ↦ (w, some value)
    | none ↦
        let locked = o.wait_for_lock w in
        elim (fresh_value (o.now locked.outside) (read locked)) [
          | some value ↦ (locked, some value)
          | none ↦
              let run = fetch locked in
              elim (run.1) [
                | none ↦ (run.0, none)
                | some value ↦ (
                  write (record { fetched_at = o.now (run.0).outside; value = value }) (run.0),
                  some value,
                )
              ]
        ]
  ]

  -- a GET request, and the reading of its answer; a failure of either is logged and gives none
  unfoldable pub fetch_json :
      {A : Type 0}
      → (Bytes → Fallible A)
      → AuthProvider
      → (url : String) → World S J
      → World S J × Option A
  unfolding is_success
  fetch_json read_body provider url w =
      let sent =
        o.send
          (record default_request {
            method = "GET";
            url = url;
            timeout_ms = provider.outbound_timeout_ms;
            max_response_bytes = provider.outbound_max_response_bytes;
          })
          w.outside in
      (
        record w { outside = sent.0 },
        elim (sent.1) [
          | err e ↦ none
          | ok response ↦ if is_success response then to_option (read_body response.body) else none
        ],
      )

  unfoldable pub first_document :
      AuthProvider → List String → World S J → World S J × Option DiscoveryDocument
  unfolding fetch_json
  first_document provider [] w = (w, none)
  first_document provider (url ∷ urls) w =
      let run = fetch_json o.read_document provider url w in
      elim (run.1) [ some doc ↦ (run.0, some doc) | none ↦ first_document provider urls (run.0) ]

  unfoldable pub fetch_discovery : AuthProvider → World S J → World S J × Option DiscoveryDocument
  unfolding first_document discovery_candidates
  fetch_discovery provider w =
      first_document provider (discovery_candidates o.parse_url provider.config) w

  abbrev pub set_discovery : TimedCacheEntry DiscoveryDocument → World S J → World S J
  set_discovery entry w = record w { discovery_cache = some entry }

  abbrev pub set_jwks : TimedCacheEntry J → World S J → World S J
  set_jwks entry w = record w { jwks_cache = some entry }

  unfoldable pub discovery : AuthProvider → World S J → World S J × Option DiscoveryDocument
  unfolding cached_fetch fetch_discovery
  discovery provider w =
      cached_fetch (λ v. v.discovery_cache) set_discovery (fetch_discovery provider) w

  -- a setting of the configuration, or else of the discovered document
  unfoldable pub discovered :
      AuthProvider
      → Option String
      → (DiscoveryDocument → Option String)
      → World S J
      → World S J × Option String
  unfolding discovery
  discovered provider (some configured) field_of w = (w, some configured)
  discovered provider none field_of w =
      let run = discovery provider w in (run.0, and_then (run.1) field_of)

  unfoldable pub provider_issuer : AuthProvider → World S J → World S J × Option String
  unfolding discovered
  provider_issuer provider w = discovered provider (config_issuer provider.config) (λ d. d.issuer) w

  unfoldable pub provider_jwks_url : AuthProvider → World S J → World S J × Option String
  unfolding discovered
  provider_jwks_url provider w =
      discovered provider (config_jwks_url provider.config) (λ d. d.jwks_uri) w

  unfoldable pub fetch_jwks : AuthProvider → World S J → World S J × Option J
  unfolding provider_jwks_url fetch_json
  fetch_jwks provider w =
      let run = provider_jwks_url provider w in
      elim (run.1) [ none ↦ (run.0, none) | some url ↦ fetch_json o.read_keys provider url (run.0) ]

  unfoldable pub provider_jwks : AuthProvider → World S J → World S J × Option J
  unfolding cached_fetch fetch_jwks
  provider_jwks provider w = cached_fetch (λ v. v.jwks_cache) set_jwks (fetch_jwks provider) w
