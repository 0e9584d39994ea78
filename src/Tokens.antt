-- ===== src/Tokens.antt =====
-- src/auth/outbound/token_cache.rs and token_manager.rs: the tokens of outbound requests. The
-- exchanger, which calls the OAuth2 library, is a parameter, with `S` what it changes. A time is a
-- count of nanoseconds, as is a duration; the limit of chrono's durations, `from_std`, is a parameter,
-- and its panic at a date after its last is left out. A lock is the order in which the calls that
-- have it come.
pub mod Cached
pub mod Shared
mod Tests
use rust_mcp_core.Common.Map
use rust_mcp_core.Common.{
  Bool, Option, Result, String, err, false, if◌then◌else◌, ltb, nat_eq, none, ok, or_else, some,
  string_eq, true, ℕ, ◌*◌, ◌+◌, ◌<>◌,
}
use rust_mcp_core.Common.Map.{Map}
use rust_mcp_core.Errors.{Fallible, fail, internal_error, invalid_request, mcp_error}
use rust_mcp_core.TokenConfig.{
  OutboundOauth2CacheKey, OutboundOauth2ResolvedConfig, from_auth, grant_eq, key_eq,
}
use rust_mcp_core.Upstream.{Host, UpstreamOauth2AuthConfig, client_credentials, refresh_token_grant}

pub record CachedOutboundToken : Type 0 where
  pub access_token : String
  pub refresh_token : Option String
  pub expires_at : Option ℕ

pub record TokenExchangeResult : Type 0 where
  pub access_token : String
  pub refresh_token : Option String
  pub expires_in : Option ℕ

abbrev pub nanos_per_second : ℕ
nanos_per_second = 1000000000

-- `chrono::Duration::from_std` on nanoseconds
module _ (from_std : ℕ → Result String ℕ) where
  unfoldable pub is_fresh : ℕ → ℕ → CachedOutboundToken → Bool
  is_fresh now skew_sec entry = elim entry.expires_at [
    | none ↦ true
    | some expires_at ↦ elim (from_std (skew_sec * nanos_per_second)) [
      | err e ↦ false
      | ok skew ↦ ltb (now + skew) expires_at
    ]
  ]

  unfoldable pub expires_at : ℕ → Option ℕ → Fallible (Option ℕ)
  expires_at now none = ok none
  expires_at now (some expires_in) = elim (from_std expires_in) [
    | err error ↦ err (mcp_error internal_error ("invalid oauth2 expiry: " <> error))
    | ok d ↦ ok (some (now + d))
  ]

pub record OutboundTokenExchanger (S : Type 0) : Type 0 where
  pub exchange_client_credentials :
      OutboundOauth2ResolvedConfig → S → S × Fallible TokenExchangeResult
  pub exchange_refresh_token :
      OutboundOauth2ResolvedConfig → String → S → S × Fallible TokenExchangeResult

-- the entries of `OutboundTokenCache`
abbrev pub Cache : Type 0
Cache = Map OutboundOauth2CacheKey CachedOutboundToken

-- The readings of the clock in one call: before the lock, under it, and after the exchange.
pub record Readings : Type 0 where
  pub arrival : ℕ
  pub locked : ℕ
  pub exchanged : ℕ

abbrev pub kept_if : {A : Type 0} → (A → Bool) → Option A → Option A
kept_if p none = none
kept_if p (some a) = if p a then some a else none

-- `entry.refresh_token` of an entry that may be missing
abbrev pub refresh_token_of : Option CachedOutboundToken → Option String
refresh_token_of none = none
refresh_token_of (some entry) = entry.refresh_token

module _ {S : Type 0} (exchanger : OutboundTokenExchanger S) where
  abbrev pub with_refresh_token :
      OutboundOauth2ResolvedConfig → Option String → S → S × Fallible TokenExchangeResult
  with_refresh_token resolved none s =
      (s, fail invalid_request "oauth2 refresh_token grant requires a refresh token")
  with_refresh_token resolved (some token) s = exchanger.exchange_refresh_token resolved token s

  unfoldable pub exchange_token :
      Cache → OutboundOauth2ResolvedConfig → S → S × Fallible TokenExchangeResult
  exchange_token cache resolved s = elim resolved.grant [
    | client_credentials ↦ exchanger.exchange_client_credentials resolved s
    | refresh_token_grant ↦
        with_refresh_token resolved
          (or_else (refresh_token_of (Map.get resolved.cache_key cache))
            resolved.bootstrap_refresh_token)
          s
  ]

-- the entry that an exchange leaves in the cache
abbrev pub new_entry :
    Cache
    → OutboundOauth2ResolvedConfig
    → TokenExchangeResult
    → (until : Option ℕ) → CachedOutboundToken
new_entry cache resolved result until = record {
  access_token = result.access_token;
  refresh_token = or_else result.refresh_token (
      or_else (refresh_token_of (Map.get resolved.cache_key cache))
        resolved.bootstrap_refresh_token);
  expires_at = until;
}

abbrev pub Outcome : Type 0 → Type 0
Outcome S = Cache × S × Fallible String

module _ (from_std : ℕ → Result String ℕ) where
  unfoldable pub get_fresh :
      Cache → OutboundOauth2CacheKey → (now skew_sec : ℕ) → Option CachedOutboundToken
  unfolding is_fresh
  get_fresh cache key now skew_sec = kept_if (is_fresh from_std now skew_sec) (Map.get key cache)

  -- the check of the cache, which a forced call leaves out
  unfoldable pub usable :
      (force_refresh : Bool)
      → Cache
      → OutboundOauth2ResolvedConfig
      → (now : ℕ) → Option CachedOutboundToken
  unfolding get_fresh
  usable true cache resolved now = none
  usable false cache resolved now =
      get_fresh cache resolved.cache_key now resolved.refresh_policy.skew_sec

  module _ {S : Type 0} (exchanger : OutboundTokenExchanger S) where
    -- what follows a successful exchange
    unfoldable pub store_token :
        Cache → S → OutboundOauth2ResolvedConfig → (now : ℕ) → TokenExchangeResult → Outcome S
    unfolding expires_at
    store_token cache s resolved now result = elim (expires_at from_std now result.expires_in) [
      | err e ↦ (cache, s, err e)
      | ok until ↦ (
        Map.insert resolved.cache_key (new_entry cache resolved result until) cache,
        s,
        ok result.access_token,
      )
    ]

    unfoldable pub exchange_and_store :
        Cache → S → OutboundOauth2ResolvedConfig → (now : ℕ) → Outcome S
    unfolding exchange_token store_token
    exchange_and_store cache s resolved now =
        let run = exchange_token exchanger cache resolved s in
        elim run.1 [
          | err e ↦ (cache, run.0, err e)
          | ok result ↦ store_token cache (run.0) resolved now result
        ]

    -- the part of a call that has the lock of the key
    unfoldable pub under_lock :
        (force_refresh : Bool)
        → Cache
        → S
        → OutboundOauth2ResolvedConfig
        → (locked exchanged : ℕ) → Outcome S
    unfolding usable exchange_and_store
    under_lock force_refresh cache s resolved locked exchanged =
        elim (usable force_refresh cache resolved locked) [
          | some entry ↦ (cache, s, ok entry.access_token)
          | none ↦ exchange_and_store cache s resolved exchanged
        ]

    -- A call, with nothing of other calls between its arrival and its having the lock; the calls of
    -- Shared come to `under_lock` with the cache that the ones before have left.
    unfoldable pub access_token :
        Host
        → (upstream_name : String) → UpstreamOauth2AuthConfig
        → (force_refresh : Bool) → Readings
        → Cache
        → S
        → Outcome S
    unfolding usable under_lock from_auth
    access_token host upstream_name auth force_refresh clock cache s =
        elim (from_auth host upstream_name auth) [
          | err e ↦ (cache, s, err e)
          | ok resolved ↦ elim (usable force_refresh cache resolved clock.arrival) [
            | some entry ↦ (cache, s, ok entry.access_token)
            | none ↦ under_lock force_refresh cache s resolved clock.locked clock.exchanged
          ]
        ]
