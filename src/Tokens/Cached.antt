-- ===== src/Tokens/Cached.antt =====
-- src/auth/outbound/token_manager.rs: what a call leaves in the cache, and when it exchanges.
use rust_mcp_core.Common.Map
use rust_mcp_core.Common.{
  Bool, Bool-cases, Option, Option-cases, Result, Result-cases, String, ap, arith, err, false, inl,
  inr, nat_eq, none, ok, or_else, refl, some, string_eq, subst, true, ℕ, ◌==◌, ◌∙◌, ◌≡◌, ◌≢◌,
}
use rust_mcp_core.Common.Map.{Map}
use rust_mcp_core.Errors.{Fallible}
use rust_mcp_core.TokenConfig.{
  OutboundOauth2CacheKey, OutboundOauth2ResolvedConfig, cache_key_of, from_auth, grant_eq, key_eq,
}
use rust_mcp_core.TokenConfig.Keys.{from_auth_has_token}
use rust_mcp_core.Tokens.{
  access_token, expires_at, Cache, CachedOutboundToken, OutboundTokenExchanger, Outcome, Readings,
  TokenExchangeResult, exchange_and_store, exchange_token, get_fresh, is_fresh, kept_if, new_entry,
  refresh_token_of, store_token, under_lock, usable, with_refresh_token,
}
use rust_mcp_core.Upstream.{
  GrantType, Host, UpstreamOauth2AuthConfig, client_credentials, refresh_token_grant,
}

abbrev pub outcome_cache : {S : Type 0} → Outcome S → Cache
outcome_cache (cache, s, r) = cache

abbrev pub outcome_state : {S : Type 0} → Outcome S → S
outcome_state (cache, s, r) = s

abbrev pub outcome_token : {S : Type 0} → Outcome S → Fallible String
outcome_token (cache, s, r) = r

-- What holds of a call for the key `key` that finds the cache `before`: with an error it has left the
-- cache as it was, and with a token it leaves an entry of the key with this token, and the other keys
-- as they were.
abbrev pub Leaves : {S : Type 0} → Cache → OutboundOauth2CacheKey → Outcome S → Type 0
Leaves before key (after, s, err e) = after ≡ before
Leaves before key (after, s, ok token) =
    ((entry : CachedOutboundToken) × (Map.get key after ≡ some entry)
      × (entry.access_token ≡ token))
    × ((k : OutboundOauth2CacheKey) → key ≢ k → Map.get k after ≡ Map.get k before)

kept_if-some :
    {A : Type 0} (p : A → Bool) (o : Option A) {b : A}
    → kept_if p o ≡ some b
    → (o ≡ some b) × (p b ≡ true)
kept_if-some p none {b} h = grind arith
kept_if-some p (some a) {b} h = elim (Bool-cases (p a)) [
  | inl yes_p ↦
      let q : some a ≡ some b = rw yes_p at h in
      let e : a ≡ b = cc q in (q, subst (λ x. p x ≡ true) e yes_p)
  | inr no_p ↦ grind arith
]

other_key : (k j : OutboundOauth2CacheKey) → k ≢ j → (k == j) ≡ false
other_key k j d = elim (Bool-cases (k == j)) [
  | inl same ↦ absurd (d ((key_eq.agrees k j).0 same))
  | inr other ↦ other
]

by_grant :
    {A : Type 0} (x y : A) (g : GrantType)
    → g ≡ refresh_token_grant
    → elim g [ client_credentials ↦ x | refresh_token_grant ↦ y ] ≡ y
by_grant x y client_credentials e = grind arith
by_grant x y refresh_token_grant e = refl

or_else-some : {A : Type 0} (a b : Option A) (x : A) → b ≡ some x → (y : A) × (or_else a b ≡ some y)
or_else-some none b x e = (x, e)
or_else-some (some a) b x e = (a, refl)

module _ (from_std : ℕ → Result String ℕ) {S : Type 0} (exchanger : OutboundTokenExchanger S) where
  pub usable-cached :
      (force : Bool) (cache : Cache) (resolved : OutboundOauth2ResolvedConfig) (now : ℕ)
      {entry : CachedOutboundToken}
      → usable from_std force cache resolved now ≡ some entry
      → Map.get resolved.cache_key cache ≡ some entry
  unfolding usable get_fresh
  usable-cached true cache resolved now h = grind arith
  usable-cached false cache resolved now h = (kept_if-some _ (Map.get resolved.cache_key cache) h).0

  store_token-Leaves :
      (cache : Cache) (s : S) (resolved : OutboundOauth2ResolvedConfig) (now : ℕ)
      (result : TokenExchangeResult)
      → Leaves cache resolved.cache_key (store_token from_std exchanger cache s resolved now result)
  unfolding store_token
  store_token-Leaves cache s resolved now result =
      elim (Result-cases (expires_at from_std now result.expires_in)) [
        | inr (e, q) ↦ rw (q, store_token) refl
        | inl (until, q) ↦
            let key = resolved.cache_key in
            let entry = new_entry cache resolved result until in
            rw (q, store_token)
              (
                (entry, Map.get-insert_self key entry cache, refl),
                λ k d. rw (Map.get-insert key k entry cache, other_key key k d) refl,
              )
      ]

  exchange_and_store-Leaves :
      (cache : Cache) (s : S) (resolved : OutboundOauth2ResolvedConfig) (now : ℕ)
      → Leaves cache resolved.cache_key (exchange_and_store from_std exchanger cache s resolved now)
  unfolding exchange_and_store
  exchange_and_store-Leaves cache s resolved now =
      elim (Result-cases ((exchange_token exchanger cache resolved s).1)) [
        | inr (e, q) ↦ rw (q, exchange_and_store) refl
        | inl (result, q) ↦
            rw (q, exchange_and_store) (store_token-Leaves cache _ resolved now result)
      ]

  pub under_lock-Leaves :
      (force : Bool) (cache : Cache) (s : S) (resolved : OutboundOauth2ResolvedConfig)
      (locked exchanged : ℕ)
      → Leaves cache resolved.cache_key
          (under_lock from_std exchanger force cache s resolved locked exchanged)
  unfolding under_lock
  under_lock-Leaves force cache s resolved locked exchanged =
      elim (Option-cases (usable from_std force cache resolved locked)) [
        | inl q ↦ rw (q, under_lock) (exchange_and_store-Leaves cache s resolved exchanged)
        | inr (entry, q) ↦
            rw (q, under_lock)
              ((entry, usable-cached force cache resolved locked q, refl), λ k d. refl)
      ]

  -- A call that fails leaves the cache as it was, and one that returns a token leaves an entry with
  -- it, and the entries of all other keys as they were.
  pub access_token-Leaves :
      (host : Host) (upstream_name : String) (auth : UpstreamOauth2AuthConfig) (force : Bool)
      (clock : Readings) (cache : Cache) (s : S)
      → Leaves cache
          (cache_key_of upstream_name auth)
          (access_token from_std exchanger host upstream_name auth force clock cache s)
  unfolding access_token
  access_token-Leaves host upstream_name auth force clock cache s =
      elim (Result-cases (from_auth host upstream_name auth)) [
        | inr (e, q) ↦ rw (q, access_token) refl
        | inl (resolved, q) ↦
            subst
              (λ key.
                Leaves cache key
                  (access_token from_std exchanger host upstream_name auth force clock cache s))
              (from_auth_has_token host upstream_name auth resolved q).0
              (elim (Option-cases (usable from_std force cache resolved clock.arrival)) [
                | inl none_usable ↦
                    rw (q, none_usable, access_token)
                      (under_lock-Leaves force cache s resolved clock.locked clock.exchanged)
                | inr (entry, found) ↦
                    rw (q, found, access_token)
                      (
                        (entry, usable-cached force cache resolved clock.arrival found, refl),
                        λ k d. refl,
                      )
              ])
      ]

  -- A call that is not forced, and finds a fresh entry for its key, returns its token and changes
  -- neither the cache nor the exchanger.
  pub fresh_token_is_used :
      (host : Host) (upstream_name : String) (auth : UpstreamOauth2AuthConfig)
      (resolved : OutboundOauth2ResolvedConfig) (clock : Readings) (cache : Cache) (s : S)
      (entry : CachedOutboundToken)
      → from_auth host upstream_name auth ≡ ok resolved
      → Map.get (cache_key_of upstream_name auth) cache ≡ some entry
      → is_fresh from_std clock.arrival resolved.refresh_policy.skew_sec entry ≡ true
      → access_token from_std exchanger host upstream_name auth false clock cache s
        ≡ (cache, s, ok entry.access_token)
  unfolding access_token usable get_fresh
  fresh_token_is_used host upstream_name auth resolved clock cache s entry q found fresh =
      let found' : Map.get resolved.cache_key cache ≡ some entry =
        rw ((from_auth_has_token host upstream_name auth resolved q).0) found in
      rw (q, found', fresh, access_token, usable, get_fresh) refl

  -- A resolved configuration never fails for want of a refresh token: with the grant of a refresh
  -- token the exchange is made with the cached one, or else with the configured one.
  pub refresh_token_is_there :
      (host : Host) (upstream_name : String) (auth : UpstreamOauth2AuthConfig)
      (resolved : OutboundOauth2ResolvedConfig) (cache : Cache) (s : S)
      → from_auth host upstream_name auth ≡ ok resolved
      → resolved.grant ≡ refresh_token_grant
      → (token : String) × (or_else
            (refresh_token_of (Map.get (cache_key_of upstream_name auth) cache))
            resolved.bootstrap_refresh_token
          ≡ some token)
        × (exchange_token exchanger cache resolved s
            ≡ exchanger.exchange_refresh_token resolved token s)
  unfolding exchange_token
  refresh_token_is_there host upstream_name auth resolved cache s q g =
      let (same_key, has) = from_auth_has_token host upstream_name auth resolved q in
      let (boot, b) = has g in
      let (token, chosen) =
        or_else-some (refresh_token_of (Map.get resolved.cache_key cache))
          resolved.bootstrap_refresh_token boot b in
      rw (← same_key) (
        token,
        chosen,
        by_grant _ _ resolved.grant g ∙ ap (λ o. with_refresh_token exchanger resolved o s) chosen,
      )
