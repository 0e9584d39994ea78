-- ===== src/Tokens/Shared.antt =====
-- src/auth/outbound/token_manager.rs: calls that wait for the lock of one key share an exchange. Each
-- of them has missed the cache before it came to the lock; the list is the order in which they have
-- the lock, with the readings of the clock under it and after an exchange.
use rust_mcp_core.Common.Map
use rust_mcp_core.Common.{
  All, List, Option, Result, Result-cases, String, [], ap, arith, false, inl, inr, nat_eq, none, ok,
  refl, some, string_eq, subst, sym, true, ℕ, ◌*◌, ◌∙◌, ◌∷◌, ◌≡◌, ◌≤◌,
}
use rust_mcp_core.Common.Map.{Map}
use rust_mcp_core.Errors.{Fallible}
use rust_mcp_core.TokenConfig.{OutboundOauth2ResolvedConfig, grant_eq, key_eq}
use rust_mcp_core.Tokens.{
  Cache, CachedOutboundToken, OutboundTokenExchanger, get_fresh, is_fresh, nanos_per_second,
  under_lock, usable,
}
use rust_mcp_core.Tokens.Cached.{Leaves, under_lock-Leaves}

is_fresh-earlier :
    (from_std : ℕ → Result String ℕ) (early late skew_sec : ℕ) (entry : CachedOutboundToken)
    → early ≤ late
    → is_fresh from_std late skew_sec entry ≡ true
    → is_fresh from_std early skew_sec entry ≡ true
unfolding is_fresh
is_fresh-earlier from_std early late skew_sec entry le h = fresh entry.expires_at h
  where
    fresh :
        (until : Option ℕ)
        → is_fresh from_std late skew_sec (record entry { expires_at = until }) ≡ true
        → is_fresh from_std early skew_sec (record entry { expires_at = until }) ≡ true
    fresh none h = refl
    fresh (some t) h = elim (Result-cases (from_std (skew_sec * nanos_per_second))) [
      | inl (skew, q) ↦ ground (arith, q)
      | inr (e, q) ↦ ground (arith, q)
    ]

unfoldable pub same_for_all : List (ℕ × ℕ) → Fallible String → List (Fallible String)
same_for_all [] token = []
same_for_all (call ∷ calls) token = token ∷ same_for_all calls token

module _ (from_std : ℕ → Result String ℕ) {S : Type 0} (exchanger : OutboundTokenExchanger S)
    (resolved : OutboundOauth2ResolvedConfig) where
  unfoldable pub locked_calls : List (ℕ × ℕ) → Cache → S → Cache × S × List (Fallible String)
  unfolding under_lock
  locked_calls [] cache s = (cache, s, [])
  locked_calls ((locked, exchanged) ∷ calls) cache s =
      let (cache', s', token) =
        under_lock from_std exchanger false cache s resolved locked exchanged in
      let (cache'', s'', tokens) = locked_calls calls cache' s' in (cache'', s'', token ∷ tokens)

  calls_reuse :
      (calls : List (ℕ × ℕ)) (cache : Cache) (s : S) (entry : CachedOutboundToken) (horizon : ℕ)
      → Map.get resolved.cache_key cache ≡ some entry
      → is_fresh from_std horizon resolved.refresh_policy.skew_sec entry ≡ true
      → All (λ (c : ℕ × ℕ). c.0 ≤ horizon) calls
      → locked_calls calls cache s ≡ (cache, s, same_for_all calls (ok entry.access_token))
  unfolding locked_calls same_for_all under_lock usable get_fresh
  calls_reuse [] cache s entry horizon found fresh within = refl
  calls_reuse ((locked, exchanged) ∷ calls) cache s entry horizon found fresh within =
      let now =
        is_fresh-earlier from_std locked horizon resolved.refresh_policy.skew_sec entry within.0
          fresh in
      rw (found, now, locked_calls, under_lock, usable, get_fresh)
        (rw (calls_reuse calls cache s entry horizon found fresh within.1) refl)

  -- Where a call that is not forced gets a token under the lock, and the entry that it leaves is fresh
  -- until some instant, every call that has the lock later, up to that instant, returns the same
  -- token, and none of them exchanges or changes the cache.
  pub calls_share_an_exchange :
      (locked exchanged : ℕ) (calls : List (ℕ × ℕ)) (cache : Cache) (s : S) (cache' : Cache)
      (s' : S) (token : String) (entry : CachedOutboundToken) (horizon : ℕ)
      → under_lock from_std exchanger false cache s resolved locked exchanged
        ≡ (cache', s', ok token)
      → Map.get resolved.cache_key cache' ≡ some entry
      → is_fresh from_std horizon resolved.refresh_policy.skew_sec entry ≡ true
      → All (λ (c : ℕ × ℕ). c.0 ≤ horizon) calls
      → locked_calls ((locked, exchanged) ∷ calls) cache s
        ≡ (cache', s', same_for_all ((locked, exchanged) ∷ calls) (ok token))
  unfolding locked_calls same_for_all
  calls_share_an_exchange locked exchanged calls cache s cache' s' token entry horizon first found
        fresh within =
      let leaves : Leaves cache resolved.cache_key (cache', s', ok token) =
        subst (Leaves cache resolved.cache_key) first
          (under_lock-Leaves from_std exchanger false cache s resolved locked exchanged) in
      let (entry', found', same) = leaves.0 in
      let e : some entry' ≡ some entry = sym found' ∙ found in
      let e' : entry' ≡ entry = cc e in
      let t : entry.access_token ≡ token =
        ap (λ (c : CachedOutboundToken). c.access_token) (sym e') ∙ same in
      rw (first, locked_calls)
        (rw (calls_reuse calls cache' s' entry horizon found fresh within, t) refl)
