-- ===== src/Discovery/Caches.antt =====
-- src/auth/inbound/provider.rs: what the caches of a provider keep.
use rust_mcp_core.Common.{
  Bool-cases, Option, Option-cases, ap, arith, inl, inr, ltb, lt→ltb, none, refl, some, subst, sym,
  true, ℕ, ◌-◌, ◌<◌, ◌∙◌, ◌≡◌,
}
use rust_mcp_core.Discovery.{
  AuthProvider, Outside, TimedCacheEntry, World, cached_fetch, fetch_jwks, fresh_value,
  provider_jwks, set_jwks, ttl,
}

fresh_value-some :
    {A : Type 0} (now : ℕ) (entry : TimedCacheEntry A)
    → now - entry.fetched_at < ttl
    → fresh_value now (some entry) ≡ some entry.value
unfolding fresh_value
fresh_value-some now entry young =
    let t : ltb (now - entry.fetched_at) ttl ≡ true = lt→ltb (now - entry.fetched_at) ttl young in
    rw (t, fresh_value) refl

fresh_value-cached :
    {A : Type 0} (now : ℕ) (cache : Option (TimedCacheEntry A)) {value : A}
    → fresh_value now cache ≡ some value
    → (entry : TimedCacheEntry A) × (cache ≡ some entry) × (entry.value ≡ value)
unfolding fresh_value
fresh_value-cached now none h = grind arith
fresh_value-cached now (some entry) {value} h =
    elim (Bool-cases (ltb (now - entry.fetched_at) ttl)) [
      | inl young ↦
          let found : some entry.value ≡ some value = rw young at h in (entry, refl, cc found)
      | inr old ↦ let missed : none ≡ some value = rw old at h in grind arith
    ]

module _ {S J A : Type 0} (o : Outside S J) (read : World S J → Option (TimedCacheEntry A))
    (write : TimedCacheEntry A → World S J → World S J) (fetch : World S J → World S J × Option A)
    (read-write : (entry : TimedCacheEntry A) (w : World S J)
      → read (write entry w) ≡ some entry) where
  -- A call leaves the value that it returns in its cache.
  abbrev Kept : World S J × Option A → Type 0
  Kept (w, none) = Unit
  Kept (w, some value) = (entry : TimedCacheEntry A) × (read w ≡ some entry) × (entry.value ≡ value)

  cached_fetch-Kept : (w : World S J) → Kept (cached_fetch o read write fetch w)
  unfolding cached_fetch
  cached_fetch-Kept w = elim (Option-cases (fresh_value (o.now w.outside) (read w))) [
    | inr (value, found) ↦ rw (found, cached_fetch) (fresh_value-cached _ (read w) found)
    | inl missed ↦
        let locked = o.wait_for_lock w in
        elim (Option-cases (fresh_value (o.now locked.outside) (read locked))) [
          | inr (value, found) ↦
              rw (missed, found, cached_fetch) (fresh_value-cached _ (read locked) found)
          | inl missed' ↦ elim (Option-cases ((fetch locked).1)) [
            | inl failed_fetch ↦ rw (missed, missed', failed_fetch, cached_fetch) tt
            | inr (value, fetched) ↦
                rw (missed, missed', fetched, cached_fetch) (_, read-write _ _, refl)
          ]
        ]
  ]

  cached_fetch-hit :
      (w : World S J) (entry : TimedCacheEntry A)
      → read w ≡ some entry
      → o.now w.outside - entry.fetched_at < ttl
      → cached_fetch o read write fetch w ≡ (w, some entry.value)
  unfolding cached_fetch
  cached_fetch-hit w entry found young =
      let hit : fresh_value (o.now w.outside) (read w) ≡ some entry.value =
        ap (fresh_value (o.now w.outside)) found ∙ fresh_value-some (o.now w.outside) entry young in
      rw (hit, cached_fetch) refl

module _ {S J : Type 0} (o : Outside S J) (provider : AuthProvider) where
  -- Where a provider has got its keys, a later call that finds the same entry in the cache, less than
  -- ten minutes after it was fetched, returns the same keys, sends nothing and changes nothing.
  pub keys_are_kept :
      (w w' later : World S J) (keys : J) (entry : TimedCacheEntry J)
      → provider_jwks o provider w ≡ (w', some keys)
      → w'.jwks_cache ≡ some entry
      → later.jwks_cache ≡ w'.jwks_cache
      → o.now later.outside - entry.fetched_at < ttl
      → provider_jwks o provider later ≡ (later, some keys)
  unfolding provider_jwks
  keys_are_kept w w' later keys entry got stored same young =
      let kept : Kept o (λ v. v.jwks_cache) (set_jwks o) (fetch_jwks o provider) (λ e v. refl)
          (w', some keys) =
        subst (Kept o (λ v. v.jwks_cache) (set_jwks o) (fetch_jwks o provider) (λ e v. refl)) got (
          cached_fetch-Kept o (λ v. v.jwks_cache) (set_jwks o) (fetch_jwks o provider) (λ e v. refl)
            w) in
      let (entry', stored', value) = kept in
      let e : some entry ≡ some entry' = sym stored ∙ stored' in
      let e' : entry ≡ entry' = cc e in
      cached_fetch-hit o (λ v. v.jwks_cache) (set_jwks o) (fetch_jwks o provider) (λ e v. refl)
        later entry (same ∙ stored) young
      ∙ ap (λ k. (later, some k)) (ap (λ (x : TimedCacheEntry J). x.value) e' ∙ value)
