-- ===== src/RateLimit/Bound.antt =====
-- src/http/hardening.rs: how many tokens a bucket grants.
use native.Mathlib.Nat.{add-mul}
use rust_mcp_core.Common.{
  Bool-cases, List, [], ap, arith, if◌then◌else◌, inl, inr, leb, leb→le, refl, suc, sym, ℕ, ◌*◌,
  ◌+◌, ◌-◌, ◌∙◌, ◌∷◌, ◌≡◌, ◌≤◌,
}
use rust_mcp_core.RateLimit.{
  RateBucketSpec, TokenBucket, nanos_per_sec, new, refill_nanos, refilled, spend, take_token,
}

module _ (spec : RateBucketSpec) where
  -- The tokens that a bucket grants at a sequence of instants, and the bucket after it.
  unfoldable pub granted : List ℕ → TokenBucket → ℕ
  granted [] b = 0
  granted (now ∷ later) b =
      let (after, allowed) = take_token spec now b in
      let rest = granted later after in if allowed then suc rest else rest

  -- Instants in order, from a first one on.
  abbrev pub Ordered : ℕ → List ℕ → Type 0
  Ordered first [] = Unit
  Ordered first (now ∷ later) = (first ≤ now) × Ordered now later

  -- the last of them
  unfoldable pub last_of : ℕ → List ℕ → ℕ
  last_of first [] = first
  last_of first (now ∷ later) = last_of now later

  last_of-le : (first : ℕ) (times : List ℕ) → Ordered first times → first ≤ last_of first times
  unfolding last_of
  last_of-le first [] h = omega arith
  last_of-le first (now ∷ later) h = omega (arith, h.0, last_of-le now later (h.1))

  -- What a refill adds, in billionths of a token.
  refilled-le :
      (now : ℕ) (b : TokenBucket)
      → nanos_per_sec * (refilled spec now b).tokens + (refilled spec now b).rem_nanos
        ≤ nanos_per_sec * b.tokens + b.rem_nanos + (now - b.last_refill) * spec.refill_per_sec
  unfolding refilled refill_nanos
  refilled-le now b = omega arith

  refilled-last : (now : ℕ) (b : TokenBucket) → (refilled spec now b).last_refill ≡ now
  unfolding refilled
  refilled-last now b = refl

  elapsed-join :
      (a b c : ℕ)
      → a ≤ b
      → b ≤ c
      → (b - a) * spec.refill_per_sec + (c - b) * spec.refill_per_sec
        ≡ (c - a) * spec.refill_per_sec
  elapsed-join a b c h k =
      sym (add-mul (b - a) (c - b) spec.refill_per_sec)
      ∙ ap (λ (n : ℕ). n * spec.refill_per_sec) (omega arith)

  -- what is left to grant from a bucket that has just been refilled
  abbrev Bounded : List ℕ → TokenBucket → Type 0
  Bounded times b =
      nanos_per_sec * granted times b
      ≤ nanos_per_sec * b.tokens
        + b.rem_nanos
        + (last_of b.last_refill times - b.last_refill) * spec.refill_per_sec

  granted-Bounded :
      (times : List ℕ) (b : TokenBucket) → Ordered b.last_refill times → Bounded times b
  unfolding granted last_of take_token spend
  granted-Bounded [] b h = omega arith
  granted-Bounded (now ∷ later) b h =
      let r = refilled spec now b in
      let total =
        elapsed-join b.last_refill now (last_of now later) (h.0) (last_of-le now later (h.1)) in
      elim (Bool-cases (leb 1 r.tokens)) [
        | inl enough ↦
            let rest =
              granted-Bounded later (record r { tokens = r.tokens - 1 })
                (rw (refilled-last now b) (h.1)) in
            rw (enough) (omega (arith, rest, refilled-le now b, total, leb→le 1 r.tokens enough))
        | inr short ↦
            let rest = granted-Bounded later r (rw (refilled-last now b) (h.1)) in
            rw (short) (omega (arith, rest, refilled-le now b, total))
      ]

  -- A new bucket grants, over a sequence of instants in order, at most its capacity and what the refill
  -- rate gives in the time from its making to the last of them.
  pub granted_bound :
      (times : List ℕ) (made : ℕ)
      → Ordered made times
      → nanos_per_sec * granted times (new spec made)
        ≤ nanos_per_sec * spec.capacity + (last_of made times - made) * spec.refill_per_sec
  unfolding new
  granted_bound times made h = omega (
    arith,
    granted-Bounded times (record { tokens = spec.capacity; last_refill = made; rem_nanos = 0 }) h,
  )
