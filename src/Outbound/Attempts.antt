-- ===== src/Outbound/Attempts.antt =====
-- src/http/outbound_pipeline.rs: how a call with retries ends.
use rust_mcp_core.Common.{
  Bool, Bool-cases, Option, Result, String, arith, err, false, if◌then◌else◌, inl, inr, leb, none,
  refl, some, suc, true, zero, ℕ, ◌+◌, ◌-◌, ◌<◌, ◌≡◌, ◌≤◌,
}
use rust_mcp_core.Outbound.{method_is_retryable}
use rust_mcp_core.Outbound.Retry.{CancellationToken, execute_with_retry, on_token, retry_from}
use rust_mcp_core.Upstream.{OutboundRetryConfig}

module _ {S E T : Type 0} (operation : S → S × Result E T)
    (should_retry : Result E T → OutboundRetryConfig → Bool) (sleep : ℕ → S → S)
    (cancellation : Option (CancellationToken S)) (on_cancel : E)
    (retry : OutboundRetryConfig) where
  abbrev pub stopped : S → Bool
  stopped s = on_token cancellation (λ token. token.is_cancelled s)

  abbrev pub stopped_within : S → Bool
  stopped_within s = on_token cancellation (λ token. token.cancelled_within retry.delay_ms s)

  -- How a call ends that has made as many attempts as the first index says, of as many as the second
  -- allows.
  pub data Ends : (made allowed : ℕ) → S → S × Result E T → Type 0 where
    cancelled_before : {m : ℕ} {s : S} → stopped s ≡ true → Ends 0 m s (s, err on_cancel)
    last_attempt : {s : S} → stopped s ≡ false → Ends 1 1 s (operation s)
    no_retry :
        {m : ℕ} {s : S}
        → stopped s ≡ false
        → should_retry ((operation s).1) retry ≡ false
        → Ends 1 (suc m) s (operation s)
    cancelled_after :
        {m : ℕ} {s : S}
        → stopped s ≡ false
        → should_retry ((operation s).1) retry ≡ true
        → stopped_within ((operation s).0) ≡ true
        → Ends 1 (suc (suc m)) s ((operation s).0, err on_cancel)
    again :
        {n m : ℕ} {s : S} {r : S × Result E T}
        → stopped s ≡ false
        → should_retry ((operation s).1) retry ≡ true
        → stopped_within ((operation s).0) ≡ false
        → Ends n (suc m) (sleep retry.delay_ms ((operation s).0)) r
        → Ends (suc n) (suc (suc m)) s r

  made_bound : {n m : ℕ} {s : S} {r : S × Result E T} → Ends n m s r → n ≤ m
  made_bound (cancelled_before c) = omega arith
  made_bound (last_attempt c) = omega arith
  made_bound (no_retry c d) = omega arith
  made_bound (cancelled_after c d e) = omega arith
  made_bound (again c d e rest) = let h = made_bound rest in omega arith

  abbrev Run : (fuel attempt allowed : ℕ) → S → Type 0
  Run fuel attempt allowed s =
      (r : S × Result E T) × (n : ℕ) × (retry_from operation should_retry sleep cancellation
          on_cancel fuel retry attempt s
        ≡ some r)
      × Ends n allowed s r

  retry_from-Ends :
      (fuel attempt allowed : ℕ) (s : S)
      → attempt + allowed ≡ suc retry.max_attempts
      → 0 < allowed
      → allowed ≤ fuel
      → Run fuel attempt allowed s
  unfolding retry_from
  retry_from-Ends zero attempt allowed s e p f = absurd (omega arith)
  retry_from-Ends (suc fuel) attempt zero s e p f = absurd (omega arith)
  retry_from-Ends (suc fuel) attempt (suc zero) s e p f =
      let final : leb retry.max_attempts attempt ≡ true = ground arith in
      elim (Bool-cases (stopped s)) [
        | inl stop ↦ ((s, err on_cancel), 0, rw (stop, retry_from) refl, cancelled_before stop)
        | inr go ↦ (operation s, 1, rw (go, final, retry_from) refl, last_attempt go)
      ]
  retry_from-Ends (suc fuel) attempt (suc (suc m)) s e p f =
      let more : leb retry.max_attempts attempt ≡ false = ground arith in
      elim (Bool-cases (stopped s)) [
        | inl stop ↦ ((s, err on_cancel), 0, rw (stop, retry_from) refl, cancelled_before stop)
        | inr go ↦ elim (Bool-cases (should_retry ((operation s).1) retry)) [
          | inr kept ↦ (operation s, 1, rw (go, more, kept, retry_from) refl, no_retry go kept)
          | inl retried ↦ elim (Bool-cases (stopped_within ((operation s).0))) [
            | inl stop ↦ (
              ((operation s).0, err on_cancel),
              1,
              rw (go, more, retried, stop, retry_from) refl,
              cancelled_after go retried stop,
            )
            | inr wait ↦
                let (r, n, runs, ends) =
                  retry_from-Ends fuel (attempt + 1) (suc m)
                    (sleep retry.delay_ms ((operation s).0)) (omega arith) (omega arith)
                    (omega arith) in
                (
                  r,
                  suc n,
                  rw (go, more, retried, wait, retry_from) runs,
                  again go retried wait ends,
                )
          ]
        ]
      ]

  -- With a method that is retried and more than one attempt allowed, a call returns on as many units
  -- of fuel as attempts are allowed, and makes no more attempts than that; it ends cancelled before
  -- an attempt or in a delay, with an attempt that is not retried, or with the last one.
  pub calls_end :
      (fuel : ℕ) (method : String) (s : S)
      → 1 < retry.max_attempts
      → method_is_retryable method ≡ true
      → retry.max_attempts ≤ fuel
      → (r : S × Result E T) × (n : ℕ) × (execute_with_retry operation should_retry sleep
            cancellation on_cancel fuel
            (some retry)
            method
            s
          ≡ some r)
        × (n ≤ retry.max_attempts)
        × Ends n retry.max_attempts s r
  unfolding execute_with_retry
  calls_end fuel method s several retryable enough =
      let more : leb retry.max_attempts 1 ≡ false = ground arith in
      let (r, n, runs, ends) =
        retry_from-Ends fuel 1 retry.max_attempts s (omega arith) (omega arith) enough in
      (r, n, rw (more, retryable) runs, made_bound ends, ends)

  -- With as many units of fuel as attempts are allowed, a call returns.
  pub calls_return :
      (fuel : ℕ) (method : String) (s : S)
      → retry.max_attempts ≤ fuel
      → (r : S × Result E T) × (execute_with_retry operation should_retry sleep cancellation
            on_cancel fuel
            (some retry)
            method
            s
          ≡ some r)
  unfolding execute_with_retry
  calls_return fuel method s enough = elim (Bool-cases (leb retry.max_attempts 1)) [
    | inl one ↦ (operation s, rw one refl)
    | inr several ↦ elim (Bool-cases (method_is_retryable method)) [
      | inr once ↦ (operation s, rw (several, once) refl)
      | inl retryable ↦
          let (r, n, runs, bound, ends) = calls_end fuel method s (ground arith) retryable enough in
          (r, runs)
    ]
  ]

module _ {S E T : Type 0} (operation : S → S × Result E T)
    (should_retry : Result E T → OutboundRetryConfig → Bool) (sleep : ℕ → S → S) (on_cancel : E)
    (retry : OutboundRetryConfig) where
  -- The first outcome that is not to be retried, of the first attempt and at most so many more.
  unfoldable pub settled : (more : ℕ) → S → S × Result E T
  settled zero s = operation s
  settled (suc more) s = elim (should_retry ((operation s).1) retry) [
    | true ↦ settled more (sleep retry.delay_ms ((operation s).0))
    | false ↦ operation s
  ]

  unfoldable pub retries_allowed : (method : String) → ℕ
  retries_allowed method = if method_is_retryable method then retry.max_attempts - 1 else 0

  retry_from-settled :
      (fuel attempt more : ℕ) (s : S)
      → attempt + more ≡ retry.max_attempts
      → more < fuel
      → retry_from operation should_retry sleep none on_cancel fuel retry attempt s
        ≡ some (settled more s)
  unfolding retry_from settled
  retry_from-settled zero attempt more s e f = absurd (omega arith)
  retry_from-settled (suc fuel) attempt zero s e f =
      let final : leb retry.max_attempts attempt ≡ true = ground arith in
      rw (final, retry_from, settled) refl
  retry_from-settled (suc fuel) attempt (suc more) s e f =
      let left : leb retry.max_attempts attempt ≡ false = ground arith in
      elim (Bool-cases (should_retry ((operation s).1) retry)) [
        | inl retried ↦
            rw (left, retried, retry_from, settled)
              (retry_from-settled fuel (attempt + 1) more (sleep retry.delay_ms ((operation s).0))
                (omega arith) (omega arith))
        | inr kept ↦ rw (left, kept, retry_from, settled) refl
      ]

  -- A call that no token cancels returns, on one unit of fuel for each attempt allowed, the first
  -- outcome that is not to be retried, of as many attempts as are allowed: one where the method is not
  -- retried.
  pub call_settles :
      (fuel : ℕ) (method : String) (s : S)
      → retry.max_attempts ≤ fuel
      → execute_with_retry operation should_retry sleep none on_cancel fuel (some retry) method s
        ≡ some (settled (retries_allowed method) s)
  unfolding execute_with_retry retries_allowed settled
  call_settles fuel method s enough = elim (Bool-cases (method_is_retryable method)) [
    | inr once ↦ elim (Bool-cases (leb retry.max_attempts 1)) [
      | inl one ↦ rw (one, once) refl
      | inr several ↦ rw (several, once) refl
    ]
    | inl retryable ↦ elim (Bool-cases (leb retry.max_attempts 1)) [
      | inl one ↦
          let alone : retry.max_attempts - 1 ≡ 0 = ground arith in rw (one, retryable, alone) refl
      | inr several ↦
          rw (several, retryable)
            (retry_from-settled fuel 1 (retry.max_attempts - 1) s (ground arith) (ground arith))
    ]
  ]
