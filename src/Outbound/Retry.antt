-- ===== src/Outbound/Retry.antt =====
-- src/http/outbound_pipeline.rs: the retry loop. `S` is the state that the operation changes, with
-- what the loop sees of the world; the operation and the test for a retry are parameters, as in the
-- code. The loop runs on fuel, and as many units as attempts are enough.
use rust_mcp_core.Common.{
  Bool, Option, Result, String, err, false, if◌then◌else◌, leb, none, not, some, suc, true, zero, ℕ,
  ◌+◌, ◌||◌,
}
use rust_mcp_core.Outbound.{method_is_retryable}
use rust_mcp_core.Upstream.{OutboundRetryConfig}

-- The token of a request: if it is cancelled in a state, and if it becomes so in the delay that
-- starts in one.
pub record CancellationToken (S : Type 0) : Type 0 where
  pub is_cancelled : S → Bool
  pub cancelled_within : ℕ → S → Bool

abbrev pub on_token :
    {S : Type 0} → Option (CancellationToken S) → (CancellationToken S → Bool) → Bool
on_token none test = false
on_token (some token) test = test token

module _ {S E T : Type 0} (operation : S → S × Result E T)
    (should_retry : Result E T → OutboundRetryConfig → Bool) (sleep : ℕ → S → S)
    (cancellation : Option (CancellationToken S)) (on_cancel : E) where
  unfoldable pub retry_from :
      (fuel : ℕ) → OutboundRetryConfig → (attempt : ℕ) → S → Option (S × Result E T)
  retry_from zero retry attempt s = none
  retry_from (suc fuel) retry attempt s =
      elim (on_token cancellation (λ token. token.is_cancelled s)) [
        | true ↦ some (s, err on_cancel)
        | false ↦
            let run = operation s in
            elim (leb retry.max_attempts attempt || not (should_retry (run.1) retry)) [
              | true ↦ some run
              | false ↦
                  elim (on_token cancellation
                    (λ token. token.cancelled_within retry.delay_ms (run.0))) [
                      | true ↦ some (run.0, err on_cancel)
                      | false ↦ retry_from fuel retry (attempt + 1) (sleep retry.delay_ms (run.0))
                    ]
            ]
      ]

  unfoldable pub execute_with_retry :
      (fuel : ℕ) → Option OutboundRetryConfig → (method : String) → S → Option (S × Result E T)
  unfolding retry_from
  execute_with_retry fuel none method s = some (operation s)
  execute_with_retry fuel (some retry) method s =
      if leb retry.max_attempts 1 || not (method_is_retryable method)
      then some (operation s)
      else retry_from fuel retry 1 s
