-- ===== src/ResponseLimits/Limits.antt =====
-- src/engine/orchestration/response_limits.rs: which results pass.
use rust_mcp_core.Common.{
  Option, Result, String, arith, err, none, ok, refl, some, ℕ, ◌>>=◌, ◌↔◌, ◌≡◌, ◌≤◌,
}
use rust_mcp_core.Errors.{Fallible}
use rust_mcp_core.Json.{Value}
use rust_mcp_core.Protocol.{CallToolResult}
use rust_mcp_core.ResponseLimits.{
  ResponseBytes, ResponseLimitsConfig, check_limit, check_limits, enforce_response_limits,
  measure_result_bytes,
}

-- A size that no limit, or a limit that is not below it, applies to.
abbrev pub Within : ℕ → Option ℕ → Type 0
Within n none = Unit
Within n (some limit) = n ≤ limit

-- The five sizes, each with its limit.
abbrev pub AllWithin : ResponseBytes → ResponseLimitsConfig → Type 0
AllWithin b l =
    Within b.text l.text_bytes
    × (Within b.structured l.structured_bytes
        × (Within b.binary l.binary_bytes
            × (Within b.other l.other_bytes × Within b.total l.total_bytes)))

module _ (result_len : CallToolResult → Result String ℕ) (value_len : Value → Result String ℕ)
    (to_value : Value → Result String Value) where
  check_limit_iff :
      (n : ℕ) (limit : Option ℕ) (label : String)
      → (check_limit result_len value_len to_value n limit label ≡ ok tt) ↔ Within n limit
  unfolding check_limit
  check_limit_iff n none label = (λ h. tt, λ h. refl)
  check_limit_iff n (some limit) label = ground arith

  both_iff :
      {P Q : Type 0} {m k : Fallible Unit}
      → (m ≡ ok tt) ↔ P
      → (k ≡ ok tt) ↔ Q
      → ((m >>= λ x. k) ≡ ok tt) ↔ (P × Q)
  both_iff {m = ok x} p q = (λ h. (p.0 refl, q.0 h), λ h. q.1 (h.1))
  both_iff {m = err e} p q = (λ h. absurd (cc h), λ h. absurd (cc (p.1 (h.0))))

  -- A result whose sizes could be measured is accepted exactly if each of the five sizes is within the
  -- limit that is configured for it.
  pub enforce_iff :
      (result : CallToolResult) (limits : ResponseLimitsConfig) (b : ResponseBytes)
      → measure_result_bytes result_len value_len to_value result ≡ ok b
      → (enforce_response_limits result_len value_len to_value result (some limits) ≡ ok tt)
        ↔ AllWithin b limits
  unfolding enforce_response_limits check_limits
  enforce_iff result l b h =
      let one = check_limit_iff in
      rw h (
        both_iff (one b.text l.text_bytes "text_bytes") (
          both_iff (one b.structured l.structured_bytes "structured_bytes") (
            both_iff (one b.binary l.binary_bytes "binary_bytes") (
              both_iff (one b.other l.other_bytes "other_bytes")
                (one b.total l.total_bytes "total_bytes")))))
