-- ===== src/Engine/Answers.antt =====
-- src/engine/orchestration/tool_dispatch.rs: what a client is told of a call.
use rust_mcp_core.Common.Map
use rust_mcp_core.Common.{
  Bool-cases, Option, Option-cases, Result-cases, String, [], ap, arith, err, false, false≢true,
  inl, inr, nat_eq, ok, refl, some, some_injective, string_eq, subst, sym, true, ◌<>◌, ◌∙◌, ◌∷◌,
  ◌≡◌, ◌⊎◌,
}
use rust_mcp_core.Common.Map.{Map}
use rust_mcp_core.Config.{McpConfig}
use rust_mcp_core.Engine.{
  Engine, RequestContext, Services, World, is_internal, redacted_message, sanitize_client_error,
  sanitize_tool_error_message, should_redact_internal_error_for_client,
  tool_error_result_from_error,
}
use rust_mcp_core.Engine.Dispatch.{
  caught, client_result, execute_tool_config, execute_tool_with_context,
}
use rust_mcp_core.Errors.{
  Fallible, McpError, err≢ok, fail, internal_error, invalid_params, mcp_error,
}
use rust_mcp_core.Json.{Value}
use rust_mcp_core.Protocol.{CallToolResult, error_result, text_content}
use rust_mcp_core.ResponseLimits.{
  ResponseBytes, ResponseLimitsConfig, enforce_response_limits, measure_result_bytes,
}
use rust_mcp_core.ResponseLimits.Limits.{AllWithin, enforce_iff}
use rust_mcp_core.ValueHelpers.{PluginType}

-- A text that tells nothing of an internal error: another error, or the one that hides it.
abbrev pub HidesDetails : McpError → Type 0
HidesDetails e = is_internal e.code ≡ true → e ≡ mcp_error internal_error redacted_message

module _ (config : McpConfig) where
  sanitized_hides :
      (e : McpError)
      → config.expose_internal_error_details ≡ false
      → HidesDetails (sanitize_client_error config e)
  unfolding sanitize_client_error should_redact_internal_error_for_client
  sanitized_hides e hidden = elim (Bool-cases (is_internal e.code)) [
    | inl internal ↦ rw (internal, hidden) (λ i. refl)
    | inr other ↦ rw other (λ i. absurd (false≢true (sym other ∙ i)))
  ]

  tool_error_hides :
      (e : McpError)
      → config.expose_internal_error_details ≡ false
      → is_internal e.code ≡ true
      → tool_error_result_from_error config e ≡ error_result (text_content redacted_message ∷ [])
  unfolding tool_error_result_from_error sanitize_tool_error_message
      should_redact_internal_error_for_client
  tool_error_hides e hidden internal = rw (internal, hidden) refl

module _ {S : Type 0} {A : PluginType → Type 0} (services : Services S A) (engine : Engine A) where
  abbrev checked : CallToolResult → Fallible Unit
  checked result =
      enforce_response_limits services.result_len services.value_len services.to_value result
        engine.config.response_limits

  measured :
      (result : CallToolResult) (limits : ResponseLimitsConfig) (u : Unit)
      → enforce_response_limits services.result_len services.value_len services.to_value result
          (some limits)
        ≡ ok u
      → (b : ResponseBytes) × (measure_result_bytes services.result_len services.value_len
            services.to_value result
          ≡ ok b)
        × AllWithin b limits
  unfolding enforce_response_limits
  measured result limits u passes =
      elim (Result-cases
        (measure_result_bytes services.result_len services.value_len services.to_value result)) [
          | inr (e, unread) ↦ absurd (err≢ok (rw (unread, enforce_response_limits) at passes))
          | inl (b, read) ↦ (
            b,
            read,
            (enforce_iff services.result_len services.value_len services.to_value result limits b
                  read).0
                passes,
          )
        ]

  client_result_hides :
      (r : Fallible CallToolResult) (e : McpError)
      → engine.config.expose_internal_error_details ≡ false
      → client_result services engine r ≡ err e
      → HidesDetails e
  unfolding client_result
  client_result_hides (err e') e hidden run =
      let same : sanitize_client_error engine.config e' ≡ e = cc run in
      subst HidesDetails same (sanitized_hides engine.config e' hidden)
  client_result_hides (ok result) e hidden run = elim (Result-cases (checked result)) [
    | inl (u, passes) ↦ absurd (err≢ok (sym (rw (passes, client_result) at run)))
    | inr (e', over) ↦
        let made : err (sanitize_client_error engine.config e') ≡ err e =
          rw (over, client_result) at run in
        let same : sanitize_client_error engine.config e' ≡ e = cc made in
        subst HidesDetails same (sanitized_hides engine.config e' hidden)
  ]

  client_result_within :
      (r : Fallible CallToolResult) (result : CallToolResult) (limits : ResponseLimitsConfig)
      → engine.config.response_limits ≡ some limits
      → client_result services engine r ≡ ok result
      → (b : ResponseBytes) × (measure_result_bytes services.result_len services.value_len
            services.to_value result
          ≡ ok b)
        × AllWithin b limits
  unfolding client_result
  client_result_within (err e) result limits set run = absurd (err≢ok run)
  client_result_within (ok made) result limits set run = elim (Result-cases (checked made)) [
    | inr (e, over) ↦ absurd (err≢ok (rw (over, client_result) at run))
    | inl (u, passes) ↦
        let is : ok made ≡ ok result = rw (passes, client_result) at run in
        let same : made ≡ result = cc is in
        let within = rw set at passes in
        subst
          (λ r.
            (b : ResponseBytes) × (measure_result_bytes services.result_len services.value_len
                services.to_value r
              ≡ ok b)
            × AllWithin b limits)
          same (measured made limits u within)
  ]

  -- the end of a call by name, whatever the tool
  ends_with :
      (name : String) (args : Value) (request : Option (RequestContext S)) (w after : World S)
      (result : Fallible CallToolResult)
      → execute_tool_with_context services engine name args request w ≡ some (after, result)
      → (result ≡ fail invalid_params ("tool not found: " <> name))
        ⊎ ((r : Fallible CallToolResult) × (result ≡ client_result services engine r))
  unfolding execute_tool_with_context
  ends_with name args request w after result run =
      elim (Option-cases (Map.get name engine.tool_map)) [
        | inl unknown ↦
            inl (
              sym (ap (λ r. r.1) (some_injective (rw (unknown, execute_tool_with_context) at run))))
        | inr (tool_cfg, found) ↦
            elim (Option-cases (execute_tool_config services engine tool_cfg args request w)) [
              | inl none_left ↦
                  absurd
                    (let h = rw (found, none_left, execute_tool_with_context) at run in grind arith)
              | inr (ends, runs) ↦ inr (
                caught services engine (ends.1),
                sym (
                    ap (λ r. r.1)
                      (some_injective (rw (found, runs, execute_tool_with_context) at run))),
              )
            ]
      ]

  -- If details are hidden, then the error of a call of a tool by its name, if it is an internal error,
  -- is the one that tells nothing else.
  pub internal_errors_are_hidden :
      (name : String) (args : Value) (request : Option (RequestContext S)) (w after : World S)
      (e : McpError)
      → engine.config.expose_internal_error_details ≡ false
      → execute_tool_with_context services engine name args request w ≡ some (after, err e)
      → is_internal e.code ≡ true
      → e ≡ mcp_error internal_error redacted_message
  internal_errors_are_hidden name args request w after e hidden run =
      elim (ends_with name args request w after (err e) run) [
        | inl unknown ↦ λ internal.
            let is : e ≡ mcp_error invalid_params ("tool not found: " <> name) = cc unknown in
            absurd (false≢true (ap (λ x. is_internal x.code) (sym is) ∙ internal))
        | inr (r, is) ↦ client_result_hides r e hidden (sym is)
      ]

  -- If limits are configured, then the result of a call of a tool by its name could be measured, and
  -- each of its five sizes is within the limit for it.
  pub results_are_within_limits :
      (name : String) (args : Value) (request : Option (RequestContext S)) (w after : World S)
      (result : CallToolResult) (limits : ResponseLimitsConfig)
      → engine.config.response_limits ≡ some limits
      → execute_tool_with_context services engine name args request w ≡ some (after, ok result)
      → (b : ResponseBytes) × (measure_result_bytes services.result_len services.value_len
            services.to_value result
          ≡ ok b)
        × AllWithin b limits
  results_are_within_limits name args request w after result limits set run =
      elim (ends_with name args request w after (ok result) run) [
        | inl unknown ↦ absurd (err≢ok (sym unknown))
        | inr (r, is) ↦ client_result_within r result limits set (sym is)
      ]
