-- ===== src/Loader/Checks.antt =====
-- src/config/loader.rs: what the checks of a configuration accept.
use rust_mcp_core.Common.{
  Bool, Bool-cases, List, Option, String, [], arith, both_iff, err, false, iff_trans, inl, inr,
  nat_eq, none, not, ok, refl, some, string_eq, true, ℕ, ◌+◌, ◌>>◌, ◌↔◌, ◌∷◌, ◌≡◌,
}
use rust_mcp_core.Common.Map.{Map}
use rust_mcp_core.Config.{
  McpConfig, ToolConfig, TopLevelCombinatorsPolicy, error, is_active, off, retry_of, tools_items,
  warn,
}
use rust_mcp_core.Errors.{Fallible, err≢ok}
use rust_mcp_core.Loader.{
  check_policy, check_tools, combinators, is_empty_list, refuse_if, session_of,
  validate_completion_semantics, validate_input_schema_client_compat,
  validate_outbound_retry_semantics, validate_retry_config,
  validate_streamable_http_hardening_semantics, validate_tool_retries, validate_upstream_retries,
  when_some,
}
use rust_mcp_core.Loader.Conditions.{
  CompatFor, IsValidConfig, IsValidRetry, NoCombinators, ToolRetries, UpstreamRetries,
  ValidCompletion, ValidHardening, ValidRetries, ValidSchemas, Whenever, combinators_iff,
  idle_rate_iff, inactive_iff, nonempty_iff, not_iff, positive_iff, sessions_iff, unless_iff,
}
use rust_mcp_core.Upstream.{OutboundRetryConfig, UpstreamConfig}

seq_iff : (m k : Fallible Unit) → ((m >> k) ≡ ok tt) ↔ ((m ≡ ok tt) × (k ≡ ok tt))
seq_iff (ok u) k = (λ h. (refl, h), λ h. h.1)
seq_iff (err e) k = ground arith

refuse_if_iff : (b : Bool) (message : String) → (refuse_if b message ≡ ok tt) ↔ (b ≡ false)
refuse_if_iff true message = ground arith
refuse_if_iff false message = ground arith

when_some_iff :
    {A : Type 0} (P : A → Type 0) (check : A → Fallible Unit) (o : Option A)
    → ((a : A) → (check a ≡ ok tt) ↔ P a)
    → (when_some o check ≡ ok tt) ↔ Whenever P o
when_some_iff P check none each = (λ h. tt, λ h. refl)
when_some_iff P check (some a) each = each a

retry_config_iff :
    (place : String) (retry : OutboundRetryConfig)
    → (validate_retry_config place retry ≡ ok tt) ↔ IsValidRetry retry
unfolding validate_retry_config
retry_config_iff place retry = iff_trans (seq_iff _ _) (
    both_iff (iff_trans (refuse_if_iff _ _) (positive_iff retry.max_attempts)) (
      iff_trans (seq_iff _ _) (
        both_iff (iff_trans (refuse_if_iff _ _) (positive_iff retry.delay_ms)) (
          iff_trans (refuse_if_iff _ _) (
            iff_trans (unless_iff (not retry.on_network_errors) _ (nonempty_iff retry.on_statuses))
              (not_iff retry.on_network_errors))))))

every_upstream_iff :
    (upstreams : Map String UpstreamConfig)
    → (validate_upstream_retries upstreams ≡ ok tt) ↔ UpstreamRetries upstreams
unfolding validate_upstream_retries
every_upstream_iff [] = (λ h. tt, λ h. refl)
every_upstream_iff ((name, upstream) ∷ upstreams) = iff_trans (seq_iff _ _) (
    both_iff (when_some_iff IsValidRetry _ upstream.retry (retry_config_iff _))
      (every_upstream_iff upstreams))

every_tool_iff :
    (index : ℕ) (tools : List ToolConfig)
    → (validate_tool_retries index tools ≡ ok tt) ↔ ToolRetries tools
unfolding validate_tool_retries
every_tool_iff index [] = (λ h. tt, λ h. refl)
every_tool_iff index (tool ∷ tools) = iff_trans (seq_iff _ _) (
    both_iff (when_some_iff IsValidRetry _ (retry_of tool.execute) (retry_config_iff _))
      (every_tool_iff (index + 1) tools))

outbound_retry_iff :
    (config : McpConfig) → (validate_outbound_retry_semantics config ≡ ok tt) ↔ ValidRetries config
unfolding validate_outbound_retry_semantics
outbound_retry_iff config = iff_trans (seq_iff _ _) (
    both_iff (when_some_iff IsValidRetry _ _ (retry_config_iff "outbound_http.retry")) (
      iff_trans (seq_iff _ _)
        (both_iff (every_upstream_iff config.upstreams) (every_tool_iff 0 (tools_items config)))))

completion_iff :
    (config : McpConfig) → (validate_completion_semantics config ≡ ok tt) ↔ ValidCompletion config
unfolding validate_completion_semantics
completion_iff config = when_some_iff _ _ config.completion (λ c. iff_trans (refuse_if_iff _ _) (
    iff_trans (unless_iff (is_active c.enabled) _ (nonempty_iff c.providers))
      (inactive_iff c.enabled)))

hardening_iff :
    (config : McpConfig)
    → (validate_streamable_http_hardening_semantics config ≡ ok tt) ↔ ValidHardening config
unfolding validate_streamable_http_hardening_semantics
hardening_iff config = iff_trans (seq_iff _ _) (
    both_iff
      (iff_trans (refuse_if_iff _ _)
        (sessions_iff config.streamable_http.session_mode (session_of config)))
      (iff_trans (seq_iff _ _) (
        both_iff (when_some_iff _ _ _ (λ rate. iff_trans (refuse_if_iff _ _) (idle_rate_iff rate)))
          (when_some_iff _ _ _ (λ rate. iff_trans (refuse_if_iff _ _) (idle_rate_iff rate))))))

check_tools_warn : (index : ℕ) (tools : List ToolConfig) → (check_tools warn index tools).1 ≡ ok tt
unfolding check_tools
check_tools_warn index [] = refl
check_tools_warn index (tool ∷ tools) = elim (Bool-cases (is_empty_list (combinators tool))) [
  | inl none_found ↦ rw (none_found, check_tools) (check_tools_warn (index + 1) tools)
  | inr found ↦ rw (found, check_tools) (check_tools_warn (index + 1) tools)
]

check_tools_iff :
    (index : ℕ) (tools : List ToolConfig)
    → ((check_tools error index tools).1 ≡ ok tt) ↔ NoCombinators tools
unfolding check_tools
check_tools_iff index [] = (λ h. tt, λ h. refl)
check_tools_iff index (tool ∷ tools) = elim (Bool-cases (is_empty_list (combinators tool))) [
  | inl none_found ↦
      rw (none_found, check_tools)
        (
          λ h. ((combinators_iff tool).0 none_found, (check_tools_iff (index + 1) tools).0 h),
          λ h. (check_tools_iff (index + 1) tools).1 (h.1),
        )
  | inr found ↦
      let crowded : (is_empty_list (combinators tool) ≡ true) → ⊥ = λ q. absurd (cc (q, found)) in
      rw (found, check_tools)
        (λ h. absurd (err≢ok h), λ h. absurd (crowded ((combinators_iff tool).1 h.0)))
]

check_policy_iff :
    (policy : TopLevelCombinatorsPolicy) (tools : List ToolConfig)
    → ((check_policy policy tools).1 ≡ ok tt) ↔ CompatFor policy tools
unfolding check_policy
check_policy_iff off tools = (λ h. tt, λ h. refl)
check_policy_iff warn tools = (λ h. tt, λ h. check_tools_warn 0 tools)
check_policy_iff error tools = check_tools_iff 0 tools

input_schema_iff :
    (config : McpConfig)
    → ((validate_input_schema_client_compat config).1 ≡ ok tt) ↔ ValidSchemas config
unfolding validate_input_schema_client_compat
input_schema_iff config = check_policy_iff config.top_level_combinators (tools_items config)

-- The checks that follow the reading of a configuration, in their order, all pass exactly if the
-- hardening fits the sessions, an active completion has a provider, every retry has an attempt, a
-- delay and something to retry on, and under the policy of errors no schema of a tool has a combinator
-- at its top level.
pub checks_pass_iff :
    (config : McpConfig)
    → ((validate_streamable_http_hardening_semantics config
          >> (validate_completion_semantics config
              >> (validate_outbound_retry_semantics config
                  >> (validate_input_schema_client_compat config).1)))
        ≡ ok tt)
      ↔ IsValidConfig config
checks_pass_iff config = iff_trans (seq_iff _ _) (
    both_iff (hardening_iff config) (
      iff_trans (seq_iff _ _) (
        both_iff (completion_iff config) (
          iff_trans (seq_iff _ _)
            (both_iff (outbound_retry_iff config) (input_schema_iff config))))))

pub hardening_valid :
    (config : McpConfig)
    → validate_streamable_http_hardening_semantics config ≡ ok tt
    → ValidHardening config
hardening_valid config = (hardening_iff config).0

pub completion_valid :
    (config : McpConfig) → validate_completion_semantics config ≡ ok tt → ValidCompletion config
completion_valid config = (completion_iff config).0

pub retries_valid :
    (config : McpConfig) → validate_outbound_retry_semantics config ≡ ok tt → ValidRetries config
retries_valid config = (outbound_retry_iff config).0

pub schemas_valid :
    (config : McpConfig)
    → (validate_input_schema_client_compat config).1 ≡ ok tt
    → ValidSchemas config
schemas_valid config = (input_schema_iff config).0
