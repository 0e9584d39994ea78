-- ===== src/Engine/HttpTool.antt =====
-- src/engine/orchestration/tool_dispatch.rs, the tools that are HTTP requests. The retry loop runs on
-- as many units of fuel as attempts are allowed.
use rust_mcp_core.Tokens.{access_token}
use rust_mcp_core.Common.{
  Bool, Option, String, and_then, any, err, false, if◌then◌else◌, nat_eq, none, ok, some, string_eq,
  true, ℕ, ◌&&◌, ◌==◌,
}
use rust_mcp_core.Config.{
  ContentFallback, ExecuteConfig, ExecuteHttpConfig, ToolConfig, execute_http, execute_plugin,
  json_text_fallback, text_fallback,
}
use rust_mcp_core.Engine.{Engine, RequestContext, Services, World}
use rust_mcp_core.Errors.{Fallible}
use rust_mcp_core.HttpExecutor.{
  Execution, HttpRequestTemplate, execute_http_detailed, execution_cancelled, request_error,
  status_code, upstream_status,
}
use rust_mcp_core.Json.{Value}
use rust_mcp_core.Outbound.{build_templated_headers, resolve_max_response_bytes, resolve_timeout_ms}
use rust_mcp_core.Outbound.Retry.{CancellationToken, execute_with_retry}
use rust_mcp_core.TokenConfig.{grant_eq, key_eq, refresh_policy_of}
use rust_mcp_core.Upstream.{OutboundRetryConfig, UpstreamConfig, UpstreamOauth2AuthConfig, oauth2}
use rust_mcp_core.ValueHelpers.{PluginType}

pub record Oauth2ExecutionContext : Type 0 where
  pub auth : UpstreamOauth2AuthConfig
  pub bearer : String
  pub retry_on_401_once : Bool

-- `HttpDispatchParams`, with the records that it holds
pub record HttpDispatchParams (S : Type 0) : Type 0 where
  pub upstream_name : String
  pub upstream : UpstreamConfig
  pub tool_cfg : ToolConfig
  pub args : Value
  pub request : Option (RequestContext S)
  pub retry : Option OutboundRetryConfig
  pub cancellation : Option (CancellationToken S)
  pub oauth401_refresh_enabled : Bool

unfoldable pub should_retry_http_execution :
    (oauth401_refresh_enabled : Bool) → Execution Value → OutboundRetryConfig → Bool
should_retry_http_execution enabled (ok v) retry = false
should_retry_http_execution enabled (err (upstream_status status)) retry =
    if enabled && status == 401 then false else any (◌==◌ status) retry.on_statuses
should_retry_http_execution enabled (err (request_error e)) retry = retry.on_network_errors
should_retry_http_execution enabled (err _) retry = false

abbrev pub attempts_of : Option OutboundRetryConfig → ℕ
attempts_of none = 0
attempts_of (some retry) = retry.max_attempts

abbrev pub tool_headers : ExecuteConfig → Option Value
tool_headers (execute_http execute) = execute.headers
tool_headers (execute_plugin execute) = none

abbrev pub has_status : ℕ → Execution Value → Bool
has_status status (ok v) = false
has_status status (err e) = elim (status_code e) [ none ↦ false | some code ↦ code == status ]

-- `content_fallback_str`
abbrev pub content_fallback_str : ContentFallback → String
content_fallback_str text_fallback = "text"
content_fallback_str json_text_fallback = "json_text"

module _ {S : Type 0} {A : PluginType → Type 0} (services : Services S A) (engine : Engine A) where
  abbrev pub to_string : Value → String
  to_string = services.wire.to_string

  -- `OutboundTokenManager::access_token` in a state
  abbrev pub token_call :
      String
      → UpstreamOauth2AuthConfig
      → (force_refresh : Bool) → World S
      → World S × Fallible String
  token_call upstream_name auth force_refresh w =
      let run =
        access_token services.from_std services.exchanger services.host upstream_name auth
          force_refresh (services.readings w.outside) w.tokens w.outside in
      (record { tokens = run.0; outside = run.1 }, run.2)

  abbrev context_of :
      UpstreamOauth2AuthConfig → Fallible String → Fallible (Option Oauth2ExecutionContext)
  context_of auth (err e) = err e
  context_of auth (ok bearer) = ok (
      some (record {
        auth = auth;
        bearer = bearer;
        retry_on_401_once = (refresh_policy_of auth).retry_on_401_once;
      }))

  unfoldable pub resolve_oauth2_context :
      String → UpstreamConfig → World S → World S × Fallible (Option Oauth2ExecutionContext)
  resolve_oauth2_context upstream_name upstream w = elim upstream.auth [
    | some (oauth2 auth) ↦
        let run = token_call upstream_name auth false w in (run.0, context_of auth (run.1))
    | _ ↦ (w, ok none)
  ]

  abbrev pub headers_for : UpstreamConfig → ExecuteConfig → Option String → Option Value
  headers_for upstream execute bearer =
      build_templated_headers services.encode engine.config.outbound_http upstream bearer
        (tool_headers execute)

  unfoldable pub build_http_request_template :
      ExecuteHttpConfig → UpstreamConfig → Option String → HttpRequestTemplate
  unfolding build_templated_headers resolve_timeout_ms resolve_max_response_bytes
  build_http_request_template execute upstream bearer = record {
    method = execute.method;
    path = execute.path;
    query = execute.query;
    headers = headers_for upstream (execute_http execute) bearer;
    body = execute.body;
    timeout_ms = resolve_timeout_ms none upstream engine.config.outbound_http;
    max_response_bytes = resolve_max_response_bytes none upstream engine.config.outbound_http;
  }

  module _ (dispatch : HttpDispatchParams S) where
    abbrev pub execution : HttpRequestTemplate → S → S × Execution Value
    execution template s =
        execute_http_detailed to_string services.from_str services.send services.from_slice
          dispatch.upstream.base_url template dispatch.args s

    unfoldable pub execute_http_request_with_cancellation :
        HttpRequestTemplate → S → S × Execution Value
    unfolding execute_http_detailed
    execute_http_request_with_cancellation template s =
        if dispatch.tool_cfg.cancellable
        then elim dispatch.request [
          | none ↦ execution template s
          | some request ↦ elim (request.ct.interrupts s) [
            | some dropped ↦ (dropped, err execution_cancelled)
            | none ↦ execution template s
          ]
        ]
        else execution template s

    unfoldable pub execute_http_request_with_retry :
        HttpRequestTemplate → S → Option (S × Execution Value)
    unfolding execute_http_request_with_cancellation should_retry_http_execution execute_with_retry
    execute_http_request_with_retry template s =
        execute_with_retry (execute_http_request_with_cancellation template)
          (should_retry_http_execution dispatch.oauth401_refresh_enabled) services.sleep
          dispatch.cancellation execution_cancelled (attempts_of dispatch.retry) dispatch.retry
          template.method s

    abbrev pub in_world :
        World S → Option (S × Execution Value) → Option (World S × Execution Value)
    in_world w none = none
    in_world w (some run) = some (record w { outside = run.0 }, run.1)

    -- the request with the headers of a refreshed token
    abbrev pub second_round :
        HttpRequestTemplate → World S × Fallible String → Option (World S × Execution Value)
    second_round template (w, err e) = some (w, err (request_error e))
    second_round template (w, ok refreshed) = in_world w (
        execute_http_request_with_retry
          (record template {
            headers = headers_for dispatch.upstream dispatch.tool_cfg.execute (some refreshed);
          })
          w.outside)

    -- what follows the first round
    unfoldable pub after_first :
        HttpRequestTemplate
        → Option Oauth2ExecutionContext
        → World S × Execution Value
        → Option (World S × Execution Value)
    unfolding execute_http_request_with_retry
    after_first template context first =
        if dispatch.oauth401_refresh_enabled && has_status 401 (first.1)
        then elim context [
          | none ↦ some first
          | some c ↦ second_round template (token_call dispatch.upstream_name c.auth true (first.0))
        ]
        else some first

    unfoldable pub execute_http_request_flow :
        HttpRequestTemplate
        → Option Oauth2ExecutionContext
        → World S
        → Option (World S × Execution Value)
    unfolding after_first execute_http_request_with_retry
    execute_http_request_flow template context w =
        and_then (in_world w (execute_http_request_with_retry template w.outside))
          (after_first template context)
