-- ===== src/Engine/Returns.antt =====
-- src/engine/orchestration/tool_dispatch.rs: a call of a tool returns.
use rust_mcp_core.Common.Map
use rust_mcp_core.Common.{
  Bool-cases, Option, Option-cases, Result-cases, String, ap, arith, err, inl, inr, nat_eq, ok,
  refl, some, string_eq, true, ◌&&◌, ◌≡◌,
}
use rust_mcp_core.Common.Map.{Map}
use rust_mcp_core.Config.{ExecuteConfig-cases, ExecuteHttpConfig, ToolConfig}
use rust_mcp_core.Engine.{Engine, Outcome, RequestContext, Services, World}
use rust_mcp_core.Engine.Dispatch.{
  caught, client_result, execute_tool_config, execute_tool_with_context,
}
use rust_mcp_core.Engine.HttpResult.{
  bearer_in, dispatch_of, execute_http_tool, run_requests, tool_upstream, with_result,
}
use rust_mcp_core.Engine.HttpTool.{
  HttpDispatchParams, Oauth2ExecutionContext, after_first, build_http_request_template,
  execute_http_request_flow, execute_http_request_with_cancellation,
  execute_http_request_with_retry, has_status, headers_for, in_world, resolve_oauth2_context,
  second_round, should_retry_http_execution, token_call,
}
use rust_mcp_core.Errors.{Fallible}
use rust_mcp_core.HttpExecutor.{Execution, HttpRequestTemplate, execution_cancelled, request_error}
use rust_mcp_core.Json.{Value}
use rust_mcp_core.Outbound.Attempts.{calls_return}
use rust_mcp_core.Protocol.{CallToolResult}
use rust_mcp_core.Upstream.{UpstreamConfig}
use rust_mcp_core.ValueHelpers.{PluginType}

module _ {S : Type 0} {A : PluginType → Type 0} (services : Services S A) (engine : Engine A) where
  retry_returns :
      (dispatch : HttpDispatchParams S) (template : HttpRequestTemplate) (s : S)
      → (r : S × Execution Value) × (execute_http_request_with_retry services engine dispatch
            template s
          ≡ some r)
  unfolding execute_http_request_with_retry
  retry_returns dispatch template s = elim (Option-cases dispatch.retry) [
    | inl single ↦
        rw single (execute_http_request_with_cancellation services engine dispatch template s, refl)
    | inr (retry, set) ↦ rw set (
        calls_return (execute_http_request_with_cancellation services engine dispatch template)
          (should_retry_http_execution dispatch.oauth401_refresh_enabled) services.sleep
          dispatch.cancellation execution_cancelled retry retry.max_attempts template.method s
          (omega arith))
  ]

  second_returns :
      (dispatch : HttpDispatchParams S) (template : HttpRequestTemplate)
      (call : World S × Fallible String)
      → (r : World S × Execution Value) × (second_round services engine dispatch template call
          ≡ some r)
  second_returns dispatch template (w, err e) = ((w, err (request_error e)), refl)
  second_returns dispatch template (w, ok token) =
      let (run, runs) =
        retry_returns dispatch
          (record template {
            headers =
                headers_for services engine dispatch.upstream dispatch.tool_cfg.execute
                  (some token);
          })
          w.outside in
      ((record w { outside = run.0 }, run.1), ap (in_world services engine dispatch w) runs)

  after_returns :
      (dispatch : HttpDispatchParams S) (template : HttpRequestTemplate)
      (context : Option Oauth2ExecutionContext) (first : World S × Execution Value)
      → (r : World S × Execution Value) × (after_first services engine dispatch template context
            first
          ≡ some r)
  unfolding after_first
  after_returns dispatch template context first =
      elim (Bool-cases (dispatch.oauth401_refresh_enabled && has_status 401 (first.1))) [
        | inr done ↦ rw (done, after_first) (first, refl)
        | inl refused ↦ elim (Option-cases context) [
          | inl without ↦ rw (refused, without, after_first) (first, refl)
          | inr (c, with) ↦
              rw (refused, with, after_first)
                (second_returns dispatch template
                  (token_call services engine dispatch.upstream_name c.auth true (first.0)))
        ]
      ]

  flow_returns :
      (dispatch : HttpDispatchParams S) (template : HttpRequestTemplate)
      (context : Option Oauth2ExecutionContext) (w : World S)
      → (r : World S × Execution Value) × (execute_http_request_flow services engine dispatch
            template context w
          ≡ some r)
  unfolding execute_http_request_flow after_first
  flow_returns dispatch template context w =
      let (run, runs) = retry_returns dispatch template w.outside in
      let (r, ends) =
        after_returns dispatch template context (record w { outside = run.0 }, run.1) in
      (r, rw (runs, execute_http_request_flow) ends)

  requests_return :
      (tool_cfg : ToolConfig) (execute : ExecuteHttpConfig) (upstream : UpstreamConfig)
      (args : Value) (request : Option (RequestContext S))
      (start : World S × Fallible (Option Oauth2ExecutionContext))
      → (r : World S × Fallible CallToolResult) × (run_requests services engine tool_cfg execute
            upstream args request start
          ≡ some r)
  unfolding run_requests
  requests_return tool_cfg execute upstream args request (w, err e) = (_, refl)
  requests_return tool_cfg execute upstream args request (w, ok context) =
      let (run, runs) =
        flow_returns (dispatch_of services engine tool_cfg execute upstream args request context)
          (build_http_request_template services engine execute upstream
            (bearer_in services engine context))
          context w in
      (with_result services engine tool_cfg args run, rw (runs, run_requests) refl)

  http_returns :
      (tool_cfg : ToolConfig) (args : Value) (request : Option (RequestContext S)) (w : World S)
      → (r : World S × Fallible CallToolResult) × (execute_http_tool services engine tool_cfg args
            request w
          ≡ some r)
  unfolding execute_http_tool
  http_returns tool_cfg args request w =
      elim (Result-cases (tool_upstream services engine tool_cfg)) [
        | inr (e, refused) ↦ rw (refused, execute_http_tool) ((w, err e), refl)
        | inl ((execute, upstream), found) ↦
            rw (found, execute_http_tool)
              (requests_return tool_cfg execute upstream args request
                (resolve_oauth2_context services engine execute.upstream upstream w))
      ]

  config_returns :
      (tool_cfg : ToolConfig) (args : Value) (request : Option (RequestContext S)) (w : World S)
      → (r : World S × Outcome (Fallible CallToolResult)) × (execute_tool_config services engine
            tool_cfg args request w
          ≡ some r)
  unfolding execute_tool_config
  config_returns tool_cfg args request w = elim (ExecuteConfig-cases tool_cfg.execute) [
    | inl (execute, is) ↦
        let (run, runs) = http_returns tool_cfg args request w in
        rw (is, runs, execute_tool_config) (_, refl)
    | inr (execute, is) ↦ rw (is, execute_tool_config) (_, refl)
  ]

  -- Every call of a tool by its name returns, with a result or an error: its retry loops do not run out
  -- of fuel.
  pub call_returns :
      (name : String) (args : Value) (request : Option (RequestContext S)) (w : World S)
      → (r : World S × Fallible CallToolResult) × (execute_tool_with_context services engine name
            args request w
          ≡ some r)
  unfolding execute_tool_with_context
  call_returns name args request w = elim (Option-cases (Map.get name engine.tool_map)) [
    | inl unknown ↦ rw (unknown, execute_tool_with_context) (_, refl)
    | inr (tool_cfg, found) ↦
        let (run, runs) = config_returns tool_cfg args request w in
        (
          (run.0, client_result services engine (caught services engine (run.1))),
          rw (found, execute_tool_with_context) (rw runs refl),
        )
  ]
