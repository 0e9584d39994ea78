-- ===== src/Engine/HttpResult.antt =====
-- src/engine/orchestration/tool_dispatch.rs: a call of an HTTP tool, from its configuration to its
-- result. It is none if the retry loop runs out of fuel, which it does not.
use rust_mcp_core.Common.Map
use rust_mcp_core.Common.{
  Bool, Option, String, and_then, err, false, if◌then◌else◌, map, nat_eq, none, ok, ok_or, some,
  string_eq, ◌<>◌, ◌>>=◌,
}
use rust_mcp_core.Common.Map.{Map}
use rust_mcp_core.Config.{
  ContentFallback, ExecuteConfig, ExecuteHttpConfig, ToolConfig, content_response, execute_http,
  execute_plugin, structured_response,
}
use rust_mcp_core.Engine.{Engine, RequestContext, Services, World, tool_error_result_from_error}
use rust_mcp_core.Engine.HttpTool.{
  HttpDispatchParams, Oauth2ExecutionContext, build_http_request_template, content_fallback_str,
  execute_http_request_flow, resolve_oauth2_context,
}
use rust_mcp_core.Errors.{Fallible, fail, invalid_request, mcp_error}
use rust_mcp_core.HttpExecutor.{Execution, execution_cancelled, into_mcp_error}
use rust_mcp_core.Json.{Value}
use rust_mcp_core.Outbound.{resolve_retry_config}
use rust_mcp_core.Protocol.{CallToolResult, cancelled_tool_result, success_result}
use rust_mcp_core.Templating.{render_value}
use rust_mcp_core.ToolResponse.{build_content_blocks, build_structured_result}
use rust_mcp_core.Upstream.{UpstreamConfig}
use rust_mcp_core.ValueHelpers.{PluginType}

abbrev pub as_http : ExecuteConfig → Fallible ExecuteHttpConfig
as_http (execute_http execute) = ok execute
as_http (execute_plugin execute) = fail invalid_request "http tool requires execute.type=http"

module _ {S : Type 0} {A : PluginType → Type 0} (services : Services S A) (engine : Engine A) where
  abbrev pub render : Value → Value → Value → Fallible Value
  render args response template =
      render_value services.wire.to_string services.from_str
        (record { args = args; response = some response }) template

  abbrev pub structured_value : Value → Value → Option Value → Fallible Value
  structured_value args response none = ok response
  structured_value args response (some template) = render args response template

  abbrev pub fallback_str : Option ContentFallback → Option String
  fallback_str none = none
  fallback_str (some f) = some (content_fallback_str f)

  abbrev pub structured_result : Option Value → Value → Option String → Fallible CallToolResult
  structured_result schema structured fallback =
      build_structured_result services.schema_errors services.wire.to_string structured schema
        fallback

  unfoldable pub build_http_tool_result :
      ToolConfig → (args response : Value) → Fallible CallToolResult
  unfolding build_structured_result build_content_blocks
  build_http_tool_result tool_cfg args response = elim tool_cfg.response [
    | none ↦ structured_result tool_cfg.output_schema response none
    | some (structured_response template fallback) ↦ do
      structured ← structured_value args response template
      structured_result tool_cfg.output_schema structured (fallback_str fallback)
    | some (content_response items) ↦ do
      contents ←
          build_content_blocks services.wire services.from_str
            (record { args = args; response = some response }) (some items)
      ok (success_result (map services.content_value contents))
  ]

  abbrev pub bearer_in : Option Oauth2ExecutionContext → Option String
  bearer_in none = none
  bearer_in (some c) = some c.bearer

  abbrev refreshes_in : Option Oauth2ExecutionContext → Bool
  refreshes_in none = false
  refreshes_in (some c) = c.retry_on_401_once

  abbrev pub dispatch_of :
      ToolConfig
      → ExecuteHttpConfig
      → UpstreamConfig
      → Value
      → Option (RequestContext S)
      → Option Oauth2ExecutionContext
      → HttpDispatchParams S
  dispatch_of tool_cfg execute upstream args request context = record {
    upstream_name = execute.upstream;
    upstream = upstream;
    tool_cfg = tool_cfg;
    args = args;
    request = request;
    retry = resolve_retry_config execute.retry upstream engine.config.outbound_http;
    cancellation = if tool_cfg.cancellable then and_then request (λ r. some r.ct.token) else none;
    oauth401_refresh_enabled = refreshes_in context;
  }

  -- the result for what the requests come to
  abbrev pub result_of : ToolConfig → Value → Execution Value → Fallible CallToolResult
  result_of tool_cfg args (ok response) = build_http_tool_result tool_cfg args response
  result_of tool_cfg args (err execution_cancelled) = ok cancelled_tool_result
  result_of tool_cfg args (err e) =
      ok (tool_error_result_from_error engine.config (into_mcp_error e))

  abbrev pub with_result :
      ToolConfig → Value → World S × Execution Value → World S × Fallible CallToolResult
  with_result tool_cfg args run = (run.0, result_of tool_cfg args (run.1))

  -- the requests, once the token is there
  unfoldable pub run_requests :
      ToolConfig
      → ExecuteHttpConfig
      → UpstreamConfig
      → Value
      → Option (RequestContext S)
      → World S × Fallible (Option Oauth2ExecutionContext)
      → Option (World S × Fallible CallToolResult)
  unfolding execute_http_request_flow build_http_request_template build_http_tool_result
      tool_error_result_from_error into_mcp_error resolve_retry_config
  run_requests tool_cfg execute upstream args request (w, err e) =
      some (w, ok (tool_error_result_from_error engine.config e))
  run_requests tool_cfg execute upstream args request (w, ok context) =
      and_then
        (execute_http_request_flow services engine
          (dispatch_of tool_cfg execute upstream args request context)
          (build_http_request_template services engine execute upstream (bearer_in context)) context
          w)
        (λ run. some (with_result tool_cfg args run))

  -- the upstream of a tool
  unfoldable pub tool_upstream : ToolConfig → Fallible (ExecuteHttpConfig × UpstreamConfig)
  tool_upstream tool_cfg = do
    execute ← as_http tool_cfg.execute
    upstream ←
        ok_or (mcp_error invalid_request ("unknown upstream: " <> execute.upstream))
          (Map.get execute.upstream engine.config.upstreams)
    ok (execute, upstream)

  unfoldable pub execute_http_tool :
      ToolConfig
      → (args : Value) → Option (RequestContext S)
      → World S
      → Option (World S × Fallible CallToolResult)
  unfolding tool_upstream run_requests resolve_oauth2_context
  execute_http_tool tool_cfg args request w = elim (tool_upstream tool_cfg) [
    | err e ↦ some (w, err e)
    | ok (execute, upstream) ↦
        run_requests tool_cfg execute upstream args request
          (resolve_oauth2_context services engine execute.upstream upstream w)
  ]
