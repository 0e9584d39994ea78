-- ===== src/Engine/CallsConform.antt =====
-- src/engine/orchestration/tool_dispatch.rs: the structured content of what a call of a tool answers.
use rust_mcp_core.Common.Map
use rust_mcp_core.Common.{
  Option, Option-cases, Result-cases, String, [], ap, arith, err, inl, inr, nat_eq, ok, some,
  some_injective, string_eq, subst, ◌∙◌, ◌≡◌,
}
use rust_mcp_core.Common.Map.{Map}
use rust_mcp_core.Config.{ExecuteConfig-cases, ExecuteHttpConfig, ToolConfig}
use rust_mcp_core.Engine.{
  Engine, Outcome, RequestContext, Services, World, map_outcome, panicked, returned,
  tool_error_result_from_error,
}
use rust_mcp_core.Engine.Dispatch.{
  caught, client_result, execute_tool_config, execute_tool_with_context, map_tool_panic_to_error,
}
use rust_mcp_core.Engine.HttpResult.{
  bearer_in, dispatch_of, execute_http_tool, result_of, run_requests, tool_upstream,
}
use rust_mcp_core.Engine.HttpTool.{
  Oauth2ExecutionContext, build_http_request_template, execute_http_request_flow,
  resolve_oauth2_context,
}
use rust_mcp_core.Engine.PluginTool.{execute_plugin_tool, plugin_result, tool_plugin}
use rust_mcp_core.Engine.Structured.{
  OkConforms, ok-Conforms, plugin-Conforms, result_of-Conforms, tool_error-Conforms,
}
use rust_mcp_core.Errors.{Fallible, err≢ok}
use rust_mcp_core.HttpExecutor.{Execution}
use rust_mcp_core.Json.{Value}
use rust_mcp_core.Protocol.{CallToolResult}
use rust_mcp_core.ResponseLimits.{enforce_response_limits}
use rust_mcp_core.Upstream.{UpstreamConfig}
use rust_mcp_core.ValueHelpers.{PluginType}

module _ {S : Type 0} {A : PluginType → Type 0} (services : Services S A) (engine : Engine A)
    (tool_cfg : ToolConfig) where
  abbrev flow :
      ExecuteHttpConfig
      → UpstreamConfig
      → Value
      → Option (RequestContext S)
      → Option Oauth2ExecutionContext
      → World S
      → Option (World S × Execution Value)
  flow execute upstream args request context w =
      execute_http_request_flow services engine
        (dispatch_of services engine tool_cfg execute upstream args request context)
        (build_http_request_template services engine execute upstream
          (bearer_in services engine context))
        context w

  http_call-Conforms :
      (execute : ExecuteHttpConfig) (upstream : UpstreamConfig) (args : Value)
      (request : Option (RequestContext S))
      (start : World S × Fallible (Option Oauth2ExecutionContext)) (after : World S)
      (r : Fallible CallToolResult)
      → run_requests services engine tool_cfg execute upstream args request start ≡ some (after, r)
      → OkConforms services engine tool_cfg r
  unfolding run_requests
  http_call-Conforms execute upstream args request (w, err e) after r run =
      subst (OkConforms services engine tool_cfg) (ap (λ p. p.1) (some_injective run)) (
        ok-Conforms services engine tool_cfg (tool_error_result_from_error engine.config e)
          (tool_error-Conforms services engine tool_cfg e))
  http_call-Conforms execute upstream args request (w, ok context) after r run =
      elim (Option-cases (flow execute upstream args request context w)) [
        | inl none_left ↦ absurd (let h = rw (none_left, run_requests) at run in grind arith)
        | inr (ends, runs) ↦
            let is : result_of services engine tool_cfg args (ends.1) ≡ r =
              ap (λ p. p.1) (some_injective (rw (runs, run_requests) at run)) in
            subst (OkConforms services engine tool_cfg) is
              (result_of-Conforms services engine tool_cfg args (ends.1))
      ]

  http_tool-Conforms :
      (args : Value) (request : Option (RequestContext S)) (w after : World S)
      (r : Fallible CallToolResult)
      → execute_http_tool services engine tool_cfg args request w ≡ some (after, r)
      → OkConforms services engine tool_cfg r
  unfolding execute_http_tool
  http_tool-Conforms args request w after r run =
      elim (Result-cases (tool_upstream services engine tool_cfg)) [
        | inr (e, refused) ↦
            let is : err e ≡ r =
              ap (λ p. p.1) (some_injective (rw (refused, execute_http_tool) at run)) in
            λ result made. absurd (err≢ok (is ∙ made))
        | inl ((execute, upstream), found) ↦
            http_call-Conforms execute upstream args request
              (resolve_oauth2_context services engine execute.upstream upstream w) after r
              (rw (found, execute_http_tool) at run)
      ]

  caught_plugin-Conforms :
      (r : Outcome (Option (Fallible CallToolResult)))
      → OkConforms services engine tool_cfg (
          caught services engine
            (map_outcome (λ x. ok (plugin_result services engine tool_cfg x)) r))
  caught_plugin-Conforms (returned x) =
      ok-Conforms services engine tool_cfg (plugin_result services engine tool_cfg x)
        (plugin-Conforms services engine tool_cfg x)
  caught_plugin-Conforms (panicked payload) =
      ok-Conforms services engine tool_cfg
        (tool_error_result_from_error engine.config (map_tool_panic_to_error payload))
        (tool_error-Conforms services engine tool_cfg (map_tool_panic_to_error payload))

  plugin_tool-Conforms :
      (args : Value) (request : Option (RequestContext S)) (s : S)
      → OkConforms services engine tool_cfg
          (caught services engine ((execute_plugin_tool services engine tool_cfg args request s).1))
  unfolding execute_plugin_tool
  plugin_tool-Conforms args request s =
      elim (Result-cases (tool_plugin services engine tool_cfg.execute)) [
        | inr (e, refused) ↦ rw (refused, execute_plugin_tool) (λ result made. absurd (err≢ok made))
        | inl ((execute, plugin), found) ↦
            rw (found, execute_plugin_tool) (caught_plugin-Conforms _)
      ]

  config-Conforms :
      (args : Value) (request : Option (RequestContext S)) (w after : World S)
      (r : Outcome (Fallible CallToolResult))
      → execute_tool_config services engine tool_cfg args request w ≡ some (after, r)
      → OkConforms services engine tool_cfg (caught services engine r)
  unfolding execute_tool_config
  config-Conforms args request w after r run = elim (ExecuteConfig-cases tool_cfg.execute) [
    | inr (execute, is) ↦
        subst (λ o. OkConforms services engine tool_cfg (caught services engine o))
          (ap (λ p. p.1) (some_injective (rw (is, execute_tool_config) at run)))
          (plugin_tool-Conforms args request w.outside)
    | inl (execute, is) ↦
        elim (Option-cases (execute_http_tool services engine tool_cfg args request w)) [
          | inl none_left ↦
              absurd (let h = rw (is, none_left, execute_tool_config) at run in grind arith)
          | inr (ends, runs) ↦
              subst (λ o. OkConforms services engine tool_cfg (caught services engine o))
                (ap (λ p. p.1) (some_injective (rw (is, runs, execute_tool_config) at run)))
                (http_tool-Conforms args request w (ends.0) (ends.1) runs)
        ]
  ]

module _ {S : Type 0} {A : PluginType → Type 0} (services : Services S A) (engine : Engine A) where
  client_result-ok :
      (r : Fallible CallToolResult) (result : CallToolResult)
      → client_result services engine r ≡ ok result
      → r ≡ ok result
  unfolding client_result
  client_result-ok (err e) result run = absurd (err≢ok run)
  client_result-ok (ok made) result run =
      elim (Result-cases (
        enforce_response_limits services.result_len services.value_len services.to_value made
          engine.config.response_limits)) [
            | inl (u, passes) ↦ rw (passes, client_result) at run
            | inr (e, over) ↦ absurd (err≢ok (rw (over, client_result) at run))
          ]

  -- The structured content of what a call of a tool by its name returns has no errors by the output
  -- schema of the tool, if the tool has one.
  pub structured_content_is_valid :
      (name : String) (args : Value) (request : Option (RequestContext S)) (w after : World S)
      (tool_cfg : ToolConfig) (schema v : Value) (result : CallToolResult)
      → Map.get name engine.tool_map ≡ some tool_cfg
      → tool_cfg.output_schema ≡ some schema
      → execute_tool_with_context services engine name args request w ≡ some (after, ok result)
      → result.structured_content ≡ some v
      → services.schema_errors schema v ≡ ok []
  unfolding execute_tool_with_context
  structured_content_is_valid name args request w after tool_cfg schema v result found set run has =
      elim (Option-cases (execute_tool_config services engine tool_cfg args request w)) [
        | inl none_left ↦
            absurd (let h = rw (found, none_left, execute_tool_with_context) at run in grind arith)
        | inr (ends, runs) ↦
            let is =
              ap (λ p. p.1) (some_injective (rw (found, runs, execute_tool_with_context) at run)) in
            config-Conforms services engine tool_cfg args request w (ends.0) (ends.1) runs result
              (client_result-ok (caught services engine (ends.1)) result is) schema v set has
      ]
