-- ===== src/Engine/Dispatch.antt =====
-- src/engine/orchestration/tool_dispatch.rs: a call of a tool by its name.
use rust_mcp_core.Common.Map
use rust_mcp_core.Common.{Option, String, and_then, err, nat_eq, none, ok, some, string_eq, ◌<>◌}
use rust_mcp_core.Common.Map.{Map}
use rust_mcp_core.Config.{ToolConfig, execute_http, execute_plugin}
use rust_mcp_core.Engine.{
  Engine, Outcome, RequestContext, Services, World, panicked, returned, sanitize_client_error,
  tool_error_result_from_error,
}
use rust_mcp_core.Engine.HttpResult.{execute_http_tool}
use rust_mcp_core.Engine.PluginTool.{execute_plugin_tool}
use rust_mcp_core.Errors.{Fallible, McpError, fail, internal_error, invalid_params, mcp_error}
use rust_mcp_core.Json.{Value}
use rust_mcp_core.Protocol.{CallToolResult}
use rust_mcp_core.ResponseLimits.{enforce_response_limits}
use rust_mcp_core.ValueHelpers.{PluginType}

abbrev pub panic_message : Option String → String
panic_message none = "tool execution panicked"
panic_message (some message) = "tool execution panicked: " <> message

-- of the payload's text, if the payload is a `String` or a `&'static str`
unfoldable pub map_tool_panic_to_error : Option String → McpError
map_tool_panic_to_error payload = mcp_error internal_error (panic_message payload)

module _ {S : Type 0} {A : PluginType → Type 0} (services : Services S A) (engine : Engine A) where
  abbrev pub of_run :
      World S → S × Outcome (Fallible CallToolResult) → World S × Outcome (Fallible CallToolResult)
  of_run w run = (record w { outside = run.0 }, run.1)

  unfoldable pub execute_tool_config :
      ToolConfig
      → (args : Value) → Option (RequestContext S)
      → World S
      → Option (World S × Outcome (Fallible CallToolResult))
  unfolding execute_http_tool execute_plugin_tool
  execute_tool_config tool_cfg args request w = elim tool_cfg.execute [
    | execute_http execute ↦
        and_then (execute_http_tool services engine tool_cfg args request w)
          (λ run. some (run.0, returned (run.1)))
    | execute_plugin execute ↦
        some (of_run w (execute_plugin_tool services engine tool_cfg args request w.outside))
  ]

  -- a panic is a result with an error
  abbrev pub caught : Outcome (Fallible CallToolResult) → Fallible CallToolResult
  caught (returned result) = result
  caught (panicked payload) =
      ok (tool_error_result_from_error engine.config (map_tool_panic_to_error payload))

  -- the limits on the result, and what the client may see of an error
  unfoldable pub client_result : Fallible CallToolResult → Fallible CallToolResult
  unfolding enforce_response_limits sanitize_client_error
  client_result (err e) = err (sanitize_client_error engine.config e)
  client_result (ok result) =
      elim (enforce_response_limits services.result_len services.value_len services.to_value result
        engine.config.response_limits) [
          | ok within ↦ ok result
          | err e ↦ err (sanitize_client_error engine.config e)
        ]

  unfoldable pub execute_tool_with_context :
      (name : String) (args : Value)
      → Option (RequestContext S)
      → World S
      → Option (World S × Fallible CallToolResult)
  unfolding execute_tool_config client_result map_tool_panic_to_error tool_error_result_from_error
  execute_tool_with_context name args request w = elim (Map.get name engine.tool_map) [
    | none ↦ some (w, fail invalid_params ("tool not found: " <> name))
    | some tool_cfg ↦
        and_then (execute_tool_config tool_cfg args request w)
          (λ run. some (run.0, client_result (caught (run.1))))
  ]

  unfoldable pub execute_tool :
      (name : String) (args : Value) → World S → Option (World S × Fallible CallToolResult)
  unfolding execute_tool_with_context
  execute_tool name args w = execute_tool_with_context name args none w
