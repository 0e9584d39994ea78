-- ===== src/Engine/PluginTool.antt =====
-- src/engine/orchestration/tool_dispatch.rs, the tools that are plugins.
use rust_mcp_core.ToolResponse
use rust_mcp_core.Common.{Option, [], err, if◌then◌else◌, none, ok, some, ◌>>=◌, ◌∷◌}
use rust_mcp_core.Config.{
  ExecuteConfig, ExecutePluginConfig, ToolConfig, execute_http, execute_plugin,
}
use rust_mcp_core.Engine.{
  Cancellation, Engine, Outcome, PluginCallParams, PluginContext, RequestContext, Services,
  map_outcome, returned, tool_error_result_from_error, uncancelled,
}
use rust_mcp_core.Errors.{Fallible, fail, invalid_request}
use rust_mcp_core.Json.{Value}
use rust_mcp_core.Plugins.{lookup_plugin}
use rust_mcp_core.Protocol.{CallToolResult, cancelled_tool_result, text_content}
use rust_mcp_core.Text.{is_empty}
use rust_mcp_core.ValueHelpers.{PluginType, merge_plugin_config, tool}

-- An operation raced with a token: its result, or none if it is dropped.
abbrev pub raced :
    {S R : Type 0} → Cancellation S → (S → S × Outcome R) → S → S × Outcome (Option R)
raced cancellation operation s = elim (cancellation.interrupts s) [
  | some dropped ↦ (dropped, returned none)
  | none ↦ let run = operation s in (run.0, map_outcome some (run.1))
]

module _ {S : Type 0} {A : PluginType → Type 0} (services : Services S A) (engine : Engine A) where
  -- the context of a call, with a token that is never cancelled for a tool that is not to be
  unfoldable pub plugin_context : ToolConfig → Option (RequestContext S) → PluginContext S
  plugin_context tool_cfg request = record {
    request = request;
    cancellation =
        if tool_cfg.cancellable
        then elim request [ none ↦ uncancelled | some r ↦ r.ct ]
        else uncancelled;
  }

  -- the call, by itself or raced with the token
  unfoldable pub call_plugin :
      ToolConfig
      → A tool
      → (args : Value) → PluginCallParams S
      → S
      → S × Outcome (Option (Fallible CallToolResult))
  call_plugin tool_cfg plugin args params s =
      if tool_cfg.cancellable
      then raced params.ctx.cancellation (services.call_tool plugin args params) s
      else let run = services.call_tool plugin args params s in (run.0, map_outcome some (run.1))

  abbrev pub with_content : CallToolResult → Value → CallToolResult
  with_content result structured = elim result.content [
    | [] ↦ record result { content = text_content (services.wire.to_string structured) ∷ [] }
    | c ∷ cs ↦ result
  ]

  abbrev pub validated : Option Value → Value → Fallible Unit
  validated schema structured =
      ToolResponse.validated services.schema_errors services.wire.to_string schema structured

  -- what is made of a result that a plugin returns
  unfoldable pub checked_result : ToolConfig → CallToolResult → CallToolResult
  unfolding tool_error_result_from_error
  checked_result tool_cfg result = elim result.structured_content [
    | none ↦ result
    | some structured ↦ elim (validated tool_cfg.output_schema structured) [
      | err e ↦ tool_error_result_from_error engine.config e
      | ok valid ↦ with_content result structured
    ]
  ]

  abbrev pub plugin_result : ToolConfig → Option (Fallible CallToolResult) → CallToolResult
  plugin_result tool_cfg none = cancelled_tool_result
  plugin_result tool_cfg (some (err e)) = tool_error_result_from_error engine.config e
  plugin_result tool_cfg (some (ok result)) = checked_result tool_cfg result

  -- the plugin of a tool
  unfoldable pub tool_plugin : ExecuteConfig → Fallible (ExecutePluginConfig × A tool)
  tool_plugin (execute_http execute) =
      fail invalid_request "plugin tool requires execute.type=plugin"
  tool_plugin (execute_plugin execute) =
      if is_empty execute.plugin
      then fail invalid_request "plugin tool requires plugin"
      else do plugin ← lookup_plugin A tool engine.plugins execute.plugin; ok (execute, plugin)

  unfoldable pub execute_plugin_tool :
      ToolConfig
      → (args : Value) → Option (RequestContext S)
      → S
      → S × Outcome (Fallible CallToolResult)
  unfolding tool_plugin plugin_context call_plugin checked_result
  execute_plugin_tool tool_cfg args request s = elim (tool_plugin tool_cfg.execute) [
    | err e ↦ (s, returned (err e))
    | ok (execute, plugin) ↦
        let params : PluginCallParams S = record {
          config = merge_plugin_config engine.config.plugins tool execute.plugin execute.config;
          ctx = plugin_context tool_cfg request;
        } in
        let run = call_plugin tool_cfg plugin args params s in
        (run.0, map_outcome (λ r. ok (plugin_result tool_cfg r)) (run.1))
  ]
