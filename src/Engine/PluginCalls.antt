-- ===== src/Engine/PluginCalls.antt =====
-- src/engine/orchestration/tool_dispatch.rs: what a plugin does is told as a result of its tool.
use rust_mcp_core.Common.Map
use rust_mcp_core.Common.{
  Option, String, and_then, ap, inl, inr, nat_eq, none, ok, refl, some, string_eq, ◌∙◌, ◌≡◌,
}
use rust_mcp_core.Common.Map.{Map}
use rust_mcp_core.Config.{
  ExecuteConfig-cases, ExecutePluginConfig, ToolConfig, execute_http, execute_plugin,
}
use rust_mcp_core.Engine.{
  Engine, Outcome, RequestContext, Services, World, map_outcome, panicked, returned,
}
use rust_mcp_core.Engine.Dispatch.{
  caught, client_result, execute_tool_config, execute_tool_with_context, of_run,
}
use rust_mcp_core.Engine.HttpResult.{execute_http_tool}
use rust_mcp_core.Engine.PluginTool.{execute_plugin_tool, plugin_result, tool_plugin}
use rust_mcp_core.Errors.{Fallible, err≢ok}
use rust_mcp_core.Json.{Value}
use rust_mcp_core.Protocol.{CallToolResult}
use rust_mcp_core.ResponseLimits.{enforce_response_limits}
use rust_mcp_core.ValueHelpers.{PluginType, tool}

module _ {S : Type 0} {A : PluginType → Type 0} (services : Services S A) (engine : Engine A) where
  client_result-unlimited :
      (result : CallToolResult)
      → engine.config.response_limits ≡ none
      → client_result services engine (ok result) ≡ ok result
  unfolding client_result enforce_response_limits
  client_result-unlimited result unlimited = rw unlimited refl

  caught_plugin-result :
      (tool_cfg : ToolConfig) (r : Outcome (Option (Fallible CallToolResult)))
      → (result : CallToolResult) × (caught services engine
            (map_outcome (λ x. ok (plugin_result services engine tool_cfg x)) r)
          ≡ ok result)
  caught_plugin-result tool_cfg (returned x) = (_, refl)
  caught_plugin-result tool_cfg (panicked payload) = (_, refl)

  plugin_tool-result :
      (tool_cfg : ToolConfig) (args : Value) (request : Option (RequestContext S)) (s : S)
      (execute : ExecutePluginConfig) (plugin : A tool)
      → tool_plugin services engine tool_cfg.execute ≡ ok (execute, plugin)
      → (result : CallToolResult) × (caught services engine
            ((execute_plugin_tool services engine tool_cfg args request s).1)
          ≡ ok result)
  unfolding execute_plugin_tool
  plugin_tool-result tool_cfg args request s execute plugin found =
      rw (found, execute_plugin_tool) (caught_plugin-result tool_cfg _)

  config-plugin :
      (tool_cfg : ToolConfig) (args : Value) (request : Option (RequestContext S)) (w : World S)
      (p : ExecutePluginConfig)
      → tool_cfg.execute ≡ execute_plugin p
      → execute_tool_config services engine tool_cfg args request w
        ≡ some (
            of_run services engine w
              (execute_plugin_tool services engine tool_cfg args request w.outside))
  unfolding execute_tool_config
  config-plugin tool_cfg args request w p is =
      ap
        (λ e. elim e [
          | execute_http h ↦
              and_then (execute_http_tool services engine tool_cfg args request w)
                (λ run. some (run.0, returned (run.1)))
          | execute_plugin q ↦ some (
              of_run services engine w
                (execute_plugin_tool services engine tool_cfg args request w.outside))
        ])
        is

  -- Where no limits on responses are configured, a call of a tool with a registered plugin returns a
  -- result and no error, whatever the plugin does: it may fail, panic, be cancelled or return what
  -- does not conform to the schema.
  pub plugin_failures_are_results :
      (name : String) (args : Value) (request : Option (RequestContext S)) (w : World S)
      (tool_cfg : ToolConfig) (execute : ExecutePluginConfig) (plugin : A tool)
      → Map.get name engine.tool_map ≡ some tool_cfg
      → tool_plugin services engine tool_cfg.execute ≡ ok (execute, plugin)
      → engine.config.response_limits ≡ none
      → (after : World S) × (result : CallToolResult) × (execute_tool_with_context services engine
            name args request w
          ≡ some (after, ok result))
  unfolding execute_tool_with_context execute_tool_config tool_plugin
  plugin_failures_are_results name args request w tool_cfg execute plugin known found unlimited =
      elim (ExecuteConfig-cases tool_cfg.execute) [
        | inl (h, is) ↦ absurd (err≢ok (rw (is, tool_plugin) at found))
        | inr (p, is) ↦
            let (result, made) =
              plugin_tool-result tool_cfg args request w.outside execute plugin found in
            let run = execute_plugin_tool services engine tool_cfg args request w.outside in
            (
              record w { outside = run.0 },
              result,
              rw (known, config-plugin tool_cfg args request w p is, execute_tool_with_context)
                  (ap (λ r. some (record w { outside = run.0 }, client_result services engine r))
                      made
                    ∙ ap (λ r. some (record w { outside = run.0 }, r))
                        (client_result-unlimited result unlimited)),
            )
      ]
