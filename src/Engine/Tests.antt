-- ===== src/Engine/Tests.antt =====
-- Calls of tools (src/engine/orchestration/tool_dispatch.rs) with services that answer by a counter: a
-- server that refuses the first token, and plugins that are results of their own.
use rust_mcp_core.Json
use rust_mcp_core.Common.Map
use rust_mcp_core.Common.{
  Option, String, [], if◌then◌else◌, nat_eq, none, ok, refl, some, string_eq, true, ℕ, ◌+◌, ◌==◌,
  ◌∷◌, ◌≡◌,
}
use rust_mcp_core.Common.Map.{Map}
use rust_mcp_core.Config.{ToolConfig, execute_plugin, forbidden}
use rust_mcp_core.Config.Samples.{bare_config}
use rust_mcp_core.Engine.{
  Engine, Outcome, Services, World, panicked, returned, sanitize_client_error,
  should_redact_internal_error_for_client,
}
use rust_mcp_core.Engine.Answers.{internal_errors_are_hidden, results_are_within_limits}
use rust_mcp_core.Engine.CallsConform.{structured_content_is_valid}
use rust_mcp_core.Engine.Dispatch.{client_result, execute_tool_config, execute_tool_with_context}
use rust_mcp_core.Engine.PluginCalls.{plugin_failures_are_results}
use rust_mcp_core.Engine.PluginTool.{
  call_plugin, checked_result, execute_plugin_tool, plugin_context, tool_plugin,
}
use rust_mcp_core.Engine.Returns.{call_returns}
use rust_mcp_core.Errors.{Fallible, fail, internal_error, mcp_error}
use rust_mcp_core.Json.{lookup, null, string}
use rust_mcp_core.Plugins.{PluginRef, lookup_plugin, of_type, plugin_ref}
use rust_mcp_core.Protocol.{CallToolResult, text_content}
use rust_mcp_core.ResponseLimits.{
  ResponseBytes, ResponseLimitsConfig, add_block, add_blocks, check_limit, check_limits,
  classify_content_block, enforce_response_limits, measure_result_bytes, structured_len, to_u64_len,
}
use rust_mcp_core.ResponseLimits.Limits.{AllWithin}
use rust_mcp_core.Text.{is_empty}
use rust_mcp_core.Tokens.{OutboundTokenExchanger}
use rust_mcp_core.ToolResponse.{validate_structured_output}
use rust_mcp_core.ValueHelpers.{PluginType, Wire, tool}

-- a plugin is how it ends
abbrev pub Kind : PluginType → Type 0
Kind tool = Outcome (Fallible CallToolResult)
Kind t = Unit

abbrev no_wire : Wire
no_wire = record {
  Meta = Unit;
  Icons = Unit;
  Annotations = Unit;
  as_meta = λ v. ok tt;
  as_icons = λ v. ok tt;
  as_annotations = λ v. ok tt;
  to_string = λ v. "{}";
}

abbrev counted_tokens : OutboundTokenExchanger ℕ
counted_tokens = record {
  exchange_client_credentials = λ resolved n. (
    n + 1,
    ok (record {
      access_token = if n == 0 then "first" else "second";
      refresh_token = none;
      expires_in = none;
    }),
  );
  exchange_refresh_token = λ resolved token n. (n, fail internal_error "no refresh");
}

abbrev pub outside_services : Services ℕ Kind
outside_services = record {
  call_tool = λ plugin args params n. (n + 1, plugin);
  send = λ request n. (n + 1, ok (record { status = if n == 1 then 401 else 200; body = [] }));
  exchanger = counted_tokens;
  readings = λ n. record { arrival = n; locked = n; exchanged = n };
  sleep = λ delay n. n;
  host = record { var = λ name. ok name; read_to_string = λ file. ok file };
  from_std = λ d. ok d;
  encode = λ s. s;
  wire = no_wire;
  content_value = λ content. null;
  from_str = λ s. none;
  from_slice = λ bytes. ok (string "pong");
  schema_errors = λ schema v. ok [];
  result_len = λ result. ok 10;
  value_len = λ v. ok 5;
  to_value = λ v. ok v;
}

abbrev some_limits : ResponseLimitsConfig
some_limits = record {
  text_bytes = some 20;
  structured_bytes = none;
  binary_bytes = none;
  other_bytes = none;
  total_bytes = some 20;
}

abbrev pub plugin_tool : ToolConfig
plugin_tool = record {
  name = "echo";
  cancellable = true;
  input_schema = null;
  output_schema = some null;
  execute = execute_plugin (record { plugin = "echo"; config = none; task_support = forbidden });
  response = none;
}

abbrev found_as : Outcome (Fallible CallToolResult) → PluginType → String → Option (PluginRef Kind)
found_as outcome tool name = some (plugin_ref tool outcome)
found_as outcome t name = none

abbrev plugin_engine : Option ResponseLimitsConfig → Outcome (Fallible CallToolResult) → Engine Kind
plugin_engine limits outcome = record {
  config = record bare_config { response_limits = limits };
  tool_map = ("echo", plugin_tool) ∷ [];
  plugins = record { get_plugin = found_as outcome; names = [] };
}

abbrev start : World ℕ
start = record { tokens = []; outside = 0 }

abbrev after_one : World ℕ
after_one = record { tokens = []; outside = 1 }

abbrev echoed : CallToolResult
echoed = record {
  content = [];
  structured_content = some (string "hello");
  is_error = none;
  meta = none;
}

abbrev echoed_with_text : CallToolResult
unfolding text_content
echoed_with_text = record echoed { content = text_content "{}" ∷ [] }

echo_answers :
    execute_tool_with_context outside_services
      (plugin_engine (some some_limits) (returned (ok echoed)))
      "echo"
      null
      none
      start
    ≡ some (after_one, ok echoed_with_text)
unfolding execute_tool_with_context execute_tool_config execute_plugin_tool tool_plugin
    lookup_plugin of_type plugin_context call_plugin checked_result validate_structured_output
    client_result enforce_response_limits measure_result_bytes structured_len add_blocks add_block
    classify_content_block check_limits check_limit to_u64_len Map.get text_content echoed_with_text
    is_empty Json.get lookup
echo_answers = refl

results_are_within_limits_example :
    (b : ResponseBytes) × (measure_result_bytes outside_services.result_len
        outside_services.value_len outside_services.to_value echoed_with_text
      ≡ ok b)
    × AllWithin b some_limits
results_are_within_limits_example =
    results_are_within_limits outside_services
      (plugin_engine (some some_limits) (returned (ok echoed))) "echo" null none start after_one
      echoed_with_text some_limits refl echo_answers

structured_content_is_valid_example : outside_services.schema_errors null (string "hello") ≡ ok []
unfolding Map.get echoed_with_text
structured_content_is_valid_example =
    structured_content_is_valid outside_services
      (plugin_engine (some some_limits) (returned (ok echoed))) "echo" null none start after_one
      plugin_tool null (string "hello") echoed_with_text refl refl echo_answers refl

plugin_failures_are_results_example :
    (after : World ℕ) × (result : CallToolResult) × (execute_tool_with_context outside_services
        (plugin_engine none (panicked (some "lost")))
        "echo"
        null
        none
        start
      ≡ some (after, ok result))
unfolding Map.get tool_plugin lookup_plugin of_type is_empty
plugin_failures_are_results_example =
    plugin_failures_are_results outside_services (plugin_engine none (panicked (some "lost")))
      "echo" null none start plugin_tool
      (record { plugin = "echo"; config = none; task_support = forbidden }) (panicked (some "lost"))
      refl refl refl

abbrev tight_limits : ResponseLimitsConfig
tight_limits = record some_limits { total_bytes = some 5 }

too_large :
    execute_tool_with_context outside_services
      (plugin_engine (some tight_limits) (returned (ok echoed)))
      "echo"
      null
      none
      start
    ≡ some (after_one, fail internal_error "internal server error")
unfolding execute_tool_with_context execute_tool_config execute_plugin_tool tool_plugin
    lookup_plugin of_type plugin_context call_plugin checked_result validate_structured_output
    client_result enforce_response_limits measure_result_bytes structured_len add_blocks add_block
    classify_content_block check_limits check_limit to_u64_len Map.get text_content echoed_with_text
    is_empty Json.get lookup sanitize_client_error should_redact_internal_error_for_client
too_large = refl

internal_errors_are_hidden_example :
    mcp_error internal_error "internal server error"
    ≡ mcp_error internal_error "internal server error"
internal_errors_are_hidden_example =
    internal_errors_are_hidden outside_services
      (plugin_engine (some tight_limits) (returned (ok echoed))) "echo" null none start after_one
      (mcp_error internal_error "internal server error") refl too_large refl

call_returns_example :
    (r : World ℕ × Fallible CallToolResult) × (execute_tool_with_context outside_services
        (plugin_engine none (panicked none))
        "echo"
        null
        none
        start
      ≡ some r)
call_returns_example =
    call_returns outside_services (plugin_engine none (panicked none)) "echo" null none start
