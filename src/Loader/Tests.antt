-- ===== src/Loader/Tests.antt =====
-- A configuration that is loaded, and expansions (src/config/loader.rs).
use rust_mcp_core.Common.Map
use rust_mcp_core.Json
use rust_mcp_core.Common.{
  List, String, [], err, if◌then◌else◌, nat_eq, none, ok, refl, some, string_eq, true, ◌==◌, ◌>>◌,
  ◌↔◌, ◌∷◌, ◌≡◌,
}
use rust_mcp_core.Common.Map.{Map}
use rust_mcp_core.Config.{McpConfig, error, execute_plugin, forbidden}
use rust_mcp_core.Config.Samples.{bare_config}
use rust_mcp_core.Errors.{fail, invalid_request}
use rust_mcp_core.Json.{Value, array, cons, end, field, lookup, nil, null, object, string}
use rust_mcp_core.Loader.{
  Readers, check_names, check_policy, check_tools, combinators, load_mcp_config,
  load_mcp_config_from_path, validate_completion_semantics, validate_config,
  validate_input_schema_client_compat, validate_outbound_retry_semantics, validate_plugin_names,
  validate_retry_config, validate_streamable_http_hardening_semantics, validate_tool_retries,
  validate_upstream_retries,
}
use rust_mcp_core.Loader.Checks.{checks_pass_iff}
use rust_mcp_core.Loader.Conditions.{IsValidConfig, IsValidRetry}
use rust_mcp_core.Loader.Expansion.{expand_env_vars, expand_from, placeholder}
use rust_mcp_core.Loader.Loaded.{IsLoaded, load_is_valid}
use rust_mcp_core.Loader.Pieces.{Piece, expansion_of_pieces, keyed, plain, source_of, value_of}
use rust_mcp_core.Loader.Retries.{resolved_retry_is_valid}
use rust_mcp_core.Outbound.{resolve_retry_config}
use rust_mcp_core.Text.{contains_char, eq_ignore_ascii_case, strip_prefix}
use rust_mcp_core.Upstream.{Host, UpstreamConfig, default_retry}

abbrev no_files : Host
no_files = record {
  var = λ name. if name == "PORT" then ok "80" else err "not present";
  read_to_string = λ file. err "not found";
}

abbrev mixed : List Piece
mixed = plain "port: " ∷ keyed "env:PORT" ∷ keyed "args.x" ∷ keyed "env:NO" ∷ []

expansion_of_pieces_example : expand_env_vars no_files (source_of mixed) ≡ value_of no_files mixed
unfolding contains_char
expansion_of_pieces_example = expansion_of_pieces no_files mixed (refl, (refl, (refl, (refl, tt))))

mixed_value : value_of no_files mixed ≡ ok "port: 80${args.x}null"
unfolding value_of placeholder strip_prefix
mixed_value = refl

abbrev service : UpstreamConfig
service = record {
  base_url = "http://api";
  headers = [];
  user_agent = none;
  timeout_ms = none;
  max_response_bytes = none;
  retry = some default_retry;
  auth = none;
}

abbrev small : McpConfig
small = record bare_config {
  top_level_combinators = error;
  tools = some (record {
    enabled = none;
    items =
        record {
          name = "echo";
          cancellable = true;
          input_schema = null;
          output_schema = none;
          execute =
              execute_plugin (record { plugin = "echo"; config = none; task_support = forbidden });
          response = none;
        }
        ∷ [];
  });
  upstreams = ("api", service) ∷ [];
}

abbrev named : Value
named = object (field "plugins" (array (cons (object (field "name" (string "echo") end)) nil)) end)

abbrev readers : Readers
readers = record {
  read_to_string = λ file. ok "plugins";
  from_json = λ text. ok named;
  from_yaml = λ text. ok named;
  schema_errors = λ value. ok [];
  from_value = λ value. ok small;
}

abbrev extension : String → String
extension file = "json"

loads : load_mcp_config_from_path readers extension no_files "core.json" ≡ ok small
unfolding load_mcp_config_from_path default_retry expand_env_vars expand_from eq_ignore_ascii_case
    validate_config validate_plugin_names check_names validate_streamable_http_hardening_semantics
    validate_completion_semantics validate_outbound_retry_semantics validate_upstream_retries
    validate_tool_retries validate_retry_config validate_input_schema_client_compat check_policy
    check_tools combinators Json.get lookup Map.get
loads = refl

checks_pass_iff_example :
    ((validate_streamable_http_hardening_semantics small
        >> (validate_completion_semantics small
            >> (validate_outbound_retry_semantics small
                >> (validate_input_schema_client_compat small).1)))
      ≡ ok tt)
    ↔ IsValidConfig small
checks_pass_iff_example = checks_pass_iff small

load_is_valid_example : IsLoaded readers extension no_files "core.json" small
load_is_valid_example = load_is_valid readers extension no_files "core.json" small loads

resolved_retry_is_valid_run : IsValidRetry default_retry
unfolding Map.get resolve_retry_config
resolved_retry_is_valid_run =
    resolved_retry_is_valid readers extension no_files "core.json" small none "api" service
      default_retry loads tt refl refl

no_configuration :
    load_mcp_config readers extension no_files none
    ≡ fail invalid_request "MCP_CONFIG_PATH is required for config-driven servers"
unfolding load_mcp_config
no_configuration = refl
