-- ===== src/Loader.antt =====
-- src/config/loader.rs: the expansion of the environment's variables, and the checks of a
-- configuration. The parsers of YAML and JSON, the validator of schemas and the reader of types are
-- parameters.
pub mod Expansion
pub mod Pieces
pub mod Conditions
pub mod Checks
pub mod Loaded
pub mod Retries
mod Tests
use rust_mcp_core.Json
use rust_mcp_core.Common.{
  Bool, List, Option, Result, String, [], and_then, any, err, false, filter, if◌then◌else◌,
  is_empty_list, is_some, map, nat_beq, nat_eq, none, not, ok, or_else, some, string_eq, true, ℕ,
  ◌&&◌, ◌+◌, ◌<>◌, ◌==◌, ◌>>=◌, ◌>>◌, ◌∷◌,
}
use rust_mcp_core.Common.Map.{Map}
use rust_mcp_core.Config.{
  McpConfig, StreamableHttpRateLimitConfig, StreamableHttpSessionHardeningConfig, ToolConfig,
  TopLevelCombinatorsPolicy, error, has_any_bucket, is_active, off, retry_of, tools_items, warn,
}
use rust_mcp_core.Errors.{ErrorCode, Fallible, fail, internal_error, invalid_request}
use rust_mcp_core.Json.{Value, Values, as_array, as_object, as_str, elements, has_key}
use rust_mcp_core.Loader.Expansion.{expand_env_vars}
use rust_mcp_core.Policy.{SessionMode, no_session}
use rust_mcp_core.Text.{eq_ignore_ascii_case, join}
use rust_mcp_core.Text.Decimal.{show}
use rust_mcp_core.Upstream.{Host, OutboundRetryConfig, UpstreamConfig}

abbrev invalid_config : {A : Type 0} → String → Fallible A
invalid_config message = fail invalid_request message

abbrev pub when_some : {A : Type 0} → Option A → (A → Fallible Unit) → Fallible Unit
when_some none check = ok tt
when_some (some a) check = check a

-- `return Err(..)` under a condition
abbrev pub refuse_if : Bool → String → Fallible Unit
refuse_if true message = invalid_config message
refuse_if false message = ok tt

abbrev pub name_of : Value → Option String
unfolding Json.get
name_of plugin = and_then (Json.get "name" plugin) as_str

unfoldable pub check_names : (seen : List String) → List Value → Fallible Unit
check_names seen [] = ok tt
check_names seen (plugin ∷ plugins) = elim (name_of plugin) [
  | none ↦ invalid_config "plugins[].name must be a string"
  | some name ↦ elim (any (◌==◌ name) seen) [
    | true ↦ invalid_config ("duplicate plugin name: " <> name)
    | false ↦ check_names (name ∷ seen) plugins
  ]
]

abbrev pub plugins_of : Value → Option Values
plugins_of value = and_then (Json.get "plugins" value) as_array

unfoldable pub validate_plugin_names : Value → Fallible Unit
unfolding check_names
validate_plugin_names value =
    when_some (plugins_of value) (λ plugins. check_names [] (elements plugins))

unfoldable pub validate_retry_config : String → OutboundRetryConfig → Fallible Unit
validate_retry_config place retry = do
  refuse_if (nat_beq retry.max_attempts 0) (place <> ".max_attempts must be >= 1")
  refuse_if (nat_beq retry.delay_ms 0) (place <> ".delay_ms must be >= 1")
  refuse_if (not retry.on_network_errors && is_empty_list retry.on_statuses)
      (place <> " must configure on_statuses when on_network_errors is false")

unfoldable pub validate_upstream_retries : Map String UpstreamConfig → Fallible Unit
unfolding validate_retry_config
validate_upstream_retries [] = ok tt
validate_upstream_retries ((name, upstream) ∷ upstreams) = do
  when_some upstream.retry (validate_retry_config ("upstreams." <> (name <> ".retry")))
  validate_upstream_retries upstreams

unfoldable pub validate_tool_retries : (index : ℕ) → List ToolConfig → Fallible Unit
unfolding validate_retry_config show
validate_tool_retries index [] = ok tt
validate_tool_retries index (tool ∷ tools) = do
  when_some (retry_of tool.execute)
      (validate_retry_config ("tools." <> (show index <> ".execute.retry")))
  validate_tool_retries (index + 1) tools

unfoldable pub validate_outbound_retry_semantics : McpConfig → Fallible Unit
unfolding validate_retry_config validate_upstream_retries validate_tool_retries
validate_outbound_retry_semantics config = do
  when_some (and_then config.outbound_http (λ o. o.retry))
      (validate_retry_config "outbound_http.retry")
  validate_upstream_retries config.upstreams
  validate_tool_retries 0 (tools_items config)

unfoldable pub validate_completion_semantics : McpConfig → Fallible Unit
validate_completion_semantics config = when_some config.completion (λ c.
    refuse_if (is_active c.enabled && is_empty_list c.providers)
      "completion config is active but completion.providers is empty; set completion.enabled=false to disable completion")

abbrev pub idle_rate : StreamableHttpRateLimitConfig → Bool
idle_rate rate = is_active rate.enabled && not (has_any_bucket rate)

abbrev pub is_stateless : SessionMode → Bool
is_stateless no_session = true
is_stateless _ = false

abbrev pub session_of : McpConfig → Option StreamableHttpSessionHardeningConfig
session_of config = and_then config.streamable_http.hardening (λ h. h.session)

unfoldable pub validate_streamable_http_hardening_semantics : McpConfig → Fallible Unit
validate_streamable_http_hardening_semantics config = do
  refuse_if (is_stateless config.streamable_http.session_mode && is_some (session_of config))
      "transport.streamable_http.hardening.session requires session_mode=optional|required"
  when_some (and_then config.streamable_http.hardening (λ h. h.rate_limit)) (λ rate.
      refuse_if (idle_rate rate)
        "transport.streamable_http.hardening.rate_limit requires global or per_ip when enabled")
  when_some (and_then (session_of config) (λ s. s.creation_rate)) (λ rate.
      refuse_if (idle_rate rate)
        "transport.streamable_http.hardening.session.creation_rate requires global or per_ip when enabled")

abbrev combinator_keys : List String
combinator_keys = "anyOf" ∷ "oneOf" ∷ "allOf" ∷ []

-- the combinators at the top level of a tool's schema
unfoldable pub combinators : ToolConfig → List String
unfolding has_key
combinators tool = elim (as_object tool.input_schema) [
  | none ↦ []
  | some schema ↦ filter (λ key. has_key key schema) combinator_keys
]

abbrev quoted : String → String
quoted key = "`" <> (key <> "`")

unfoldable pub combinators_detail : ℕ → ToolConfig → String
unfolding show join combinators
combinators_detail index tool =
    "tools."
    <> (show index
        <> (".input_schema (tool '"
            <> (tool.name
                <> ("') uses top-level "
                    <> (join ", " (map quoted (combinators tool))
                        <> ". some AI clients reject top-level combinators; prefer object-only constraints like `required` and `minProperties`.")))))

-- The warnings that are logged, and the outcome.
unfoldable pub check_tools :
    TopLevelCombinatorsPolicy → (index : ℕ) → List ToolConfig → List String × Fallible Unit
unfolding combinators combinators_detail
check_tools policy index [] = ([], ok tt)
check_tools policy index (tool ∷ tools) =
    let detail = combinators_detail index tool in
    let rest = check_tools policy (index + 1) tools in
    if is_empty_list (combinators tool) then rest else elim policy [
      | warn ↦ (detail ∷ rest.0, rest.1)
      | _ ↦ ([], invalid_config ("input schema client compatibility check failed: " <> detail))
    ]

unfoldable pub check_policy :
    TopLevelCombinatorsPolicy → List ToolConfig → List String × Fallible Unit
unfolding check_tools
check_policy off tools = ([], ok tt)
check_policy warn tools = check_tools warn 0 tools
check_policy error tools = check_tools error 0 tools

unfoldable pub validate_input_schema_client_compat : McpConfig → List String × Fallible Unit
unfolding check_policy
validate_input_schema_client_compat config =
    check_policy config.top_level_combinators (tools_items config)

-- What the loader calls: the reader of files, the parsers, the validator of the schema with its
-- messages, and the reader of a configuration from a value.
pub record Readers : Type 0 where
  pub read_to_string : String → Result String String
  pub from_json : String → Result String Value
  pub from_yaml : String → Result String Value
  pub schema_errors : Value → Result String (List String)
  pub from_value : Value → Result String McpConfig

abbrev pub refused : {A : Type 0} → ErrorCode → Result String A → Fallible A
refused code (ok a) = ok a
refused code (err message) = fail code message

-- the text after the last dot of the file name, as `Path::extension` gives it, is a parameter
module _ (readers : Readers) (extension : String → String) (host : Host) where
  unfoldable pub validate_config : Value → Fallible Unit
  unfolding validate_plugin_names join
  validate_config value = do
    messages ← refused internal_error (readers.schema_errors value)
    refuse_if (not (is_empty_list messages))
        ("config schema validation failed: " <> join "; " messages)
    validate_plugin_names value

  unfoldable pub load_mcp_config_from_path : String → Fallible McpConfig
  unfolding validate_config validate_streamable_http_hardening_semantics
      validate_completion_semantics validate_outbound_retry_semantics
      validate_input_schema_client_compat eq_ignore_ascii_case
  load_mcp_config_from_path file = do
    raw ← refused internal_error (readers.read_to_string file)
    expanded ← expand_env_vars host raw
    value ← refused invalid_request (
        if eq_ignore_ascii_case (extension file) "json"
        then readers.from_json expanded
        else readers.from_yaml expanded)
    validate_config value
    config ← refused invalid_request (readers.from_value value)
    validate_streamable_http_hardening_semantics config
    validate_completion_semantics config
    validate_outbound_retry_semantics config
    (validate_input_schema_client_compat config).1
    ok config

  abbrev value_or_none : Result String String → Option String
  value_or_none (ok value) = some value
  value_or_none (err e) = none

  unfoldable pub load_mcp_config : (file : Option String) → Fallible McpConfig
  unfolding load_mcp_config_from_path
  load_mcp_config file = elim (or_else file (value_or_none (host.var "MCP_CONFIG_PATH"))) [
    | none ↦ fail invalid_request "MCP_CONFIG_PATH is required for config-driven servers"
    | some path_of_config ↦ load_mcp_config_from_path path_of_config
  ]
