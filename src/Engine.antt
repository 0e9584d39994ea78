-- ===== src/Engine.antt =====
-- src/engine/orchestration.rs: the engine, and what a client sees of its errors.
--
-- `S` is the state of what is outside of the program. `Services` has what the engine calls there: the
-- client of HTTP requests, the exchange of tokens, the plugins, and the libraries for JSON, base64
-- and schemas. A call of a plugin may panic; the other services do not.
pub mod PluginTool
pub mod HttpTool
pub mod HttpResult
pub mod Dispatch
pub mod Returns
pub mod Refresh
pub mod Answers
pub mod Structured
pub mod PluginCalls
mod Tests
mod RefreshTests
pub mod CallsConform
use rust_mcp_core.Common.{
  Bool, List, Option, Result, String, [], false, if◌then◌else◌, nat_eq, none, not, some, string_eq,
  true, ℕ, ◌&&◌, ◌∷◌,
}
use rust_mcp_core.Common.Map.{Map}
use rust_mcp_core.Config.{McpConfig, ToolConfig}
use rust_mcp_core.Errors.{ErrorCode, Fallible, McpError, internal_error, mcp_error}
use rust_mcp_core.HttpClient.{Bytes, OutboundHttpRequest, OutboundHttpResponse}
use rust_mcp_core.Json.{Value}
use rust_mcp_core.LogSafety.{TruncatedField, truncate_string_for_log}
use rust_mcp_core.Outbound.Retry.{CancellationToken}
use rust_mcp_core.Plugins.{PluginLookup}
use rust_mcp_core.Protocol.{CallToolResult, error_result, text_content}
use rust_mcp_core.Tokens.{Cache, OutboundTokenExchanger, Readings}
use rust_mcp_core.ToolResponse.{Content}
use rust_mcp_core.Upstream.{Host}
use rust_mcp_core.ValueHelpers.{PluginType, Wire, tool}

-- A token of a request. An operation that is raced with it is dropped in the state that `interrupts`
-- gives, if the token is cancelled before the operation ends.
pub record Cancellation (S : Type 0) : Type 0 where
  pub token : CancellationToken S
  pub interrupts : S → Option S

-- `CancellationToken::new()`, which nothing cancels
abbrev pub uncancelled : {S : Type 0} → Cancellation S
uncancelled = record {
  token = record { is_cancelled = λ s. false; cancelled_within = λ delay s. false };
  interrupts = λ s. none;
}

-- `RequestContext<RoleServer>`, of which the engine reads the token here
pub record RequestContext (S : Type 0) : Type 0 where
  pub ct : Cancellation S

-- what a plugin is told of a call
pub record PluginContext (S : Type 0) : Type 0 where
  pub request : Option (RequestContext S)
  pub cancellation : Cancellation S

pub record PluginCallParams (S : Type 0) : Type 0 where
  pub config : Value
  pub ctx : PluginContext S

-- How a call ends: it returns, or panics, with a text if the payload is one.
pub data Outcome (A : Type 0) : Type 0 where
  returned : A → Outcome A
  panicked : Option String → Outcome A

abbrev pub map_outcome : {A B : Type 0} → (A → B) → Outcome A → Outcome B
map_outcome f (returned a) = returned (f a)
map_outcome f (panicked payload) = panicked payload

pub record Services (S : Type 0) (A : PluginType → Type 0) : Type 1 where
  pub call_tool : A tool → Value → PluginCallParams S → S → S × Outcome (Fallible CallToolResult)
  pub send : OutboundHttpRequest → S → S × Fallible OutboundHttpResponse
  pub exchanger : OutboundTokenExchanger S
  pub readings : S → Readings
  pub sleep : ℕ → S → S
  pub host : Host
  pub from_std : ℕ → Result String ℕ
  pub encode : String → String
  pub wire : Wire
  pub content_value : Content wire → Value
  pub from_str : String → Option Value
  pub from_slice : Bytes → Result String Value
  pub schema_errors : Value → Value → Result String (List String)
  pub result_len : CallToolResult → Result String ℕ
  pub value_len : Value → Result String ℕ
  pub to_value : Value → Result String Value

pub record Engine (A : PluginType → Type 0) : Type 0 where
  pub config : McpConfig
  pub tool_map : Map String ToolConfig
  pub plugins : PluginLookup A

-- The state of a call: the tokens in the cache, and what is outside.
pub record World (S : Type 0) : Type 0 where
  pub tokens : Cache
  pub outside : S

abbrev pub is_internal : ErrorCode → Bool
is_internal internal_error = true
is_internal _ = false

abbrev pub redacted_message : String
redacted_message = "internal server error"

-- what is logged of an error
pub record LoggedError : Type 0 where
  pub message : TruncatedField
  pub client_error_redacted : Bool

module _ (config : McpConfig) where
  unfoldable pub should_redact_internal_error_for_client : McpError → Bool
  should_redact_internal_error_for_client e =
      is_internal e.code && not config.expose_internal_error_details

  unfoldable pub log_internal_error_for_server :
      McpError → (client_error_redacted : Bool) → Option LoggedError
  log_internal_error_for_server e redacted =
      if is_internal e.code
      then some (record {
        message = truncate_string_for_log e.message config.log_payload_max_bytes;
        client_error_redacted = redacted;
      })
      else none

  -- without the log, which `log_internal_error_for_server` gives
  unfoldable pub sanitize_client_error : McpError → McpError
  unfolding should_redact_internal_error_for_client
  sanitize_client_error e =
      if should_redact_internal_error_for_client e
      then mcp_error internal_error redacted_message
      else e

  unfoldable pub sanitize_tool_error_message : McpError → String
  unfolding should_redact_internal_error_for_client
  sanitize_tool_error_message e =
      if should_redact_internal_error_for_client e then redacted_message else e.message

  -- `tool_execution_error_result` of the text that a client may see
  unfoldable pub tool_error_result_from_error : McpError → CallToolResult
  unfolding sanitize_tool_error_message
  tool_error_result_from_error e = error_result (text_content (sanitize_tool_error_message e) ∷ [])
