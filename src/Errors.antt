-- ===== src/Errors.antt =====
-- src/errors.rs, and `McpError` (`rmcp::ErrorData`) with the constructors that the program calls.
use rust_mcp_core.Common.{Option, Result, String, arith, err, none, ok, ◌≡◌}
use rust_mcp_core.Json.{Value}

-- The JSON-RPC codes: -32602, -32600, -32603, -32601, -32002 and the program's own -32000.
pub data ErrorCode : Type 0 where
  invalid_params invalid_request internal_error method_not_found resource_not_found : ErrorCode
  cancelled_code : ErrorCode

pub record McpError : Type 0 where
  pub code : ErrorCode
  pub message : String
  pub details : Option Value

-- `McpError::invalid_params(message, None)` and the like
abbrev pub mcp_error : ErrorCode → String → McpError
mcp_error code message = record { code = code; message = message; details = none }

abbrev pub Fallible : Type 0 → Type 0
Fallible A = Result McpError A

abbrev pub fail : {A : Type 0} → ErrorCode → String → Result McpError A
fail code message = err (mcp_error code message)

abbrev pub cancelled_error_message : String
cancelled_error_message = "request cancelled"

unfoldable pub cancelled_error : McpError
cancelled_error = mcp_error cancelled_code cancelled_error_message

-- `McpError::invalid_params(message, None)`
abbrev pub bad_params : String → McpError
bad_params message = mcp_error invalid_params message

pub err≢ok : {A : Type 0} {e : McpError} {a : A} → err e ≡ ok a → ⊥
err≢ok h = grind arith
