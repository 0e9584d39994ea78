-- ===== src/Protocol.antt =====
-- The protocol types of `rmcp::model` that the program builds and reads, with the fields it uses. A
-- content block is kept in its JSON form.
use rust_mcp_core.Common.{Bool, List, Option, String, [], false, none, some, true, ℕ, ◌∷◌}
use rust_mcp_core.Errors.{cancelled_error_message}
use rust_mcp_core.Json.{Object, Value, end, field, object, string}

pub record CallToolResult : Type 0 where
  pub content : List Value
  pub structured_content : Option Value
  pub is_error : Option Bool
  pub meta : Option Object

-- `Content::text(text)`
unfoldable pub text_content : String → Value
text_content text = object (field "type" (string "text") (field "text" (string text) end))

-- `CallToolResult::default()`, `CallToolResult::success(content)`, `CallToolResult::error(content)`
abbrev pub default_result : CallToolResult
default_result = record { content = []; structured_content = none; is_error = none; meta = none }

unfoldable pub success_result : List Value → CallToolResult
success_result content = record default_result { content = content; is_error = some false }

unfoldable pub error_result : List Value → CallToolResult
error_result content = record default_result { content = content; is_error = some true }

-- src/errors.rs, `cancelled_tool_result`
unfoldable pub cancelled_tool_result : CallToolResult
unfolding error_result text_content
cancelled_tool_result = error_result (text_content cancelled_error_message ∷ [])

pub data TaskStatus : Type 0 where
  working input_required completed failed cancelled : TaskStatus

pub record Task : Type 0 where
  pub task_id : String
  pub status : TaskStatus
  pub status_message : Option String
  pub created_at : String
  pub last_updated_at : String
  pub ttl : Option ℕ
  pub poll_interval : Option ℕ
