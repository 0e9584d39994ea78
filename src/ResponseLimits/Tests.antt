-- ===== src/ResponseLimits/Tests.antt =====
-- Runs of the limits (src/engine/orchestration/response_limits.rs).
use rust_mcp_core.Common.Map
use rust_mcp_core.Common.{
  Result, String, [], nat_eq, none, ok, refl, some, string_eq, ℕ, ◌↔◌, ◌∷◌, ◌≡◌,
}
use rust_mcp_core.Json.{Value, end, field, get, lookup, object, string}
use rust_mcp_core.Protocol.{CallToolResult, default_result}
use rust_mcp_core.ResponseLimits.{
  ResponseBytes, ResponseLimitsConfig, classify_content_block, enforce_response_limits,
  measure_result_bytes,
}
use rust_mcp_core.ResponseLimits.Limits.{AllWithin, enforce_iff}

abbrev result_size : CallToolResult → Result String ℕ
result_size r = ok 40

abbrev value_size : Value → Result String ℕ
value_size v = ok 12

-- a content block is its own value
abbrev same_value : Value → Result String Value
same_value v = ok v

abbrev reply : CallToolResult
reply = record default_result { content = object (field "type" (string "text") end) ∷ [] }

abbrev limits : ResponseLimitsConfig
limits = record {
  text_bytes = some 10;
  structured_bytes = none;
  binary_bytes = none;
  other_bytes = none;
  total_bytes = some 50;
}

abbrev sizes : ResponseBytes
sizes = record { text = 12; structured = 0; binary = 0; other = 0; total = 40 }

measured : measure_result_bytes result_size value_size same_value reply ≡ ok sizes
unfolding measure_result_bytes classify_content_block get lookup Map.get
measured = refl

enforce_iff_example :
    (enforce_response_limits result_size value_size same_value reply (some limits) ≡ ok tt)
    ↔ AllWithin sizes limits
enforce_iff_example = enforce_iff result_size value_size same_value reply limits sizes measured
