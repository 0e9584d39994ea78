-- ===== src/ResponseLimits.antt =====
-- src/engine/orchestration/response_limits.rs: limits on the size of a tool's result. The length of a
-- serialisation, or the library's error, is a parameter, as is the value that a content block is
-- serialised to.
pub mod Limits
mod Tests
use rust_mcp_core.Common.{
  List, Option, Result, String, [], and_then, err, if◌then◌else◌, leb, min, nat_eq, none, ok, some,
  string_eq, ℕ, ◌%◌, ◌+◌, ◌-◌, ◌<>◌, ◌==◌, ◌>>=◌, ◌>>◌, ◌^◌, ◌||◌, ◌∷◌,
}
use rust_mcp_core.Errors.{Fallible, internal_error, mcp_error}
use rust_mcp_core.Json.{Object, Value, as_object, as_str, get, has_key}
use rust_mcp_core.Protocol.{CallToolResult}

pub record ResponseBytes : Type 0 where
  pub text : ℕ
  pub structured : ℕ
  pub binary : ℕ
  pub other : ℕ
  pub total : ℕ

pub record ResponseLimitsConfig : Type 0 where
  pub text_bytes : Option ℕ
  pub structured_bytes : Option ℕ
  pub binary_bytes : Option ℕ
  pub other_bytes : Option ℕ
  pub total_bytes : Option ℕ

pub data ContentClass : Type 0 where
  text_class binary_class other_class : ContentClass

-- `u64::try_from(len).unwrap_or(u64::MAX)`
unfoldable pub to_u64_len : ℕ → ℕ
to_u64_len n = min n (2 ^ 64 - 1)

-- the class of an embedded resource
unfoldable pub classify_resource : Option Object → ContentClass
classify_resource none = other_class
classify_resource (some o) =
    if has_key "text" o then text_class else if has_key "blob" o then binary_class else other_class

unfoldable pub classify_content_block : Value → ContentClass
unfolding classify_resource
classify_content_block v = elim (and_then (get "type" v) as_str) [
  | none ↦ other_class
  | some t ↦
      if t == "text"
      then text_class
      else if t == "image" || t == "audio"
      then binary_class
      else if t == "resource"
      then classify_resource (and_then (get "resource" v) as_object)
      else other_class
]

abbrev pub add_u64 : ℕ → ℕ → ℕ
add_u64 a b = (a + b) % 2 ^ 64

unfoldable pub add_block : ContentClass → ℕ → ResponseBytes → ResponseBytes
add_block text_class n b = record b { text = add_u64 b.text n }
add_block binary_class n b = record b { binary = add_u64 b.binary n }
add_block other_class n b = record b { other = add_u64 b.other n }

abbrev failed_to : {A : Type 0} → String → Result String A → Fallible A
failed_to what (ok a) = ok a
failed_to what (err e) = err (mcp_error internal_error (what <> (" for size check: " <> e)))

module _ (result_len : CallToolResult → Result String ℕ) (value_len : Value → Result String ℕ)
    (to_value : Value → Result String Value) where
  unfoldable pub add_blocks : List Value → ResponseBytes → Fallible ResponseBytes
  unfolding classify_content_block add_block to_u64_len
  add_blocks [] b = ok b
  add_blocks (content ∷ rest) b = do
    v ← failed_to "failed to serialize content block" (to_value content)
    n ← failed_to "failed to encode content block" (value_len v)
    add_blocks rest (add_block (classify_content_block v) (to_u64_len n) b)

  unfoldable pub structured_len : Option Value → Fallible ℕ
  unfolding to_u64_len
  structured_len none = ok 0
  structured_len (some v) = do
    n ← failed_to "failed to serialize structured content" (value_len v)
    ok (to_u64_len n)

  unfoldable pub measure_result_bytes : CallToolResult → Fallible ResponseBytes
  unfolding add_blocks structured_len to_u64_len
  measure_result_bytes result = do
    total ← failed_to "failed to serialize tool result" (result_len result)
    structured ← structured_len result.structured_content
    add_blocks result.content (record {
      text = 0;
      structured = structured;
      binary = 0;
      other = 0;
      total = to_u64_len total;
    })

  unfoldable pub check_limit : ℕ → Option ℕ → String → Fallible Unit
  check_limit n none label = ok tt
  check_limit n (some limit) label =
      if leb n limit
      then ok tt
      else err
          (mcp_error internal_error ("tool response exceeds configured " <> (label <> " limit")))

  unfoldable pub check_limits : ResponseBytes → ResponseLimitsConfig → Fallible Unit
  unfolding check_limit
  check_limits b l = do
    text ← check_limit b.text l.text_bytes "text_bytes"
    structured ← check_limit b.structured l.structured_bytes "structured_bytes"
    binary ← check_limit b.binary l.binary_bytes "binary_bytes"
    other ← check_limit b.other l.other_bytes "other_bytes"
    check_limit b.total l.total_bytes "total_bytes"

  unfoldable pub enforce_response_limits :
      CallToolResult → Option ResponseLimitsConfig → Fallible Unit
  unfolding measure_result_bytes check_limits
  enforce_response_limits result none = ok tt
  enforce_response_limits result (some limits) = do
    bytes ← measure_result_bytes result
    check_limits bytes limits
