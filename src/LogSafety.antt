-- ===== src/LogSafety.antt =====
-- src/log_safety.rs: cutting a text for the log. A text of serde_json, or its error, is a parameter.
pub mod Bounds
mod Tests
use Prim.Native.String.{[], ◌∷◌}
use rust_mcp_core.Common.{
  Bool, Result, String, err, false, if◌then◌else◌, leb, min, nat_eq, ok, string_eq, suc, true, zero,
  ℕ, ◌&&◌, ◌-◌, ◌<>◌, ◌==◌,
}
use rust_mcp_core.Json.{Value}
use rust_mcp_core.Text.{len, len_utf8}
use rust_mcp_core.Text.Decimal.{usize_max}

pub record TruncatedField : Type 0 where
  pub value : String
  pub original_bytes : ℕ
  pub truncated : Bool

-- `str::is_char_boundary`, of a position in bytes
unfoldable pub is_char_boundary : ℕ → String → Bool
is_char_boundary zero s = true
is_char_boundary (suc n) [] = false
is_char_boundary (suc n) (c ∷ s) =
    leb (len_utf8 c) (suc n) && is_char_boundary (suc n - len_utf8 c) s

-- the loop: the last boundary that is not behind a position
unfoldable pub last_boundary : ℕ → String → ℕ
unfolding is_char_boundary
last_boundary zero s = 0
last_boundary (suc n) s = elim (is_char_boundary (suc n) s) [
  | true ↦ suc n
  | false ↦ last_boundary n s
]

-- `&input[..end]`
unfoldable pub slice_to : ℕ → String → String
slice_to zero s = []
slice_to (suc n) [] = []
slice_to (suc n) (c ∷ s) = c ∷ slice_to (suc n - len_utf8 c) s

abbrev whole : String → TruncatedField
whole input = record { value = input; original_bytes = len input; truncated = false }

unfoldable pub truncate_string_for_log : String → ℕ → TruncatedField
unfolding last_boundary slice_to
truncate_string_for_log input max_bytes =
    let limit = min max_bytes usize_max in
    if max_bytes == 0 then whole input else if leb (len input) limit then whole input else record {
      value = slice_to (last_boundary limit input) input <> "...";
      original_bytes = len input;
      truncated = true;
    }

abbrev serialized : Result String String → String
serialized (ok text) = text
serialized (err error) = "{\"_log_serialize_error\":\"" <> (error <> "\"}")

module _ (to_string : Value → Result String String) where
  unfoldable pub truncate_json_for_log : Value → ℕ → TruncatedField
  unfolding truncate_string_for_log
  truncate_json_for_log v max_bytes = truncate_string_for_log (serialized (to_string v)) max_bytes
