-- ===== src/Pagination.antt =====
-- src/engine/pagination.rs: pages of a list, by cursors that hold a position. Base64 is a library's:
-- `Codec` has its `encode`, and its `decode` followed by `String::from_utf8`, whose two errors give
-- the same answer.
pub mod Pages
mod Tests
use rust_mcp_core.Common.{
  List, Option, String, drop, err, if◌then◌else◌, length, ltb, min, none, ok, ok_or, some, take, ℕ,
  ◌+◌, ◌-◌, ◌<>◌, ◌>>=◌, ◌>>◌,
}
use rust_mcp_core.Errors.{Fallible, McpError, invalid_params, mcp_error}
use rust_mcp_core.Json.{end}
use rust_mcp_core.Text.{strip_prefix}
use rust_mcp_core.Text.Decimal.{parse, show, usize_max}

pub record Codec : Type 0 where
  pub encode : String → String
  pub decode : String → Option String

abbrev pub invalid_cursor : McpError
invalid_cursor = mcp_error invalid_params "invalid cursor"

abbrev pub version : String
version = "v1:"

-- `usize::saturating_add`
unfoldable pub saturating_add : ℕ → ℕ → ℕ
saturating_add a b = min (a + b) usize_max

module _ (codec : Codec) where
  unfoldable pub encode_pagination_cursor : ℕ → String
  encode_pagination_cursor offset = codec.encode (version <> show offset)

  unfoldable pub decode_pagination_cursor : String → Fallible ℕ
  decode_pagination_cursor cursor = do
    decoded ← ok_or invalid_cursor (codec.decode cursor)
    offset ← ok_or invalid_cursor (strip_prefix version decoded)
    ok_or invalid_cursor (parse offset)

  -- the position at which a page starts
  unfoldable pub start_of : Option String → Fallible ℕ
  unfolding decode_pagination_cursor
  start_of none = ok 0
  start_of (some cursor) = decode_pagination_cursor cursor

  -- `paginate_items` once the start is known
  unfoldable pub page_from : {A : Type 0} → List A → ℕ → ℕ → Fallible (List A × Option String)
  unfolding encode_pagination_cursor saturating_add
  page_from items page_size start =
      let end = min (saturating_add start page_size) (length items) in
      if ltb (length items) start
      then err invalid_cursor
      else ok (
        take (end - start) (drop start items),
        if ltb end (length items) then some (encode_pagination_cursor end) else none,
      )

  unfoldable pub paginate_items :
      {A : Type 0} → List A → Option String → ℕ → Fallible (List A × Option String)
  unfolding start_of page_from
  paginate_items items cursor page_size = do
    start ← start_of cursor
    page_from items page_size start
