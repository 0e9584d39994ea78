-- ===== src/Pagination/Tests.antt =====
-- Runs of the pagination (src/engine/pagination.rs).
use rust_mcp_core.Common.{List, [], arith, none, ok, refl, some, ℕ, ◌∷◌, ◌≡◌, ◌≤◌}
use rust_mcp_core.Pagination.{
  Codec, decode_pagination_cursor, encode_pagination_cursor, paginate_items,
}
use rust_mcp_core.Pagination.Pages.{
  RoundTrips, decode-encode, follow, page_at, pages_cover_the_list,
}
use rust_mcp_core.Text.Decimal.{usize_max}

-- a codec that changes nothing
abbrev plain : Codec
plain = record { encode = λ s. s; decode = λ s. some s }

abbrev items3 : List ℕ
items3 = 10 ∷ 20 ∷ 30 ∷ []

plain-RoundTrips : RoundTrips plain
plain-RoundTrips s = refl

small : 3 ≤ usize_max
small = omega arith

decode-encode_example : decode_pagination_cursor plain (encode_pagination_cursor plain 3) ≡ ok 3
decode-encode_example = decode-encode plain plain-RoundTrips 3 small

pages_cover_the_list_example : follow plain 4 items3 2 none ≡ ok (items3, none)
pages_cover_the_list_example =
    pages_cover_the_list plain plain-RoundTrips items3 2 (omega arith) small

second_page_at :
    paginate_items plain items3 (some (encode_pagination_cursor plain 1)) 2
    ≡ ok (20 ∷ 30 ∷ [], none)
second_page_at = page_at plain plain-RoundTrips items3 2 1 small (omega arith)
