-- ===== src/HttpClient/Tests.antt =====
-- Requests to a server (src/http/client.rs) that answers with two chunks and counts its requests.
use rust_mcp_core.Common.{List, String, [], ok, refl, some, ℕ, ◌+◌, ◌∷◌, ◌≡◌, ◌≤◌}
use rust_mcp_core.Errors.{fail, internal_error}
use rust_mcp_core.HttpClient.{
  send, Chunk, OutboundHttpRequest, OutboundHttpResponse, Reqwest, body_of, built_of,
  default_request, effective_max_response_bytes, read_chunks,
}
use rust_mcp_core.HttpClient.Limit.{joined, response_within_limit}
use rust_mcp_core.Text.{trim}

abbrev two_chunks : Reqwest ℕ
two_chunks = record {
  Method = String;
  from_bytes = λ text. ok text;
  send = λ built n. (n + 1, ok (200, ok (1 ∷ 2 ∷ []) ∷ ok (3 ∷ []) ∷ []));
}

abbrev small_request : OutboundHttpRequest
small_request = record default_request {
  method = " GET ";
  url = "http://api/";
  max_response_bytes = some 3;
}

abbrev three_bytes : OutboundHttpResponse
three_bytes = record { status = 200; body = 1 ∷ 2 ∷ 3 ∷ [] }

three_come : send 100 two_chunks small_request 0 ≡ (1, ok three_bytes)
unfolding send effective_max_response_bytes body_of read_chunks
three_come = refl

too_long :
    send 100 two_chunks (record small_request { max_response_bytes = some 2 }) 0
    ≡ (1, fail internal_error "outbound response body exceeds configured max_response_bytes")
unfolding send effective_max_response_bytes body_of read_chunks
too_long = refl

response_within_limit_example :
    (method : String) × (chunks : List Chunk) × (two_chunks.from_bytes (trim " GET ") ≡ ok method)
    × (two_chunks.send (built_of 100 two_chunks small_request method) 0 ≡ (1, ok (200, chunks)))
    × (joined chunks ≡ some (1 ∷ 2 ∷ 3 ∷ []))
    × (3 ≤ 3)
response_within_limit_example =
    response_within_limit 100 two_chunks small_request 0 1 three_bytes three_come
