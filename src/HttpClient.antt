-- ===== src/HttpClient.antt =====
-- src/http/client.rs: outbound requests and the client that sends them, with its limit on a body.
--
-- `reqwest` is a parameter: the reader of a method, and `send`, which answers with a status and the
-- chunks of the body as they come, or with the text of its error. A body is a list of bytes. A build
-- without the features that send anything has `disabled_send`.
pub mod Limit
mod Tests
use rust_mcp_core.Common.{
  Bool, List, Option, Result, String, [], err, false, if◌then◌else◌, is_empty_list, is_some, leb,
  length, ltb, none, not, ok, some, true, ℕ, ◌&&◌, ◌++◌, ◌+◌, ◌>>=◌, ◌>>◌, ◌∷◌,
}
use rust_mcp_core.Errors.{Fallible, fail, internal_error, invalid_request}
use rust_mcp_core.Json.{Value}
use rust_mcp_core.Text.{trim}

-- the bytes of a body
abbrev pub Bytes : Type 0
Bytes = List ℕ

pub record OutboundHttpRequest : Type 0 where
  pub method : String
  pub url : String
  pub query : List (String × String)
  pub headers : List (String × String)
  pub timeout_ms : Option ℕ
  pub max_response_bytes : Option ℕ
  pub json_body : Option Value
  pub form_body : List (String × String)
  pub basic_auth : Option (String × Option String)

-- `OutboundHttpRequest::default`
abbrev pub default_request : OutboundHttpRequest
default_request = record {
  method = "";
  url = "";
  query = [];
  headers = [];
  timeout_ms = none;
  max_response_bytes = none;
  json_body = none;
  form_body = [];
  basic_auth = none;
}

pub record OutboundHttpResponse : Type 0 where
  pub status : ℕ
  pub body : Bytes

unfoldable pub is_success : OutboundHttpResponse → Bool
is_success r = leb 200 r.status && ltb r.status 300

abbrev pub default_max_response_bytes : ℕ
default_max_response_bytes = 1048576

-- on a machine whose `usize` has 64 bits or fewer, by the largest `usize`
unfoldable pub effective_max_response_bytes : (usize_max : ℕ) → OutboundHttpRequest → Fallible ℕ
effective_max_response_bytes usize_max request = elim request.max_response_bytes [
  | none ↦ ok default_max_response_bytes
  | some limit ↦
      if leb limit usize_max
      then ok limit
      else fail invalid_request "max_response_bytes is too large for this platform"
]

pub data Body : Type 0 where
  no_body : Body
  json : Value → Body
  form : List (String × String) → Body

unfoldable pub body_of : OutboundHttpRequest → Body
body_of request = elim request.json_body [
  | some body ↦ json body
  | none ↦ elim request.form_body [ [] ↦ no_body | pair ∷ pairs ↦ form (pair ∷ pairs) ]
]

-- a request as it is given to `reqwest`, with the method that was read
pub record Built (Method : Type 0) : Type 0 where
  pub method : Method
  pub url : String
  pub query : List (String × String)
  pub headers : List (String × String)
  pub timeout_ms : Option ℕ
  pub basic_auth : Option (String × Option String)
  pub body : Body

abbrev pub Chunk : Type 0
Chunk = Result String Bytes

pub record Reqwest (S : Type 0) : Type 1 where
  pub Method : Type 0
  pub from_bytes : String → Result String Method
  pub send : Built Method → S → S × Result String (ℕ × List Chunk)

abbrev pub has_both_bodies : OutboundHttpRequest → Bool
has_both_bodies request = is_some request.json_body && not (is_empty_list request.form_body)

-- the loop over the chunks, with the body so far
unfoldable pub read_chunks : (usize_max limit : ℕ) → Bytes → List Chunk → Fallible Bytes
read_chunks usize_max limit body [] = ok body
read_chunks usize_max limit body (err reason ∷ chunks) = fail internal_error reason
read_chunks usize_max limit body (ok chunk ∷ chunks) =
    let rest = read_chunks usize_max limit (body ++ chunk) chunks in
    if ltb usize_max (length body + length chunk)
    then fail internal_error "response body overflow"
    else if ltb limit (length body + length chunk)
    then fail internal_error "outbound response body exceeds configured max_response_bytes"
    else rest

module _ {S : Type 0} (usize_max : ℕ) (reqwest : Reqwest S) where
  abbrev pub received : (limit : ℕ) → Result String (ℕ × List Chunk) → Fallible OutboundHttpResponse
  received limit (err reason) = fail internal_error reason
  received limit (ok (status, chunks)) = do
    body ← read_chunks usize_max limit [] chunks
    ok (record { status = status; body = body })

  abbrev pub built_of : OutboundHttpRequest → reqwest.Method → Built reqwest.Method
  built_of request method = record {
    method = method;
    url = request.url;
    query = request.query;
    headers = request.headers;
    timeout_ms = request.timeout_ms;
    basic_auth = request.basic_auth;
    body = body_of request;
  }

  -- `ReqwestHttpClient::send`
  unfoldable pub send : OutboundHttpRequest → S → S × Fallible OutboundHttpResponse
  unfolding effective_max_response_bytes body_of read_chunks
  send request s = elim (effective_max_response_bytes usize_max request) [
    | err e ↦ (s, err e)
    | ok limit ↦ elim (has_both_bodies request) [
      | true ↦ (s, fail invalid_request "outbound request cannot use json and form body together")
      | false ↦ elim (reqwest.from_bytes (trim request.method)) [
        | err reason ↦ (s, fail invalid_request reason)
        | ok method ↦
            let sent = reqwest.send (built_of request method) s in (sent.0, received limit (sent.1))
      ]
    ]
  ]

-- `DisabledHttpClient::send`
unfoldable pub disabled_send :
    {S : Type 0} → OutboundHttpRequest → S → S × Fallible OutboundHttpResponse
disabled_send request s = (
  s,
  fail invalid_request "outbound HTTP client is unavailable (enable auth or http_tools feature)",
)
