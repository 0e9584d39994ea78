-- ===== src/Policy.antt =====
-- src/http/policy.rs: which requests reach the protocol's endpoint, and the status of its answers.
--
-- Bodies and headers are axum's. `Http` has what the code asks of them: reading a body of at most so
-- many bytes, the text of what was read with its bad bytes replaced, and the headers that axum sets on
-- an answer that is made of a text or of bytes.
pub mod Guard
mod Tests
use rust_mcp_core.Common.{
  Bool, Option, String, false, if◌then◌else◌, nat_eq, none, not, some, string_eq, true, ℕ, ◌&&◌,
  ◌==◌, ◌||◌,
}
use rust_mcp_core.Text.{contains}

pub data SessionMode : Type 0 where
  no_session optional required : SessionMode

pub data Method : Type 0 where
  get post delete other_method : Method

pub record StreamableHttpRoutePolicy : Type 0 where
  pub enable_get_stream : Bool
  pub enable_sse_resumption : Bool
  pub allow_delete_session : Bool
  pub session_mode : SessionMode

-- A request, with the presence of the headers `Last-Event-ID` and `MCP-Session-Id`.
pub record Request : Type 0 where
  pub method : Method
  pub has_last_event_id : Bool
  pub has_session_id : Bool

pub record Http : Type 1 where
  pub Body : Type 0
  pub Bytes : Type 0
  pub Headers : Type 0
  pub to_bytes : Body → ℕ → Option Bytes
  pub from_utf8_lossy : Bytes → String
  pub of_bytes : Bytes → Body
  pub of_text : String → Body
  pub empty : Body
  pub text_headers : Headers
  pub bytes_headers : Headers
  pub allow_header : String → Headers

abbrev pub session_remap_body_max_bytes : ℕ
session_remap_body_max_bytes = 4096

-- the status for the text of an answer with status 401
unfoldable pub classify_session_status : String → ℕ
classify_session_status text =
    if contains "Session ID is required" text
    then 400
    else if contains "Session not found" text
    then 404
    else 401

abbrev pub is_required : SessionMode → Bool
is_required required = true
is_required mode = false

abbrev pub is_get : Method → Bool
is_get get = true
is_get method = false

abbrev pub is_delete : Method → Bool
is_delete delete = true
is_delete method = false

module _ (h : Http) where
  pub record Response : Type 0 where
    pub status : ℕ
    pub headers : h.Headers
    pub body : h.Body

  unfoldable pub method_not_allowed_response : String → Response
  method_not_allowed_response allow = record {
    status = 405;
    headers = h.allow_header allow;
    body = h.of_text "Method Not Allowed";
  }

  unfoldable pub bad_request : String → Response
  bad_request text = record { status = 400; headers = h.text_headers; body = h.of_text text }

  -- an answer with status 401, once its body is read
  unfoldable pub remap_read : Response → Option h.Bytes → Response
  unfolding classify_session_status
  remap_read response none = record response { body = h.empty }
  remap_read response (some bytes) =
      let status = classify_session_status (h.from_utf8_lossy bytes) in
      if status == 401
      then record response { body = h.of_bytes bytes }
      else record { status = status; headers = h.bytes_headers; body = h.of_bytes bytes }

  unfoldable pub remap_session_status : Response → Response
  unfolding remap_read
  remap_session_status response =
      if response.status == 401
      then remap_read response (h.to_bytes response.body session_remap_body_max_bytes)
      else response

  unfoldable pub streamable_http_route_guard :
      StreamableHttpRoutePolicy → Request → (Request → Response) → Response
  unfolding method_not_allowed_response bad_request remap_session_status
  streamable_http_route_guard p r next_handler =
      if is_get r.method && not p.enable_get_stream
      then method_not_allowed_response (if p.allow_delete_session then "DELETE, POST" else "POST")
      else if is_delete r.method && not p.allow_delete_session
      then method_not_allowed_response (if p.enable_get_stream then "GET, POST" else "POST")
      else if is_get r.method && not p.enable_sse_resumption && r.has_last_event_id
      then bad_request "SSE resumption is disabled for this server"
      else if is_required p.session_mode
          && (is_get r.method || is_delete r.method)
          && not r.has_session_id
      then bad_request "MCP-Session-Id header is required"
      else remap_session_status (next_handler r)
