-- ===== src/Policy/Tests.antt =====
-- Runs of the guard (src/http/policy.rs).
use rust_mcp_core.Common.{String, false, some, true, ◌≡◌}
use rust_mcp_core.Policy.{
  Http, Request, Response, StreamableHttpRoutePolicy, delete, method_not_allowed_response, required,
  streamable_http_route_guard,
}
use rust_mcp_core.Policy.Guard.{guard_decides}
use rust_mcp_core.Text.{join}

abbrev http : Http
http = record {
  Body = String;
  Bytes = String;
  Headers = String;
  to_bytes = λ b n. some b;
  from_utf8_lossy = λ b. b;
  of_bytes = λ b. b;
  of_text = λ s. s;
  empty = "";
  text_headers = "text";
  bytes_headers = "bytes";
  allow_header = λ s. s;
}

abbrev policy : StreamableHttpRoutePolicy
policy = record {
  enable_get_stream = true;
  enable_sse_resumption = false;
  allow_delete_session = false;
  session_mode = required;
}

abbrev removal : Request
removal = record { method = delete; has_last_event_id = false; has_session_id = true }

abbrev handler : Request → Response http
handler r = record { status = 200; headers = "json"; body = "ok" }

guard_decides_run :
    streamable_http_route_guard http policy removal handler
    ≡ method_not_allowed_response http "GET, POST"
unfolding join
guard_decides_run = guard_decides http policy removal handler
