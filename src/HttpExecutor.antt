-- ===== src/HttpExecutor.antt =====
-- src/engine/http_executor.rs: the request of an HTTP tool, from its templates, and its answer. The
-- client, the printer and the parsers of JSON are parameters, with `S` what the client changes.
use Prim.Native.Char.{code}
use rust_mcp_core.Common.{
  List, Option, Result, String, [], err, if◌then◌else◌, nat_eq, none, ok, ok_or, some, string_eq, ℕ,
  ◌<>◌, ◌==◌, ◌>>=◌, ◌∷◌,
}
use rust_mcp_core.Errors.{
  Fallible, McpError, cancelled_error_message, fail, internal_error, invalid_request, mcp_error,
}
use rust_mcp_core.HttpClient.{
  Bytes, OutboundHttpRequest, OutboundHttpResponse, default_request, is_success,
}
use rust_mcp_core.Json.{Object, Value, as_str, end, field, object, string}
use rust_mcp_core.Templating.{RenderContext, is_missing, render_value, value_to_string}
use rust_mcp_core.Text.{starts_with, trim_end}
use rust_mcp_core.Text.Decimal.{show}

pub data HttpExecutionError : Type 0 where
  template_error request_error response_error : McpError → HttpExecutionError
  upstream_status : (status : ℕ) → HttpExecutionError
  execution_cancelled : HttpExecutionError

unfoldable pub status_code : HttpExecutionError → Option ℕ
status_code (upstream_status status) = some status
status_code _ = none

unfoldable pub into_mcp_error : HttpExecutionError → McpError
into_mcp_error (template_error e) = e
into_mcp_error (request_error e) = e
into_mcp_error (response_error e) = e
into_mcp_error (upstream_status status) =
    mcp_error internal_error ("upstream returned " <> show status)
into_mcp_error execution_cancelled = mcp_error internal_error cancelled_error_message

pub record HttpRequestTemplate : Type 0 where
  pub method : String
  pub path : String
  pub query : Option Value
  pub headers : Option Value
  pub body : Option Value
  pub timeout_ms : Option ℕ
  pub max_response_bytes : Option ℕ

abbrev pub Execution : Type 0 → Type 0
Execution A = Result HttpExecutionError A

-- `map_err(…)` of a fallible call
abbrev pub or_error : {A : Type 0} → (McpError → HttpExecutionError) → Fallible A → Execution A
or_error kind (ok a) = ok a
or_error kind (err e) = err (kind e)

-- the base without its last slashes, and the path behind one slash
unfoldable pub url_of : (base_url path : String) → String
url_of base_url path =
    trim_end (λ c. code c == b'/') base_url
    <> (if starts_with "/" path then path else ("/" <> path))

module _ (to_string : Value → String) (from_str : String → Option Value) where
  -- the fields of a rendered object that are not null, as texts
  unfoldable pub text_pairs : Object → List (String × String)
  text_pairs end = []
  text_pairs (field k v o) =
      let rest = text_pairs o in
      if is_missing (some v) then rest else (k, value_to_string to_string from_str v) ∷ rest

  abbrev pub pairs_of : Value → List (String × String)
  pairs_of (object o) = text_pairs o
  pairs_of _ = []

  module _ (ctx : RenderContext) where
    abbrev pub rendered_value : Value → Execution Value
    rendered_value v = or_error template_error (render_value to_string from_str ctx v)

    abbrev pub rendered_pairs : Option Value → Execution (List (String × String))
    rendered_pairs none = ok []
    rendered_pairs (some template) = do v ← rendered_value template; ok (pairs_of v)

    abbrev pub rendered_body : Option Value → Execution (Option Value)
    rendered_body none = ok none
    rendered_body (some template) = do v ← rendered_value template; ok (some v)

  -- the first part of `execute_http_detailed`
  unfoldable pub build_request :
      (base_url : String) → HttpRequestTemplate → (args : Value) → Execution OutboundHttpRequest
  unfolding text_pairs url_of
  build_request base_url template args =
      let ctx : RenderContext = record { args = args; response = none } in
      do
        path_value ← rendered_value ctx (string template.path)
        path ←
            ok_or (template_error (mcp_error invalid_request "path must render to a string"))
              (as_str path_value)
        query ← rendered_pairs ctx template.query
        headers ← rendered_pairs ctx template.headers
        body ← rendered_body ctx template.body
        ok (record default_request {
          method = template.method;
          url = url_of base_url path;
          query = query;
          headers = headers;
          timeout_ms = template.timeout_ms;
          max_response_bytes = template.max_response_bytes;
          json_body = body;
        })

  module _ {S : Type 0} (send : OutboundHttpRequest → S → S × Fallible OutboundHttpResponse)
      (from_slice : Bytes → Result String Value) where
    -- `OutboundHttpResponse::json`
    unfoldable pub read_json : OutboundHttpResponse → Fallible Value
    read_json response = elim (from_slice response.body) [
      | ok v ↦ ok v
      | err reason ↦ fail internal_error reason
    ]

    abbrev pub answer : Fallible OutboundHttpResponse → Execution Value
    answer (err e) = err (request_error e)
    answer (ok response) =
        if is_success response
        then or_error response_error (read_json response)
        else err (upstream_status response.status)

    unfoldable pub execute_http_detailed :
        (base_url : String) → HttpRequestTemplate → (args : Value) → S → S × Execution Value
    unfolding build_request read_json is_success
    execute_http_detailed base_url template args s = elim (build_request base_url template args) [
      | err e ↦ (s, err e)
      | ok request ↦ let sent = send request s in (sent.0, answer (sent.1))
    ]

    abbrev mcp_result : Execution Value → Fallible Value
    mcp_result (ok v) = ok v
    mcp_result (err e) = err (into_mcp_error e)

    unfoldable pub execute_http :
        (base_url : String) → HttpRequestTemplate → (args : Value) → S → S × Fallible Value
    unfolding execute_http_detailed into_mcp_error
    execute_http base_url template args s =
        let run = execute_http_detailed base_url template args s in (run.0, mcp_result (run.1))
