-- ===== src/Outbound/Tests.antt =====
-- Runs of outbound requests (src/http/outbound_pipeline.rs).
use rust_mcp_core.Common.Map
use rust_mcp_core.Common.{
  Bool, List, Result, String, [], arith, err, false, nat_eq, none, ok, refl, some, string_eq, true,
  ℕ, ◌∷◌, ◌≡◌, ◌≤◌,
}
use rust_mcp_core.Common.Map.{Map}
use rust_mcp_core.Outbound.{
  build_request_headers, inherit, method_is_retryable, static_authorization,
}
use rust_mcp_core.Outbound.Attempts.{Ends, call_settles, calls_end, retries_allowed, settled}
use rust_mcp_core.Outbound.Headers.{request_headers_are_built}
use rust_mcp_core.Outbound.Retry.{execute_with_retry, retry_from}
use rust_mcp_core.Text.{eq_ignore_ascii_case, trim}
use rust_mcp_core.Upstream.{
  OutboundHttpConfig, OutboundRetryConfig, UpstreamConfig, bearer_auth, default_retry,
}

abbrev flaky : List ℕ → List ℕ × Result ℕ ℕ
flaky [] = ([], ok 200)
flaky (n ∷ l) = (l, err n)

abbrev on_error : Result ℕ ℕ → OutboundRetryConfig → Bool
on_error (ok n) retry = false
on_error (err n) retry = true

abbrev still : ℕ → List ℕ → List ℕ
still delay l = l

get_is_retried : method_is_retryable "get" ≡ true
unfolding method_is_retryable trim eq_ignore_ascii_case
get_is_retried = refl

calls_end_example :
    (r : List ℕ × Result ℕ ℕ) × (n : ℕ) × (execute_with_retry flaky on_error still none 0 3
        (some default_retry)
        "get"
        (502 ∷ [])
      ≡ some r)
    × (n ≤ 3)
    × Ends flaky on_error still none 0 default_retry n 3 (502 ∷ []) r
unfolding default_retry
calls_end_example =
    calls_end flaky on_error still none 0 default_retry 3 "get" (502 ∷ []) (omega arith)
      get_is_retried (omega arith)

call_settles_example :
    execute_with_retry flaky on_error still none 0 3 (some default_retry) " Post" (502 ∷ [])
    ≡ some (
        settled flaky on_error still 0 default_retry
          (retries_allowed flaky on_error still 0 default_retry " Post")
          (502 ∷ []))
unfolding default_retry
call_settles_example =
    call_settles flaky on_error still 0 default_retry 3 " Post" (502 ∷ []) (omega arith)

third_time :
    execute_with_retry flaky on_error still none 0 3 (some default_retry) " get" (502 ∷ 503 ∷ [])
    ≡ some ([], ok 200)
unfolding default_retry execute_with_retry retry_from method_is_retryable trim eq_ignore_ascii_case
third_time = refl

abbrev defaults : OutboundHttpConfig
defaults = record {
  headers = ("accept", "text/plain") ∷ [];
  user_agent = some "core";
  timeout_ms = none;
  max_response_bytes = none;
  retry = none;
}

abbrev upstream : UpstreamConfig
upstream = record {
  base_url = "http://api/";
  headers = ("accept", "text/html") ∷ [];
  user_agent = none;
  timeout_ms = none;
  max_response_bytes = none;
  retry = none;
  auth = some (bearer_auth "own");
}

abbrev unencoded : String → String
unencoded s = s

request_headers_are_built_example :
    (texts : Map String String) × (build_request_headers unencoded
        (some defaults)
        upstream
        (inherit none)
        (("accept", "*") ∷ [])
      ≡ some texts)
    × (Map.get "Authorization" texts ≡ some "Bearer own")
unfolding Map.get static_authorization
request_headers_are_built_example =
    request_headers_are_built unencoded (some defaults) upstream (inherit none)
      (("accept", "*") ∷ []) "Authorization" (tt, tt) (tt, tt) (tt, tt)
