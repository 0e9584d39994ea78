-- ===== src/Outbound.antt =====
-- src/http/outbound_pipeline.rs: what an outbound request is made of, and its retries. Base64 is a
-- parameter.
pub mod Texts
pub mod Headers
pub mod Retry
pub mod Attempts
mod Tests
use Prim.Native.Char.{code}
use rust_mcp_core.Common.{
  Bool, Option, String, [], and_then, err, false, if◌then◌else◌, nat_eq, none, ok, or_else, some,
  string_eq, true, ℕ, ◌<>◌, ◌==◌, ◌||◌, ◌∷◌,
}
use rust_mcp_core.Common.Map.{Map}
use rust_mcp_core.Errors.{Fallible, invalid_request, mcp_error}
use rust_mcp_core.Json.{Object, Value, as_str, end, entries, field, object, put, string}
use rust_mcp_core.Text.{eq_ignore_ascii_case, starts_with, trim, trim_end}
use rust_mcp_core.Upstream.{
  OutboundHttpConfig, OutboundRetryConfig, UpstreamAuth, UpstreamConfig, basic_credentials,
  bearer_auth, no_upstream_auth, oauth2,
}
use rust_mcp_core.ValueHelpers.{insert_all}

pub record PluginRequestAuth : Type 0 where
  pub include_upstream_auth : Bool
  pub oauth2_bearer : Option String
  pub explicit_authorization : Option String

-- `PluginRequestAuth::inherit`, `none` and `explicit`
abbrev pub inherit : Option String → PluginRequestAuth
inherit bearer = record {
  include_upstream_auth = true;
  oauth2_bearer = bearer;
  explicit_authorization = none;
}

abbrev pub no_auth : PluginRequestAuth
no_auth = record {
  include_upstream_auth = false;
  oauth2_bearer = none;
  explicit_authorization = none;
}

abbrev pub explicit : String → PluginRequestAuth
explicit authorization = record {
  include_upstream_auth = false;
  oauth2_bearer = none;
  explicit_authorization = some authorization;
}

unfoldable pub resolve_upstream_url : (base_url url : String) → Fallible String
resolve_upstream_url base_url url =
    if starts_with "/" url
    then ok (trim_end (λ c. code c == b'/') base_url <> url)
    else if starts_with "http://" url || starts_with "https://" url
    then ok url
    else err
        (mcp_error invalid_request "plugin upstream request url must be absolute or begin with '/'")

-- a value of the request, else of the upstream, else of the defaults
abbrev fallback :
    {A : Type 0}
    → Option A
    → Option A
    → Option OutboundHttpConfig
    → (OutboundHttpConfig → Option A)
    → Option A
fallback request upstream outbound field_of =
    or_else request (or_else upstream (and_then outbound field_of))

unfoldable pub resolve_timeout_ms : Option ℕ → UpstreamConfig → Option OutboundHttpConfig → Option ℕ
resolve_timeout_ms request upstream outbound =
    fallback request upstream.timeout_ms outbound (λ o. o.timeout_ms)

unfoldable pub resolve_max_response_bytes :
    Option ℕ → UpstreamConfig → Option OutboundHttpConfig → Option ℕ
resolve_max_response_bytes request upstream outbound =
    fallback request upstream.max_response_bytes outbound (λ o. o.max_response_bytes)

unfoldable pub resolve_retry_config :
    Option OutboundRetryConfig
    → UpstreamConfig
    → Option OutboundHttpConfig
    → Option OutboundRetryConfig
resolve_retry_config request upstream outbound =
    fallback request upstream.retry outbound (λ o. o.retry)

-- The texts that a trimmed method is, in upper case: none of them has a small letter.
unfoldable pub method_is_retryable : String → Bool
method_is_retryable method =
    let m = trim method in
    eq_ignore_ascii_case m "GET"
    || eq_ignore_ascii_case m "HEAD"
    || eq_ignore_ascii_case m "OPTIONS"
    || eq_ignore_ascii_case m "DELETE"

-- `headers.insert(key, Value::String(value))`
abbrev pub set_header : String → Option String → Object → Object
set_header key none headers = headers
set_header key (some v) headers = put key (string v) headers

-- the headers of a map, inserted in its order
unfoldable pub set_headers : Map String String → Object → Object
set_headers [] headers = headers
set_headers ((k, v) ∷ m) headers = set_headers m (put k (string v) headers)

abbrev pub included : Bool → Option String → Option String
included true a = a
included false a = none

abbrev pub bearer_of : Option String → Option String
bearer_of none = none
bearer_of (some token) = some ("Bearer " <> token)

-- the headers that the outbound defaults set
unfoldable pub default_headers : Option OutboundHttpConfig → Object
unfolding set_headers
default_headers none = end
default_headers (some o) = set_headers o.headers (set_header "User-Agent" o.user_agent end)

abbrev tool_part : Option Value → Object → Object
tool_part (some (object o)) headers = insert_all headers o
tool_part _ headers = headers

abbrev unless_empty : Object → Option Value
unless_empty end = none
unless_empty (field k v o) = some (object (field k v o))

-- the texts of the headers, or none where one is no text and the code panics
unfoldable pub header_texts : Map String Value → Option (Map String String)
header_texts [] = some []
header_texts ((k, v) ∷ m) =
    and_then (as_str v) (λ s. and_then (header_texts m) (λ texts. some ((k, s) ∷ texts)))

module _ (encode : String → String) where
  -- the `Authorization` of an upstream's own credentials
  unfoldable pub static_authorization : Option UpstreamAuth → Option String
  static_authorization (some (bearer_auth token)) = some ("Bearer " <> token)
  static_authorization (some (basic_credentials username password)) =
      some ("Basic " <> encode (username <> (":" <> password)))
  static_authorization (some no_upstream_auth) = none
  static_authorization (some (oauth2 config)) = none
  static_authorization none = none

  unfoldable pub build_base_header_map :
      Option OutboundHttpConfig → UpstreamConfig → PluginRequestAuth → Object
  unfolding static_authorization default_headers
  build_base_header_map outbound upstream auth =
      set_header "Authorization" auth.explicit_authorization (
        set_header "Authorization" (bearer_of auth.oauth2_bearer) (
          set_header "Authorization"
            (included auth.include_upstream_auth (static_authorization upstream.auth))
            (set_headers upstream.headers
              (set_header "User-Agent" upstream.user_agent (default_headers outbound)))))

  unfoldable pub build_templated_headers :
      Option OutboundHttpConfig → UpstreamConfig → Option String → Option Value → Option Value
  unfolding build_base_header_map
  build_templated_headers outbound upstream bearer tool_headers =
      unless_empty
        (tool_part tool_headers (build_base_header_map outbound upstream (inherit bearer)))

  unfoldable pub build_request_headers :
      Option OutboundHttpConfig
      → UpstreamConfig
      → PluginRequestAuth
      → Map String String
      → Option (Map String String)
  unfolding build_base_header_map header_texts
  build_request_headers outbound upstream auth request_headers =
      header_texts
        (entries (set_headers request_headers (build_base_header_map outbound upstream auth)))
