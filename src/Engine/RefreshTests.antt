-- ===== src/Engine/RefreshTests.antt =====
-- A request of a tool (src/engine/orchestration/tool_dispatch.rs) whose first token the server refuses.
use rust_mcp_core.Common.Map
use rust_mcp_core.Common.{[], err, nat_eq, none, ok, refl, some, string_eq, true, ℕ, ◌∷◌, ◌≡◌}
use rust_mcp_core.Common.Map.{Map}
use rust_mcp_core.Config.{ExecuteHttpConfig, ToolConfig, execute_http, forbidden}
use rust_mcp_core.Config.Samples.{bare_config}
use rust_mcp_core.Engine.{Engine, World}
use rust_mcp_core.Engine.HttpResult.{dispatch_of}
use rust_mcp_core.Engine.HttpTool.{
  HttpDispatchParams, Oauth2ExecutionContext, build_http_request_template,
  execute_http_request_flow, execute_http_request_with_retry,
}
use rust_mcp_core.Engine.Refresh.{answer_has_cached_token, with_token}
use rust_mcp_core.Engine.Tests.{Kind, outside_services, plugin_tool}
use rust_mcp_core.HttpExecutor.{HttpRequestTemplate, status_code, upstream_status}
use rust_mcp_core.Json.{null, put, string}
use rust_mcp_core.Outbound.{resolve_retry_config}
use rust_mcp_core.Templating.{render_value}
use rust_mcp_core.Text.{starts_with, trim}
use rust_mcp_core.TokenConfig.{cache_key_of, grant_eq, key_eq, resolved_config}
use rust_mcp_core.Tokens.{access_token, CachedOutboundToken}
use rust_mcp_core.Upstream.{
  UpstreamConfig, UpstreamOauth2AuthConfig, client_credentials, inline_value, oauth2,
}

abbrev api_auth : UpstreamOauth2AuthConfig
api_auth = record {
  grant = client_credentials;
  token_url = "http://id/token";
  client_id = "me";
  client_secret = record { source = inline_value; value = "secret" };
  auth_method = none;
  scopes = [];
  audience = none;
  extra_token_params = [];
  refresh = none;
  refresh_token = none;
  mtls = none;
}

abbrev api : UpstreamConfig
api = record {
  base_url = "http://api";
  headers = [];
  user_agent = none;
  timeout_ms = none;
  max_response_bytes = none;
  retry = none;
  auth = some (oauth2 api_auth);
}

abbrev ping : ExecuteHttpConfig
ping = record {
  upstream = "api";
  method = "GET";
  path = "/ping";
  query = none;
  headers = none;
  body = none;
  retry = none;
  task_support = forbidden;
}

abbrev ping_tool : ToolConfig
ping_tool = record plugin_tool { name = "ping"; output_schema = none; execute = execute_http ping }

abbrev ping_engine : Engine Kind
ping_engine = record {
  config = record bare_config { upstreams = ("api", api) ∷ [] };
  tool_map = ("ping", ping_tool) ∷ [];
  plugins = record { get_plugin = λ t name. none; names = [] };
}

abbrev context : Oauth2ExecutionContext
context = record { auth = api_auth; bearer = "first"; retry_on_401_once = true }

abbrev ping_dispatch : HttpDispatchParams ℕ
unfolding resolve_retry_config
ping_dispatch = dispatch_of outside_services ping_engine ping_tool ping api null none (some context)

abbrev ping_template : HttpRequestTemplate
unfolding build_http_request_template
ping_template = build_http_request_template outside_services ping_engine ping api (some "first")

abbrev refused_first : World ℕ
refused_first = record { tokens = []; outside = 1 }

abbrev second_token : CachedOutboundToken
second_token = record { access_token = "second"; refresh_token = none; expires_at = none }

abbrev refreshed : World ℕ
unfolding cache_key_of
refreshed = record { tokens = (cache_key_of "api" api_auth, second_token) ∷ []; outside = 4 }

first_round :
    execute_http_request_with_retry outside_services ping_engine ping_dispatch ping_template 1
    ≡ some (2, err (upstream_status 401))
unfolding execute_http_request_with_retry ping_dispatch render_value starts_with trim ping_template
    put Map.insert
first_round = refl

both_rounds :
    execute_http_request_flow outside_services ping_engine ping_dispatch ping_template
      (some context)
      refused_first
    ≡ some (refreshed, ok (string "pong"))
unfolding execute_http_request_flow ping_dispatch render_value starts_with trim ping_template put
    Map.insert status_code access_token resolved_config Map.get
both_rounds = refl

answer_has_cached_token_example :
    (entry : CachedOutboundToken) × (start : ℕ) × (Map.get
        (cache_key_of "api" api_auth)
        refreshed.tokens
      ≡ some entry)
    × (execute_http_request_with_retry outside_services ping_engine ping_dispatch
          (with_token outside_services ping_engine ping_dispatch ping_template entry.access_token)
          start
        ≡ some (4, ok (string "pong")))
unfolding ping_dispatch status_code refreshed
answer_has_cached_token_example =
    answer_has_cached_token outside_services ping_engine ping_dispatch ping_template context
      refused_first refreshed 2 (err (upstream_status 401)) (string "pong") refl first_round refl
      both_rounds
