-- ===== src/TokenConfig/Tests.antt =====
-- A configuration of outbound OAuth2 (src/auth/outbound/config.rs).
use rust_mcp_core.Common.{[], err, none, ok, refl, some, true, ◌<>◌, ◌∷◌, ◌≡◌}
use rust_mcp_core.Text.{is_empty, trim}
use rust_mcp_core.Text.Order.{before}
use rust_mcp_core.Text.Sorted.{map_extend, map_insert, map_or_insert, set_extend, set_insert}
use rust_mcp_core.TokenConfig.{
  OutboundOauth2CacheKey, OutboundOauth2ResolvedConfig, cache_key_of, from_auth, normalize_scopes,
  normalized_token_params_map, refresh_policy_of, resolved_config,
}
use rust_mcp_core.TokenConfig.Keys.{cache_key-same}
use rust_mcp_core.Upstream.{
  Host, UpstreamOauth2AuthConfig, basic_auth, env, inline_value, refresh_token_grant,
  resolve_secret,
}

abbrev pub bare_host : Host
bare_host = record { var = λ name. ok ("$" <> name); read_to_string = λ path. err "not found" }

abbrev pub oauth_config : UpstreamOauth2AuthConfig
oauth_config = record {
  grant = refresh_token_grant;
  token_url = "http://id/token";
  client_id = "core";
  client_secret = record { source = env; value = "SECRET" };
  auth_method = none;
  scopes = "write" ∷ "read" ∷ [];
  audience = some "api";
  extra_token_params = ("resource", "r") ∷ [];
  refresh = none;
  refresh_token = some (record { source = inline_value; value = "first" });
  mtls = none;
}

cache_key-same_run :
    cache_key_of "api" oauth_config
    ≡ cache_key_of "api" (record oauth_config { scopes = " read" ∷ "write" ∷ "" ∷ "read" ∷ [] })
unfolding trim is_empty
cache_key-same_run =
    cache_key-same "api" oauth_config (" read" ∷ "write" ∷ "" ∷ "read" ∷ [])
      ((refl, (refl, tt)), (refl, (refl, (refl, tt))))

abbrev pub oauth_key : OutboundOauth2CacheKey
oauth_key = record {
  upstream_name = "api";
  grant = refresh_token_grant;
  scopes = "read" ∷ "write" ∷ [];
  audience = some "api";
  resource = some "r";
  extra_token_params = ("audience", "api") ∷ ("resource", "r") ∷ [];
}

pub key_of_config : cache_key_of "api" oauth_config ≡ oauth_key
unfolding cache_key_of normalize_scopes normalized_token_params_map trim is_empty before set_extend
    set_insert map_extend map_insert map_or_insert
key_of_config = refl

abbrev pub resolved_config_example : OutboundOauth2ResolvedConfig
resolved_config_example = record {
  cache_key = oauth_key;
  grant = refresh_token_grant;
  token_url = "http://id/token";
  client_id = "core";
  client_secret = "$SECRET";
  auth_method = basic_auth;
  scopes = "read" ∷ "write" ∷ [];
  extra_token_params = ("audience", "api") ∷ ("resource", "r") ∷ [];
  bootstrap_refresh_token = some "first";
  mtls = none;
  refresh_policy = record { skew_sec = 60; retry_on_401_once = true };
}

pub resolves : from_auth bare_host "api" oauth_config ≡ ok resolved_config_example
unfolding from_auth resolve_secret resolved_config cache_key_of refresh_policy_of normalize_scopes
    normalized_token_params_map trim is_empty before set_extend set_insert map_extend map_insert
    map_or_insert
resolves = refl
