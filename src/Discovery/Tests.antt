-- ===== src/Discovery/Tests.antt =====
-- Calls of a provider (src/auth/inbound/provider.rs) with a client that counts its requests; the count
-- is the clock, too.
use rust_mcp_core.Auth.Provider.{AuthJwksProviderConfig, jwks}
use rust_mcp_core.Common.{List, String, [], arith, none, ok, refl, some, true, ℕ, ◌+◌, ◌∷◌, ◌≡◌}
use rust_mcp_core.Discovery.{
  AuthProvider, DiscoveryDocument, Outside, World, cached_fetch, discovered, discovery,
  fetch_discovery, fetch_json, fetch_jwks, first_document, fresh_value, provider_jwks,
  provider_jwks_url,
}
use rust_mcp_core.Discovery.Caches.{keys_are_kept}
use rust_mcp_core.Discovery.Urls.{
  build_discovery_candidates_from_issuer, dedup, discovery_candidates, discovery_options, origin_of,
  path_of, well_known,
}
use rust_mcp_core.HttpClient.{is_success}
use rust_mcp_core.Text.{is_empty, trim_end, trim_start}

abbrev key_server : Outside ℕ String
key_server = record {
  send = λ request n. (n + 1, ok (record { status = 200; body = [] }));
  read_document = λ body. ok (record { issuer = none; jwks_uri = some "http://id/keys" });
  read_keys = λ body. ok "http://id/keys";
  parse_url = λ url. some (record { path = "/tenant/"; bare = "http://id/" });
  now = λ n. n;
  wait_for_lock = λ w. w;
}

abbrev jwks_config : AuthJwksProviderConfig
jwks_config = record {
  name = "id";
  issuer = some "http://id/tenant/";
  discovery_url = none;
  jwks_url = none;
  audiences = [];
  required_scopes = [];
  required_claims = [];
  algorithms = [];
  clock_skew_sec = none;
  enable_oidc_discovery = true;
  allow_well_known_fallback = true;
}

abbrev id_provider : AuthProvider
id_provider = record {
  config = jwks jwks_config;
  outbound_timeout_ms = none;
  outbound_max_response_bytes = none;
}

abbrev found_document : DiscoveryDocument
found_document = record { issuer = none; jwks_uri = some "http://id/keys" }

abbrev cold : World ℕ String
cold = record { discovery_cache = none; jwks_cache = none; outside = 0 }

abbrev warm : World ℕ String
warm = record {
  discovery_cache = some (record { fetched_at = 1; value = found_document });
  jwks_cache = some (record { fetched_at = 2; value = "http://id/keys" });
  outside = 2;
}

two_requests : provider_jwks key_server id_provider cold ≡ (warm, some "http://id/keys")
unfolding provider_jwks cached_fetch fresh_value fetch_jwks provider_jwks_url discovered discovery
    fetch_discovery first_document fetch_json is_success discovery_candidates
    build_discovery_candidates_from_issuer discovery_options dedup well_known origin_of path_of
    trim_end trim_start is_empty
two_requests = refl

keys_are_kept_example :
    provider_jwks key_server id_provider (record warm { outside = 9 })
    ≡ (record warm { outside = 9 }, some "http://id/keys")
keys_are_kept_example =
    keys_are_kept key_server id_provider cold warm (record warm { outside = 9 }) "http://id/keys"
      (record { fetched_at = 2; value = "http://id/keys" }) two_requests refl refl (omega arith)

abbrev candidates : List String
candidates =
    "http://id/.well-known/oauth-authorization-server/tenant"
    ∷ "http://id/.well-known/openid-configuration/tenant"
    ∷ "http://id/tenant/.well-known/openid-configuration" ∷ []

three_candidates : discovery_candidates (key_server).parse_url (jwks jwks_config) ≡ candidates
unfolding discovery_candidates build_discovery_candidates_from_issuer discovery_options dedup
    well_known origin_of path_of trim_end trim_start is_empty
three_candidates = refl
