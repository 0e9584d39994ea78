-- ===== src/Auth/Tests.antt =====
-- Runs of the authorization (src/auth/inbound).
use rust_mcp_core.Auth.Provider
use rust_mcp_core.Common.Map
use rust_mcp_core.Auth.Accepted.{Active, Shows, Verified}
use rust_mcp_core.Auth.Authorization.{
  AuthState, Services, allow, authorize, bearer_only, check_bearer, valid, validate_jwt,
  validate_opaque,
}
use rust_mcp_core.Auth.Claims.{
  audiences_match_required, claims_match_required, provided_scopes, scopes_match_required,
}
use rust_mcp_core.Auth.Decisions.{SharesToken, allowed_is_accepted, valid_jwt_has_claims}
use rust_mcp_core.Auth.Membership.{HasAll, scopes_match_iff}
use rust_mcp_core.Auth.Provider.{
  AuthProviderConfig, algorithms, allow_missing_iss, audiences, bearer_token, clock_skew_sec,
  introspection_url, jwks, required_claims, required_scopes,
}
use rust_mcp_core.Auth.Token.{extract_bearer_token, select_jwk}
use rust_mcp_core.Auth.Validated.{validate_opaque-Active}
use rust_mcp_core.Common.{
  Option, String, [], false, nat_eq, none, refl, some, string_eq, true, ℕ, ◌↔◌, ◌∷◌, ◌≡◌,
}
use rust_mcp_core.Json.{Value, bool, end, field, get, lookup, object, string}
use rust_mcp_core.Text.{is_empty, split_whitespace, strip_prefix, trim}

abbrev claims_value : Value
claims_value = object (field "scope" (string "read") end)

-- services that verify every token
abbrev services : Services
services = record {
  Algorithm = ℕ;
  Material = ℕ;
  Key = ℕ;
  issuer = λ p. none;
  jwks = λ p. some (record { key_id = none; material = 1 } ∷ []);
  decode_payload = λ s. none;
  decode_header = λ t. some (0, none);
  parse_algorithm = λ s. none;
  from_jwk = λ k. some k.material;
  decode = λ t k v. some claims_value;
  introspect = λ p url t. none;
  Headers = Option String;
  authorization = λ h. h;
  plugins = none;
}

abbrev provider : AuthProviderConfig
provider = Provider.jwks (record {
  name = "issuer";
  issuer = none;
  discovery_url = none;
  jwks_url = none;
  audiences = [];
  required_scopes = "read" ∷ [];
  required_claims = [];
  algorithms = [];
  clock_skew_sec = none;
  enable_oidc_discovery = true;
  allow_well_known_fallback = false;
})

abbrev server : AuthState
server = record {
  activation = bearer_only;
  bearer_token = some "secret";
  resource_metadata_url = none;
  providers = [];
  auth_plugin_configs = [];
  scope_challenges_enabled = true;
}

allowed : authorize services server (some "Bearer secret") ≡ allow
unfolding authorize check_bearer extract_bearer_token strip_prefix is_empty trim
allowed = refl

allowed_is_accepted_example : SharesToken services server (some "Bearer secret")
allowed_is_accepted_example = allowed_is_accepted services server (some "Bearer secret") allowed

accepted : validate_jwt services "a.b.c" provider ≡ valid
unfolding validate_jwt claims_match_required scopes_match_required select_jwk get lookup Map.get
    split_whitespace
accepted = refl

valid_jwt_has_claims_example :
    (claims : Value) × Verified services provider "a.b.c" claims × Shows claims provider
valid_jwt_has_claims_example = valid_jwt_has_claims services "a.b.c" provider accepted

scopes_match_iff_run :
    (scopes_match_required claims_value ("read" ∷ []) ≡ true) ↔ HasAll ("read" ∷ []) ("read" ∷ [])
unfolding get lookup Map.get split_whitespace provided_scopes
scopes_match_iff_run = scopes_match_iff claims_value ("read" ∷ [])

-- an endpoint that finds every token active
abbrev endpoint : Services
endpoint = record services {
  introspect =
      λ p url t. some (object (field "active" (bool true) (field "scope" (string "read") end)));
}

abbrev remote : AuthProviderConfig
remote = Provider.introspection (record {
  name = "remote";
  issuer = none;
  allow_missing_iss = true;
  introspection_url = "https://auth/introspect";
  client_id = none;
  client_secret = none;
  auth_method = Provider.basic;
  audiences = [];
  required_scopes = "read" ∷ [];
  required_claims = [];
})

active : validate_opaque endpoint "opaque" remote ≡ valid
unfolding validate_opaque claims_match_required scopes_match_required audiences_match_required get
    lookup Map.get split_whitespace
active = refl

validate_opaque-Active_run :
    (url : String) × (some "https://auth/introspect" ≡ some url)
    × ((payload : Value) × Active endpoint remote url "opaque" payload × Shows payload remote)
validate_opaque-Active_run = validate_opaque-Active endpoint "opaque" remote active
