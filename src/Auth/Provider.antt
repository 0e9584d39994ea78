-- ===== src/Auth/Provider.antt =====
-- src/config/types/auth.rs: the configuration of an auth provider, and what it says of any kind of it.
use rust_mcp_core.Common.{
  Bool, List, Option, String, [], false, nat_eq, none, some, string_eq, true, ℕ,
}
use rust_mcp_core.Common.Map.{Map}

pub record AuthBearerProviderConfig : Type 0 where
  pub name : String
  pub token : String

pub record AuthJwksProviderConfig : Type 0 where
  pub name : String
  pub issuer : Option String
  pub discovery_url : Option String
  pub jwks_url : Option String
  pub audiences : List String
  pub required_scopes : List String
  pub required_claims : Map String String
  pub algorithms : List String
  pub clock_skew_sec : Option ℕ
  pub enable_oidc_discovery : Bool
  pub allow_well_known_fallback : Bool

pub data IntrospectionClientAuthMethod : Type 0 where
  basic form_post no_client_auth : IntrospectionClientAuthMethod

pub record AuthIntrospectionProviderConfig : Type 0 where
  pub name : String
  pub issuer : Option String
  pub allow_missing_iss : Bool
  pub introspection_url : String
  pub client_id : Option String
  pub client_secret : Option String
  pub auth_method : IntrospectionClientAuthMethod
  pub audiences : List String
  pub required_scopes : List String
  pub required_claims : Map String String

pub record AuthPluginProviderConfig : Type 0 where
  pub name : String
  pub plugin : String
  pub allow_missing_iss : Bool
  pub required_scopes : List String

pub data AuthProviderConfig : Type 0 where
  bearer : AuthBearerProviderConfig → AuthProviderConfig
  jwks : AuthJwksProviderConfig → AuthProviderConfig
  introspection : AuthIntrospectionProviderConfig → AuthProviderConfig
  plugin : AuthPluginProviderConfig → AuthProviderConfig

abbrev pub allow_missing_iss : AuthProviderConfig → Bool
allow_missing_iss (introspection c) = c.allow_missing_iss
allow_missing_iss (plugin c) = c.allow_missing_iss
allow_missing_iss p = false

abbrev pub audiences : AuthProviderConfig → List String
audiences (jwks c) = c.audiences
audiences (introspection c) = c.audiences
audiences p = []

abbrev pub required_scopes : AuthProviderConfig → List String
required_scopes (jwks c) = c.required_scopes
required_scopes (introspection c) = c.required_scopes
required_scopes (plugin c) = c.required_scopes
required_scopes (bearer c) = []

abbrev pub required_claims : AuthProviderConfig → Map String String
required_claims (jwks c) = c.required_claims
required_claims (introspection c) = c.required_claims
required_claims p = []

abbrev pub algorithms : AuthProviderConfig → List String
algorithms (jwks c) = c.algorithms
algorithms p = []

abbrev pub clock_skew_sec : AuthProviderConfig → Option ℕ
clock_skew_sec (jwks c) = c.clock_skew_sec
clock_skew_sec p = none

abbrev pub introspection_url : AuthProviderConfig → Option String
introspection_url (introspection c) = some c.introspection_url
introspection_url p = none

abbrev pub plugin_name : AuthProviderConfig → Option String
plugin_name (plugin c) = some c.plugin
plugin_name p = none

abbrev pub bearer_token : AuthProviderConfig → Option String
bearer_token (bearer c) = some c.token
bearer_token p = none

abbrev pub is_jwks : AuthProviderConfig → Bool
is_jwks (jwks c) = true
is_jwks p = false

abbrev pub is_introspection : AuthProviderConfig → Bool
is_introspection (introspection c) = true
is_introspection p = false

abbrev pub is_plugin : AuthProviderConfig → Bool
is_plugin (plugin c) = true
is_plugin p = false

abbrev pub is_bearer : AuthProviderConfig → Bool
is_bearer (bearer c) = true
is_bearer p = false
