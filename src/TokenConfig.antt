-- ===== src/TokenConfig.antt =====
-- src/auth/outbound/config.rs: the resolved OAuth2 configuration of an upstream, and the key that its
-- token is cached under.
pub mod Keys
pub mod Tests
use rust_mcp_core.Common.{
  Bool, Eq, List, Option, Result, String, [], and_then, ap, arith, err, false, filter,
  if◌then◌else◌, map, nat_eq, none, not, ok, refl, some, string_eq, true, unwrap_or, ℕ, ◌<>◌, ◌==◌,
  ◌>>=◌, ◌>>◌, ◌↔◌, ◌∷◌, ◌≡◌,
}
use rust_mcp_core.Common.Equality.{list_eq, option_eq, pair_eq}
use rust_mcp_core.Common.Map.{Map}
use rust_mcp_core.Errors.{Fallible, fail, invalid_request, mcp_error}
use rust_mcp_core.Text.{is_empty, trim}
use rust_mcp_core.Text.Sorted.{map_extend, map_or_insert, set_extend}
use rust_mcp_core.Upstream.{
  ClientAuthMethod, GrantType, Host, UpstreamOauth2AuthConfig, UpstreamOauth2MtlsConfig, basic_auth,
  client_credentials, refresh_token_grant, resolve_secret,
}

pub record OutboundOauth2CacheKey : Type 0 where
  pub upstream_name : String
  pub grant : GrantType
  pub scopes : List String
  pub audience : Option String
  pub resource : Option String
  pub extra_token_params : Map String String

abbrev grant_equals : GrantType → GrantType → Bool
grant_equals client_credentials client_credentials = true
grant_equals refresh_token_grant refresh_token_grant = true
grant_equals _ _ = false

pub grant_agrees : (a b : GrantType) → (grant_equals a b ≡ true) ↔ (a ≡ b)
grant_agrees client_credentials client_credentials = (λ h. refl, λ h. refl)
grant_agrees client_credentials refresh_token_grant = ground arith
grant_agrees refresh_token_grant client_credentials = ground arith
grant_agrees refresh_token_grant refresh_token_grant = (λ h. refl, λ h. refl)

instance abbrev pub grant_eq : Eq GrantType
grant_eq = record { equals = grant_equals; agrees = grant_agrees }

-- the fields of a key, in their order
abbrev KeyFields : Type 0
KeyFields =
    String × (GrantType × (List String × (Option String × (Option String × Map String String))))

abbrev key_fields : OutboundOauth2CacheKey → KeyFields
key_fields k =
    (k.upstream_name, (k.grant, (k.scopes, (k.audience, (k.resource, k.extra_token_params)))))

abbrev key_of : KeyFields → OutboundOauth2CacheKey
key_of (u, (g, (s, (a, (r, e))))) = record {
  upstream_name = u;
  grant = g;
  scopes = s;
  audience = a;
  resource = r;
  extra_token_params = e;
}

abbrev key_equals : OutboundOauth2CacheKey → OutboundOauth2CacheKey → Bool
key_equals a b = key_fields a == key_fields b

abbrev key_fields_eq : Eq KeyFields
key_fields_eq = pair_eq

pub key_agrees : (a b : OutboundOauth2CacheKey) → (key_equals a b ≡ true) ↔ (a ≡ b)
key_agrees a b = (
  λ h. ap key_of ((key_fields_eq.agrees (key_fields a) (key_fields b)).0 h),
  λ h. (key_fields_eq.agrees (key_fields a) (key_fields b)).1 (ap key_fields h),
)

instance abbrev pub key_eq : Eq OutboundOauth2CacheKey
key_eq = record { equals = key_equals; agrees = key_agrees }

pub record OutboundOauth2RefreshPolicy : Type 0 where
  pub skew_sec : ℕ
  pub retry_on_401_once : Bool

pub record OutboundOauth2MtlsResolvedConfig : Type 0 where
  pub ca_cert : Option String
  pub client_cert : String
  pub client_key : String

pub record OutboundOauth2ResolvedConfig : Type 0 where
  pub cache_key : OutboundOauth2CacheKey
  pub grant : GrantType
  pub token_url : String
  pub client_id : String
  pub client_secret : String
  pub auth_method : ClientAuthMethod
  pub scopes : List String
  pub extra_token_params : Map String String
  pub bootstrap_refresh_token : Option String
  pub mtls : Option OutboundOauth2MtlsResolvedConfig
  pub refresh_policy : OutboundOauth2RefreshPolicy

abbrev pub default_refresh_skew_sec : ℕ
default_refresh_skew_sec = 60

abbrev pub default_retry_on_401_once : Bool
default_retry_on_401_once = true

abbrev pub trimmed_scopes : List String → List String
trimmed_scopes scopes = filter (λ s. not (is_empty s)) (map trim scopes)

unfoldable pub normalize_scopes : List String → List String
unfolding set_extend trim is_empty
normalize_scopes scopes = set_extend [] (trimmed_scopes scopes)

abbrev pub with_audience : Option String → Map String String → Map String String
with_audience none params = params
with_audience (some audience) params = map_or_insert "audience" audience params

unfoldable pub normalized_token_params_map : UpstreamOauth2AuthConfig → Map String String
unfolding map_extend map_or_insert
normalized_token_params_map auth =
    with_audience auth.audience (map_extend [] auth.extra_token_params)

abbrev pub find_value : String → Map String String → Option String
find_value k [] = none
find_value k ((j, v) ∷ m) = let rest = find_value k m in if j == k then some v else rest

-- `OutboundOauth2CacheKey::from_auth`
unfoldable pub cache_key_of : String → UpstreamOauth2AuthConfig → OutboundOauth2CacheKey
unfolding normalize_scopes normalized_token_params_map
cache_key_of upstream_name auth =
    let extra_token_params = normalized_token_params_map auth in
    record {
      upstream_name = upstream_name;
      grant = auth.grant;
      scopes = normalize_scopes auth.scopes;
      audience = auth.audience;
      resource = find_value "resource" extra_token_params;
      extra_token_params = extra_token_params;
    }

-- `OutboundOauth2RefreshPolicy::from_auth`
unfoldable pub refresh_policy_of : UpstreamOauth2AuthConfig → OutboundOauth2RefreshPolicy
refresh_policy_of auth = record {
  skew_sec = unwrap_or default_refresh_skew_sec (and_then auth.refresh (λ r. r.skew_sec));
  retry_on_401_once =
      unwrap_or default_retry_on_401_once (and_then auth.refresh (λ r. r.retry_on_401_once));
}

abbrev pub invalid : {A : Type 0} → String → Result String A → Fallible A
invalid message (ok a) = ok a
invalid message (err error) = err (mcp_error invalid_request (message <> error))

-- `.map(f).transpose()?`
abbrev pub transposed : {A B : Type 0} → (A → Fallible B) → Option A → Fallible (Option B)
transposed f none = ok none
transposed f (some a) = f a >>= λ b. ok (some b)

abbrev pub needs_refresh_token : GrantType → Option String → Bool
needs_refresh_token refresh_token_grant none = true
needs_refresh_token _ _ = false

-- the configuration, from what could fail
unfoldable pub resolved_config :
    String
    → UpstreamOauth2AuthConfig
    → (client_secret : String) → (bootstrap_refresh_token : Option String)
    → Option OutboundOauth2MtlsResolvedConfig
    → OutboundOauth2ResolvedConfig
unfolding cache_key_of refresh_policy_of normalize_scopes normalized_token_params_map
resolved_config upstream_name auth client_secret bootstrap_refresh_token mtls = record {
  cache_key = cache_key_of upstream_name auth;
  grant = auth.grant;
  token_url = auth.token_url;
  client_id = auth.client_id;
  client_secret = client_secret;
  auth_method = unwrap_or basic_auth auth.auth_method;
  scopes = normalize_scopes auth.scopes;
  extra_token_params = normalized_token_params_map auth;
  bootstrap_refresh_token = bootstrap_refresh_token;
  mtls = mtls;
  refresh_policy = refresh_policy_of auth;
}

module _ (host : Host) where
  unfoldable pub resolve_mtls : UpstreamOauth2MtlsConfig → Fallible OutboundOauth2MtlsResolvedConfig
  unfolding resolve_secret
  resolve_mtls mtls = do
    ca_cert ←
        transposed (λ c. invalid "failed to resolve oauth2 mTLS ca_cert: " (resolve_secret host c))
          mtls.ca_cert
    client_cert ←
        invalid "failed to resolve oauth2 mTLS client_cert: " (resolve_secret host mtls.client_cert)
    client_key ←
        invalid "failed to resolve oauth2 mTLS client_key: " (resolve_secret host mtls.client_key)
    ok (record { ca_cert = ca_cert; client_cert = client_cert; client_key = client_key })

  -- `OutboundOauth2ResolvedConfig::from_auth`
  unfoldable pub from_auth :
      String → UpstreamOauth2AuthConfig → Fallible OutboundOauth2ResolvedConfig
  unfolding resolve_mtls cache_key_of refresh_policy_of resolve_secret normalize_scopes
      normalized_token_params_map
  from_auth upstream_name auth = do
    client_secret ←
        invalid "failed to resolve oauth2 client_secret: " (resolve_secret host auth.client_secret)
    bootstrap_refresh_token ←
        transposed (λ c. invalid "failed to resolve oauth2 refresh_token: " (resolve_secret host c))
          auth.refresh_token
    (if needs_refresh_token auth.grant bootstrap_refresh_token
        then fail invalid_request "oauth2 refresh_token grant requires refresh_token"
        else (transposed (resolve_mtls) auth.mtls >>= λ mtls.
            ok (resolved_config upstream_name auth client_secret bootstrap_refresh_token mtls)))
