-- ===== src/Upstream.antt =====
-- src/config/types/upstream.rs: the configuration of upstream services and of outbound requests.
use rust_mcp_core.Common.{
  Bool, List, Option, Result, String, [], err, nat_eq, ok, string_eq, true, ℕ, ◌<>◌, ◌∷◌,
}
use rust_mcp_core.Common.Map.{Map}
use rust_mcp_core.Text.{is_whitespace, trim_end}

pub data SecretValueSource : Type 0 where
  inline_value env path : SecretValueSource

pub record SecretValueConfig : Type 0 where
  pub source : SecretValueSource
  pub value : String

pub data GrantType : Type 0 where
  client_credentials refresh_token_grant : GrantType

pub data ClientAuthMethod : Type 0 where
  basic_auth request_body : ClientAuthMethod

pub record UpstreamOauth2RefreshConfig : Type 0 where
  pub skew_sec : Option ℕ
  pub retry_on_401_once : Option Bool

pub record UpstreamOauth2MtlsConfig : Type 0 where
  pub ca_cert : Option SecretValueConfig
  pub client_cert : SecretValueConfig
  pub client_key : SecretValueConfig

pub record UpstreamOauth2AuthConfig : Type 0 where
  pub grant : GrantType
  pub token_url : String
  pub client_id : String
  pub client_secret : SecretValueConfig
  pub auth_method : Option ClientAuthMethod
  pub scopes : List String
  pub audience : Option String
  pub extra_token_params : Map String String
  pub refresh : Option UpstreamOauth2RefreshConfig
  pub refresh_token : Option SecretValueConfig
  pub mtls : Option UpstreamOauth2MtlsConfig

pub data UpstreamAuth : Type 0 where
  no_upstream_auth : UpstreamAuth
  bearer_auth : (token : String) → UpstreamAuth
  basic_credentials : (username password : String) → UpstreamAuth
  oauth2 : UpstreamOauth2AuthConfig → UpstreamAuth

pub record OutboundRetryConfig : Type 0 where
  pub max_attempts : ℕ
  pub delay_ms : ℕ
  pub on_network_errors : Bool
  pub on_statuses : List ℕ

pub record UpstreamConfig : Type 0 where
  pub base_url : String
  pub headers : Map String String
  pub user_agent : Option String
  pub timeout_ms : Option ℕ
  pub max_response_bytes : Option ℕ
  pub retry : Option OutboundRetryConfig
  pub auth : Option UpstreamAuth

pub record OutboundHttpConfig : Type 0 where
  pub headers : Map String String
  pub user_agent : Option String
  pub timeout_ms : Option ℕ
  pub max_response_bytes : Option ℕ
  pub retry : Option OutboundRetryConfig

-- `OutboundRetryConfig::default`
unfoldable pub default_retry : OutboundRetryConfig
default_retry = record {
  max_attempts = 3;
  delay_ms = 200;
  on_network_errors = true;
  on_statuses = 429 ∷ 502 ∷ 503 ∷ 504 ∷ [];
}

-- The environment and the files of the process, as they stand: a variable or a file, or the text of
-- the error.
pub record Host : Type 0 where
  pub var : String → Result String String
  pub read_to_string : String → Result String String

module _ (host : Host) where
  abbrev read_as : (String → String) → String → Result String String → Result String String
  read_as f message (ok value) = ok (f value)
  read_as f message (err error) = err (message <> error)

  -- `SecretValueConfig::resolve_secret`
  unfoldable pub resolve_secret : SecretValueConfig → Result String String
  resolve_secret secret = elim secret.source [
    | inline_value ↦ ok secret.value
    | env ↦
        read_as (λ s. s) ("failed to read env var '" <> (secret.value <> "' for secret value: "))
          (host.var secret.value)
    | path ↦
        read_as (trim_end is_whitespace) ("failed to read secret file '" <> (secret.value <> "': "))
          (host.read_to_string secret.value)
  ]
