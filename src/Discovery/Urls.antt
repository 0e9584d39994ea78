-- ===== src/Discovery/Urls.antt =====
-- src/auth/inbound/provider.rs: the URLs at which the document of a provider is looked for. The parser
-- of URLs is a parameter.
use Prim.Native.Char.{Char, code}
use rust_mcp_core.Auth.Provider.{AuthProviderConfig, introspection, jwks}
use rust_mcp_core.Common.{
  Bool, List, Option, String, [], if◌then◌else◌, map, nat_eq, none, some, string_eq, true, ◌&&◌,
  ◌<>◌, ◌==◌, ◌∷◌,
}
use rust_mcp_core.Text.{is_empty, trim_end, trim_start}

pub record DiscoveryOptions : Type 0 where
  pub enable_oidc : Bool
  pub allow_fallback : Bool

-- A parsed URL: its path, and its text with an empty path and no query or fragment.
pub record ParsedUrl : Type 0 where
  pub path : String
  pub bare : String

-- `config.issuer()`, `discovery_url()` and `jwks_url()`
abbrev pub config_issuer : AuthProviderConfig → Option String
config_issuer (jwks c) = c.issuer
config_issuer (introspection c) = c.issuer
config_issuer _ = none

abbrev pub config_discovery_url : AuthProviderConfig → Option String
config_discovery_url (jwks c) = c.discovery_url
config_discovery_url _ = none

abbrev pub config_jwks_url : AuthProviderConfig → Option String
config_jwks_url (jwks c) = c.jwks_url
config_jwks_url _ = none

-- the options of `AuthProvider::new`
unfoldable pub discovery_options : AuthProviderConfig → DiscoveryOptions
discovery_options (jwks c) = record {
  enable_oidc = c.enable_oidc_discovery;
  allow_fallback = c.allow_well_known_fallback;
}
discovery_options _ = record { enable_oidc = true; allow_fallback = true }

abbrev pub is_slash : Char → Bool
is_slash c = code c == b'/'

unfoldable pub origin_of : ParsedUrl → String
unfolding trim_end
origin_of parsed = trim_end is_slash parsed.bare

unfoldable pub path_of : ParsedUrl → String
unfolding trim_end trim_start
path_of parsed = trim_end is_slash (trim_start is_slash parsed.path)

-- the paths that are tried on the origin
unfoldable pub well_known : (path : String) → DiscoveryOptions → List String
unfolding is_empty
well_known path options =
    let oidc = options.enable_oidc && options.allow_fallback in
    if is_empty path
    then "/.well-known/oauth-authorization-server"
      ∷ (if oidc then "/.well-known/openid-configuration" ∷ [] else [])
    else ("/.well-known/oauth-authorization-server/" <> path)
      ∷ (if oidc
          then ("/.well-known/openid-configuration/" <> path)
            ∷ ("/" <> (path <> "/.well-known/openid-configuration"))
            ∷ []
          else [])

unfoldable pub build_discovery_candidates_from_issuer :
    (parse_url : String → Option ParsedUrl) → (issuer : String) → DiscoveryOptions → List String
unfolding well_known origin_of path_of
build_discovery_candidates_from_issuer parse_url issuer options = elim (parse_url issuer) [
  | none ↦ []
  | some parsed ↦ map (◌<>◌ (origin_of parsed)) (well_known (path_of parsed) options)
]

-- `Vec::dedup`: of equal neighbours the first stays
unfoldable pub dedup : List String → List String
dedup [] = []
dedup (x ∷ []) = x ∷ []
dedup (x ∷ y ∷ l) = let rest = dedup (y ∷ l) in if x == y then rest else x ∷ rest

unfoldable pub discovery_candidates : (String → Option ParsedUrl) → AuthProviderConfig → List String
unfolding build_discovery_candidates_from_issuer dedup discovery_options
discovery_candidates parse_url config = elim (config_discovery_url config) [
  | some url ↦ url ∷ []
  | none ↦ elim (config_issuer config) [
    | none ↦ []
    | some issuer ↦
        dedup (build_discovery_candidates_from_issuer parse_url issuer (discovery_options config))
  ]
]
