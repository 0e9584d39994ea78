-- ===== src/Auth/Accepted.antt =====
-- src/auth/inbound/authorization.rs: what a provider is shown by a token that it accepts, in terms of
-- what its services answer and of the claims of the token.
use rust_mcp_core.Auth.Provider
use rust_mcp_core.Auth.Authorization.{Services, Validation, accept}
use rust_mcp_core.Auth.Membership.{CarriesAudience, CarriesScope, Has, HasClaims}
use rust_mcp_core.Auth.Provider.{AuthProviderConfig}
use rust_mcp_core.Auth.Token.{Jwk}
use rust_mcp_core.Common.{All, List, Option, String, [], none, some, true, ◌∷◌, ◌≡◌, ◌⊎◌}
use rust_mcp_core.Json.{Value, bool, get, string}

-- The claims have what the provider requires: the texts, and the scopes.
abbrev pub Shows : Value → AuthProviderConfig → Type 0
Shows claims p =
    HasClaims claims (Provider.required_claims p)
    × All (CarriesScope claims) (Provider.required_scopes p)

-- One of the members of a list.
abbrev pub Member : {A : Type 0} → A → List A → Type 0
Member x [] = ⊥
Member x (y ∷ ys) = (y ≡ x) ⊎ Member x ys

-- The audiences to be checked are those of the configuration, if it has any.
abbrev pub AudienceOf : List String → Option (List String) → Type 0
AudienceOf [] o = o ≡ none
AudienceOf (a ∷ more) o = o ≡ some (a ∷ more)

module _ (sv : Services) where
  -- An algorithm that one of the names stands for.
  abbrev pub Named : List String → sv.Algorithm → Type 0
  Named names a = (name : String) × Has name names × (sv.parse_algorithm name ≡ some a)

  -- The algorithms are ones of the configuration, or the one of the token's header, if the library
  -- knows no name of the configuration.
  abbrev pub AlgorithmsOf : List String → sv.Algorithm → List sv.Algorithm → Type 0
  AlgorithmsOf names alg l =
      All (Named names) l ⊎ ((l ≡ alg ∷ []) × All (λ name. sv.parse_algorithm name ≡ none) names)

  -- What the library has verified: the claims of the token, with a key of the provider that has the
  -- identifier of the token's header, if that has one, under the issuer, the audiences, the algorithms
  -- and the leeway of the provider.
  pub record Verified (p : AuthProviderConfig) (token : String) (claims : Value) : Type 0 where
    pub keys : List (Jwk sv.Material)
    pub alg : sv.Algorithm
    pub kid : Option String
    pub jwk : Jwk sv.Material
    pub key : sv.Key
    pub options : Validation sv.Algorithm
    pub fetched : sv.jwks p ≡ some keys
    pub of_header : sv.decode_header token ≡ some (alg, kid)
    pub is_key : Member jwk keys
    pub is_meant : (kid ≡ none) ⊎ (jwk.key_id ≡ kid)
    pub from_key : sv.from_jwk jwk ≡ some key
    pub same_issuer : options.issuer ≡ sv.issuer p
    pub same_leeway : options.leeway ≡ Provider.clock_skew_sec p
    pub same_audience : AudienceOf (Provider.audiences p) options.audience
    pub same_algorithms : AlgorithmsOf (Provider.algorithms p) alg options.algorithms
    pub decoded : sv.decode token key options ≡ some claims

  -- The payload of the provider's endpoint says that the token is active and was issued by the
  -- provider's issuer, if it has one, for every audience of the provider.
  abbrev pub IssuedBy : Option String → Value → Type 0
  IssuedBy none payload = Unit
  IssuedBy (some issuer) payload = get "iss" payload ≡ some (string issuer)

  pub record Active (p : AuthProviderConfig) (url token : String) (payload : Value) : Type 0 where
    pub answered : sv.introspect p url token ≡ some payload
    pub active : get "active" payload ≡ some (bool true)
    pub issued : IssuedBy (sv.issuer p) payload
    pub meant : All (CarriesAudience payload) (Provider.audiences p)

  -- A plugin of the registry accepts the token, with the claims that were read of it.
  abbrev pub PluginAccepts : String → (token : String) → sv.Headers → Type 0
  PluginAccepts name token headers =
      (registry : _) × (sv.plugins ≡ some registry)
      × ((validate : _) × (registry name ≡ some validate)
          × ((claims : Value) × ((config : Value) × (validate token claims headers config
                  ≡ accept))))

  -- What a provider of each kind has been shown.
  abbrev pub Accepts : AuthProviderConfig → (token : String) → sv.Headers → Type 0
  Accepts (Provider.bearer c) token headers = c.token ≡ token
  Accepts (Provider.jwks c) token headers =
      (claims : Value) × Verified (Provider.jwks c) token claims × Shows claims (Provider.jwks c)
  Accepts (Provider.introspection c) token headers =
      (payload : Value) × Active (Provider.introspection c) c.introspection_url token payload
      × Shows payload (Provider.introspection c)
  Accepts (Provider.plugin c) token headers = PluginAccepts c.plugin token headers
