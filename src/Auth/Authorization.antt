-- ===== src/Auth/Authorization.antt =====
-- src/auth/inbound/authorization.rs: the decision on a request.
--
-- `Services` has what the decision asks others for, each as its answer at the time of the request: the
-- provider's issuer and keys (src/auth/inbound/provider.rs, which fetches and caches them), the JWT
-- library, the introspection endpoint and the plugins. The comparison in constant time is equality. A
-- provider's issuer is the same in every call for one request.
use rust_mcp_core.Auth.Provider
use rust_mcp_core.Common.Map
use rust_mcp_core.Auth.Claims.{
  audiences_match_required, claims_match_required, scopes_match_required,
}
use rust_mcp_core.Auth.Provider.{AuthProviderConfig}
use rust_mcp_core.Auth.Token.{
  Jwk, decode_jwt_claims, extract_bearer_token, parse_algorithms, select_jwk, token_looks_like_jwt,
}
use rust_mcp_core.Common.{
  Bool, List, Option, String, [], and_then, false, find, if◌then◌else◌, nat_eq, none, not, some,
  string_eq, true, unwrap_or, ℕ, ◌++◌, ◌<>◌, ◌==◌, ◌∷◌,
}
use rust_mcp_core.Common.Map.{Map}
use rust_mcp_core.Json.{Value, as_bool, as_str, get, null}
use rust_mcp_core.Text.{join}

pub data AuthDecision : Type 0 where
  allow : AuthDecision
  unauthorized forbidden : (scope : Option String) → AuthDecision

pub data ValidationOutcome : Type 0 where
  valid invalid : ValidationOutcome
  insufficient_scope : List String → ValidationOutcome

pub data AuthActivation : Type 0 where
  no_auth bearer_only oauth_only bearer_and_oauth : AuthActivation

pub data AuthPluginDecision : Type 0 where
  accept reject abstain : AuthPluginDecision

-- The options of `jsonwebtoken::Validation` that are set; a leeway that is not set is the library's.
pub record Validation (A : Type 0) : Type 0 where
  pub algorithms : List A
  pub issuer : Option String
  pub audience : Option (List String)
  pub leeway : Option ℕ

pub record Services : Type 1 where
  pub Algorithm : Type 0
  pub Material : Type 0
  pub Key : Type 0
  pub issuer : AuthProviderConfig → Option String
  pub jwks : AuthProviderConfig → Option (List (Jwk Material))
  pub decode_payload : String → Option Value
  pub decode_header : String → Option (Algorithm × Option String)
  pub parse_algorithm : String → Option Algorithm
  pub from_jwk : Jwk Material → Option Key
  pub decode : String → Key → Validation Algorithm → Option Value
  pub introspect : AuthProviderConfig → (url token : String) → Option Value
  -- the map of headers, with the text of its `Authorization` header, if it is there and is a text
  pub Headers : Type 0
  pub authorization : Headers → Option String
  -- no registry, or what it gives for a name: the plugin's answer to a token, its claims, the headers
  -- and the configuration
  pub plugins : Option (String → Option (String → Value → Headers → Value → AuthPluginDecision))

pub record AuthState : Type 0 where
  pub activation : AuthActivation
  pub bearer_token : Option String
  pub resource_metadata_url : Option String
  pub providers : List AuthProviderConfig
  pub auth_plugin_configs : Map String Value
  pub scope_challenges_enabled : Bool

pub record TokenProfile : Type 0 where
  pub token : String
  pub is_jwt : Bool
  pub claims : Option Value
  pub token_iss : Option String

unfoldable pub oauth_enabled : AuthState → Bool
oauth_enabled s = elim s.activation [
  | no_auth ↦ false
  | bearer_only ↦ false
  | oauth_only ↦ true
  | bearer_and_oauth ↦ true
]

abbrev scope_part : Bool → Option String → List String
scope_part true (some scope) = ("scope=\"" <> (scope <> "\"")) ∷ []
scope_part _ _ = []

abbrev metadata_part : Option String → List String
metadata_part none = []
metadata_part (some url) = ("resource_metadata=\"" <> (url <> "\"")) ∷ []

abbrev challenge : List String → String
challenge [] = "Bearer"
challenge (p ∷ ps) = "Bearer " <> join ", " (p ∷ ps)

unfoldable pub www_authenticate : AuthState → Option String → Bool → Option String
unfolding oauth_enabled
www_authenticate s scope insufficient =
    if not (oauth_enabled s)
    then none
    else some (
        challenge (
          (if insufficient then "error=\"insufficient_scope\"" ∷ [] else [])
          ++ (scope_part s.scope_challenges_enabled scope
              ++ metadata_part s.resource_metadata_url)))

abbrev joined_scopes : List String → Option String
joined_scopes [] = none
joined_scopes (x ∷ xs) = some (join " " (x ∷ xs))

unfoldable pub scope_challenge : AuthState → Option (List String) → Option String
scope_challenge s scopes =
    if s.scope_challenges_enabled then and_then scopes joined_scopes else none

unfoldable pub scope_for_provider : AuthState → AuthProviderConfig → Option String
unfolding scope_challenge
scope_for_provider s p = scope_challenge s (some (Provider.required_scopes p))

abbrev has_scopes : AuthProviderConfig → Bool
has_scopes p = elim (Provider.required_scopes p) [ [] ↦ false | x ∷ xs ↦ true ]

unfoldable pub default_scope_challenge : AuthState → Option String
unfolding scope_for_provider
default_scope_challenge s =
    if s.scope_challenges_enabled
    then and_then (find has_scopes s.providers) (scope_for_provider s)
    else none

unfoldable pub default_unauthorized : AuthState → AuthDecision
unfolding default_scope_challenge
default_unauthorized s = unauthorized (default_scope_challenge s)

abbrev pub same_token : Option String → Option String → Bool
same_token (some expected) (some actual) = expected == actual
same_token _ _ = false

unfoldable pub check_bearer : AuthState → Option String → Bool
unfolding extract_bearer_token
check_bearer s header = same_token s.bearer_token (extract_bearer_token header)

unfoldable pub decision_from_validation :
    ValidationOutcome → AuthProviderConfig → AuthState → AuthDecision
unfolding scope_for_provider scope_challenge
decision_from_validation valid p s = allow
decision_from_validation invalid p s = unauthorized (scope_for_provider s p)
decision_from_validation (insufficient_scope scopes) p s =
    forbidden (scope_challenge s (some scopes))

unfoldable pub bearer_decision : AuthProviderConfig → String → Option AuthDecision
bearer_decision p token =
    if same_token (Provider.bearer_token p) (some token) then some allow else none

-- the end of both validations: the required claims, and then the scopes
unfoldable pub check_claims : AuthProviderConfig → Value → ValidationOutcome
check_claims p claims =
    if not (claims_match_required claims (Provider.required_claims p))
    then invalid
    else if not (scopes_match_required claims (Provider.required_scopes p))
    then insufficient_scope (Provider.required_scopes p)
    else valid

abbrev pub or_invalid : {A : Type 0} → Option A → (A → ValidationOutcome) → ValidationOutcome
or_invalid none k = invalid
or_invalid (some a) k = k a

-- an issuer or a token's `iss` that is there and is the expected one
abbrev pub is_issuer : Option String → String → Bool
is_issuer none iss = false
is_issuer (some issuer) iss = issuer == iss

module _ (sv : Services) where
  unfoldable pub token_profile : String → TokenProfile
  token_profile token =
      let is_jwt = token_looks_like_jwt token in
      let claims = if is_jwt then decode_jwt_claims sv.decode_payload token else none in
      record {
        token = token;
        is_jwt = is_jwt;
        claims = claims;
        token_iss = and_then (and_then claims (get "iss")) as_str;
      }

  -- the options that the signature is checked under
  unfoldable pub validation_for : AuthProviderConfig → sv.Algorithm → Validation sv.Algorithm
  validation_for p alg = record {
    algorithms = elim (parse_algorithms sv.parse_algorithm (Provider.algorithms p)) [
      | [] ↦ alg ∷ []
      | a ∷ more ↦ a ∷ more
    ];
    issuer = sv.issuer p;
    audience = elim (Provider.audiences p) [ [] ↦ none | a ∷ more ↦ some (a ∷ more) ];
    leeway = (Provider.clock_skew_sec p);
  }

  unfoldable pub validate_jwt : String → AuthProviderConfig → ValidationOutcome
  unfolding validation_for check_claims
  validate_jwt token p = or_invalid (sv.jwks p) (λ jwks.
      or_invalid (sv.decode_header token) (λ header. or_invalid (select_jwk jwks header.1) (λ jwk.
        or_invalid (sv.from_jwk jwk)
          (λ key. or_invalid (sv.decode token key (validation_for p header.0)) (check_claims p)))))

  -- the test of `active`, and of the issuer where the provider has one
  unfoldable pub is_active : Value → Bool
  is_active payload = unwrap_or false (and_then (get "active" payload) as_bool)

  unfoldable pub issuer_agrees : Option String → Value → Bool
  issuer_agrees none payload = true
  issuer_agrees (some issuer) payload = is_issuer (and_then (get "iss" payload) as_str) issuer

  unfoldable pub check_payload : AuthProviderConfig → Value → ValidationOutcome
  unfolding is_active issuer_agrees check_claims
  check_payload p payload =
      if not (is_active payload)
      then invalid
      else if not (issuer_agrees (sv.issuer p) payload)
      then invalid
      else if not (audiences_match_required payload (Provider.audiences p))
      then invalid
      else check_claims p payload

  unfoldable pub validate_opaque : String → AuthProviderConfig → ValidationOutcome
  unfolding check_payload
  validate_opaque token p =
      or_invalid (Provider.introspection_url p)
        (λ url. or_invalid (sv.introspect p url token) (check_payload p))

  module _ (s : AuthState) where
    unfoldable pub run_plugin : AuthProviderConfig → TokenProfile → sv.Headers → AuthPluginDecision
    run_plugin p profile headers = elim (Provider.plugin_name p) [
      | none ↦ abstain
      | some name ↦ elim sv.plugins [
        | none ↦ reject
        | some registry ↦ elim (registry name) [
          | none ↦ reject
          | some validate ↦
              validate profile.token (unwrap_or null profile.claims) headers
                (unwrap_or null (Map.get name s.auth_plugin_configs))
        ]
      ]
    ]

    unfoldable pub jwks_decision : AuthProviderConfig → TokenProfile → Option AuthDecision
    unfolding validate_jwt decision_from_validation
    jwks_decision p profile = if not profile.is_jwt then none else elim profile.token_iss [
      | none ↦ none
      | some iss ↦
          if not (is_issuer (sv.issuer p) iss)
          then none
          else some (decision_from_validation (validate_jwt profile.token p) p s)
    ]

    -- whether a provider leaves a token to the others
    unfoldable pub passes_on : AuthProviderConfig → TokenProfile → Bool
    passes_on p profile = if not profile.is_jwt then false else elim profile.token_iss [
      | none ↦ not (Provider.allow_missing_iss p)
      | some iss ↦ not (is_issuer (sv.issuer p) iss)
    ]

    unfoldable pub introspection_decision : AuthProviderConfig → TokenProfile → Option AuthDecision
    unfolding passes_on validate_opaque decision_from_validation
    introspection_decision p profile =
        if passes_on p profile
        then none
        else some (decision_from_validation (validate_opaque profile.token p) p s)

    unfoldable pub plugin_decision :
        AuthProviderConfig → TokenProfile → sv.Headers → Option AuthDecision
    unfolding run_plugin scope_for_provider
    plugin_decision p profile headers = elim (run_plugin p profile headers) [
      | accept ↦ some allow
      | reject ↦ some (unauthorized (scope_for_provider s p))
      | abstain ↦ none
    ]

    unfoldable pub evaluate_provider :
        AuthProviderConfig → TokenProfile → sv.Headers → Option AuthDecision
    unfolding bearer_decision jwks_decision introspection_decision plugin_decision
    evaluate_provider p profile headers =
        if Provider.is_bearer p
        then bearer_decision p profile.token
        else if Provider.is_jwks p
        then jwks_decision p profile
        else if Provider.is_introspection p
        then introspection_decision p profile
        else if Provider.is_plugin p
        then plugin_decision p profile headers
        else none

    -- the loop over the providers: the first decision counts
    unfoldable pub first_decision :
        List AuthProviderConfig → TokenProfile → sv.Headers → AuthDecision
    unfolding evaluate_provider default_unauthorized
    first_decision [] profile headers = default_unauthorized s
    first_decision (p ∷ ps) profile headers = elim (evaluate_provider p profile headers) [
      | some decision ↦ decision
      | none ↦ first_decision ps profile headers
    ]

    unfoldable pub check_oauth : sv.Headers → AuthDecision
    unfolding first_decision default_unauthorized token_profile
    check_oauth headers = elim (extract_bearer_token (sv.authorization headers)) [
      | none ↦ default_unauthorized s
      | some token ↦ first_decision s.providers (token_profile token) headers
    ]

    unfoldable pub authorize : sv.Headers → AuthDecision
    unfolding check_oauth check_bearer
    authorize headers = elim s.activation [
      | no_auth ↦ allow
      | bearer_only ↦ if check_bearer s (sv.authorization headers) then allow else unauthorized none
      | oauth_only ↦ check_oauth headers
      | bearer_and_oauth ↦
          if check_bearer s (sv.authorization headers) then allow else check_oauth headers
    ]
