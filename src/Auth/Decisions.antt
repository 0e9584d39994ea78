-- ===== src/Auth/Decisions.antt =====
-- src/auth/inbound/authorization.rs: what an allowed request has shown.
use rust_mcp_core.Common.Map
use rust_mcp_core.Auth.Provider
use rust_mcp_core.Auth.Accepted.{Accepts, Active, Member, Shows, Verified}
use rust_mcp_core.Auth.Authorization.{
  AuthActivation, AuthPluginDecision, AuthState, Services, TokenProfile, ValidationOutcome, abstain,
  accept, allow, authorize, bearer_and_oauth, bearer_decision, bearer_only, check_bearer,
  check_oauth, decision_from_validation, default_unauthorized, evaluate_provider, first_decision,
  insufficient_scope, introspection_decision, invalid, is_issuer, jwks_decision, no_auth,
  oauth_only, passes_on, plugin_decision, reject, run_plugin, same_token, token_profile,
  unauthorized, valid, validate_jwt, validate_opaque,
}
use rust_mcp_core.Auth.Provider.{AuthProviderConfig}
use rust_mcp_core.Auth.Token.{extract_bearer_token}
use rust_mcp_core.Auth.Validated.{validate_jwt-Verified, validate_opaque-Active}
use rust_mcp_core.Common.{
  Bool-cases, List, Option, Option-cases, String, [], ap, inl, inr, nat_eq, none, refl, some,
  string_eq, subst, sym, true, unwrap_or, ◌==◌, ◌∙◌, ◌∷◌, ◌≡◌, ◌⊎◌,
}
use rust_mcp_core.Common.Map.{Map}
use rust_mcp_core.Json.{Value, null}

same_token-some :
    (o : Option String) (p : Option String)
    → same_token o p ≡ true
    → (token : String) × (o ≡ some token) × (p ≡ some token)
same_token-some (some a) (some b) h = (b, ap some ((string_eq.agrees a b).0 h), refl)
same_token-some none p h = absurd (cc h)
same_token-some (some a) none h = absurd (cc h)

module _ (sv : Services) (s : AuthState) where
  decided_valid :
      (o : ValidationOutcome) (p : AuthProviderConfig)
      → decision_from_validation o p s ≡ allow
      → o ≡ valid
  unfolding decision_from_validation
  decided_valid valid p h = refl
  decided_valid invalid p h = absurd (cc h)
  decided_valid (insufficient_scope l) p h = absurd (cc h)

  bearer-Accepts :
      (c : Provider.AuthBearerProviderConfig) (token : String) (headers : sv.Headers)
      → bearer_decision (Provider.bearer c) token ≡ some allow
      → Accepts sv (Provider.bearer c) token headers
  unfolding bearer_decision
  bearer-Accepts c token headers h = elim (Bool-cases (c.token == token)) [
    | inl same ↦ (string_eq.agrees c.token token).0 same
    | inr other ↦ absurd (cc (rw other at h))
  ]

  jwks-Accepts :
      (c : Provider.AuthJwksProviderConfig) (profile : TokenProfile) (headers : sv.Headers)
      → jwks_decision sv s (Provider.jwks c) profile ≡ some allow
      → Accepts sv (Provider.jwks c) profile.token headers
  unfolding jwks_decision
  jwks-Accepts c profile headers h = elim (Bool-cases profile.is_jwt) [
    | inr opaque ↦ absurd (cc (rw opaque at h))
    | inl jwt ↦ elim (Option-cases profile.token_iss) [
      | inl missing ↦ absurd (cc (rw (jwt, missing) at h))
      | inr (iss, given) ↦ elim (Bool-cases (is_issuer (sv.issuer (Provider.jwks c)) iss)) [
        | inr other ↦ absurd (cc (rw (jwt, given, other) at h))
        | inl same ↦
            let decided : some (
                  decision_from_validation (validate_jwt sv profile.token (Provider.jwks c))
                    (Provider.jwks c) s)
                ≡ some allow =
              rw (jwt, given, same) at h in
            validate_jwt-Verified sv profile.token (Provider.jwks c)
              (decided_valid _ (Provider.jwks c) (cc decided))
      ]
    ]
  ]

  introspection-Accepts :
      (c : Provider.AuthIntrospectionProviderConfig) (profile : TokenProfile) (headers : sv.Headers)
      → introspection_decision sv s (Provider.introspection c) profile ≡ some allow
      → Accepts sv (Provider.introspection c) profile.token headers
  unfolding introspection_decision
  introspection-Accepts c profile headers h =
      let p = Provider.introspection c in
      elim (Bool-cases (passes_on sv s p profile)) [
        | inl passed ↦ absurd (cc (rw passed at h))
        | inr kept ↦
            let decided : some (decision_from_validation (validate_opaque sv profile.token p) p s)
                ≡ some allow =
              rw kept at h in
            let (url, given, (payload, active, shown)) =
              validate_opaque-Active sv profile.token p (decided_valid _ p (cc decided)) in
            let same : c.introspection_url ≡ url = cc given in
            (payload, subst (λ u. Active sv p u profile.token payload) (sym same) active, shown)
      ]

  accepts_only :
      (d : AuthPluginDecision) (refused : Option String)
      → elim d [ accept ↦ some allow | reject ↦ some (unauthorized refused) | abstain ↦ none ]
        ≡ some allow
      → d ≡ accept
  accepts_only accept r h = refl
  accepts_only reject r h = absurd (cc h)
  accepts_only abstain r h = absurd (cc h)

  plugin-Accepts :
      (c : Provider.AuthPluginProviderConfig) (profile : TokenProfile) (headers : sv.Headers)
      → plugin_decision sv s (Provider.plugin c) profile headers ≡ some allow
      → Accepts sv (Provider.plugin c) profile.token headers
  unfolding plugin_decision run_plugin
  plugin-Accepts c profile headers h = elim (Option-cases sv.plugins) [
    | inl missing ↦ absurd (cc (rw missing at h))
    | inr (registry, given) ↦ elim (Option-cases (registry c.plugin)) [
      | inl unknown ↦ absurd (cc (rw (given, unknown) at h))
      | inr (validate, known) ↦
          let claims = unwrap_or null profile.claims in
          let config = unwrap_or null (Map.get c.plugin s.auth_plugin_configs) in
          let accepted = accepts_only _ _ (rw (given, known) at h) in
          (registry, given, (validate, known, (claims, (config, accepted))))
    ]
  ]

  provider-Accepts :
      (p : AuthProviderConfig) (profile : TokenProfile) (headers : sv.Headers)
      → evaluate_provider sv s p profile headers ≡ some allow
      → Accepts sv p profile.token headers
  unfolding evaluate_provider
  provider-Accepts (Provider.bearer c) profile headers h = bearer-Accepts c profile.token headers h
  provider-Accepts (Provider.jwks c) profile headers h = jwks-Accepts c profile headers h
  provider-Accepts (Provider.introspection c) profile headers h =
      introspection-Accepts c profile headers h
  provider-Accepts (Provider.plugin c) profile headers h = plugin-Accepts c profile headers h

  -- A provider of the server that accepts the token of the request.
  abbrev pub AcceptedBy : sv.Headers → AuthProviderConfig → Type 0
  AcceptedBy headers p =
      (token : String) × (extract_bearer_token (sv.authorization headers) ≡ some token)
      × Member p s.providers
      × Accepts sv p token headers

  -- The token of the request is the one of the server.
  abbrev pub SharesToken : sv.Headers → Type 0
  SharesToken headers =
      (token : String) × (s.bearer_token ≡ some token)
      × (extract_bearer_token (sv.authorization headers) ≡ some token)

  -- What a request has shown that is allowed, for each kind of authentication.
  abbrev pub AllowedFor : sv.Headers → AuthActivation → Type 0
  AllowedFor headers no_auth = Unit
  AllowedFor headers bearer_only = SharesToken headers
  AllowedFor headers oauth_only = (p : AuthProviderConfig) × AcceptedBy headers p
  AllowedFor headers bearer_and_oauth =
      SharesToken headers ⊎ ((p : AuthProviderConfig) × AcceptedBy headers p)

  first_decision-allow :
      (ps : List AuthProviderConfig) (profile : TokenProfile) (headers : sv.Headers)
      → first_decision sv s ps profile headers ≡ allow
      → (p : AuthProviderConfig) × Member p ps × Accepts sv p profile.token headers
  unfolding first_decision default_unauthorized
  first_decision-allow [] profile headers h = absurd (cc h)
  first_decision-allow (p ∷ ps) profile headers h =
      elim (Option-cases (evaluate_provider sv s p profile headers)) [
        | inl passed ↦
            let (q, there, accepted) =
              first_decision-allow ps profile headers (rw (passed, first_decision) at h) in
            (q, inr there, accepted)
        | inr (d, decided) ↦ (
          p,
          inl refl,
          provider-Accepts p profile headers
              (decided ∙ ap some (rw (decided, first_decision) at h)),
        )
      ]

  check_oauth-allow :
      (headers : sv.Headers)
      → check_oauth sv s headers ≡ allow
      → (p : AuthProviderConfig) × AcceptedBy headers p
  unfolding check_oauth default_unauthorized token_profile
  check_oauth-allow headers h =
      elim (Option-cases (extract_bearer_token (sv.authorization headers))) [
        | inl missing ↦ absurd (cc (rw (missing, check_oauth) at h))
        | inr (token, given) ↦
            let (p, there, accepted) =
              first_decision-allow s.providers (token_profile sv token) headers
                (rw (given, check_oauth) at h) in
            (p, (token, given, there, accepted))
      ]

  check_bearer-SharesToken :
      (headers : sv.Headers)
      → check_bearer s (sv.authorization headers) ≡ true
      → SharesToken headers
  unfolding check_bearer
  check_bearer-SharesToken headers h =
      same_token-some s.bearer_token (extract_bearer_token (sv.authorization headers)) h

  allowed_for :
      (headers : sv.Headers) (a : AuthActivation)
      → s.activation ≡ a
      → authorize sv s headers ≡ allow
      → AllowedFor headers a
  unfolding authorize
  allowed_for headers no_auth is h = tt
  allowed_for headers bearer_only is h =
      elim (Bool-cases (check_bearer s (sv.authorization headers))) [
        | inl same ↦ check_bearer-SharesToken headers same
        | inr other ↦ absurd (cc (rw (is, other, authorize) at h))
      ]
  allowed_for headers oauth_only is h = check_oauth-allow headers (rw (is, authorize) at h)
  allowed_for headers bearer_and_oauth is h =
      elim (Bool-cases (check_bearer s (sv.authorization headers))) [
        | inl same ↦ inl (check_bearer-SharesToken headers same)
        | inr other ↦ inr (check_oauth-allow headers (rw (is, other, authorize) at h))
      ]

  -- An allowed request of a server with authentication has shown its token: it is the text that is
  -- the server's token, if bearer tokens are active, or one that a provider of the server accepts, if
  -- OAuth is. A provider accepts a token that is its own text; or that the library has verified, with
  -- a key, the issuer and the audiences of the provider, or its endpoint has called active, with the
  -- claims and scopes that it requires; or that its plugin accepts.
  pub allowed_is_accepted :
      (headers : sv.Headers) → authorize sv s headers ≡ allow → AllowedFor headers s.activation
  allowed_is_accepted headers h = allowed_for headers s.activation refl h

-- A token that passes as a JWT has claims that the library verified: with a key of the provider, which
-- has the identifier of the token's header, if that has one, and under the issuer, the audiences and
-- the leeway of the provider, and its algorithms, or that of the header if the library knows none of
-- them. The claims have every text and every scope that the provider requires.
pub valid_jwt_has_claims :
    (sv : Services) (token : String) (p : AuthProviderConfig)
    → validate_jwt sv token p ≡ valid
    → (claims : Value) × Verified sv p token claims × Shows claims p
valid_jwt_has_claims sv token p h = validate_jwt-Verified sv token p h
