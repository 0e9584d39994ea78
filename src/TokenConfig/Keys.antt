-- ===== src/TokenConfig/Keys.antt =====
-- src/auth/outbound/config.rs: what a cache key depends on, and what a resolved configuration has.
use rust_mcp_core.Common.{
  Bool-cases, List, Option, Result-cases, String, ap, false, false≢true, inl, inr, none, ok, refl,
  some, subst, sym, ◌∙◌, ◌≡◌,
}
use rust_mcp_core.Errors.{err≢ok}
use rust_mcp_core.Text.Sorted.{Within, extend-same}
use rust_mcp_core.TokenConfig.{
  OutboundOauth2ResolvedConfig, cache_key_of, find_value, from_auth, invalid, needs_refresh_token,
  normalize_scopes, normalized_token_params_map, resolve_mtls, resolved_config, transposed,
  trimmed_scopes,
}
use rust_mcp_core.Upstream.{Host, UpstreamOauth2AuthConfig, refresh_token_grant, resolve_secret}

-- Two lists of scopes have the same scopes, but for space around them, blank ones, their order and
-- repetitions.
abbrev pub SameScopes : List String → List String → Type 0
SameScopes l m =
    Within (trimmed_scopes l) (trimmed_scopes m) × Within (trimmed_scopes m) (trimmed_scopes l)

normalize_scopes-same :
    (l m : List String) → SameScopes l m → normalize_scopes l ≡ normalize_scopes m
unfolding normalize_scopes
normalize_scopes-same l m h = extend-same (trimmed_scopes l) (trimmed_scopes m) h.0 h.1

-- The key of a configuration stays the same if its scopes are written in another order, repeated, or
-- with space around them.
pub cache_key-same :
    (upstream_name : String) (auth : UpstreamOauth2AuthConfig) (scopes : List String)
    → SameScopes auth.scopes scopes
    → cache_key_of upstream_name auth ≡ cache_key_of upstream_name (record auth { scopes = scopes })
unfolding cache_key_of normalized_token_params_map
cache_key-same upstream_name auth scopes h =
    ap
      (λ s. record {
        upstream_name = upstream_name;
        grant = auth.grant;
        scopes = s;
        audience = auth.audience;
        resource = find_value "resource" (normalized_token_params_map auth);
        extra_token_params = normalized_token_params_map auth;
      })
      (normalize_scopes-same auth.scopes scopes h)

needs-some :
    (t : Option String)
    → needs_refresh_token refresh_token_grant t ≡ false
    → (s : String) × (t ≡ some s)
needs-some none h = absurd (false≢true (sym h))
needs-some (some s) h = (s, refl)

-- A configuration has the key of its upstream, and where its grant is the refresh token it has a
-- refresh token to begin with.
abbrev pub IsResolved : String → UpstreamOauth2AuthConfig → OutboundOauth2ResolvedConfig → Type 0
IsResolved upstream_name auth r =
    (r.cache_key ≡ cache_key_of upstream_name auth)
    × (r.grant ≡ refresh_token_grant → (t : String) × (r.bootstrap_refresh_token ≡ some t))

-- A configuration that is resolved has the key of its upstream, and where its grant is the refresh
-- token it has a refresh token to begin with.
pub from_auth_has_token :
    (host : Host) (upstream_name : String) (auth : UpstreamOauth2AuthConfig)
    (r : OutboundOauth2ResolvedConfig)
    → from_auth host upstream_name auth ≡ ok r
    → IsResolved upstream_name auth r
unfolding from_auth resolved_config
from_auth_has_token host upstream_name auth r h =
    let secret =
      invalid "failed to resolve oauth2 client_secret: " (resolve_secret host auth.client_secret) in
    let bootstrap =
      transposed (λ c. invalid "failed to resolve oauth2 refresh_token: " (resolve_secret host c))
        auth.refresh_token in
    elim (Result-cases secret) [
      | inr (e, q) ↦ absurd (err≢ok (rw (q, from_auth) at h))
      | inl (a, q) ↦ elim (Result-cases bootstrap) [
        | inr (e, q') ↦ absurd (err≢ok (rw (q, q', from_auth) at h))
        | inl (b, q') ↦ elim (Bool-cases (needs_refresh_token auth.grant b)) [
          | inl missing ↦ absurd (err≢ok (rw (q, q', missing, from_auth) at h))
          | inr present ↦ elim (Result-cases (transposed (resolve_mtls host) auth.mtls)) [
            | inr (e, q'') ↦ absurd (err≢ok (rw (q, q', present, q'', from_auth) at h))
            | inl (m, q'') ↦
                let built : ok (resolved_config upstream_name auth a b m) ≡ ok r =
                  rw (q, q', present, q'', from_auth) at h in
                let same : resolved_config upstream_name auth a b m ≡ r = cc built in
                subst (IsResolved upstream_name auth) same
                  (refl, λ g. needs-some b (ap (λ x. needs_refresh_token x b) (sym g) ∙ present))
          ]
        ]
      ]
    ]
