-- ===== src/Engine/Refresh.antt =====
-- src/engine/orchestration/tool_dispatch.rs: the refresh of a token after an answer with status 401.
use rust_mcp_core.Common.Map
use rust_mcp_core.Common.{
  Option, Option-cases, String, ap, arith, err, inl, inr, nat_eq, ok, pair_is, some, some_injective,
  string_eq, subst, true, ◌&&◌, ◌∙◌, ◌≡◌,
}
use rust_mcp_core.Common.Map.{Map}
use rust_mcp_core.Engine.{Engine, Services, World}
use rust_mcp_core.Engine.HttpTool.{
  HttpDispatchParams, Oauth2ExecutionContext, after_first, execute_http_request_flow,
  execute_http_request_with_retry, has_status, headers_for, second_round, token_call,
}
use rust_mcp_core.Errors.{Fallible}
use rust_mcp_core.HttpExecutor.{Execution, HttpRequestTemplate}
use rust_mcp_core.Json.{Value}
use rust_mcp_core.TokenConfig.{cache_key_of, grant_eq, key_eq}
use rust_mcp_core.Tokens.{Cache, CachedOutboundToken}
use rust_mcp_core.Tokens.Cached.{Leaves, access_token-Leaves}
use rust_mcp_core.Upstream.{UpstreamOauth2AuthConfig}
use rust_mcp_core.ValueHelpers.{PluginType}

module _ {S : Type 0} {A : PluginType → Type 0} (services : Services S A) (engine : Engine A)
    (dispatch : HttpDispatchParams S) (template : HttpRequestTemplate) where
  -- The requests of a template with the token, as they end.
  abbrev pub with_token : String → HttpRequestTemplate
  with_token token = record template {
    headers = headers_for services engine dispatch.upstream dispatch.tool_cfg.execute (some token);
  }

  -- The entry of the cache for the upstream's key.
  abbrev pub entry_of : UpstreamOauth2AuthConfig → World S → Option CachedOutboundToken
  entry_of oauth w = Map.get (cache_key_of dispatch.upstream_name oauth) w.tokens

  second_uses :
      (oauth : UpstreamOauth2AuthConfig) (before : Cache) (call : World S × Fallible String)
      (after : World S) (v : Value)
      → Leaves before
          (cache_key_of dispatch.upstream_name oauth)
          (call.0.tokens, call.0.outside, call.1)
      → second_round services engine dispatch template call ≡ some (after, ok v)
      → (entry : CachedOutboundToken) × (start : S) × (entry_of oauth after ≡ some entry)
        × (execute_http_request_with_retry services engine dispatch
              (with_token entry.access_token)
              start
            ≡ some (after.outside, ok v))
  second_uses oauth before (mid, err e) after v leaves run =
      absurd (let h = ap (λ r. r.1) (some_injective run) in grind arith)
  second_uses oauth before (mid, ok token) after v leaves run =
      elim (Option-cases
        (execute_http_request_with_retry services engine dispatch (with_token token) mid.outside)) [
          | inl none_left ↦ absurd (let h = rw none_left at run in grind arith)
          | inr (ends, runs) ↦
              let made : some (record mid { outside = ends.0 }, ends.1) ≡ some (after, ok v) =
                rw runs at run in
              let ((entry, found, is), others) = leaves in
              let state : record mid { outside = ends.0 } ≡ after =
                ap (λ r. r.0) (some_injective made) in
              (
                entry,
                mid.outside,
                subst (λ m. entry_of oauth m ≡ some entry) state found,
                ap
                      (λ tok.
                        execute_http_request_with_retry services engine dispatch (with_token tok)
                          mid.outside)
                      is
                    ∙ runs
                    ∙ ap some
                        (pair_is (ap (λ m. m.outside) state) (ap (λ r. r.1) (some_injective made))),
              )
        ]

  -- If the first request of a tool with OAuth2 is answered with status 401 and the requests end with a
  -- value all the same, then the cache has an entry for the key of the upstream, and the value is the
  -- answer to requests that were made with the headers of that entry's token.
  pub answer_has_cached_token :
      (context : Oauth2ExecutionContext) (w after : World S) (s : S) (refused : Execution Value)
      (v : Value)
      → dispatch.oauth401_refresh_enabled ≡ true
      → execute_http_request_with_retry services engine dispatch template w.outside
        ≡ some (s, refused)
      → has_status 401 refused ≡ true
      → execute_http_request_flow services engine dispatch template (some context) w
        ≡ some (after, ok v)
      → (entry : CachedOutboundToken) × (start : S) × (entry_of context.auth after ≡ some entry)
        × (execute_http_request_with_retry services engine dispatch
              (with_token entry.access_token)
              start
            ≡ some (after.outside, ok v))
  unfolding execute_http_request_flow after_first
  answer_has_cached_token context w after s refused v enabled first is_401 run =
      let both : (dispatch.oauth401_refresh_enabled && has_status 401 refused) ≡ true =
        ap (λ b. b && has_status 401 refused) enabled ∙ is_401 in
      let ends : second_round services engine dispatch template (
            token_call services engine dispatch.upstream_name context.auth true
              (record w { outside = s }))
          ≡ some (after, ok v) =
        rw (first, both, execute_http_request_flow, after_first) at run in
      second_uses context.auth w.tokens _ after v
        (access_token-Leaves services.from_std services.exchanger services.host
          dispatch.upstream_name context.auth true (services.readings s) w.tokens s)
        ends
