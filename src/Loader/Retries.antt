-- ===== src/Loader/Retries.antt =====
-- src/config/loader.rs and src/http/outbound_pipeline.rs: the retries that a request gets from a loaded
-- configuration.
use rust_mcp_core.Common.Map
use rust_mcp_core.Common.{
  Bool-cases, Option, String, [], arith, inl, inr, nat_eq, none, ok, or_else, some, string_eq,
  subst, ◌==◌, ◌∷◌, ◌≡◌,
}
use rust_mcp_core.Common.Map.{Map}
use rust_mcp_core.Config.{McpConfig}
use rust_mcp_core.Loader.{Readers, load_mcp_config_from_path}
use rust_mcp_core.Loader.Conditions.{IsValidRetry, UpstreamRetries, Whenever}
use rust_mcp_core.Loader.Loaded.{load_is_valid}
use rust_mcp_core.Outbound.{resolve_retry_config}
use rust_mcp_core.Upstream.{Host, OutboundRetryConfig, UpstreamConfig}

whenever_some :
    {A : Type 0} (P : A → Type 0) (o : Option A) {a : A} → Whenever P o → o ≡ some a → P a
whenever_some P o h q = subst (Whenever P) q h

upstream_of :
    (upstreams : Map String UpstreamConfig) (name : String) {u : UpstreamConfig}
    → UpstreamRetries upstreams
    → Map.get name upstreams ≡ some u
    → Whenever IsValidRetry u.retry
unfolding Map.get
upstream_of [] name h q = grind arith
upstream_of ((j, v) ∷ upstreams) name {u} h q = elim (Bool-cases (j == name)) [
  | inl same ↦
      let r : some v ≡ some u = rw same at q in
      let e : v ≡ u = cc r in subst (λ (x : UpstreamConfig). Whenever IsValidRetry x.retry) e (h.0)
  | inr other ↦ upstream_of upstreams name (h.1) (rw other at q)
]

or_else_valid :
    (a b : Option OutboundRetryConfig)
    → Whenever IsValidRetry a
    → Whenever IsValidRetry b
    → Whenever IsValidRetry (or_else a b)
or_else_valid none b h k = k
or_else_valid (some a) b h k = h

-- The retries of a request to an upstream of a loaded configuration, its own where they are valid and
-- else those of the upstream or of the defaults, allow at least one attempt, after a delay, and have
-- something to retry on.
pub resolved_retry_is_valid :
    (readers : Readers) (extension : String → String) (host : Host) (file : String)
    (config : McpConfig) (request : Option OutboundRetryConfig) (name : String) (u : UpstreamConfig)
    (retry : OutboundRetryConfig)
    → load_mcp_config_from_path readers extension host file ≡ ok config
    → Whenever IsValidRetry request
    → Map.get name config.upstreams ≡ some u
    → resolve_retry_config request u config.outbound_http ≡ some retry
    → IsValidRetry retry
unfolding resolve_retry_config
resolved_retry_is_valid readers extension host file config request name u retry loaded own found
      resolved =
    let (hardening, (completion, ((outbound, (upstreams, tools)), schemas))) =
      (load_is_valid readers extension host file config loaded).satisfies in
    whenever_some IsValidRetry _
      (or_else_valid request _ own
        (or_else_valid u.retry _ (upstream_of config.upstreams name upstreams found) outbound))
      resolved
