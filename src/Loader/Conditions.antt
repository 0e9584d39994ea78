-- ===== src/Loader/Conditions.antt =====
-- src/config/loader.rs: what the checks of a configuration ask, and the tests that they make of it.
use rust_mcp_core.Common.Map
use rust_mcp_core.Common.{
  All, Bool, Bool-cases, List, Option, String, [], and_then, arith, false, filter, iff_trans, inl,
  inr, is_some, nat_beq, nat_eq, none, not, refl, some, string_eq, true, ℕ, ◌&&◌, ◌<◌, ◌||◌, ◌↔◌,
  ◌∷◌, ◌≡◌, ◌≢◌, ◌⊎◌,
}
use rust_mcp_core.Common.Map.{Map}
use rust_mcp_core.Config.{
  McpConfig, StreamableHttpRateLimitConfig, ToolConfig, TopLevelCombinatorsPolicy, error, is_active,
  retry_of, tools_items,
}
use rust_mcp_core.Json.{
  Object, Value, array, as_object, bool, entries, get, has_key, lookup, null, number, object,
  string,
}
use rust_mcp_core.Loader.{combinators, idle_rate, is_empty_list, is_stateless, session_of}
use rust_mcp_core.Policy.{SessionMode, no_session, optional, required}
use rust_mcp_core.Upstream.{OutboundRetryConfig, UpstreamConfig}

abbrev pub Whenever : {A : Type 0} → (A → Type 0) → Option A → Type 0
Whenever P none = Unit
Whenever P (some a) = P a

-- There is an attempt and a delay, and something to retry on.
abbrev pub IsValidRetry : OutboundRetryConfig → Type 0
IsValidRetry retry =
    (0 < retry.max_attempts)
    × ((0 < retry.delay_ms) × ((retry.on_network_errors ≡ true) ⊎ (retry.on_statuses ≢ [])))

pub nonempty_iff : {A : Type 0} (l : List A) → (is_empty_list l ≡ false) ↔ (l ≢ [])
nonempty_iff [] = (λ h. absurd (cc h), λ h. absurd (h refl))
nonempty_iff (x ∷ l) = (λ h q. absurd (cc q), λ h. refl)

pub unless_iff :
    {P : Type 0} (b c : Bool) → (c ≡ false) ↔ P → ((b && c) ≡ false) ↔ ((b ≡ false) ⊎ P)
unless_iff true c e = (λ h. inr (e.0 h), λ h. elim h [ inl q ↦ absurd (cc q) | inr r ↦ e.1 r ])
unless_iff false c e = (λ h. inl refl, λ h. refl)

pub not_iff : {P : Type 0} (b : Bool) → ((not b ≡ false) ⊎ P) ↔ ((b ≡ true) ⊎ P)
not_iff true = (λ h. inl refl, λ h. elim h [ inl q ↦ inl refl | inr r ↦ inr r ])
not_iff false = (
  λ h. elim h [ inl q ↦ absurd (cc q) | inr r ↦ inr r ],
  λ h. elim h [ inl q ↦ absurd (cc q) | inr r ↦ inr r ],
)

pub inactive_iff :
    {P : Type 0} (enabled : Option Bool)
    → ((is_active enabled ≡ false) ⊎ P) ↔ ((enabled ≡ some false) ⊎ P)
inactive_iff none = (
  λ h. elim h [ inl q ↦ absurd (cc q) | inr r ↦ inr r ],
  λ h. elim h [ inl q ↦ absurd (cc q) | inr r ↦ inr r ],
)
inactive_iff (some true) = (
  λ h. elim h [ inl q ↦ absurd (cc q) | inr r ↦ inr r ],
  λ h. elim h [ inl q ↦ absurd (cc q) | inr r ↦ inr r ],
)
inactive_iff (some false) = (λ h. inl refl, λ h. inl refl)

pub positive_iff : (n : ℕ) → (nat_beq n 0 ≡ false) ↔ (0 < n)
positive_iff n = ground arith

abbrev pub UpstreamRetries : Map String UpstreamConfig → Type 0
UpstreamRetries [] = Unit
UpstreamRetries ((name, upstream) ∷ upstreams) =
    Whenever IsValidRetry upstream.retry × UpstreamRetries upstreams

abbrev pub ToolRetries : List ToolConfig → Type 0
ToolRetries [] = Unit
ToolRetries (tool ∷ tools) = Whenever IsValidRetry (retry_of tool.execute) × ToolRetries tools

-- Every retry of the configuration is valid.
abbrev pub ValidRetries : McpConfig → Type 0
ValidRetries config =
    Whenever IsValidRetry (and_then config.outbound_http (λ o. o.retry))
    × (UpstreamRetries config.upstreams × ToolRetries (tools_items config))

-- An active completion has a provider.
abbrev pub ValidCompletion : McpConfig → Type 0
ValidCompletion config =
    Whenever (λ c. (c.enabled ≡ some false) ⊎ (c.providers ≢ [])) config.completion

-- A rate limit is switched off, or has a bucket for all or one for each address.
abbrev pub HasBucket : StreamableHttpRateLimitConfig → Type 0
HasBucket rate = (rate.enabled ≡ some false) ⊎ ((rate.global ≢ none) ⊎ (rate.per_ip ≢ none))

-- A server without sessions does not harden them, and an active rate limit has a bucket.
abbrev pub ValidHardening : McpConfig → Type 0
ValidHardening config =
    ((config.streamable_http.session_mode ≢ no_session) ⊎ (session_of config ≡ none))
    × (Whenever HasBucket (and_then config.streamable_http.hardening (λ h. h.rate_limit))
        × Whenever HasBucket (and_then (session_of config) (λ s. s.creation_rate)))

present_iff :
    {A B : Type 0} (a : Option A) (b : Option B)
    → (not (is_some a || is_some b) ≡ false) ↔ ((a ≢ none) ⊎ (b ≢ none))
present_iff (some a) b = (λ h. inl (λ q. absurd (cc q)), λ h. refl)
present_iff none (some b) = (λ h. inr (λ q. absurd (cc q)), λ h. refl)
present_iff none none =
    (λ h. absurd (cc h), λ h. elim h [ inl q ↦ absurd (q refl) | inr r ↦ absurd (r refl) ])

pub idle_rate_iff :
    (rate : StreamableHttpRateLimitConfig) → (idle_rate rate ≡ false) ↔ HasBucket rate
idle_rate_iff rate =
    iff_trans (unless_iff (is_active rate.enabled) _ (present_iff rate.global rate.per_ip))
      (inactive_iff rate.enabled)

pub sessions_iff :
    {A : Type 0} (mode : SessionMode) (o : Option A)
    → ((is_stateless mode && is_some o) ≡ false) ↔ ((mode ≢ no_session) ⊎ (o ≡ none))
sessions_iff no_session none = (λ h. inr refl, λ h. refl)
sessions_iff no_session (some a) =
    (λ h. absurd (cc h), λ h. elim h [ inl q ↦ absurd (q refl) | inr r ↦ absurd (cc r) ])
sessions_iff optional o = (λ h. inl (λ q. absurd (cc q)), λ h. refl)
sessions_iff required o = (λ h. inl (λ q. absurd (cc q)), λ h. refl)

-- A schema has none of the three combinators at its top level.
abbrev pub IsPlain : Value → Type 0
IsPlain schema =
    (get "anyOf" schema ≡ none) × ((get "oneOf" schema ≡ none) × (get "allOf" schema ≡ none))

none_iff : {A : Type 0} (o : Option A) → (is_some o ≡ false) ↔ (o ≡ none)
none_iff none = (λ h. refl, λ h. refl)
none_iff (some a) = (λ h. absurd (cc h), λ h. absurd (cc h))

-- Under the policy of errors no tool has a combinator at the top level of its schema.
abbrev pub NoCombinators : List ToolConfig → Type 0
NoCombinators [] = Unit
NoCombinators (tool ∷ tools) = IsPlain tool.input_schema × NoCombinators tools

has_key_iff : (k : String) (o : Object) → (has_key k o ≡ false) ↔ (get k (object o) ≡ none)
unfolding has_key get lookup
has_key_iff k o = rw (Map.contains_key-get k (entries o)) (none_iff (Map.get k (entries o)))

filter_empty_iff :
    (test : String → Bool) (l : List String)
    → (is_empty_list (filter test l) ≡ true) ↔ All (λ x. test x ≡ false) l
filter_empty_iff test [] = (λ h. tt, λ h. refl)
filter_empty_iff test (x ∷ xs) = elim (Bool-cases (test x)) [
  | inl kept ↦ rw (kept) (λ h. absurd (cc h), λ h. absurd (cc (h.0)))
  | inr dropped ↦
      let rest = filter_empty_iff test xs in rw dropped (λ h. (refl, rest.0 h), λ h. rest.1 h.1)
]

IsPlain-iff :
    (v : Value)
    → (is_empty_list (elim (as_object v) [
      | none ↦ []
      | some schema ↦ filter (λ key. has_key key schema) ("anyOf" ∷ "oneOf" ∷ "allOf" ∷ [])
    ])
        ≡ true)
      ↔ IsPlain v
unfolding get
IsPlain-iff (object o) =
    let any = has_key_iff "anyOf" o in
    let one = has_key_iff "oneOf" o in
    let all = has_key_iff "allOf" o in
    iff_trans (filter_empty_iff (λ key. has_key key o) ("anyOf" ∷ "oneOf" ∷ "allOf" ∷ [])) (
      λ h. (any.0 h.0, (one.0 h.1.0, all.0 h.1.1.0)),
      λ h. (any.1 h.0, (one.1 h.1.0, (all.1 h.1.1, tt))),
    )
IsPlain-iff null = (λ h. (refl, (refl, refl)), λ h. refl)
IsPlain-iff (bool b) = (λ h. (refl, (refl, refl)), λ h. refl)
IsPlain-iff (number n) = (λ h. (refl, (refl, refl)), λ h. refl)
IsPlain-iff (string s) = (λ h. (refl, (refl, refl)), λ h. refl)
IsPlain-iff (array l) = (λ h. (refl, (refl, refl)), λ h. refl)

pub combinators_iff :
    (tool : ToolConfig) → (is_empty_list (combinators tool) ≡ true) ↔ IsPlain tool.input_schema
unfolding combinators
combinators_iff tool = IsPlain-iff tool.input_schema

abbrev pub CompatFor : TopLevelCombinatorsPolicy → List ToolConfig → Type 0
CompatFor error tools = NoCombinators tools
CompatFor _ tools = Unit

abbrev pub ValidSchemas : McpConfig → Type 0
ValidSchemas config = CompatFor config.top_level_combinators (tools_items config)

-- What the checks ask of a configuration.
abbrev pub IsValidConfig : McpConfig → Type 0
IsValidConfig config =
    ValidHardening config × (ValidCompletion config × (ValidRetries config × ValidSchemas config))
