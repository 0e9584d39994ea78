-- ===== src/Loader/Loaded.antt =====
-- src/config/loader.rs: what a configuration that is loaded has.
use rust_mcp_core.Common.{
  All, Bool, Bool-cases, List, Option, Option-cases, Result, String, [], any, ap, arith, err, false,
  if◌then◌else◌, inl, inr, is_empty_list, map, nat_eq, none, not, ok, refl, some, string_eq, subst,
  true, ◌<>◌, ◌==◌, ◌>>=◌, ◌>>◌, ◌||◌, ◌∙◌, ◌∷◌, ◌≡◌,
}
use rust_mcp_core.Config.{McpConfig}
use rust_mcp_core.Errors.{ErrorCode, Fallible, err≢ok, internal_error, invalid_request}
use rust_mcp_core.Json.{Value, elements}
use rust_mcp_core.Loader.{
  Readers, check_names, load_mcp_config_from_path, name_of, plugins_of, refuse_if, refused,
  validate_completion_semantics, validate_config, validate_input_schema_client_compat,
  validate_outbound_retry_semantics, validate_plugin_names,
  validate_streamable_http_hardening_semantics, when_some,
}
use rust_mcp_core.Loader.Checks.{completion_valid, hardening_valid, retries_valid, schemas_valid}
use rust_mcp_core.Loader.Conditions.{IsValidConfig, Whenever}
use rust_mcp_core.Loader.Expansion.{expand_env_vars}
use rust_mcp_core.Text.{eq_ignore_ascii_case, join}
use rust_mcp_core.Upstream.{Host}

-- Each of the plugins has a text as its name, and no two have the same.
abbrev pub Apart : String → List String → Type 0
Apart name names = any (◌==◌ name) names ≡ false

abbrev pub Distinct : List String → Type 0
Distinct [] = Unit
Distinct (name ∷ names) = Apart name names × Distinct names

abbrev pub NamedApart : List Value → Type 0
NamedApart plugins = (names : List String) × (map name_of plugins ≡ map some names) × Distinct names

-- Names that a check with `seen` accepts are distinct, and none of them was seen.
abbrev Unseen : List String → List String → Type 0
Unseen seen names = All (λ name. any (◌==◌ name) seen ≡ false) names

or_false : (a b : Bool) → (a || b) ≡ false → (a ≡ false) × (b ≡ false)
or_false true b h = ground arith
or_false false b h = (refl, h)

not_seen :
    (name : String) (seen names : List String)
    → Unseen (name ∷ seen) names
    → Apart name names × Unseen seen names
not_seen name seen [] h = (refl, tt)
not_seen name seen (other ∷ names) h =
    let (here, there) = or_false (other == name) (any (◌==◌ other) seen) (h.0) in
    let (apart, unseen) = not_seen name seen names (h.1) in
    let differs : (name == other) ≡ false =
      ground (arith, string_eq.agrees name other, string_eq.agrees other name) in
    (rw (differs) apart, (there, unseen))

check_names-Distinct :
    (seen : List String) (plugins : List Value)
    → check_names seen plugins ≡ ok tt
    → (names : List String) × (map name_of plugins ≡ map some names)
      × (Distinct names × Unseen seen names)
unfolding check_names
check_names-Distinct seen [] h = ([], refl, (tt, tt))
check_names-Distinct seen (plugin ∷ plugins) h = elim (Option-cases (name_of plugin)) [
  | inl unnamed ↦ absurd (err≢ok (rw (unnamed, check_names) at h))
  | inr (name, named) ↦ elim (Bool-cases (any (◌==◌ name) seen)) [
    | inl twice ↦ absurd (err≢ok (rw (named, twice, check_names) at h))
    | inr once ↦
        let (names, same, (distinct, unseen)) =
          check_names-Distinct (name ∷ seen) plugins (rw (named, once, check_names) at h) in
        let (apart, unseen') = not_seen name seen names unseen in
        (name ∷ names, (λ i. named i ∷ same i), ((apart, distinct), (once, unseen')))
  ]
]

-- To go on with what a step of a chain has produced.
bind_ok :
    {A B : Type 0} {P : Type 0} {b : B} (m : Fallible A) (f : A → Fallible B)
    → ((a : A) → m ≡ ok a → f a ≡ ok b → P)
    → (m >>= f) ≡ ok b
    → P
bind_ok (ok a) f k h = k a refl h
bind_ok (err e) f k h = absurd (err≢ok h)

seq_ok :
    {A P : Type 0} {b : A} (m : Fallible Unit) (f : Fallible A)
    → (m ≡ ok tt → f ≡ ok b → P)
    → (m >> f) ≡ ok b
    → P
seq_ok (ok u) f k h = k refl h
seq_ok (err e) f k h = absurd (err≢ok h)

refused-ok :
    {A : Type 0} (code : ErrorCode) (r : Result String A) {a : A} → refused code r ≡ ok a → r ≡ ok a
refused-ok code (ok a) h = cc h
refused-ok code (err e) h = absurd (err≢ok h)

no_messages :
    (messages : List String)
    → refuse_if
        (not (is_empty_list messages))
        ("config schema validation failed: " <> join "; " messages)
      ≡ ok tt
    → messages ≡ []
no_messages [] h = refl
no_messages (m ∷ ms) h = absurd (err≢ok h)

when_some-ok :
    {A : Type 0} (check : A → Fallible Unit) (o : Option A)
    → when_some o check ≡ ok tt
    → Whenever (λ a. check a ≡ ok tt) o
when_some-ok check none h = tt
when_some-ok check (some a) h = h

under_some :
    {A : Type 0} (P Q : A → Type 0) (o : Option A)
    → ((a : A) → P a → Q a)
    → Whenever P o
    → Whenever Q o
under_some P Q none f h = tt
under_some P Q (some a) f h = f a h

module _ (readers : Readers) (extension : String → String) (host : Host) where
  -- the parser that is called for a file of this name
  abbrev pub parsed : String → String → Result String Value
  parsed file text =
      if eq_ignore_ascii_case (extension file) "json"
      then readers.from_json text
      else readers.from_yaml text

  -- A value that the schema has no complaint about, in which the plugins have distinct names.
  abbrev pub IsValidValue : Value → Type 0
  IsValidValue value =
      (readers.schema_errors value ≡ ok [])
      × Whenever (λ plugins. NamedApart (elements plugins)) (plugins_of value)

  -- A configuration comes from the text of its file, expanded and parsed as a valid value, and
  -- satisfies all the checks.
  pub record IsLoaded (file : String) (config : McpConfig) : Type 0 where
    pub raw : String
    pub expanded : String
    pub value : Value
    pub is_read : readers.read_to_string file ≡ ok raw
    pub is_expanded : expand_env_vars host raw ≡ ok expanded
    pub is_parsed : parsed file expanded ≡ ok value
    pub is_valid : IsValidValue value
    pub is_config : readers.from_value value ≡ ok config
    pub satisfies : IsValidConfig config

  validate_config-IsValidValue :
      (value : Value) → validate_config readers extension host value ≡ ok tt → IsValidValue value
  unfolding validate_config validate_plugin_names
  validate_config-IsValidValue value =
      bind_ok (refused internal_error (readers.schema_errors value)) _ (λ messages valid.
        seq_ok _ _ (λ none_found named. (
          refused-ok internal_error (readers.schema_errors value) valid
              ∙ ap ok (no_messages messages none_found),
          under_some _ _ (plugins_of value)
              (λ plugins accepted.
                let (names, same, (distinct, unseen)) =
                  check_names-Distinct [] (elements plugins) accepted in
                (names, same, distinct))
              (when_some-ok _ (plugins_of value) named),
        )))

  -- A configuration that is loaded is what its file's text, expanded and parsed, was read as: a value
  -- without errors by the schema, in which the plugins have distinct names, each of them a text. It
  -- meets all the conditions that are checked of a configuration.
  pub load_is_valid :
      (file : String) (config : McpConfig)
      → load_mcp_config_from_path readers extension host file ≡ ok config
      → IsLoaded file config
  unfolding load_mcp_config_from_path
  load_is_valid file config =
      bind_ok (refused internal_error (readers.read_to_string file)) _ (λ raw is_raw.
        bind_ok (expand_env_vars host raw) _ (λ expanded is_expanded.
          bind_ok (refused invalid_request (parsed file expanded)) _ (λ value is_value.
            seq_ok (validate_config readers extension host value) _ (λ accepted.
              bind_ok (refused invalid_request (readers.from_value value)) _ (λ c is_config.
                seq_ok (validate_streamable_http_hardening_semantics c) _ (λ hardening.
                  seq_ok (validate_completion_semantics c) _ (λ completion.
                    seq_ok (validate_outbound_retry_semantics c) _ (λ retries.
                      seq_ok ((validate_input_schema_client_compat c).1) _ (λ schemas same.
                        let e : c ≡ config = cc same in
                        record {
                          raw = raw;
                          expanded = expanded;
                          value = value;
                          is_read = refused-ok internal_error (readers.read_to_string file) is_raw;
                          is_expanded = is_expanded;
                          is_parsed = refused-ok invalid_request (parsed file expanded) is_value;
                          is_valid = validate_config-IsValidValue value accepted;
                          is_config =
                              refused-ok invalid_request (readers.from_value value) is_config
                              ∙ ap ok e;
                          satisfies = subst IsValidConfig e (
                            hardening_valid c hardening,
                            (
                              completion_valid c completion,
                              (retries_valid c retries, schemas_valid c schemas),
                            ),
                          );
                        })))))))))
