-- ===== src/Completion.antt =====
-- src/engine/completion.rs: the providers of completions, and their answers. `CompletionInfo` is the
-- protocol's crate's; its maker and the number of values that it accepts are parameters.
pub mod Sources
mod Tests
use rust_mcp_core.Common.Map
use rust_mcp_core.Json
use rust_mcp_core.Common.{
  Bool, List, Option, Result, String, [], and_then, any, err, false, filter, if◌then◌else◌, length,
  ltb, nat_eq, none, ok, some, string_eq, take, true, ℕ, ◌-◌, ◌<>◌, ◌==◌, ◌^◌, ◌∷◌,
}
use rust_mcp_core.Common.Map.{Map}
use rust_mcp_core.Config.{CompletionProviderConfig, inline_completion, plugin_completion}
use rust_mcp_core.Errors.{Fallible, fail, internal_error, invalid_params, invalid_request}
use rust_mcp_core.Json.{Value, as_object, has_key}
use rust_mcp_core.Text.{starts_with}

abbrev pub source_name : CompletionProviderConfig → String
source_name (inline_completion name values) = name
source_name (plugin_completion name plugin config) = name

abbrev pub is_allowed : List String → CompletionProviderConfig → Bool
is_allowed allowlist (inline_completion name values) = true
is_allowed allowlist (plugin_completion name plugin config) = any (◌==◌ plugin) allowlist

abbrev plugin_of : CompletionProviderConfig → String
plugin_of (inline_completion name values) = ""
plugin_of (plugin_completion name plugin config) = plugin

unfoldable pub add_sources :
    (completion_allowlist : List String)
    → Map String CompletionProviderConfig
    → List CompletionProviderConfig
    → Fallible (Map String CompletionProviderConfig)
add_sources allowlist by_name [] = ok by_name
add_sources allowlist by_name (source ∷ sources) = elim (is_allowed allowlist source) [
  | false ↦ fail invalid_request ("completion plugin not allowlisted: " <> plugin_of source)
  | true ↦ elim (Map.get (source_name source) by_name) [
    | some replaced ↦
        fail invalid_request ("duplicate completion provider '" <> (source_name source <> "'"))
    | none ↦ add_sources allowlist (Map.insert (source_name source) source by_name) sources
  ]
]

unfoldable pub build_completion_sources :
    List CompletionProviderConfig
    → (completion_allowlist : List String) → Fallible (Map String CompletionProviderConfig)
unfolding add_sources
build_completion_sources sources allowlist = add_sources allowlist [] sources

-- the first of the referenced providers that there is not
unfoldable pub check_references :
    (owner : String) → Map String CompletionProviderConfig → Map String String → Fallible Unit
check_references owner sources [] = ok tt
check_references owner sources ((argument, name) ∷ completions) =
    elim (Map.contains_key name sources) [
      | false ↦
          fail invalid_request
            (owner <> (" references unknown completion provider '" <> (name <> "'")))
      | true ↦ check_references owner sources completions
    ]

unfoldable pub validate_completion_source_mapping :
    Option (Map String String)
    → Map String CompletionProviderConfig
    → (owner : String) → Fallible Unit
unfolding check_references
validate_completion_source_mapping none sources owner = ok tt
validate_completion_source_mapping (some completions) sources owner =
    check_references owner sources completions

unfoldable pub validate_completion_argument_exists :
    (schema : Value) → (argument_name owner : String) → Fallible Unit
unfolding Json.get has_key
validate_completion_argument_exists schema argument_name owner =
    elim (and_then (Json.get "properties" schema) as_object) [
      | none ↦ fail invalid_request (owner <> " arguments_schema.properties must be an object")
      | some properties ↦
          if has_key argument_name properties
          then ok tt
          else fail invalid_params (
              owner
              <> (" argument '"
                  <> (argument_name <> "' is not defined in arguments_schema.properties")))
    ]

abbrev pub u32_max : ℕ
u32_max = 2 ^ 32 - 1

module _ {Info : Type 0} (max_values : ℕ)
    (with_pagination : List String → Option ℕ → Bool → Result String Info) where
  unfoldable pub completion_info_from_values_with_total :
      List String → Option ℕ → (has_more : Bool) → Fallible Info
  completion_info_from_values_with_total values total has_more =
      elim (with_pagination values total has_more) [
        | ok info ↦ ok info
        | err message ↦ fail internal_error ("invalid completion response: " <> message)
      ]

  unfoldable pub complete_inline_values : List String → (prefix : String) → Fallible Info
  unfolding completion_info_from_values_with_total starts_with
  complete_inline_values values prefix =
      let matches = filter (starts_with prefix) values in
      let total = length matches in
      if ltb u32_max total
      then fail internal_error "completion result count exceeds u32::MAX"
      else if ltb max_values total
      then completion_info_from_values_with_total (take max_values matches) (some total) true
      else completion_info_from_values_with_total matches (some total) false
