-- ===== src/Completion/Tests.antt =====
-- Providers of completions, and an answer (src/engine/completion.rs).
use rust_mcp_core.Common.Map
use rust_mcp_core.Common.{
  All, Bool, List, Option, Result, String, [], nat_eq, none, ok, refl, some, string_eq, true, ℕ,
  ◌∷◌, ◌≡◌,
}
use rust_mcp_core.Common.Map.{Map}
use rust_mcp_core.Completion.{
  add_sources, build_completion_sources, complete_inline_values,
  completion_info_from_values_with_total,
}
use rust_mcp_core.Completion.Sources.{IsAllowed, by_names, sources_are_found}
use rust_mcp_core.Config.{CompletionProviderConfig, inline_completion, plugin_completion}
use rust_mcp_core.Text.{starts_with, strip_prefix}

abbrev two_sources : List CompletionProviderConfig
two_sources =
    inline_completion "color" ("red" ∷ "rose" ∷ "blue" ∷ [])
    ∷ plugin_completion "file" "fs" none
    ∷ []

accepted : build_completion_sources two_sources ("fs" ∷ []) ≡ ok (by_names two_sources)
unfolding build_completion_sources add_sources Map.get Map.insert
accepted = refl

sources_are_found_run :
    All (IsAllowed ("fs" ∷ [])) two_sources
    × (Map.IsUnique (by_names two_sources)
        × ((name : String)
            → Map.get name (by_names two_sources) ≡ Map.get name (by_names two_sources)))
sources_are_found_run = sources_are_found two_sources ("fs" ∷ []) (by_names two_sources) accepted

abbrev paged : List String → Option ℕ → Bool → Result String (List String × Option ℕ × Bool)
paged values total more = ok (values, total, more)

first_of_two :
    complete_inline_values 1 paged ("red" ∷ "rose" ∷ "blue" ∷ []) "r"
    ≡ ok ("red" ∷ [], some 2, true)
unfolding complete_inline_values completion_info_from_values_with_total starts_with strip_prefix
first_of_two = refl
