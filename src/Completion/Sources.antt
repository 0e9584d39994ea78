-- ===== src/Completion/Sources.antt =====
-- src/engine/completion.rs: which providers are accepted, and where they are found.
use rust_mcp_core.Common.Map
use rust_mcp_core.Common.{
  All, Bool-cases, List, Option-cases, String, [], ap, arith, false≢true, inl, inr, nat_eq, none,
  ok, or_else, or_else-none, refl, some, string_eq, subst, sym, true, ◌==◌, ◌∙◌, ◌∷◌, ◌≡◌,
}
use rust_mcp_core.Common.Map.{Map}
use rust_mcp_core.Completion.{add_sources, build_completion_sources, is_allowed, source_name}
use rust_mcp_core.Config.{CompletionProviderConfig}
use rust_mcp_core.Errors.{err≢ok}

abbrev pub by_names : List CompletionProviderConfig → Map String CompletionProviderConfig
by_names [] = []
by_names (source ∷ sources) = (source_name source, source) ∷ by_names sources

abbrev pub IsAllowed : List String → CompletionProviderConfig → Type 0
IsAllowed allowlist source = is_allowed allowlist source ≡ true

-- What holds after providers were added to those of `before`.
abbrev Added :
    List String
    → (before after : Map String CompletionProviderConfig) → List CompletionProviderConfig
    → Type 0
Added allowlist before after sources =
    All (IsAllowed allowlist) sources
    × (Map.IsUnique (by_names sources)
        × (All (λ source. Map.get (source_name source) before ≡ none) sources
            × ((name : String)
                → Map.get name after
                  ≡ or_else (Map.get name before) (Map.get name (by_names sources)))))

-- names that an added provider leaves free are free before it, and are not its own
free_before :
    (source : CompletionProviderConfig) (before : Map String CompletionProviderConfig)
    (sources : List CompletionProviderConfig)
    → All
        (λ s. Map.get (source_name s) (Map.insert (source_name source) source before) ≡ none)
        sources
    → All (λ s. Map.get (source_name s) before ≡ none) sources
      × Map.IsAbsent (source_name source) (by_names sources)
free_before source before [] h = (tt, tt)
free_before source before (s ∷ sources) h =
    let (rest, absent) = free_before source before sources (h.1) in
    let here = sym (Map.get-insert (source_name source) (source_name s) source before) ∙ h.0 in
    elim (Bool-cases (source_name source == source_name s)) [
      | inl same ↦ let taken : some source ≡ none = rw same at here in grind arith
      | inr other ↦ (
        (rw other at here, rest),
        (
          λ q.
              false≢true
                (sym other ∙ (string_eq.agrees (source_name source) (source_name s)).1 (sym q)),
          absent,
        ),
      )
    ]

found_first :
    (source : CompletionProviderConfig) (before : Map String CompletionProviderConfig)
    (sources : List CompletionProviderConfig) (k : String)
    → Map.get (source_name source) before ≡ none
    → or_else
        (Map.get k (Map.insert (source_name source) source before))
        (Map.get k (by_names sources))
      ≡ or_else (Map.get k before) (Map.get k (by_names (source ∷ sources)))
unfolding Map.get
found_first source before sources k fresh = elim (Bool-cases (source_name source == k)) [
  | inl same ↦
      let missing : Map.get k before ≡ none =
        subst (λ (j : String). Map.get j before ≡ none)
          ((string_eq.agrees (source_name source) k).0 same) fresh in
      rw (Map.get-insert (source_name source) k source before, same, missing) refl
  | inr other ↦ rw (Map.get-insert (source_name source) k source before, other) refl
]

add_sources-Added :
    (allowlist : List String) (before after : Map String CompletionProviderConfig)
    (sources : List CompletionProviderConfig)
    → add_sources allowlist before sources ≡ ok after
    → Added allowlist before after sources
unfolding add_sources Map.get
add_sources-Added allowlist before after [] h =
    let same : before ≡ after = cc h in
    (
      tt,
      (tt, (tt, λ name. ap (Map.get name) (sym same) ∙ sym (or_else-none (Map.get name before)))),
    )
add_sources-Added allowlist before after (source ∷ sources) h =
    let name = source_name source in
    elim (Bool-cases (is_allowed allowlist source)) [
      | inr forbidden ↦ absurd (err≢ok (rw (forbidden, add_sources) at h))
      | inl allowed ↦ elim (Option-cases (Map.get name before)) [
        | inr (other, twice) ↦ absurd (err≢ok (rw (allowed, twice, add_sources) at h))
        | inl fresh ↦
            let (all_allowed, (unique, (free, found))) =
              add_sources-Added allowlist (Map.insert name source before) after sources
                (rw (allowed, fresh, add_sources) at h) in
            let (still_free, absent) = free_before source before sources free in
            (
              (allowed, all_allowed),
              (
                (absent, unique),
                ((fresh, still_free), λ k. found k ∙ found_first source before sources k fresh),
              ),
            )
      ]
    ]

-- Where providers are accepted, each of them is inline or of a plugin on the list, no two have the same
-- name, and each is found under its name, and nothing under any other.
pub sources_are_found :
    (sources : List CompletionProviderConfig) (allowlist : List String)
    (by_name : Map String CompletionProviderConfig)
    → build_completion_sources sources allowlist ≡ ok by_name
    → All (IsAllowed allowlist) sources
      × (Map.IsUnique (by_names sources)
          × ((name : String) → Map.get name by_name ≡ Map.get name (by_names sources)))
unfolding build_completion_sources Map.get
sources_are_found sources allowlist by_name h =
    let (allowed, (unique, (free, found))) = add_sources-Added allowlist [] by_name sources h in
    (allowed, (unique, found))
