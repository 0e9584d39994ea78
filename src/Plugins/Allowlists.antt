-- ===== src/Plugins/Allowlists.antt =====
-- src/engine/orchestration/helpers.rs: the check at startup, and the lookups that rely on it.
use rust_mcp_core.Common.Map
use rust_mcp_core.Common.{
  All, Bool-cases, List, Option-cases, String, [], false≢true, iff_trans, inl, inr, nat_beq_iff,
  nat_eq, none, ok, refl, some, string_eq, sym, ◌==◌, ◌↔◌, ◌∙◌, ◌∷◌, ◌≡◌,
}
use rust_mcp_core.Common.Map.{Map}
use rust_mcp_core.Errors.{err≢ok}
use rust_mcp_core.Plugins.{
  PluginRegistry, build_plugin_allowlist, checked_type, lookup_of, lookup_plugin, of_type,
  plugin_ref, validate_allowlist_registered,
}
use rust_mcp_core.ValueHelpers.{
  PluginConfig, PluginType, auth, completion, http_router, prompt, resource, tool, type_index,
}

module _ (A : PluginType → Type 0) where
  of_type_self : (t : PluginType) (plugin : A t) → of_type A t (plugin_ref t plugin) ≡ some plugin
  unfolding of_type
  of_type_self tool plugin = refl
  of_type_self auth plugin = refl
  of_type_self http_router plugin = refl
  of_type_self completion plugin = refl
  of_type_self prompt plugin = refl
  of_type_self resource plugin = refl

  checked_type_self :
      (t : PluginType) (name : String) (plugin : A t)
      → checked_type A t name (plugin_ref t plugin) ≡ ok plugin
  checked_type_self t name plugin = rw (of_type_self t plugin, checked_type)

  -- The plugin of the registry under a name, if there is one.
  abbrev pub Found : (t : PluginType) → PluginRegistry A → String → Type 0
  Found t r name = (plugin : A t) × (lookup_plugin A t (lookup_of A r) name ≡ ok plugin)

  lookup-found :
      (t : PluginType) (r : PluginRegistry A) (name : String) (plugin : A t)
      → Map.get name (r.plugins t) ≡ some plugin
      → lookup_plugin A t (lookup_of A r) name ≡ ok plugin
  unfolding lookup_plugin lookup_of
  lookup-found t r name plugin there =
      rw (there, lookup_plugin, lookup_of) (checked_type_self t name plugin)

  lookup-missing :
      (t : PluginType) (r : PluginRegistry A) (name : String)
      → Map.get name (r.plugins t) ≡ none
      → Found t r name
      → ⊥
  unfolding lookup_plugin lookup_of
  lookup-missing t r name missing (plugin, run) =
      err≢ok (rw (missing, lookup_plugin, lookup_of) at run)

  names_iff :
      (t : PluginType) (r : PluginRegistry A) (names : List String)
      → (validate_allowlist_registered A (lookup_of A r) names t ≡ ok tt) ↔ All (Found t r) names
  unfolding validate_allowlist_registered lookup_of
  names_iff t r [] = (λ run. tt, λ all. refl)
  names_iff t r (name ∷ names) = elim (Option-cases (Map.get name (r.plugins t))) [
    | inl missing ↦ (
      λ run. absurd (err≢ok (rw (missing, validate_allowlist_registered, lookup_of) at run)),
      λ all. absurd (lookup-missing t r name missing all.0),
    )
    | inr (plugin, there) ↦ (
      λ run. (
        (plugin, lookup-found t r name plugin there),
        (names_iff t r names).0 (rw (there, validate_allowlist_registered, lookup_of) at run),
      ),
      λ all. rw (there, validate_allowlist_registered, lookup_of) ((names_iff t r names).1 all.1),
    )
  ]

  -- The plugins of a configuration that have the type are found.
  abbrev pub AllFound : (t : PluginType) → PluginRegistry A → List PluginConfig → Type 0
  AllFound t r plugins =
      All (λ p. type_index p.plugin_type ≡ type_index t → Found t r p.name) plugins

  -- The check at startup passes for a type of plugins just if the lookup succeeds for every plugin of
  -- that type in the configuration.
  pub registered_iff :
      (t : PluginType) (r : PluginRegistry A) (plugins : List PluginConfig)
      → (validate_allowlist_registered A (lookup_of A r) (build_plugin_allowlist plugins t) t
          ≡ ok tt)
        ↔ AllFound t r plugins
  unfolding build_plugin_allowlist
  registered_iff t r plugins =
      iff_trans (names_iff t r (build_plugin_allowlist plugins t)) (listed plugins)
    where
      listed :
          (plugins : List PluginConfig)
          → All (Found t r) (build_plugin_allowlist plugins t) ↔ AllFound t r plugins
      listed [] = (λ all. tt, λ all. tt)
      listed (p ∷ plugins) = elim (Bool-cases (type_index p.plugin_type == type_index t)) [
        | inl same ↦ rw same (
          λ all. (λ is. all.0, (listed plugins).0 all.1),
          λ all. (all.0 ((nat_beq_iff _ _).0 same), (listed plugins).1 all.1),
        )
        | inr other ↦ rw other (
          λ all. (
            λ is. absurd (false≢true (sym other ∙ (nat_beq_iff _ _).1 is)),
            (listed plugins).0 all,
          ),
          λ all. (listed plugins).1 all.1,
        )
      ]
