-- ===== src/Plugins/Tests.antt =====
-- A registry (src/plugins/registry.rs) whose plugins are numbers.
use rust_mcp_core.Common.Map
use rust_mcp_core.Common.{[], nat_eq, none, ok, refl, string_eq, ℕ, ◌↔◌, ◌∷◌, ◌≡◌}
use rust_mcp_core.Common.Map.{Map}
use rust_mcp_core.Errors.{fail, invalid_request}
use rust_mcp_core.Plugins.{
  PluginRegistry, Plugins, add_name, build_plugin_allowlist, check_name_available, emit_type_event,
  empty_registry, lookup_of, register, set_plugins, tool_changed, validate_allowlist_registered,
}
use rust_mcp_core.Plugins.Allowlists.{AllFound, registered_iff}
use rust_mcp_core.Plugins.Consistent.{reachable-IsConsistent}
use rust_mcp_core.Plugins.Invariant.{IsConsistent, Reachable, registered}
use rust_mcp_core.ValueHelpers.{PluginConfig, PluginType, prompt, tool}

abbrev Counted : PluginType → Type 0
Counted t = ℕ

abbrev start : PluginRegistry Counted
start = empty_registry Counted

abbrev only_echo : Plugins Counted
only_echo tool = ("echo", 7) ∷ []
only_echo t = []

abbrev echo_registry : PluginRegistry Counted
echo_registry = record { plugins = only_echo; all_names = "echo" ∷ []; events = tool_changed ∷ [] }

registered_echo : register Counted tool "echo" 7 start ≡ ok echo_registry
unfolding register check_name_available emit_type_event add_name Map.insert set_plugins
registered_echo = refl

taken :
    register Counted prompt "echo" 8 echo_registry
    ≡ fail invalid_request "duplicate plugin name: echo"
unfolding register check_name_available
taken = refl

reachable-IsConsistent_example : IsConsistent Counted echo_registry
reachable-IsConsistent_example =
    reachable-IsConsistent Counted echo_registry
      (registered tool "echo" 7 Reachable.empty registered_echo)

abbrev echo_config : PluginConfig
echo_config = record { name = "echo"; plugin_type = tool; config = none }

registered_iff_example :
    (validate_allowlist_registered Counted
        (lookup_of Counted echo_registry)
        (build_plugin_allowlist (echo_config ∷ []) tool)
        tool
      ≡ ok tt)
    ↔ AllFound Counted tool echo_registry (echo_config ∷ [])
registered_iff_example = registered_iff Counted tool echo_registry (echo_config ∷ [])

echo_passes :
    validate_allowlist_registered Counted
      (lookup_of Counted echo_registry)
      (build_plugin_allowlist (echo_config ∷ []) tool)
      tool
    ≡ ok tt
unfolding validate_allowlist_registered lookup_of build_plugin_allowlist set_plugins Map.get
echo_passes = refl
