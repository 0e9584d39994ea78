-- ===== src/Plugins.antt =====
-- src/plugins/registry.rs: the registry of plugins, and src/engine/orchestration/helpers.rs: the
-- lookups in it. `A t` are the plugins of the type `t`. The fields of the registry, one for each type,
-- are a function of the type; the events that it sends are a log, the newest first.
pub mod Names
pub mod Invariant
pub mod Consistent
pub mod Allowlists
mod Tests
use rust_mcp_core.Common.Map
use rust_mcp_core.Common.{
  Bool, List, Option, String, [], and_then, any, false, filter, if◌then◌else◌, leb, ltb, map,
  nat_eq, none, not, ok, or_else, some, string_eq, true, ℕ, ◌&&◌, ◌++◌, ◌<>◌, ◌==◌, ◌>>=◌, ◌>>◌,
  ◌∷◌,
}
use rust_mcp_core.Common.Map.{Map}
use rust_mcp_core.Errors.{Fallible, fail, invalid_request}
use rust_mcp_core.ValueHelpers.{
  PluginConfig, PluginType, auth, completion, http_router, prompt, resource, tool, type_index,
}

abbrev pub label : PluginType → String
label tool = "tool"
label auth = "auth"
label http_router = "http_router"
label completion = "completion"
label prompt = "prompt"
label resource = "resource"

pub data RegistryEvent : Type 0 where
  tool_changed prompt_changed resource_changed : RegistryEvent

abbrev pub event_of : PluginType → Option RegistryEvent
event_of tool = some tool_changed
event_of prompt = some prompt_changed
event_of resource = some resource_changed
event_of _ = none

-- `HashSet::insert` and `HashSet::remove`
unfoldable pub add_name : String → List String → List String
add_name name all_names = if any (◌==◌ name) all_names then all_names else name ∷ all_names

abbrev pub remove_name : String → List String → List String
remove_name name all_names = filter (λ other. not (other == name)) all_names

module _ (A : PluginType → Type 0) where
  pub data PluginRef : Type 0 where
    plugin_ref : (t : PluginType) → A t → PluginRef

  pub record PluginLookup : Type 0 where
    pub get_plugin : PluginType → String → Option PluginRef
    pub names : List (String × PluginType)

  abbrev pub Plugins : Type 0
  Plugins = (t : PluginType) → Map String (A t)

  pub record PluginRegistry : Type 0 where
    pub plugins : Plugins
    pub all_names : List String
    pub events : List RegistryEvent

  abbrev pub empty_registry : PluginRegistry
  empty_registry = record { plugins = λ t. []; all_names = []; events = [] }

  unfoldable pub set_plugins : (t : PluginType) → Map String (A t) → Plugins → Plugins
  set_plugins tool m r tool = m
  set_plugins auth m r auth = m
  set_plugins http_router m r http_router = m
  set_plugins completion m r completion = m
  set_plugins prompt m r prompt = m
  set_plugins resource m r resource = m
  set_plugins t m r u = r u

  unfoldable pub emit_type_event : PluginType → PluginRegistry → PluginRegistry
  emit_type_event t r = elim (event_of t) [
    | none ↦ r
    | some event ↦ record r { events = event ∷ r.events }
  ]

  unfoldable pub check_name_available : String → PluginRegistry → Fallible Unit
  check_name_available name r =
      if any (◌==◌ name) r.all_names
      then fail invalid_request ("duplicate plugin name: " <> name)
      else ok tt

  -- `register_tool` and the other five, by the type; the name is the plugin's own
  unfoldable pub register :
      (t : PluginType) → (name : String) → A t → PluginRegistry → Fallible PluginRegistry
  unfolding check_name_available set_plugins emit_type_event
  register t name plugin r = do
    available ← check_name_available name r
    ok (
        emit_type_event t (record r {
          plugins = set_plugins t (Map.insert name plugin (r.plugins t)) r.plugins;
          all_names = add_name name r.all_names;
        }))

  -- `unregister_tool`, `unregister_prompt` and `unregister_resource`
  unfoldable pub unregister :
      (t : PluginType) → (name : String) → PluginRegistry → Fallible PluginRegistry
  unfolding set_plugins emit_type_event
  unregister t name r =
      if Map.contains_key name (r.plugins t)
      then ok (
          emit_type_event t (record r {
            plugins = set_plugins t (Map.remove name (r.plugins t)) r.plugins;
            all_names = remove_name name r.all_names;
          }))
      else fail invalid_request (label t <> (" plugin not registered: " <> name))

  unfoldable pub check_name_for_replace :
      PluginType → (name : String) → (exists_in_type : Bool) → PluginRegistry → Fallible Unit
  check_name_for_replace t name true r = ok tt
  check_name_for_replace t name false r =
      if any (◌==◌ name) r.all_names
      then fail invalid_request (
          "cannot replace "
          <> (label t
              <> (" plugin " <> (name <> ": name is registered as a different plugin type"))))
      else fail invalid_request (label t <> (" plugin not registered: " <> name))

  -- `replace_tool`, `replace_prompt` and `replace_resource`
  unfoldable pub replace :
      (t : PluginType) → (name : String) → A t → PluginRegistry → Fallible PluginRegistry
  unfolding check_name_for_replace set_plugins emit_type_event
  replace t name plugin r = do
    checked ← check_name_for_replace t name (Map.contains_key name (r.plugins t)) r
    ok (
        emit_type_event t
          (record r { plugins = set_plugins t (Map.insert name plugin (r.plugins t)) r.plugins }))

  abbrev pub typed_ref : (t : PluginType) → Option (A t) → Option PluginRef
  typed_ref t none = none
  typed_ref t (some plugin) = some (plugin_ref t plugin)

  abbrev named_type : {V : Type 0} → PluginType → Map String V → List (String × PluginType)
  named_type t m = map (λ e. (e.0, t)) m

  -- the registry as a `PluginLookup`
  unfoldable pub lookup_of : PluginRegistry → PluginLookup
  lookup_of r = record {
    get_plugin = λ t name. typed_ref t (Map.get name (r.plugins t));
    names =
        named_type tool (r.plugins tool)
        ++ (named_type auth (r.plugins auth)
            ++ (named_type http_router (r.plugins http_router)
                ++ (named_type completion (r.plugins completion)
                    ++ (named_type prompt (r.plugins prompt)
                        ++ named_type resource (r.plugins resource)))));
  }

  -- the plugin of a reference, if that has the type
  unfoldable pub of_type : (t : PluginType) → PluginRef → Option (A t)
  of_type tool (plugin_ref tool p) = some p
  of_type auth (plugin_ref auth p) = some p
  of_type http_router (plugin_ref http_router p) = some p
  of_type completion (plugin_ref completion p) = some p
  of_type prompt (plugin_ref prompt p) = some p
  of_type resource (plugin_ref resource p) = some p
  of_type t r = none

  abbrev pub checked_type : (t : PluginType) → String → PluginRef → Fallible (A t)
  checked_type t name r = elim (of_type t r) [
    | some p ↦ ok p
    | none ↦
        fail invalid_request ("plugin type mismatch for " <> (label t <> (" plugin: " <> name)))
  ]

  -- `lookup_tool_plugin`, `lookup_prompt_plugin`, `lookup_resource_plugin` and
  -- `lookup_completion_plugin`, by the type
  unfoldable pub lookup_plugin : (t : PluginType) → PluginLookup → (name : String) → Fallible (A t)
  unfolding of_type
  lookup_plugin t plugins name = elim (plugins.get_plugin t name) [
    | none ↦ fail invalid_request (label t <> (" plugin not registered: " <> name))
    | some r ↦ checked_type t name r
  ]

  unfoldable pub validate_allowlist_registered :
      PluginLookup → (allowlist : List String) → PluginType → Fallible Unit
  validate_allowlist_registered plugins [] t = ok tt
  validate_allowlist_registered plugins (name ∷ allowlist) t = elim (plugins.get_plugin t name) [
    | none ↦ fail invalid_request (label t <> (" plugin not registered: " <> name))
    | some found ↦ validate_allowlist_registered plugins allowlist t
  ]

  -- the names that are registered and in no allowlist, one for each warning
  unfoldable pub registered_not_allowlisted :
      PluginLookup → (allowlist : List String) → PluginType → List String
  registered_not_allowlisted plugins allowlist t =
      map (λ e. e.0)
        (filter (λ e. type_index (e.1) == type_index t && not (any (◌==◌ (e.0)) allowlist))
          plugins.names)

-- the set of the names, as a list
unfoldable pub build_plugin_allowlist : List PluginConfig → PluginType → List String
build_plugin_allowlist plugins t =
    map (λ p. p.name) (filter (λ p. type_index p.plugin_type == type_index t) plugins)

-- `page_size` of a feature's pagination and the global one, where none is no pagination
unfoldable pub page_size : (usize_max : ℕ) → (feature global : Option ℕ) → Option ℕ
page_size usize_max feature global =
    and_then (or_else feature global)
      (λ size. if ltb 0 size && leb size usize_max then some size else none)
