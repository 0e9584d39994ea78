-- ===== src/ValueHelpers.antt =====
-- src/engine/value_helpers.rs: taking fields out of a JSON object, the two spellings of a field, and
-- the configuration of a plugin. A function that removes a field returns what is left of the object.
--
-- `Wire` has what the libraries give: the types that serde makes of a value, or its error's text, and
-- the text of a value.
pub mod Laws
mod Tests
use rust_mcp_core.Common.{
  Bool, List, Option, Result, String, [], and_then, err, find, if◌then◌else◌, nat_eq, none, ok,
  some, string_eq, ℕ, ◌&&◌, ◌<>◌, ◌==◌, ◌>>=◌, ◌>>◌, ◌∷◌,
}
use rust_mcp_core.Errors.{Fallible, bad_params, invalid_request, mcp_error}
use rust_mcp_core.Json.{
  Object, Value, Values, array, as_str, cons, delete, end, field, has_key, lookup, nil, null,
  object, put, string,
}

pub record Wire : Type 1 where
  pub Meta : Type 0
  pub Icons : Type 0
  pub Annotations : Type 0
  pub as_meta : Value → Result String Meta
  pub as_icons : Value → Result String Icons
  pub as_annotations : Value → Result String Annotations
  pub to_string : Value → String

unfoldable pub remove_optional_string : List String → Object → Option String × Object
remove_optional_string [] o = (none, o)
remove_optional_string (k ∷ ks) o = elim (lookup k o) [
  | none ↦ remove_optional_string ks o
  | some v ↦ (as_str v, delete k o)
]

unfoldable pub remove_required_string : List String → String → Object → Fallible (String × Object)
unfolding remove_optional_string
remove_required_string ks message o =
    let (found, rest) = remove_optional_string ks o in
    elim found [ none ↦ err (bad_params message) | some s ↦ ok (s, rest) ]

-- `entry(key).or_insert(value)`
unfoldable pub or_insert : String → Value → Object → Object
or_insert k v o = if has_key k o then o else put k v o

-- a field under its other name, which stays as it is if both are there
unfoldable pub rename_field : (old new : String) → Object → Object
unfolding or_insert
rename_field old new o = elim (lookup old o) [ none ↦ o | some v ↦ or_insert new v (delete old o) ]

unfoldable pub normalize_icons : Values → Fallible Values
unfolding rename_field
normalize_icons nil = ok nil
normalize_icons (cons (object o) vs) = do
  rest ← normalize_icons vs
  ok (cons (object (rename_field "mime_type" "mimeType" o)) rest)
normalize_icons (cons _ vs) = err (bad_params "icon entries must be objects")

unfoldable pub normalize_icons_value : Value → Fallible Value
unfolding normalize_icons
normalize_icons_value (array vs) = do icons ← normalize_icons vs; ok (array icons)
normalize_icons_value _ = err (bad_params "icons must be an array")

unfoldable pub normalize_annotations_value : Value → Fallible Value
unfolding rename_field
normalize_annotations_value (object o) = ok (object (rename_field "last_modified" "lastModified" o))
normalize_annotations_value _ = err (bad_params "annotations must be an object")

-- `map_err(|error| McpError::invalid_params(format!("{error_message}: {error}"), None))`
abbrev pub or_bad_params : {A : Type 0} → String → Result String A → Fallible A
or_bad_params message (ok a) = ok a
or_bad_params message (err e) = err (bad_params (message <> (": " <> e)))

-- `object.remove(key)` with a fallible reading of the value
abbrev pub removed_as :
    {A : Type 0} → (Value → Fallible A) → String → Object → Fallible (Option A × Object)
removed_as read key o = elim (lookup key o) [
  | none ↦ ok (none, o)
  | some v ↦ do a ← read v; ok (some a, delete key o)
]

module _ (w : Wire) where
  unfoldable pub remove_required_text : List String → String → Object → Fallible (String × Object)
  remove_required_text [] message o = err (bad_params message)
  remove_required_text (k ∷ ks) message o = elim (lookup k o) [
    | none ↦ remove_required_text ks message o
    | some (string s) ↦ ok (s, delete k o)
    | some v ↦ ok (w.to_string v, delete k o)
  ]

  unfoldable pub remove_optional_meta : String → String → Object → Fallible (Option w.Meta × Object)
  remove_optional_meta key message o = removed_as (λ v. or_bad_params message (w.as_meta v)) key o

  unfoldable pub remove_optional_icons :
      String → String → Object → Fallible (Option w.Icons × Object)
  unfolding normalize_icons_value
  remove_optional_icons key message o =
      removed_as (λ v. normalize_icons_value v >>= λ n. or_bad_params message (w.as_icons n)) key o

  unfoldable pub remove_optional_annotations :
      String → String → Object → Fallible (Option w.Annotations × Object)
  unfolding normalize_annotations_value
  remove_optional_annotations key message o =
      removed_as
        (λ v. normalize_annotations_value v >>= λ n. or_bad_params message (w.as_annotations n)) key
        o

unfoldable pub value_to_object : Value → String → Fallible Object
value_to_object (object o) label = ok o
value_to_object _ label = err (mcp_error invalid_request (label <> " must be an object"))

pub data PluginType : Type 0 where
  tool auth http_router prompt resource completion : PluginType

pub record PluginConfig : Type 0 where
  pub name : String
  pub plugin_type : PluginType
  pub config : Option Value

abbrev pub type_index : PluginType → ℕ
type_index tool = 0
type_index auth = 1
type_index http_router = 2
type_index prompt = 3
type_index resource = 4
type_index completion = 5

-- the overrides inserted into the base, in their order
unfoldable pub insert_all : Object → Object → Object
insert_all base end = base
insert_all base (field k v o) = insert_all (put k v base) o

abbrev is_plugin : PluginType → String → PluginConfig → Bool
is_plugin t name p = p.name == name && type_index p.plugin_type == type_index t

-- the two configurations that are given, as one
unfoldable pub merged : Option Value → Option Value → Value
unfolding insert_all
merged (some (object base)) (some (object overrides)) = object (insert_all base overrides)
merged _ (some v) = v
merged (some v) none = v
merged none none = null

-- `merge_plugin_config`, of the list `config.plugins`
unfoldable pub merge_plugin_config : List PluginConfig → PluginType → String → Option Value → Value
unfolding merged
merge_plugin_config plugins t name given =
    merged (and_then (find (is_plugin t name) plugins) (λ p. p.config)) given
