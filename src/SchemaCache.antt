-- ===== src/SchemaCache.antt =====
-- src/engine/schema_validator_cache.rs: the cache of compiled schemas. The compiler of schemas and the
-- printer of JSON are parameters, with `V` the validators.
pub mod Canonical
pub mod Transparent
mod Tests
use rust_mcp_core.Common.Map
use rust_mcp_core.Common.{Eq, Result, String, [], err, nat_eq, none, ok, some, string_eq}
use rust_mcp_core.Common.Map.{Map}
use rust_mcp_core.Errors.{Fallible, McpError}
use rust_mcp_core.Json.{
  Object, Value, Values, array, bool, cons, end, field, nil, null, number, object, of_entries,
  string,
}
use rust_mcp_core.Text.Sorted.{map_insert}

-- The fields of an object in the order of their keys, which are distinct; its values are made
-- canonical before the sorting, which does not look at them.

unfoldable mutual
  unfolding map_insert

  pub canonicalize_json : Value → Value
  canonicalize_json (object o) = object (of_entries (canonical_fields o))
  canonicalize_json (array values) = array (canonical_items values)
  canonicalize_json null = null
  canonicalize_json (bool b) = bool b
  canonicalize_json (number n) = number n
  canonicalize_json (string s) = string s

  pub canonical_items : Values → Values
  canonical_items nil = nil
  canonical_items (cons v vs) = cons (canonicalize_json v) (canonical_items vs)

  pub canonical_fields : Object → Map String Value
  canonical_fields end = []
  canonical_fields (field k v o) = map_insert k (canonicalize_json v) (canonical_fields o)

module _ {Bytes V : Type 0} ⦃e : Eq Bytes⦄ (to_vec : Value → Result String Bytes)
    (validator_for : Value → Result String V) where
  unfoldable pub canonical_schema_bytes : Value → Result String Bytes
  unfolding canonicalize_json
  canonical_schema_bytes schema = to_vec (canonicalize_json schema)

  -- the second part of `get_or_compile`: the entry of the key, or else the new one
  unfoldable pub entry_or_insert : Bytes → V → Map Bytes V → Map Bytes V × V
  entry_or_insert key compiled validators = elim (Map.get key validators) [
    | some cached ↦ (validators, cached)
    | none ↦ (Map.insert key compiled validators, compiled)
  ]

  -- `get_or_compile`, with what other threads do to the cache between its two locks
  unfoldable pub get_or_compile :
      (others : Map Bytes V → Map Bytes V)
      → (invalid_schema : String → McpError) → Value
      → Map Bytes V
      → Map Bytes V × Fallible V
  unfolding canonical_schema_bytes entry_or_insert
  get_or_compile others invalid_schema schema validators = elim (canonical_schema_bytes schema) [
    | err error ↦ (validators, err (invalid_schema error))
    | ok key ↦ elim (Map.get key validators) [
      | some cached ↦ (validators, ok cached)
      | none ↦ elim (validator_for schema) [
        | err error ↦ (others validators, err (invalid_schema error))
        | ok compiled ↦
            let stored = entry_or_insert key compiled (others validators) in
            (stored.0, ok (stored.1))
      ]
    ]
  ]
