-- ===== src/SchemaCache/Transparent.antt =====
-- src/engine/schema_validator_cache.rs: the cache gives what the compiler gives.
use rust_mcp_core.Common.Map
use rust_mcp_core.Common.{
  Bool-cases, Eq, Option-cases, Result, Result-cases, String, ap, err, inl, inr, nat_eq, ok, refl,
  some, string_eq, sym, ◌==◌, ◌∙◌, ◌≡◌, ◌≢◌,
}
use rust_mcp_core.Common.Map.{Map}
use rust_mcp_core.Errors.{Fallible, McpError}
use rust_mcp_core.Json.{Object, Value, end, field, object, of_entries}
use rust_mcp_core.SchemaCache.{
  canonical_fields, canonical_schema_bytes, canonicalize_json, entry_or_insert, get_or_compile,
}
use rust_mcp_core.SchemaCache.Canonical.{SameValue, same_canonical}
use rust_mcp_core.Text.Sorted.{map_insert, map_insert_comm}

-- Two objects with the same fields in another order, with values that have the same canonical form.
pub data Reordered : Object → Object → Type 0 where
  ended : Reordered end end
  kept_field :
      {k : String} {v w : Value} {o p : Object}
      → canonicalize_json v ≡ canonicalize_json w
      → Reordered o p
      → Reordered (field k v o) (field k w p)
  swapped :
      {j k : String} {v w : Value} {o : Object}
      → j ≢ k
      → Reordered (field j v (field k w o)) (field k w (field j v o))
  in_turn : {o p q : Object} → Reordered o p → Reordered p q → Reordered o q

canonical_fields-Reordered :
    {o p : Object} → Reordered o p → canonical_fields o ≡ canonical_fields p
unfolding canonicalize_json
canonical_fields-Reordered ended = refl
canonical_fields-Reordered (kept_field {k} same rest) =
    λ i. map_insert k (same i) (canonical_fields-Reordered rest i)
canonical_fields-Reordered (swapped {j} {k} {v} {w} {o} other) =
    map_insert_comm j k (canonicalize_json v) (canonicalize_json w) (canonical_fields o) other
canonical_fields-Reordered (in_turn r q) =
    canonical_fields-Reordered r ∙ canonical_fields-Reordered q

-- Schemas that differ in the order of their fields have the same canonical form.
pub canonicalize-Reordered :
    {o p : Object} → Reordered o p → canonicalize_json (object o) ≡ canonicalize_json (object p)
unfolding canonicalize_json
canonicalize-Reordered r = ap (λ m. object (of_entries m)) (canonical_fields-Reordered r)

module _ {Bytes V : Type 0} ⦃e : Eq Bytes⦄ (to_vec : Value → Result String Bytes)
    (validator_for : Value → Result String V) where
  -- Every entry of a cache is what the compiler gives for every schema with its key.
  abbrev pub IsSound : Map Bytes V → Type 0
  IsSound validators =
      (schema : Value) (key : Bytes) (v : V)
      → canonical_schema_bytes to_vec validator_for schema ≡ ok key
      → Map.get key validators ≡ some v
      → validator_for schema ≡ ok v

  -- What is asked of the compiler: the order of the fields of a schema is nothing to it.
  abbrev pub IgnoresOrder : Type 0
  IgnoresOrder = (v w : Value) → SameValue v w → validator_for v ≡ validator_for w

  -- What is asked of the printer: different values have different bytes.
  abbrev pub PrintsApart : Type 0
  PrintsApart = (v w : Value) (key : Bytes) → to_vec v ≡ ok key → to_vec w ≡ ok key → v ≡ w

  -- Schemas with one key are compiled alike.
  abbrev SeesCanonical : Type 0
  SeesCanonical =
      (schema other : Value) (key : Bytes)
      → canonical_schema_bytes to_vec validator_for schema ≡ ok key
      → canonical_schema_bytes to_vec validator_for other ≡ ok key
      → validator_for schema ≡ validator_for other

  sees_canonical : PrintsApart → IgnoresOrder → SeesCanonical
  unfolding canonical_schema_bytes
  sees_canonical apart ignores schema other key p q =
      ignores schema other (same_canonical schema other (apart _ _ key p q))

  -- the answer without a cache
  abbrev pub compiled : (String → McpError) → Value → Fallible V
  compiled invalid_schema schema = elim (canonical_schema_bytes to_vec validator_for schema) [
    | err error ↦ err (invalid_schema error)
    | ok key ↦ elim (validator_for schema) [ err error ↦ err (invalid_schema error) | ok v ↦ ok v ]
  ]

  insert-IsSound :
      (schema : Value) (key : Bytes) (v : V) (validators : Map Bytes V)
      → SeesCanonical
      → canonical_schema_bytes to_vec validator_for schema ≡ ok key
      → validator_for schema ≡ ok v
      → IsSound validators
      → IsSound (Map.insert key v validators)
  insert-IsSound schema key v validators sees bytes compiles sound other j u is_j found =
      elim (Bool-cases (key == j)) [
        | inl same ↦
            let s : key ≡ j = (e.agrees key j).0 same in
            let got : some v ≡ some u =
              rw same at (sym (Map.get-insert key j v validators) ∙ found) in
            sees other schema key (is_j ∙ ap ok (sym s)) bytes ∙ compiles ∙ ap ok (cc got)
        | inr differs ↦
            sound other j u is_j (rw differs at (sym (Map.get-insert key j v validators) ∙ found))
      ]

  entry_or_insert-IsSound :
      (schema : Value) (key : Bytes) (v : V) (validators : Map Bytes V)
      → SeesCanonical
      → canonical_schema_bytes to_vec validator_for schema ≡ ok key
      → validator_for schema ≡ ok v
      → IsSound validators
      → IsSound ((entry_or_insert to_vec validator_for key v validators).0)
        × ((entry_or_insert to_vec validator_for key v validators).1 ≡ v)
  unfolding entry_or_insert
  entry_or_insert-IsSound schema key v validators sees bytes compiles sound =
      elim (Option-cases (Map.get key validators)) [
        | inl absent ↦
            rw (absent, entry_or_insert)
              (insert-IsSound schema key v validators sees bytes compiles sound, refl)
        | inr (cached, found) ↦
            let same : ok cached ≡ ok v = sym (sound schema key cached bytes found) ∙ compiles in
            rw (found, entry_or_insert) (sound, cc same)
      ]

  -- Where the order of fields is nothing to the compiler, different values are printed as different
  -- bytes, and the other threads keep the cache sound, a call keeps it sound, and answers what the
  -- compiler answers without a cache: the key of a schema loses nothing but the order of fields.
  pub cache_is_transparent :
      (others : Map Bytes V → Map Bytes V) (invalid_schema : String → McpError) (schema : Value)
      (validators : Map Bytes V)
      → PrintsApart
      → IgnoresOrder
      → ((m : Map Bytes V) → IsSound m → IsSound (others m))
      → IsSound validators
      → IsSound ((get_or_compile to_vec validator_for others invalid_schema schema validators).0)
        × ((get_or_compile to_vec validator_for others invalid_schema schema validators).1
            ≡ compiled invalid_schema schema)
  unfolding get_or_compile
  cache_is_transparent others invalid_schema schema validators apart ignores keep sound =
      elim (Result-cases (canonical_schema_bytes to_vec validator_for schema)) [
        | inr (error, q) ↦ rw (q, get_or_compile, compiled) (sound, refl)
        | inl (key, q) ↦ elim (Option-cases (Map.get key validators)) [
          | inr (cached, found) ↦
              rw (q, found, sound schema key cached q found, get_or_compile, compiled) (sound, refl)
          | inl absent ↦ elim (Result-cases (validator_for schema)) [
            | inr (error, c) ↦
                rw (q, absent, c, get_or_compile, compiled) (keep validators sound, refl)
            | inl (v, c) ↦
                let (sound', same) =
                  entry_or_insert-IsSound schema key v (others validators)
                    (sees_canonical apart ignores) q c (keep validators sound) in
                rw (q, absent, c, get_or_compile, compiled) (sound', ap ok same)
          ]
        ]
      ]
