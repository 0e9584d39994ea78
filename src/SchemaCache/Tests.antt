-- ===== src/SchemaCache/Tests.antt =====
-- A cache of schemas (src/engine/schema_validator_cache.rs), with the keys of an object of nulls as its
-- bytes.
use rust_mcp_core.Common.Map
use rust_mcp_core.Common.{
  Bool, Bool-cases, List, Result, Result-cases, String, [], ap, err, false, if◌then◌else◌, inl, inr,
  nat_eq, ok, refl, string_eq, sym, true, ◌∙◌, ◌∷◌, ◌≡◌,
}
use rust_mcp_core.Common.Equality.{list_eq, option_eq, pair_eq}
use rust_mcp_core.Common.Map.{Map}
use rust_mcp_core.Errors.{bad_params}
use rust_mcp_core.Json.{Object, Value, array, bool, end, field, null, number, object, string}
use rust_mcp_core.SchemaCache.{
  canonical_schema_bytes, canonicalize_json, entry_or_insert, get_or_compile,
}
use rust_mcp_core.SchemaCache.Canonical.{SameValue, equal, joined, same_array, same_object, turned}
use rust_mcp_core.SchemaCache.Transparent.{IsSound, cache_is_transparent, compiled}
use rust_mcp_core.Text.Order.{before}
use rust_mcp_core.Text.Sorted.{map_insert}

abbrev Keys : Type 0
Keys = List String

abbrev is_null : Value → Bool
is_null null = true
is_null _ = false

is_null-null : (v : Value) → is_null v ≡ true → v ≡ null
is_null-null null h = refl
is_null-null (bool b) h = absurd (cc h)
is_null-null (number n) h = absurd (cc h)
is_null-null (string s) h = absurd (cc h)
is_null-null (array l) h = absurd (cc h)
is_null-null (object o) h = absurd (cc h)

abbrev with_key : String → Result String Keys → Result String Keys
with_key k (ok l) = ok (k ∷ l)
with_key k (err e) = err e

unfoldable keys_of : Object → Result String Keys
keys_of end = ok []
keys_of (field k v o) = let rest = keys_of o in if is_null v then with_key k rest else err "no null"

abbrev nulls : Keys → Object
nulls [] = end
nulls (k ∷ l) = field k null (nulls l)

keys_of-nulls : (o : Object) (l : Keys) → keys_of o ≡ ok l → o ≡ nulls l
unfolding keys_of
keys_of-nulls end [] h = refl
keys_of-nulls end (k ∷ l) h = absurd (cc h)
keys_of-nulls (field k v o) l h = elim (Bool-cases (is_null v)) [
  | inr other ↦ absurd (cc (rw other at h))
  | inl same ↦ elim (Result-cases (keys_of o)) [
    | inr (e, wrong) ↦ absurd (cc (rw (same, wrong) at h))
    | inl (rest, right) ↦
        let made : ok (k ∷ rest) ≡ ok l = rw (same, right) at h in
        let is : k ∷ rest ≡ l = cc made in
        (λ i. field k (is_null-null v same i) (keys_of-nulls o rest right i)) ∙ ap nulls is
  ]
]

abbrev to_keys : Value → Result String Keys
to_keys (object o) = keys_of o
to_keys _ = err "no object"

to_keys-object : (v : Value) (l : Keys) → to_keys v ≡ ok l → v ≡ object (nulls l)
to_keys-object (object o) l h = ap object (keys_of-nulls o l h)
to_keys-object null l h = absurd (cc h)
to_keys-object (bool b) l h = absurd (cc h)
to_keys-object (number n) l h = absurd (cc h)
to_keys-object (string s) l h = absurd (cc h)
to_keys-object (array vs) l h = absurd (cc h)

-- a compiler that tells objects from arrays
abbrev kind : Value → Result String String
kind (object o) = ok "object"
kind (array vs) = ok "array"
kind _ = err "no schema"

kind-SameValue : (v w : Value) → SameValue v w → kind v ≡ kind w
kind-SameValue v w (equal q) = ap kind q
kind-SameValue v w (same_array s) = refl
kind-SameValue v w (same_object s) = refl
kind-SameValue v w (turned s) = sym (kind-SameValue w v s)
kind-SameValue v w (joined {v = u} s t) = kind-SameValue v u s ∙ kind-SameValue u w t

abbrev unsorted : Value
unsorted = object (field "b" null (field "a" null end))

abbrev same_cache : Map Keys String → Map Keys String
same_cache m = m

cache_is_transparent_example :
    IsSound to_keys kind ((get_or_compile to_keys kind same_cache bad_params unsorted []).0)
    × ((get_or_compile to_keys kind same_cache bad_params unsorted []).1
        ≡ compiled to_keys kind bad_params unsorted)
unfolding Map.get
cache_is_transparent_example =
    cache_is_transparent to_keys kind same_cache bad_params unsorted []
      (λ v w key p q. to_keys-object v key p ∙ sym (to_keys-object w key q)) kind-SameValue
      (λ m sound. sound) (λ schema key v p q. absurd (cc q))

sorted_key : canonical_schema_bytes to_keys kind unsorted ≡ ok ("a" ∷ "b" ∷ [])
unfolding canonical_schema_bytes canonicalize_json map_insert before keys_of
sorted_key = refl

answered : (get_or_compile to_keys kind same_cache bad_params unsorted []).1 ≡ ok "object"
unfolding get_or_compile canonical_schema_bytes canonicalize_json map_insert before entry_or_insert
    Map.get keys_of
answered = refl
