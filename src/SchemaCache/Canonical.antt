-- ===== src/SchemaCache/Canonical.antt =====
-- src/engine/schema_validator_cache.rs: what the canonical form of a schema keeps of it.
use rust_mcp_core.Common.{
  Bool-cases, String, [], false≢true, inl, inr, nat_eq, refl, string_eq, subst, sym, true, ◌∙◌, ◌∷◌,
  ◌≡◌, ◌≢◌,
}
use rust_mcp_core.Common.Map.{Map}
use rust_mcp_core.Json.{
  Object, Value, Values, array, bool, cons, end, field, nil, null, number, object, of_entries,
  string,
}
use rust_mcp_core.SchemaCache.{canonical_fields, canonical_items, canonicalize_json}
use rust_mcp_core.Text.Order.{before, before_irrefl, before_total}
use rust_mcp_core.Text.Sorted.{map_insert}

-- Values that differ in nothing but the order of fields, at whatever depth. A field behind one with
-- the same key, which a map of the library never has, does not count.
mutual
  pub data SameValue : Value → Value → Type 0 where
    equal : {v w : Value} → v ≡ w → SameValue v w
    same_array : {vs ws : Values} → SameItems vs ws → SameValue (array vs) (array ws)
    same_object : {o p : Object} → SameFields o p → SameValue (object o) (object p)
    turned : {v w : Value} → SameValue v w → SameValue w v
    joined : {u v w : Value} → SameValue u v → SameValue v w → SameValue u w

  pub data SameItems : Values → Values → Type 0 where
    both_nil : SameItems nil nil
    both_cons :
        {v w : Value} {vs ws : Values}
        → SameValue v w
        → SameItems vs ws
        → SameItems (cons v vs) (cons w ws)

  pub data SameFields : Object → Object → Type 0 where
    both_end : SameFields end end
    both_field :
        {k : String} {v w : Value} {o p : Object}
        → SameValue v w
        → SameFields o p
        → SameFields (field k v o) (field k w p)
    exchanged :
        {j k : String} {v w : Value} {o : Object}
        → j ≢ k
        → SameFields (field j v (field k w o)) (field k w (field j v o))
    shadowed :
        {k : String} {v w : Value} {o : Object} → SameFields (field k v (field k w o)) (field k v o)
    after : {o p q : Object} → SameFields o p → SameFields p q → SameFields o q

fields_same : (o : Object) → SameFields o o
fields_same end = both_end
fields_same (field k v o) = both_field (equal refl) (fields_same o)

insert-SameFields :
    (k : String) (v : Value) (m : Map String Value)
    → SameFields (field k v (of_entries m)) (of_entries (map_insert k v m))
unfolding map_insert
insert-SameFields k v [] = fields_same (field k v end)
insert-SameFields k v ((j, w) ∷ m) = elim (Bool-cases (before k j)) [
  | inl first ↦ rw first (fields_same (field k v (field j w (of_entries m))))
  | inr later ↦ elim (Bool-cases (before j k)) [
    | inl second ↦
        let distinct : k ≢ j =
          λ q. false≢true (sym (before_irrefl j) ∙ subst (λ x. before j x ≡ true) q second) in
        rw (later, second)
          (after (exchanged distinct) (both_field (equal refl) (insert-SameFields k v m)))
    | inr neither ↦
        rw (later, neither)
          (subst (λ x. SameFields (field k v (field x w (of_entries m))) (field k v (of_entries m)))
            (before_total k j later neither) shadowed)
  ]
]

mutual
  unfolding canonicalize_json

  canonicalize-SameValue : (v : Value) → SameValue v (canonicalize_json v)
  canonicalize-SameValue (object o) = same_object (canonical-SameFields o)
  canonicalize-SameValue (array vs) = same_array (canonical-SameItems vs)
  canonicalize-SameValue null = equal refl
  canonicalize-SameValue (bool b) = equal refl
  canonicalize-SameValue (number n) = equal refl
  canonicalize-SameValue (string s) = equal refl

  canonical-SameItems : (vs : Values) → SameItems vs (canonical_items vs)
  canonical-SameItems nil = both_nil
  canonical-SameItems (cons v vs) = both_cons (canonicalize-SameValue v) (canonical-SameItems vs)

  canonical-SameFields : (o : Object) → SameFields o (of_entries (canonical_fields o))
  canonical-SameFields end = both_end
  canonical-SameFields (field k v o) =
      after (both_field (canonicalize-SameValue v) (canonical-SameFields o))
        (insert-SameFields k (canonicalize_json v) (canonical_fields o))

-- Values with one canonical form differ in nothing but the order of fields.
pub same_canonical : (v w : Value) → canonicalize_json v ≡ canonicalize_json w → SameValue v w
same_canonical v w q =
    joined (canonicalize-SameValue v) (joined (equal q) (turned (canonicalize-SameValue w)))
