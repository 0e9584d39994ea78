-- ===== src/ValueHelpers/Laws.antt =====
-- src/engine/value_helpers.rs: what is in the objects that it makes.
use rust_mcp_core.Common.Map
use rust_mcp_core.Common.{
  Bool, Bool-cases, Option, Option-cases, String, [], ap, arith, false, if◌then◌else◌, inl, inr,
  nat_eq, none, or_else, refl, some, string_eq, subst, sym, true, unwrap_or, ◌==◌, ◌∙◌, ◌∷◌, ◌≡◌,
}
use rust_mcp_core.Common.Map.{Map}
use rust_mcp_core.Json.{Object, Value, delete, end, entries, field, has_key, lookup, put}
use rust_mcp_core.Json.Laws.{lookup-delete, lookup-put}
use rust_mcp_core.ValueHelpers.{insert_all, or_insert, rename_field}

is_some : {A : Type 0} → Option A → Bool
is_some none = false
is_some (some a) = true

contains_key-get :
    (k : String) (m : Map String Value) → Map.contains_key k m ≡ is_some (Map.get k m)
unfolding Map.contains_key Map.get is_some
contains_key-get k [] = refl
contains_key-get k ((j, v) ∷ m) = ground (arith, contains_key-get k m)

lookup_same : (k j : String) (o : Object) → (k == j) ≡ true → lookup j o ≡ lookup k o
lookup_same k j o h = ap (λ (i : String). lookup i o) (sym ((string_eq.agrees k j).0 h))

lookup-or_insert :
    (k j : String) (v : Value) (o : Object)
    → lookup j (or_insert k v o) ≡ (if k == j then some (unwrap_or v (lookup k o)) else lookup j o)
unfolding or_insert
lookup-or_insert k j v o = elim (Option-cases (lookup k o)) [
  | inl absent ↦
      let fresh : has_key k o ≡ false =
        unfold has_key lookup is_some in contains_key-get k (entries o) ∙ ap is_some absent in
      rw (fresh, absent) (lookup-put k j v o)
  | inr (x, there) ↦
      let used : has_key k o ≡ true =
        unfold has_key lookup is_some in contains_key-get k (entries o) ∙ ap is_some there in
      elim (Bool-cases (k == j)) [
        | inl same ↦ rw (used, same, there) (lookup_same k j o same ∙ there)
        | inr other ↦ rw (used, other) refl
      ]
]

or_else-none : {A : Type 0} (o : Option A) → or_else o none ≡ o
or_else-none none = refl
or_else-none (some a) = refl

or_else-some : {A : Type 0} (o : Option A) (a : A) → or_else o (some a) ≡ some (unwrap_or a o)
or_else-some none a = refl
or_else-some (some b) a = refl

-- A field under its old name is found under the new one, if that is not there already, and no longer
-- under the old one; every other field stays. This is for two different names.
pub lookup-rename_field :
    (old new k : String) (o : Object)
    → (old == new) ≡ false
    → lookup k (rename_field old new o) ≡ (
        if old == k
        then none
        else if new == k
        then or_else (lookup new o) (lookup old o)
        else lookup k o)
unfolding rename_field
lookup-rename_field old new k o h = elim (Option-cases (lookup old o)) [
  | inl absent ↦ elim (Bool-cases (old == k)) [
    | inl same ↦ rw (absent, same, rename_field) (lookup_same old k o same ∙ absent)
    | inr other ↦ elim (Bool-cases (new == k)) [
      | inl here ↦
          rw (absent, other, here, rename_field) (lookup_same new k o here ∙ sym (or_else-none _))
      | inr there ↦ rw (absent, other, there, rename_field) refl
    ]
  ]
  | inr (v, found) ↦
      let moved = lookup-or_insert new k v (delete old o) in
      elim (Bool-cases (new == k)) [
        | inl here ↦
            let other : (old == k) ≡ false =
              subst (λ (i : String). (old == i) ≡ false) ((string_eq.agrees new k).0 here) h in
            rw (found, other, here, rename_field, or_else-some (lookup new o) v)
              (moved ∙ rw (here, lookup-delete old new o, h) refl)
        | inr there ↦
            rw (found, there, rename_field) (moved ∙ rw (there, lookup-delete old k o) refl)
      ]
]

lookup-field :
    (k j : String) (v : Value) (o : Object)
    → lookup k (field j v o) ≡ (if j == k then some v else lookup k o)
unfolding lookup Map.get
lookup-field k j v o = refl

-- A field of the merged configuration is the one of the overrides, and where they have none the one of
-- the base. The keys of the overrides are distinct.
pub lookup-insert_all :
    (k : String) (base overrides : Object)
    → Map.IsUnique (entries overrides)
    → lookup k (insert_all base overrides) ≡ or_else (lookup k overrides) (lookup k base)
unfolding insert_all
lookup-insert_all k base end u = unfold lookup Map.get in refl
lookup-insert_all k base (field j v o) u =
    lookup-insert_all k (put j v base) o (u.1)
    ∙ rw (lookup-put j k v base, lookup-field k j v o)
        (elim (Bool-cases (j == k)) [
          | inl same ↦
              let absent : lookup k o ≡ none =
                lookup_same j k o same ∙ unfold lookup in Map.get-IsAbsent j (entries o) (u.0) in
              rw (same, absent) refl
          | inr other ↦ rw other refl
        ])
