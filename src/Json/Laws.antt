-- ===== src/Json/Laws.antt =====
-- A JSON object behaves as a map.
use rust_mcp_core.Common.Map
use rust_mcp_core.Common.{
  String, [], ap, eq_refl, if◌then◌else◌, nat_eq, none, refl, some, string_eq, ◌==◌, ◌∷◌, ◌≡◌,
}
use rust_mcp_core.Common.Map.{Map}
use rust_mcp_core.Json.{Object, Value, delete, entries, lookup, of_entries, put}

pub entries-of_entries : (m : Map String Value) → entries (of_entries m) ≡ m
entries-of_entries [] = refl
entries-of_entries (e ∷ m) = ap (◌∷◌ e) (entries-of_entries m)

pub lookup-put :
    (k j : String) (v : Value) (o : Object)
    → lookup j (put k v o) ≡ (if k == j then some v else lookup j o)
unfolding lookup put
lookup-put k j v o = rw (entries-of_entries _) (Map.get-insert k j v (entries o))

pub lookup-delete :
    (k j : String) (o : Object) → lookup j (delete k o) ≡ (if k == j then none else lookup j o)
unfolding lookup delete
lookup-delete k j o = rw (entries-of_entries _) (Map.get-remove k j (entries o))

pub lookup-put_self : (k : String) (v : Value) (o : Object) → lookup k (put k v o) ≡ some v
lookup-put_self k v o = rw (lookup-put k k v o, eq_refl k)
