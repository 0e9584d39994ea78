-- ===== src/Json.antt =====
-- JSON values (`serde_json::Value`, a data type of a library: the model takes its constructors, and
-- of a number what the program reads of it) and the accessors that the program calls. The text of a
-- value is made by the library, and is a parameter where it is used.
pub mod Laws
use rust_mcp_core.Common.Map
use mathlib.Core.Option
use rust_mcp_core.Common.{Bool, List, Option, String, [], nat_eq, none, some, string_eq, ℕ, ◌∷◌}
use rust_mcp_core.Common.Map.{Map}

-- `Value::as_u64` of a number, and its text.
pub record Number : Type 0 where
  pub as_u64 : Option ℕ
  pub literal : String

mutual
  pub data Value : Type 0 where
    null : Value
    bool : Bool → Value
    number : Number → Value
    string : String → Value
    array : Values → Value
    object : Object → Value

  pub data Values : Type 0 where
    nil : Values
    cons : Value → Values → Values

  -- `serde_json::Map`, in its order of iteration
  pub data Object : Type 0 where
    end : Object
    field : String → Value → Object → Object

abbrev pub elements : Values → List Value
elements nil = []
elements (cons v vs) = v ∷ elements vs

abbrev pub of_items : List Value → Values
of_items [] = nil
of_items (v ∷ vs) = cons v (of_items vs)

abbrev pub entries : Object → Map String Value
entries end = []
entries (field k v o) = (k, v) ∷ entries o

abbrev pub of_entries : Map String Value → Object
of_entries [] = end
of_entries ((k, v) ∷ m) = field k v (of_entries m)

-- `Map::get`, `Map::contains_key`, `Map::insert` and `Map::remove`
unfoldable pub lookup : String → Object → Option Value
lookup k o = Map.get k (entries o)

unfoldable pub has_key : String → Object → Bool
has_key k o = Map.contains_key k (entries o)

unfoldable pub put : String → Value → Object → Object
put k v o = of_entries (Map.insert k v (entries o))

unfoldable pub delete : String → Object → Object
delete k o = of_entries (Map.remove k (entries o))

-- `as_object`, `as_array`, `as_str`, `as_bool` and `as_u64`
abbrev pub as_object : Value → Option Object
as_object (object o) = some o
as_object _ = none

abbrev pub as_array : Value → Option Values
as_array (array vs) = some vs
as_array _ = none

abbrev pub as_str : Value → Option String
as_str (string s) = some s
as_str _ = none

abbrev pub as_bool : Value → Option Bool
as_bool (bool b) = some b
as_bool _ = none

abbrev pub as_u64 : Value → Option ℕ
as_u64 (number n) = n.as_u64
as_u64 _ = none

-- `Value::get(key)`: only an object has keys
unfoldable pub get : String → Value → Option Value
get k (object o) = lookup k o
get k _ = none

-- `filter_map(|value| value.as_str())`
unfoldable pub strings : Values → List String
strings nil = []
strings (cons (string s) vs) = s ∷ strings vs
strings (cons _ vs) = strings vs
