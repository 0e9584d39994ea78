-- ===== src/Text/Sorted.antt =====
-- `BTreeSet<String>` and `BTreeMap<String, V>`, as the lists that they are iterated as.
use rust_mcp_core.Common.{
  All, Bool-cases, List, String, [], any, ap, arith, false≢true, if◌then◌else◌, inl, inr, nat_eq,
  refl, string_eq, subst, sym, true, ◌==◌, ◌∙◌, ◌∷◌, ◌≡◌, ◌≢◌,
}
use rust_mcp_core.Common.Map.{Map}
use rust_mcp_core.Text.Order.{before, before_asym, before_irrefl, before_total, before_trans}

-- `BTreeSet::insert`, which keeps an equal element
unfoldable pub set_insert : String → List String → List String
set_insert x [] = x ∷ []
set_insert x (y ∷ l) =
    let rest = set_insert x l in
    if before x y then x ∷ y ∷ l else if before y x then y ∷ rest else y ∷ l

-- `BTreeSet::extend`
unfoldable pub set_extend : List String → List String → List String
unfolding set_insert
set_extend s [] = s
set_extend s (x ∷ l) = set_extend (set_insert x s) l

-- `BTreeMap::insert` and `entry(k).or_insert(v)`
module _ {V : Type 0} where
  unfoldable pub map_insert : String → V → Map String V → Map String V
  map_insert k v [] = (k, v) ∷ []
  map_insert k v ((j, w) ∷ m) =
      let rest = map_insert k v m in
      if before k j then (k, v) ∷ (j, w) ∷ m else if before j k then (j, w) ∷ rest else (k, v) ∷ m

  unfoldable pub map_or_insert : String → V → Map String V → Map String V
  map_or_insert k v [] = (k, v) ∷ []
  map_or_insert k v ((j, w) ∷ m) =
      let rest = map_or_insert k v m in
      if before k j then (k, v) ∷ (j, w) ∷ m else if before j k then (j, w) ∷ rest else (j, w) ∷ m

  unfoldable pub map_extend : Map String V → Map String V → Map String V
  unfolding map_insert
  map_extend m [] = m
  map_extend m ((k, v) ∷ l) = map_extend (map_insert k v m) l

pub set_insert_comm :
    (x y : String) (l : List String) → set_insert x (set_insert y l) ≡ set_insert y (set_insert x l)
unfolding set_insert
set_insert_comm x y [] = ground (arith, before_asym x y, before_asym y x, before_total x y)
set_insert_comm x y (z ∷ l) = ground (
  arith,
  set_insert_comm x y l,
  before_asym x y,
  before_asym y x,
  before_total x y,
  before_asym x z,
  before_asym y z,
  before_asym z x,
  before_asym z y,
  before_total x z,
  before_total y z,
  before_trans x z y,
  before_trans y z x,
  before_trans x y z,
  before_trans y x z,
  before_trans z x y,
  before_trans z y x,
)

set_insert-again : (x : String) (l : List String) → set_insert x (set_insert x l) ≡ set_insert x l
unfolding set_insert
set_insert-again x [] = ground (arith, before_irrefl x)
set_insert-again x (z ∷ l) = ground (arith, set_insert-again x l, before_irrefl x, before_asym x z)

set_insert-extend :
    (x : String) (s l : List String) → set_insert x (set_extend s l) ≡ set_extend (set_insert x s) l
unfolding set_extend
set_insert-extend x s [] = refl
set_insert-extend x s (y ∷ l) =
    set_insert-extend x (set_insert y s) l ∙ ap (λ r. set_extend r l) (set_insert_comm x y s)

-- An element that is in the list already adds nothing.
set_insert-absorbed :
    (x : String) (s l : List String)
    → any (◌==◌ x) l ≡ true
    → set_extend (set_insert x s) l ≡ set_extend s l
unfolding set_extend
set_insert-absorbed x s [] m = absurd (false≢true m)
set_insert-absorbed x s (y ∷ l) m = elim (Bool-cases (x == y)) [
  | inl same ↦
      let e = (string_eq.agrees x y).0 same in
      subst
        (λ (z : String).
          set_extend (set_insert z (set_insert x s)) l ≡ set_extend (set_insert z s) l)
        e (ap (λ r. set_extend r l) (set_insert-again x s))
  | inr other ↦
      let m' : any (◌==◌ x) l ≡ true = rw other at m in
      ap (λ r. set_extend r l) (set_insert_comm y x s) ∙ set_insert-absorbed x (set_insert y s) l m'
]

abbrev pub Within : List String → List String → Type 0
Within l m = All (λ x. any (◌==◌ x) m ≡ true) l

extend-absorbed :
    (s l m : List String) → Within l m → set_extend (set_extend s l) m ≡ set_extend s m
unfolding set_extend
extend-absorbed s [] m h = refl
extend-absorbed s (x ∷ l) m h =
    extend-absorbed (set_insert x s) l m h.1 ∙ set_insert-absorbed x s m h.0

extend_comm : (s l m : List String) → set_extend (set_extend s l) m ≡ set_extend (set_extend s m) l
unfolding set_extend
extend_comm s [] m = refl
extend_comm s (x ∷ l) m =
    extend_comm (set_insert x s) l m ∙ ap (λ r. set_extend r l) (sym (set_insert-extend x s m))

-- Lists with the same elements, in whatever order and however often, make the same set.
pub extend-same : (l m : List String) → Within l m → Within m l → set_extend [] l ≡ set_extend [] m
extend-same l m h k = sym (extend-absorbed [] m l k) ∙ extend_comm [] m l ∙ extend-absorbed [] l m h

-- Entries of different keys may be inserted in either order.
pub map_insert_comm :
    {V : Type 0} (j k : String) (v w : V) (m : Map String V)
    → j ≢ k
    → map_insert j v (map_insert k w m) ≡ map_insert k w (map_insert j v m)
unfolding map_insert
map_insert_comm j k v w [] d = ground (arith, before_asym j k, before_asym k j, before_total j k)
map_insert_comm j k v w ((i, u) ∷ m) d = ground (
  arith,
  map_insert_comm j k v w m d,
  before_asym j k,
  before_asym k j,
  before_total j k,
  before_asym j i,
  before_asym k i,
  before_asym i j,
  before_asym i k,
  before_total j i,
  before_total k i,
  before_trans j i k,
  before_trans k i j,
  before_trans j k i,
  before_trans k j i,
  before_trans i j k,
  before_trans i k j,
)
