-- ===== src/Common/Map.antt =====
-- A `HashMap` as an association list, by the equality test of its keys. Where the program iterates
-- over a map, the model follows the order of the list, whatever it is.
use mathlib.Core.Path.{◌≡◌, refl, sym, ◌∙◌, subst, subst₂}
use mathlib.Core.Logic.{◌≢◌, inl, inr}
use mathlib.Core.Bool.{Bool, true, false, false≢true}
use mathlib.Core.Option.{Option, none, some}
use mathlib.Core.List.{List, [], ◌∷◌}
use native.Mathlib.Omega.{arith}
use rust_mcp_core.Common.{nat_eq, string_eq}
use rust_mcp_core.Common.Outcome.{is_some}
use rust_mcp_core.Common.Tests.{Bool-cases, Eq, if◌then◌else◌, ◌==◌}

abbrev pub Map {ℓ κ} : Type ℓ → Type κ → Type (ℓ ⊔ κ)
Map K V = List (K × V)

pub beq_refl {ℓ} : {K : Type ℓ} ⦃e : Eq K⦄ (k : K) → (k == k) ≡ true
beq_refl ⦃e⦄ k = (e.agrees k k).1 refl

module _ {ℓ κ} {K : Type ℓ} {V : Type κ} ⦃e : Eq K⦄ where
  unfoldable pub get : K → Map K V → Option V
  get k [] = none
  get k ((j, v) ∷ m) = let rest = get k m in if j == k then some v else rest

  unfoldable pub contains_key : K → Map K V → Bool
  contains_key k [] = false
  contains_key k ((j, v) ∷ m) = let rest = contains_key k m in if j == k then true else rest

  unfoldable pub insert : K → V → Map K V → Map K V
  insert k v [] = (k, v) ∷ []
  insert k v ((j, w) ∷ m) = let rest = insert k v m in if j == k then (k, v) ∷ m else (j, w) ∷ rest

  unfoldable pub remove : K → Map K V → Map K V
  remove k [] = []
  remove k ((j, v) ∷ m) = let rest = remove k m in if j == k then rest else (j, v) ∷ rest

  pub get-insert :
      (k j : K) (v : V) (m : Map K V) → get j (insert k v m) ≡ (if k == j then some v else get j m)
  unfolding get insert
  get-insert k j v [] = refl
  get-insert k j v ((i, w) ∷ m) =
      ground (arith, e.agrees k j, e.agrees i k, e.agrees i j, get-insert k j v m)

  pub get-remove : (k j : K) (m : Map K V) → get j (remove k m) ≡ (if k == j then none else get j m)
  unfolding get remove
  get-remove k j [] = ground arith
  get-remove k j ((i, w) ∷ m) =
      ground (arith, e.agrees k j, e.agrees i k, e.agrees i j, get-remove k j m)

  pub get-insert_self : (k : K) (v : V) (m : Map K V) → get k (insert k v m) ≡ some v
  get-insert_self k v m = rw (get-insert k k v m, beq_refl k)

  pub contains_key-get : (k : K) (m : Map K V) → contains_key k m ≡ is_some (get k m)
  unfolding contains_key get
  contains_key-get k [] = refl
  contains_key-get k ((j, v) ∷ m) = elim (Bool-cases (j == k)) [
    | inl same ↦ rw same
    | inr other ↦ rw other (contains_key-get k m)
  ]

-- `retain(|k, v| p(k, v))`
module _ {ℓ κ} {K : Type ℓ} {V : Type κ} where
  unfoldable pub retain : (K → V → Bool) → Map K V → Map K V
  retain p [] = []
  retain p ((k, v) ∷ m) = let rest = retain p m in if p k v then (k, v) ∷ rest else rest

  unfoldable pub values : Map K V → List V
  values [] = []
  values ((k, v) ∷ m) = v ∷ values m

  -- No entry of the list has the key `k`; no two entries have the same key.
  abbrev pub IsAbsent : K → Map K V → Type ℓ
  IsAbsent k [] = Unit
  IsAbsent k ((j, v) ∷ m) = (j ≢ k) × IsAbsent k m

  abbrev pub IsUnique : Map K V → Type ℓ
  IsUnique [] = Unit
  IsUnique ((k, v) ∷ m) = IsAbsent k m × IsUnique m

  -- What holds of every entry.
  abbrev pub Every {μ} : (K → V → Type μ) → Map K V → Type μ
  Every P [] = Unit
  Every P ((k, v) ∷ m) = P k v × Every P m

module _ {ℓ κ} {K : Type ℓ} {V : Type κ} where
  IsAbsent-retain :
      (p : K → V → Bool) (k : K) (m : Map K V) → IsAbsent k m → IsAbsent k (retain p m)
  unfolding retain
  IsAbsent-retain p k [] h = tt
  IsAbsent-retain p k ((j, v) ∷ m) h = ground (arith, IsAbsent-retain p k m h.1)

  pub IsUnique-retain : (p : K → V → Bool) (m : Map K V) → IsUnique m → IsUnique (retain p m)
  unfolding retain
  IsUnique-retain p [] h = tt
  IsUnique-retain p ((j, v) ∷ m) h =
      ground (arith, IsAbsent-retain p j m h.0, IsUnique-retain p m h.1)

  pub Every-retain {μ} :
      (P : K → V → Type μ) (p : K → V → Bool) (m : Map K V) → Every P m → Every P (retain p m)
  unfolding retain
  Every-retain P p [] h = tt
  Every-retain P p ((j, v) ∷ m) h = elim (Bool-cases (p j v)) [
    | inl kept ↦ rw kept (h.0, Every-retain P p m h.1)
    | inr dropped ↦ rw dropped (Every-retain P p m h.1)
  ]

module _ {ℓ κ} {K : Type ℓ} {V : Type κ} ⦃e : Eq K⦄ where
  IsAbsent-insert :
      (k j : K) (v : V) (m : Map K V) → k ≢ j → IsAbsent j m → IsAbsent j (insert k v m)
  unfolding insert
  IsAbsent-insert k j v [] d h = (d, tt)
  IsAbsent-insert k j v ((i, w) ∷ m) d h =
      ground (arith, e.agrees i k, IsAbsent-insert k j v m d h.1)

  pub IsUnique-insert : (k : K) (v : V) (m : Map K V) → IsUnique m → IsUnique (insert k v m)
  unfolding insert
  IsUnique-insert k v [] h = (tt, tt)
  IsUnique-insert k v ((j, w) ∷ m) h = elim (Bool-cases (j == k)) [
    | inl same ↦ rw same (subst (λ i. IsAbsent i m) ((e.agrees j k).0 same) h.0, h.1)
    | inr other ↦ rw other (
      IsAbsent-insert k j v m (λ q. false≢true (sym other ∙ (e.agrees j k).1 (sym q))) h.0,
      IsUnique-insert k v m h.1,
    )
  ]

  pub Every-insert {μ} :
      (P : K → V → Type μ) (k : K) (v : V) (m : Map K V)
      → P k v
      → Every P m
      → Every P (insert k v m)
  unfolding insert
  Every-insert P k v [] q h = (q, tt)
  Every-insert P k v ((j, w) ∷ m) q h = elim (Bool-cases (j == k)) [
    | inl same ↦ rw same (q, h.1)
    | inr other ↦ rw other (h.0, Every-insert P k v m q h.1)
  ]

  pub Every-get {μ} :
      (P : K → V → Type μ) (k : K) {v : V} (m : Map K V) → Every P m → get k m ≡ some v → P k v
  unfolding get
  Every-get P k {v} [] h q = cc
  Every-get P k {v} ((j, w) ∷ m) h q = elim (Bool-cases (j == k)) [
    | inl same ↦
        let r : some w ≡ some v = rw same at q in subst₂ P ((e.agrees j k).0 same) (cc r) h.0
    | inr other ↦ Every-get P k m h.1 (rw other at q)
  ]

  pub get-IsAbsent : (k : K) (m : Map K V) → IsAbsent k m → get k m ≡ none
  unfolding get
  get-IsAbsent k [] h = refl
  get-IsAbsent k ((j, v) ∷ m) h = ground (arith, e.agrees j k, get-IsAbsent k m h.1)

  -- `Option::filter` on the value of a key
  abbrev pub kept_by : (K → V → Bool) → K → Option V → Option V
  kept_by p k none = none
  kept_by p k (some v) = if p k v then some v else none

  pub get-retain :
      (p : K → V → Bool) (k : K) (m : Map K V)
      → IsUnique m
      → get k (retain p m) ≡ kept_by p k (get k m)
  unfolding get retain
  get-retain p k [] h = refl
  get-retain p k ((j, v) ∷ m) h = elim (Bool-cases (j == k)) [
    | inl same ↦
        let s = (e.agrees j k).0 same in
        let absent =
          get-IsAbsent k (retain p m) (IsAbsent-retain p k m (subst (λ i. IsAbsent i m) s h.0)) in
        ground (arith, same, s, absent)
    | inr other ↦ ground (arith, other, get-retain p k m h.1)
  ]
