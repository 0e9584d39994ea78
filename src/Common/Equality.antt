-- ===== src/Common/Equality.antt =====
-- Equality of lists, options and pairs, as Rust derives it.
use mathlib.Core.Path.{◌≡◌, refl, ap}
use mathlib.Core.Logic.{◌↔◌}
use mathlib.Core.Bool.{Bool, true, false, ◌&&◌, false≢true}
use mathlib.Core.Option.{Option, none, some}
use mathlib.Core.List.{List, [], ◌∷◌}
use native.Mathlib.Omega.{arith}
use rust_mcp_core.Common.Tests.{Eq, ◌==◌, string_eq}

pub and_true : (a b : Bool) → (a && b) ≡ true → (a ≡ true) × (b ≡ true)
and_true true b h = (refl, h)
and_true false b h = absurd (false≢true h)

pub true_and : (a b : Bool) → a ≡ true → b ≡ true → (a && b) ≡ true
true_and true b h k = k
true_and false b h k = h

module _ {ℓ} {A : Type ℓ} ⦃e : Eq A⦄ where
  abbrev option_equals : Option A → Option A → Bool
  option_equals none none = true
  option_equals none (some b) = false
  option_equals (some a) none = false
  option_equals (some a) (some b) = a == b

  pub option_agrees : (a b : Option A) → (option_equals a b ≡ true) ↔ (a ≡ b)
  option_agrees none none = (λ h. refl, λ h. refl)
  option_agrees none (some b) = ground arith
  option_agrees (some a) none = ground arith
  option_agrees (some a) (some b) =
      (λ h. ap some ((e.agrees a b).0 h), λ h. (e.agrees a b).1 (cc h))

  abbrev list_equals : List A → List A → Bool
  list_equals [] [] = true
  list_equals [] (b ∷ m) = false
  list_equals (a ∷ l) [] = false
  list_equals (a ∷ l) (b ∷ m) = a == b && list_equals l m

  pub list_agrees : (l m : List A) → (list_equals l m ≡ true) ↔ (l ≡ m)
  list_agrees [] [] = (λ h. refl, λ h. refl)
  list_agrees [] (b ∷ m) = ground arith
  list_agrees (a ∷ l) [] = ground arith
  list_agrees (a ∷ l) (b ∷ m) = (
    λ h.
        let (p, q) = and_true (a == b) (list_equals l m) h in
        λ i. (e.agrees a b).0 p i ∷ (list_agrees l m).0 q i,
    λ h. true_and (a == b) (list_equals l m) ((e.agrees a b).1 (cc h)) ((list_agrees l m).1 (cc h)),
  )

instance abbrev pub option_eq {ℓ} : {A : Type ℓ} ⦃e : Eq A⦄ → Eq (Option A)
option_eq = record { equals = option_equals; agrees = option_agrees }

instance abbrev pub list_eq {ℓ} : {A : Type ℓ} ⦃e : Eq A⦄ → Eq (List A)
list_eq = record { equals = list_equals; agrees = list_agrees }

module _ {ℓ κ} {A : Type ℓ} {B : Type κ} ⦃d : Eq A⦄ ⦃e : Eq B⦄ where
  abbrev pair_equals : A × B → A × B → Bool
  pair_equals (a, b) (c, f) = a == c && b == f

  pub pair_agrees : (p q : A × B) → (pair_equals p q ≡ true) ↔ (p ≡ q)
  pair_agrees (a, b) (c, f) = (
    λ h.
        let (p, q) = and_true (a == c) (b == f) h in
        λ i. ((d.agrees a c).0 p i, (e.agrees b f).0 q i),
    λ h.
        true_and (a == c) (b == f) ((d.agrees a c).1 (ap (λ x. x.0) h))
          ((e.agrees b f).1 (ap (λ x. x.1) h)),
  )

instance abbrev pub pair_eq {ℓ κ} : {A : Type ℓ} {B : Type κ} ⦃d : Eq A⦄ ⦃e : Eq B⦄ → Eq (A × B)
pair_eq = record { equals = pair_equals; agrees = pair_agrees }
