-- ===== src/Auth/Membership.antt =====
-- src/auth/inbound/claims.rs: the claims, scopes and audiences that a token has.
use rust_mcp_core.Auth.Claims.{
  audiences_match_required, claims_match_required, is_member, is_text, provided_audiences,
  provided_scopes, scopes_match_required,
}
use rust_mcp_core.Common.{
  All, Bool-cases, List, Option, String, [], all, ap, inl, inr, nat_eq, none, refl, some, string_eq,
  true, ◌==◌, ◌↔◌, ◌∙◌, ◌∷◌, ◌≡◌, ◌≢◌, ◌⊎◌,
}
use rust_mcp_core.Common.Map.{Map}
use rust_mcp_core.Json.{
  Value, Values, array, bool, cons, get, nil, null, number, object, string, strings,
}
use rust_mcp_core.Text.{split_whitespace}

-- Membership in a list of texts.
abbrev pub Has : String → List String → Type 0
Has x [] = ⊥
Has x (y ∷ ys) = (y ≡ x) ⊎ Has x ys

is_member-Has : (x : String) (ys : List String) → (is_member ys x ≡ true) ↔ Has x ys
is_member-Has x [] = (λ h. absurd (cc h), λ h. absurd h)
is_member-Has x (y ∷ ys) = elim (Bool-cases (y == x)) [
  | inl same ↦ rw same (λ h. inl ((string_eq.agrees y x).0 same), λ h. refl)
  | inr other ↦
      let rest = is_member-Has x ys in
      let distinct : y ≢ x = λ q. absurd (cc (other, (string_eq.agrees y x).1 q)) in
      rw other (λ h. inr (rest.0 h), λ h. elim h [ inl q ↦ absurd (distinct q) | inr k ↦ rest.1 k ])
]

-- Every one of the required scopes.
abbrev pub HasAll : List String → List String → Type 0
HasAll [] ys = Unit
HasAll (x ∷ xs) ys = Has x ys × HasAll xs ys

all-HasAll : (required ys : List String) → (all (is_member ys) required ≡ true) ↔ HasAll required ys
all-HasAll [] ys = (λ h. tt, λ h. refl)
all-HasAll (x ∷ xs) ys =
    let one = is_member-Has x ys in
    let rest = all-HasAll xs ys in
    elim (Bool-cases (is_member ys x)) [
      | inl there ↦ rw there (λ h. (one.0 there, rest.0 h), λ h. rest.1 (h.1))
      | inr missing ↦ rw missing (λ h. absurd (cc h), λ h. absurd (cc (missing, one.1 (h.0))))
    ]

-- A text among the items of an array, as one of them.
abbrev pub HasText : String → Values → Type 0
HasText x nil = ⊥
HasText x (cons v vs) = (v ≡ string x) ⊎ HasText x vs

-- The claim `scope` has `x` as one of its words, or as one of its items.
abbrev pub CarriesScope : Value → String → Type 0
CarriesScope claims x =
    ((t : String) × (get "scope" claims ≡ some (string t)) × Has x (split_whitespace t))
    ⊎ ((items : Values) × (get "scope" claims ≡ some (array items)) × HasText x items)

-- The claim `aud` is `x`, or has it as one of its items.
abbrev pub CarriesAudience : Value → String → Type 0
CarriesAudience claims x =
    (get "aud" claims ≡ some (string x))
    ⊎ ((items : Values) × (get "aud" claims ≡ some (array items)) × HasText x items)

-- The claims have each of the required texts.
abbrev pub HasClaims : Value → Map String String → Type 0
HasClaims claims [] = Unit
HasClaims claims ((key, expected) ∷ required) =
    (get key claims ≡ some (string expected)) × HasClaims claims required

strings-HasText : (x : String) (vs : Values) → Has x (strings vs) → HasText x vs
unfolding strings
strings-HasText x nil h = h
strings-HasText x (cons (string s) vs) (inl same) = inl (ap string same)
strings-HasText x (cons (string s) vs) (inr more) = inr (strings-HasText x vs more)
strings-HasText x (cons null vs) h = inr (strings-HasText x vs h)
strings-HasText x (cons (bool b) vs) h = inr (strings-HasText x vs h)
strings-HasText x (cons (number n) vs) h = inr (strings-HasText x vs h)
strings-HasText x (cons (array l) vs) h = inr (strings-HasText x vs h)
strings-HasText x (cons (object o) vs) h = inr (strings-HasText x vs h)

module _ (claims : Value) (x : String) where
  scope-carried :
      (o : Option Value)
      → get "scope" claims ≡ o
      → Has x (provided_scopes o)
      → CarriesScope claims x
  unfolding provided_scopes
  scope-carried (some (string t)) q h = inl (t, q, h)
  scope-carried (some (array items)) q h = inr (items, q, strings-HasText x items h)
  scope-carried none q h = absurd h
  scope-carried (some null) q h = absurd h
  scope-carried (some (bool b)) q h = absurd h
  scope-carried (some (number n)) q h = absurd h
  scope-carried (some (object o)) q h = absurd h

  audience-carried :
      (o : Option Value)
      → get "aud" claims ≡ o
      → Has x (provided_audiences o)
      → CarriesAudience claims x
  unfolding provided_audiences
  audience-carried (some (string t)) q (inl same) = inl (q ∙ ap (λ y. some (string y)) same)
  audience-carried (some (string t)) q (inr none_left) = absurd none_left
  audience-carried (some (array items)) q h = inr (items, q, strings-HasText x items h)
  audience-carried none q h = absurd h
  audience-carried (some null) q h = absurd h
  audience-carried (some (bool b)) q h = absurd h
  audience-carried (some (number n)) q h = absurd h
  audience-carried (some (object o)) q h = absurd h

carried_each :
    (P : String → Type 0) (ys required : List String)
    → ((x : String) → Has x ys → P x)
    → HasAll required ys
    → All P required
carried_each P ys [] f h = tt
carried_each P ys (x ∷ xs) f h = (f x h.0, carried_each P ys xs f h.1)

pub scopes-carried :
    (claims : Value) (required : List String)
    → scopes_match_required claims required ≡ true
    → All (CarriesScope claims) required
unfolding scopes_match_required
scopes-carried claims required h =
    carried_each (CarriesScope claims) _ required (λ x. scope-carried claims x _ refl)
      ((all-HasAll required _).0 h)

pub audiences-carried :
    (claims : Value) (required : List String)
    → audiences_match_required claims required ≡ true
    → All (CarriesAudience claims) required
unfolding audiences_match_required
audiences-carried claims required h =
    carried_each (CarriesAudience claims) _ required (λ x. audience-carried claims x _ refl)
      ((all-HasAll required _).0 h)

is_text-string :
    (expected : String) (o : Option Value) → is_text expected o ≡ true → o ≡ some (string expected)
is_text-string expected (some (string actual)) h =
    ap (λ y. some (string y)) ((string_eq.agrees actual expected).0 h)
is_text-string expected none h = absurd (cc h)
is_text-string expected (some null) h = absurd (cc h)
is_text-string expected (some (bool b)) h = absurd (cc h)
is_text-string expected (some (number n)) h = absurd (cc h)
is_text-string expected (some (array l)) h = absurd (cc h)
is_text-string expected (some (object o)) h = absurd (cc h)

pub claims_match-HasClaims :
    (claims : Value) (required : Map String String)
    → claims_match_required claims required ≡ true
    → HasClaims claims required
unfolding claims_match_required
claims_match-HasClaims claims [] h = tt
claims_match-HasClaims claims ((key, expected) ∷ required) h =
    elim (Bool-cases (is_text expected (get key claims))) [
      | inl same ↦ (
        is_text-string expected (get key claims) same,
        claims_match-HasClaims claims required (rw same at h),
      )
      | inr other ↦ absurd (cc (rw other at h))
    ]

-- A token's scopes are enough exactly if each of the required ones is among those of its `scope` claim.
pub scopes_match_iff :
    (claims : Value) (required : List String)
    → (scopes_match_required claims required ≡ true)
      ↔ HasAll required (provided_scopes (get "scope" claims))
unfolding scopes_match_required
scopes_match_iff claims required = all-HasAll required (provided_scopes (get "scope" claims))
