-- ===== src/Auth/Validated.antt =====
-- src/auth/inbound/authorization.rs: what a token has shown that passes a validation.
use rust_mcp_core.Auth.Provider
use rust_mcp_core.Auth.Accepted.{
  Active, AlgorithmsOf, AudienceOf, IssuedBy, Member, Named, Shows, Verified,
}
use rust_mcp_core.Auth.Authorization.{
  Services, ValidationOutcome, check_claims, check_payload, is_active, is_issuer, issuer_agrees,
  or_invalid, valid, validate_jwt, validate_opaque, validation_for,
}
use rust_mcp_core.Auth.Claims.{
  audiences_match_required, claims_match_required, scopes_match_required,
}
use rust_mcp_core.Auth.Membership.{
  CarriesAudience, audiences-carried, claims_match-HasClaims, scopes-carried,
}
use rust_mcp_core.Auth.Provider.{AuthProviderConfig}
use rust_mcp_core.Auth.Token.{Jwk, has_id, parse_algorithms, select_jwk}
use rust_mcp_core.Common.{
  All, Bool, Bool-cases, List, Option, Option-cases, String, [], and_then, ap, false, find, inl,
  inr, nat_eq, none, refl, some, string_eq, subst, true, unwrap_or, ◌==◌, ◌∷◌, ◌≡◌, ◌⊎◌,
}
use rust_mcp_core.Json.{Value, array, as_bool, as_str, bool, get, null, number, object, string}

or_invalid-valid :
    {A : Type 0} (o : Option A) (k : A → ValidationOutcome)
    → or_invalid o k ≡ valid
    → (a : A) × (o ≡ some a) × (k a ≡ valid)
or_invalid-valid none k h = absurd (cc h)
or_invalid-valid (some a) k h = (a, refl, h)

check_claims-valid :
    (p : AuthProviderConfig) (claims : Value) → check_claims p claims ≡ valid → Shows claims p
unfolding check_claims
check_claims-valid p claims h =
    elim (Bool-cases (claims_match_required claims (Provider.required_claims p))) [
      | inr wrong ↦ absurd (cc (rw wrong at h))
      | inl right ↦ elim (Bool-cases (scopes_match_required claims (Provider.required_scopes p))) [
        | inr wrong ↦ absurd (cc (rw (right, wrong) at h))
        | inl enough ↦ (
          claims_match-HasClaims claims (Provider.required_claims p) right,
          scopes-carried claims (Provider.required_scopes p) enough,
        )
      ]
    ]

find-Member :
    {A : Type 0} (test : A → Bool) (xs : List A) (x : A)
    → find test xs ≡ some x
    → Member x xs × (test x ≡ true)
find-Member test [] x h = absurd (cc h)
find-Member test (y ∷ ys) x h = elim (Bool-cases (test y)) [
  | inl found ↦
      let same : some y ≡ some x = rw found at h in
      let is : y ≡ x = cc same in (inl is, subst (λ z. test z ≡ true) is found)
  | inr missed ↦ let (there, passed) = find-Member test ys x (rw missed at h) in (inr there, passed)
]

has_id-same :
    (kid : String) (o : Option String)
    → elim o [ none ↦ false | some k ↦ k == kid ] ≡ true
    → o ≡ some kid
has_id-same kid none h = absurd (cc h)
has_id-same kid (some k) h = ap some ((string_eq.agrees k kid).0 h)

module _ {K : Type 0} where
  select_jwk-Member :
      (keys : List (Jwk K)) (kid : Option String) (jwk : Jwk K)
      → select_jwk keys kid ≡ some jwk
      → Member jwk keys × ((kid ≡ none) ⊎ (jwk.key_id ≡ kid))
  unfolding select_jwk
  select_jwk-Member [] none jwk h = absurd (cc h)
  select_jwk-Member (k ∷ keys) none jwk h = (inl (cc h), inl refl)
  select_jwk-Member keys (some kid) jwk h =
      let (there, same) = find-Member (has_id kid) keys jwk h in
      (there, inr (has_id-same kid jwk.key_id same))

audience_of : (l : List String) → AudienceOf l (elim l [ [] ↦ none | a ∷ more ↦ some (a ∷ more) ])
audience_of [] = refl
audience_of (a ∷ more) = refl

module _ (sv : Services) where
  weaken_names :
      (name : String) (names : List String) (l : List sv.Algorithm)
      → All (Named sv names) l
      → All (Named sv (name ∷ names)) l
  weaken_names name names [] h = tt
  weaken_names name names (a ∷ l) ((n, there, parsed), rest) =
      ((n, inr there, parsed), weaken_names name names l rest)

  parsed-Named :
      (names : List String) → All (Named sv names) (parse_algorithms sv.parse_algorithm names)
  unfolding parse_algorithms
  parsed-Named [] = tt
  parsed-Named (name ∷ names) =
      let rest = weaken_names name names _ (parsed-Named names) in
      elim (Option-cases (sv.parse_algorithm name)) [
        | inl unknown ↦ rw (unknown, All, parse_algorithms) rest
        | inr (a, known) ↦ rw (known, All, parse_algorithms) ((name, inl refl, known), rest)
      ]

  parsed-none :
      (names : List String)
      → parse_algorithms sv.parse_algorithm names ≡ []
      → All (λ name. sv.parse_algorithm name ≡ none) names
  unfolding parse_algorithms
  parsed-none [] h = tt
  parsed-none (name ∷ names) h = elim (Option-cases (sv.parse_algorithm name)) [
    | inl unknown ↦ (unknown, parsed-none names (rw (unknown, parse_algorithms) at h))
    | inr (a, known) ↦ absurd (cc (rw (known, parse_algorithms) at h))
  ]

  algorithms_of :
      (names : List String) (alg : sv.Algorithm) (l : List sv.Algorithm)
      → parse_algorithms sv.parse_algorithm names ≡ l
      → AlgorithmsOf sv names alg (elim l [ [] ↦ alg ∷ [] | a ∷ more ↦ a ∷ more ])
  algorithms_of names alg [] h = inr (refl, parsed-none names h)
  algorithms_of names alg (a ∷ more) h = inl (subst (All (Named sv names)) h (parsed-Named names))

  pub validate_jwt-Verified :
      (token : String) (p : AuthProviderConfig)
      → validate_jwt sv token p ≡ valid
      → (claims : Value) × Verified sv p token claims × Shows claims p
  unfolding validate_jwt validation_for
  validate_jwt-Verified token p h =
      let (keys, fetched, h1) = or_invalid-valid (sv.jwks p) _ h in
      let (header, of_header, h2) = or_invalid-valid (sv.decode_header token) _ h1 in
      let (jwk, selected, h3) = or_invalid-valid (select_jwk keys header.1) _ h2 in
      let (key, from_key, h4) = or_invalid-valid (sv.from_jwk jwk) _ h3 in
      let (claims, decoded, h5) =
        or_invalid-valid (sv.decode token key (validation_for sv p header.0)) _ h4 in
      let (is_key, is_meant) = select_jwk-Member keys header.1 jwk selected in
      (
        claims,
        record {
          keys = keys;
          alg = header.0;
          kid = header.1;
          jwk = jwk;
          key = key;
          options = validation_for sv p header.0;
          fetched = fetched;
          of_header = of_header;
          is_key = is_key;
          is_meant = is_meant;
          from_key = from_key;
          same_issuer = refl;
          same_leeway = refl;
          same_audience = audience_of (Provider.audiences p);
          same_algorithms = algorithms_of (Provider.algorithms p) header.0 _ refl;
          decoded = decoded;
        },
        check_claims-valid p claims h5,
      )

  as_str-same :
      (issuer : String) (o : Option Value)
      → is_issuer (and_then o as_str) issuer ≡ true
      → o ≡ some (string issuer)
  as_str-same issuer (some (string t)) h =
      ap (λ y. some (string y)) ((string_eq.agrees t issuer).0 h)
  as_str-same issuer none h = absurd (cc h)
  as_str-same issuer (some null) h = absurd (cc h)
  as_str-same issuer (some (bool b)) h = absurd (cc h)
  as_str-same issuer (some (number n)) h = absurd (cc h)
  as_str-same issuer (some (array l)) h = absurd (cc h)
  as_str-same issuer (some (object o)) h = absurd (cc h)

  issuer_agrees-IssuedBy :
      (o : Option String) (payload : Value)
      → issuer_agrees sv o payload ≡ true
      → IssuedBy sv o payload
  unfolding issuer_agrees
  issuer_agrees-IssuedBy none payload h = tt
  issuer_agrees-IssuedBy (some issuer) payload h = as_str-same issuer (get "iss" payload) h

  as_bool-true :
      (o : Option Value) → unwrap_or false (and_then o as_bool) ≡ true → o ≡ some (bool true)
  as_bool-true (some (bool b)) h = ap (λ y. some (bool y)) h
  as_bool-true none h = absurd (cc h)
  as_bool-true (some null) h = absurd (cc h)
  as_bool-true (some (string s)) h = absurd (cc h)
  as_bool-true (some (number n)) h = absurd (cc h)
  as_bool-true (some (array l)) h = absurd (cc h)
  as_bool-true (some (object o)) h = absurd (cc h)

  check_payload-Shows :
      (p : AuthProviderConfig) (payload : Value)
      → check_payload sv p payload ≡ valid
      → (get "active" payload ≡ some (bool true))
        × IssuedBy sv (sv.issuer p) payload
        × All (CarriesAudience payload) (Provider.audiences p)
        × Shows payload p
  unfolding check_payload is_active
  check_payload-Shows p payload h = elim (Bool-cases (is_active sv payload)) [
    | inr off ↦ absurd (cc (rw off at h))
    | inl on ↦ elim (Bool-cases (issuer_agrees sv (sv.issuer p) payload)) [
      | inr other ↦ absurd (cc (rw (on, other) at h))
      | inl same ↦ elim (Bool-cases (audiences_match_required payload (Provider.audiences p))) [
        | inr wrong ↦ absurd (cc (rw (on, same, wrong) at h))
        | inl meant ↦ (
          as_bool-true (get "active" payload) on,
          issuer_agrees-IssuedBy (sv.issuer p) payload same,
          audiences-carried payload (Provider.audiences p) meant,
          check_claims-valid p payload (rw (on, same, meant) at h),
        )
      ]
    ]
  ]

  pub validate_opaque-Active :
      (token : String) (p : AuthProviderConfig)
      → validate_opaque sv token p ≡ valid
      → (url : String) × (Provider.introspection_url p ≡ some url)
        × ((payload : Value) × Active sv p url token payload × Shows payload p)
  unfolding validate_opaque
  validate_opaque-Active token p h =
      let (url, given, h1) = or_invalid-valid (Provider.introspection_url p) _ h in
      let (payload, answered, h2) = or_invalid-valid (sv.introspect p url token) _ h1 in
      let (on, issued, meant, shown) = check_payload-Shows p payload h2 in
      (
        url,
        given,
        (
          payload,
          record { answered = answered; active = on; issued = issued; meant = meant },
          shown,
        ),
      )
