-- ===== src/Plugins/Names.antt =====
-- src/plugins/registry.rs: the names and the types of plugins.
use rust_mcp_core.Common.{
  Bool-cases, List, String, [], any, ap, arith, eq_iff, false≢true, if◌then◌else◌, inl, inr,
  nat_beq_iff, nat_eq, not, refl, string_eq, subst, sym, true, ℕ, ◌&&◌, ◌==◌, ◌||◌, ◌∙◌, ◌∷◌, ◌≡◌,
  ◌≢◌, ◌⊎◌,
}
use rust_mcp_core.Common.Map.{Map}
use rust_mcp_core.Plugins.{Plugins, add_name, remove_name, set_plugins}
use rust_mcp_core.ValueHelpers.{
  PluginType, auth, completion, http_router, prompt, resource, tool, type_index,
}

abbrev type_at : ℕ → PluginType
type_at n =
    if n == 0
    then tool
    else if n == 1
    then auth
    else if n == 2
    then http_router
    else if n == 3
    then prompt
    else if n == 4
    then resource
    else completion

of-index : (t : PluginType) → type_at (type_index t) ≡ t
of-index tool = refl
of-index auth = refl
of-index http_router = refl
of-index completion = refl
of-index prompt = refl
of-index resource = refl

pub same_or_other : (t u : PluginType) → (t ≡ u) ⊎ (type_index t ≢ type_index u)
same_or_other t u = elim (Bool-cases (type_index t == type_index u)) [
  | inl same ↦
      let index = (nat_beq_iff (type_index t) (type_index u)).0 same in
      inl (sym (of-index t) ∙ ap type_at index ∙ of-index u)
  | inr other ↦ inr (λ q. false≢true (sym other ∙ (nat_beq_iff (type_index t) (type_index u)).1 q))
]

pub any-add_name :
    (name other : String) (names : List String)
    → any (◌==◌ other) (add_name name names) ≡ (other == name || any (◌==◌ other) names)
unfolding add_name
any-add_name name other names = elim (Bool-cases (any (◌==◌ name) names)) [
  | inl there ↦ elim (Bool-cases (other == name)) [
    | inl same ↦
        let is : name ≡ other = sym ((eq_iff other name).0 same) in
        rw (there, same) (subst (λ o. any (◌==◌ o) names ≡ true) is there)
    | inr differ ↦ rw (there, differ)
  ]
  | inr new ↦ rw new
]

pub any-remove_name :
    (name other : String) (names : List String)
    → any (◌==◌ other) (remove_name name names) ≡ (not (other == name) && any (◌==◌ other) names)
any-remove_name name other [] = ground arith
any-remove_name name other (n ∷ names) =
    ground
      (arith, eq_iff n name, eq_iff other name, eq_iff other n, any-remove_name name other names)

module _ (A : PluginType → Type 0) where
  pub set-same : (t : PluginType) (m : Map String (A t)) (r : Plugins A) → set_plugins A t m r t ≡ m
  unfolding set_plugins
  set-same tool m r = refl
  set-same auth m r = refl
  set-same http_router m r = refl
  set-same completion m r = refl
  set-same prompt m r = refl
  set-same resource m r = refl

  pub set-other :
      (t u : PluginType) (m : Map String (A t)) (r : Plugins A)
      → type_index t ≢ type_index u
      → set_plugins A t m r u ≡ r u
  unfolding set_plugins
  set-other tool u m r d =
      (elim u as (λ k. type_index tool ≢ type_index k → set_plugins A tool m r k ≡ r k) [
        | tool ↦ λ same. absurd (same refl)
        | _ ↦ λ same. refl
      ])
        d
  set-other auth u m r d =
      (elim u as (λ k. type_index auth ≢ type_index k → set_plugins A auth m r k ≡ r k) [
        | auth ↦ λ same. absurd (same refl)
        | _ ↦ λ same. refl
      ])
        d
  set-other http_router u m r d =
      (elim u
          as (λ k. type_index http_router ≢ type_index k → set_plugins A http_router m r k ≡ r k) [
            | http_router ↦ λ same. absurd (same refl)
            | _ ↦ λ same. refl
          ])
        d
  set-other completion u m r d =
      (elim u
          as (λ k. type_index completion ≢ type_index k → set_plugins A completion m r k ≡ r k) [
            | completion ↦ λ same. absurd (same refl)
            | _ ↦ λ same. refl
          ])
        d
  set-other prompt u m r d =
      (elim u as (λ k. type_index prompt ≢ type_index k → set_plugins A prompt m r k ≡ r k) [
        | prompt ↦ λ same. absurd (same refl)
        | _ ↦ λ same. refl
      ])
        d
  set-other resource u m r d =
      (elim u as (λ k. type_index resource ≢ type_index k → set_plugins A resource m r k ≡ r k) [
        | resource ↦ λ same. absurd (same refl)
        | _ ↦ λ same. refl
      ])
        d
