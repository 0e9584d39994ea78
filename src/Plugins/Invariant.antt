-- ===== src/Plugins/Invariant.antt =====
-- src/plugins/registry.rs: a name belongs to one plugin, and the registry's set of names is that of
-- its plugins.
use rust_mcp_core.Common.Map
use rust_mcp_core.Common.{
  Bool, Bool-cases, Option-cases, String, any, ap, arith, eq_iff, false, false≢true, inl, inr,
  is_some, nat_eq, ok, refl, string_eq, subst, sym, true, ◌==◌, ◌||◌, ◌∙◌, ◌≡◌, ◌≢◌, ◌⊎◌,
}
use rust_mcp_core.Common.Map.{Map}
use rust_mcp_core.Plugins.{
  PluginRegistry, Plugins, emit_type_event, empty_registry, event_of, register, replace,
  set_plugins, unregister,
}
use rust_mcp_core.Plugins.Names.{same_or_other, set-other, set-same}
use rust_mcp_core.ValueHelpers.{PluginType, type_index}

-- To split on a Boolean test that a hypothesis is about.
or_cases : (a b : Bool) → (a || b) ≡ true → (a ≡ true) ⊎ (b ≡ true)
or_cases a b h = ground arith

module _ (A : PluginType → Type 0) where
  abbrev pub has : PluginRegistry A → PluginType → String → Bool
  has r t name = is_some (Map.get name (r.plugins t))

  abbrev pub names_it : PluginRegistry A → String → Bool
  names_it r name = any (◌==◌ name) r.all_names

  -- A name of the set has a plugin, a name that has a plugin is in the set, and no name has plugins of
  -- two types.
  pub record IsConsistent (r : PluginRegistry A) : Type 0 where
    pub held : (name : String) → names_it r name ≡ true → (t : PluginType) × (has r t name ≡ true)
    pub known : (t : PluginType) (name : String) → has r t name ≡ true → names_it r name ≡ true
    pub one_type :
        (t u : PluginType) (name : String) → has r t name ≡ true → has r u name ≡ true → t ≡ u

  -- What the operations on plugins make of an empty registry.
  pub data Reachable : PluginRegistry A → Type 0 where
    empty : Reachable (empty_registry A)
    registered :
        {r r' : PluginRegistry A} (t : PluginType) (name : String) (plugin : A t)
        → Reachable r
        → register A t name plugin r ≡ ok r'
        → Reachable r'
    unregistered :
        {r r' : PluginRegistry A} (t : PluginType) (name : String)
        → Reachable r
        → unregister A t name r ≡ ok r'
        → Reachable r'
    replaced :
        {r r' : PluginRegistry A} (t : PluginType) (name : String) (plugin : A t)
        → Reachable r
        → replace A t name plugin r ≡ ok r'
        → Reachable r'

  pub emit_plugins :
      (t : PluginType) (r : PluginRegistry A) → (emit_type_event A t r).plugins ≡ r.plugins
  unfolding emit_type_event
  emit_plugins t r = elim (Option-cases (event_of t)) [
    | inl silent ↦ rw (silent, emit_type_event)
    | inr (event, sent) ↦ rw (sent, emit_type_event)
  ]

  pub emit_names :
      (t : PluginType) (r : PluginRegistry A) → (emit_type_event A t r).all_names ≡ r.all_names
  unfolding emit_type_event
  emit_names t r = elim (Option-cases (event_of t)) [
    | inl silent ↦ rw (silent, emit_type_event)
    | inr (event, sent) ↦ rw (sent, emit_type_event)
  ]

  -- Consistency speaks of the plugins and the names alone.
  pub like :
      {r r' : PluginRegistry A}
      → r.plugins ≡ r'.plugins
      → r.all_names ≡ r'.all_names
      → IsConsistent r
      → IsConsistent r'
  like {r} {r'} plugins names c = record {
    held = λ name there.
        let (t, has_it) = c.held name (subst (λ l. any (◌==◌ name) l ≡ true) (sym names) there) in
        (t, subst (λ m. is_some (Map.get name (m t)) ≡ true) plugins has_it);
    known = λ t name there.
        subst (λ l. any (◌==◌ name) l ≡ true) names
          (c.known t name (subst (λ m. is_some (Map.get name (m t)) ≡ true) (sym plugins) there));
    one_type = λ t u name first second.
        c.one_type t u name (subst (λ m. is_some (Map.get name (m t)) ≡ true) (sym plugins) first)
          (subst (λ m. is_some (Map.get name (m u)) ≡ true) (sym plugins) second);
  }

  module _ (t : PluginType) (name : String) (r : Plugins A) where
    abbrev in_type : Map String (A t) → (u : PluginType) → String → Bool
    in_type m u j = is_some (Map.get j (set_plugins A t m r u))

    some_insert_own :
        (plugin : A t) (j : String)
        → in_type (Map.insert name plugin (r t)) t j ≡ true
        → ((t ≡ t) × (name ≡ j)) ⊎ (is_some (Map.get j (r t)) ≡ true)
    some_insert_own plugin j there =
        let rule = Map.get-insert name j plugin (r t) in
        let now = rw (set-same A t (Map.insert name plugin (r t)) r, rule) at there in
        elim (Bool-cases (name == j)) [
          | inl same ↦ inl (refl, (eq_iff name j).0 same)
          | inr differ ↦ inr (rw differ at now)
        ]

    pub some_insert :
        (plugin : A t) (u : PluginType) (j : String)
        → is_some (Map.get j (set_plugins A t (Map.insert name plugin (r t)) r u)) ≡ true
        → ((t ≡ u) × (name ≡ j)) ⊎ (is_some (Map.get j (r u)) ≡ true)
    some_insert plugin u j there = elim (same_or_other t u) [
      | inl same ↦
          (subst
              (λ v.
                in_type (Map.insert name plugin (r t)) v j ≡ true
                → ((t ≡ v) × (name ≡ j)) ⊎ (is_some (Map.get j (r v)) ≡ true))
              same (some_insert_own plugin j))
            there
      | inr other ↦ inr (rw (set-other A t u (Map.insert name plugin (r t)) r other) at there)
    ]

    pub insert_some :
        (plugin : A t) (u : PluginType) (j : String)
        → is_some (Map.get j (r u)) ≡ true
        → is_some (Map.get j (set_plugins A t (Map.insert name plugin (r t)) r u)) ≡ true
    insert_some plugin u j there = elim (same_or_other t u) [
      | inl same ↦
          (subst
              (λ v.
                is_some (Map.get j (r v)) ≡ true
                → in_type (Map.insert name plugin (r t)) v j ≡ true)
              same
              (λ own. elim (Bool-cases (name == j)) [
                | inl is ↦ rw (
                  set-same A t (Map.insert name plugin (r t)) r,
                  Map.get-insert name j plugin (r t),
                  is,
                )
                | inr differ ↦
                    rw
                      (
                        set-same A t (Map.insert name plugin (r t)) r,
                        Map.get-insert name j plugin (r t),
                        differ,
                      )
                      own
              ]))
            there
      | inr other ↦ rw (set-other A t u (Map.insert name plugin (r t)) r other) there
    ]

    pub insert_self :
        (plugin : A t)
        → is_some (Map.get name (set_plugins A t (Map.insert name plugin (r t)) r t)) ≡ true
    insert_self plugin =
        rw (set-same A t (Map.insert name plugin (r t)) r, Map.get-insert_self name plugin (r t))

    pub some_remove :
        (u : PluginType) (j : String)
        → is_some (Map.get j (set_plugins A t (Map.remove name (r t)) r u)) ≡ true
        → (is_some (Map.get j (r u)) ≡ true) × (t ≡ u → name ≡ j → ⊥)
    some_remove u j there = elim (same_or_other t u) [
      | inl same ↦
          (subst
              (λ v.
                in_type (Map.remove name (r t)) v j ≡ true
                → (is_some (Map.get j (r v)) ≡ true) × (t ≡ v → name ≡ j → ⊥))
              same
              (λ own.
                let now =
                  rw (set-same A t (Map.remove name (r t)) r, Map.get-remove name j (r t)) at own in
                elim (Bool-cases (name == j)) [
                  | inl is ↦ absurd (let h = rw is at now in false≢true h)
                  | inr differ ↦
                      (rw differ at now, λ p q. false≢true (sym differ ∙ (eq_iff name j).1 q))
                ]))
            there
      | inr other ↦ (
        rw (set-other A t u (Map.remove name (r t)) r other) at there,
        λ p q. other (ap type_index p),
      )
    ]

    pub remove_some :
        (u : PluginType) (j : String)
        → is_some (Map.get j (r u)) ≡ true
        → name ≢ j
        → is_some (Map.get j (set_plugins A t (Map.remove name (r t)) r u)) ≡ true
    remove_some u j there apart = elim (same_or_other t u) [
      | inl same ↦
          (subst
              (λ v. is_some (Map.get j (r v)) ≡ true → in_type (Map.remove name (r t)) v j ≡ true)
              same
              (λ own.
                let differ : name == j ≡ false = ground (arith, eq_iff name j) in
                rw (set-same A t (Map.remove name (r t)) r, Map.get-remove name j (r t), differ)
                  own))
            there
      | inr other ↦ rw (set-other A t u (Map.remove name (r t)) r other) there
    ]
