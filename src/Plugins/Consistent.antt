-- ===== src/Plugins/Consistent.antt =====
-- src/plugins/registry.rs: the operations keep a registry consistent.
use rust_mcp_core.Common.Map
use rust_mcp_core.Common.{
  Bool-cases, List, String, arith, eq_iff, false, false≢true, inl, inr, nat_eq, ok, string_eq,
  subst, sym, true, ◌==◌, ◌∙◌, ◌≡◌,
}
use rust_mcp_core.Common.Map.{Map}
use rust_mcp_core.Errors.{Fallible, err≢ok}
use rust_mcp_core.Plugins.{
  PluginRegistry, add_name, check_name_available, check_name_for_replace, emit_type_event, register,
  remove_name, replace, set_plugins, unregister,
}
use rust_mcp_core.Plugins.Invariant.{
  IsConsistent, Reachable, emit_names, emit_plugins, empty, has, insert_self, insert_some, like,
  names_it, registered, remove_some, replaced, some_insert, some_remove, unregistered,
}
use rust_mcp_core.Plugins.Names.{any-add_name, any-remove_name}
use rust_mcp_core.ValueHelpers.{PluginType}

module _ (A : PluginType → Type 0) where
  module _ (t : PluginType) (name : String) (r : PluginRegistry A) (c : IsConsistent A r) where
    abbrev with_plugin : A t → List String → PluginRegistry A
    with_plugin plugin names = record r {
      plugins = set_plugins A t (Map.insert name plugin (r.plugins t)) r.plugins;
      all_names = names;
    }

    abbrev without_plugin : PluginRegistry A
    without_plugin = record r {
      plugins = set_plugins A t (Map.remove name (r.plugins t)) r.plugins;
      all_names = remove_name name r.all_names;
    }

    added-IsConsistent :
        (plugin : A t)
        → names_it A r name ≡ false
        → IsConsistent A (with_plugin plugin (add_name name r.all_names))
    added-IsConsistent plugin new = record {
      held = λ j there.
          let now = rw (any-add_name name j r.all_names) at there in
          elim (Bool-cases (j == name)) [
            | inl same ↦
                let is = sym ((eq_iff j name).0 same) in
                (
                  t,
                  subst (λ n. has A (with_plugin plugin (add_name name r.all_names)) t n ≡ true) is
                      (insert_self A t name r.plugins plugin),
                )
            | inr differ ↦
                let (u, has_it) = c.held j (rw differ at now) in
                (u, insert_some A t name r.plugins plugin u j has_it)
          ];
      known = λ u j there.
          rw (any-add_name name j r.all_names)
            (elim (some_insert A t name r.plugins plugin u j there) [
              | inl (same, is) ↦ let test : j == name ≡ true = (eq_iff j name).1 (sym is) in rw test
              | inr old ↦ let k = c.known u j old in ground arith
            ]);
      one_type = λ u v j first second. elim (some_insert A t name r.plugins plugin u j first) [
        | inl (t_u, is) ↦ elim (some_insert A t name r.plugins plugin v j second) [
          | inl (t_v, also) ↦ sym t_u ∙ t_v
          | inr old ↦
              absurd (
                false≢true
                  (sym new ∙ c.known v name (subst (λ n. has A r v n ≡ true) (sym is) old)))
        ]
        | inr old ↦ elim (some_insert A t name r.plugins plugin v j second) [
          | inl (t_v, is) ↦
              absurd (
                false≢true
                  (sym new ∙ c.known u name (subst (λ n. has A r u n ≡ true) (sym is) old)))
          | inr older ↦ c.one_type u v j old older
        ]
      ];
    }

    replaced-IsConsistent :
        (plugin : A t) → has A r t name ≡ true → IsConsistent A (with_plugin plugin r.all_names)
    replaced-IsConsistent plugin there = record {
      held = λ j named.
          let (u, has_it) = c.held j named in (u, insert_some A t name r.plugins plugin u j has_it);
      known = λ u j now. elim (some_insert A t name r.plugins plugin u j now) [
        | inl (t_u, is) ↦ c.known t j (subst (λ n. has A r t n ≡ true) is there)
        | inr old ↦ c.known u j old
      ];
      one_type = λ u v j first second.
          c.one_type u v j (before plugin there u j first) (before plugin there v j second);
    }
      where
        before :
            (plugin : A t)
            → has A r t name ≡ true
            → (u : PluginType) (j : String) → has A (with_plugin plugin r.all_names) u j ≡ true
            → has A r u j ≡ true
        before plugin there u j now = elim (some_insert A t name r.plugins plugin u j now) [
          | inl (t_u, is) ↦
              subst (λ v. has A r v j ≡ true) t_u (subst (λ n. has A r t n ≡ true) is there)
          | inr old ↦ old
        ]

    removed-IsConsistent : has A r t name ≡ true → IsConsistent A without_plugin
    removed-IsConsistent there = record {
      held = λ j named.
          let now = rw (any-remove_name name j r.all_names) at named in
          let kept : names_it A r j ≡ true = ground arith in
          let apart : j == name ≡ false = ground arith in
          let (u, has_it) = c.held j kept in
          (
            u,
            remove_some A t name r.plugins u j has_it
                (λ is. false≢true (sym apart ∙ (eq_iff j name).1 (sym is))),
          );
      known = λ u j now.
          let (old, apart) = some_remove A t name r.plugins u j now in
          rw (any-remove_name name j r.all_names) (elim (Bool-cases (j == name)) [
            | inl same ↦
                let is = sym ((eq_iff j name).0 same) in
                absurd (apart (c.one_type t u j (subst (λ n. has A r t n ≡ true) is there) old) is)
            | inr differ ↦ rw differ (c.known u j old)
          ]);
      one_type = λ u v j first second.
          c.one_type u v j (some_remove A t name r.plugins u j first).0
            (some_remove A t name r.plugins v j second).0;
    }

    emitted :
        (r' after : PluginRegistry A)
        → IsConsistent A r'
        → (◌≡◌ {A = Fallible (PluginRegistry A)} (ok (emit_type_event A t r')) (ok after))
        → IsConsistent A after
    emitted r' after k is =
        let same : emit_type_event A t r' ≡ after = cc is in
        subst (IsConsistent A) same (like A (sym (emit_plugins A t r')) (sym (emit_names A t r')) k)

    register-IsConsistent :
        (plugin : A t) (after : PluginRegistry A)
        → register A t name plugin r ≡ ok after
        → IsConsistent A after
    unfolding register check_name_available
    register-IsConsistent plugin after run = elim (Bool-cases (names_it A r name)) [
      | inl taken ↦ absurd (err≢ok (rw taken at run))
      | inr new ↦
          emitted (with_plugin plugin (add_name name r.all_names)) after
            (added-IsConsistent plugin new) (rw new at run)
    ]

    unregister-IsConsistent :
        (after : PluginRegistry A) → unregister A t name r ≡ ok after → IsConsistent A after
    unfolding unregister
    unregister-IsConsistent after run =
        let test = Map.contains_key-get name (r.plugins t) in
        elim (Bool-cases (has A r t name)) [
          | inl there ↦
              emitted without_plugin after (removed-IsConsistent there) (rw (test, there) at run)
          | inr missing ↦ absurd (err≢ok (rw (test, missing) at run))
        ]

    replace-IsConsistent :
        (plugin : A t) (after : PluginRegistry A)
        → replace A t name plugin r ≡ ok after
        → IsConsistent A after
    unfolding replace check_name_for_replace
    replace-IsConsistent plugin after run =
        let test = Map.contains_key-get name (r.plugins t) in
        elim (Bool-cases (has A r t name)) [
          | inl there ↦
              emitted (with_plugin plugin r.all_names) after (replaced-IsConsistent plugin there)
                (rw (test, there) at run)
          | inr missing ↦ elim (Bool-cases (names_it A r name)) [
            | inl taken ↦ absurd (err≢ok (rw (test, missing, taken) at run))
            | inr free ↦ absurd (err≢ok (rw (test, missing, free) at run))
          ]
        ]

  -- Whatever is registered, unregistered and replaced, in a registry that was empty: the set of names
  -- has those names that have a plugin, and no name has plugins of two types.
  pub reachable-IsConsistent : (r : PluginRegistry A) → Reachable A r → IsConsistent A r
  unfolding Map.get
  reachable-IsConsistent r empty = record {
    held = λ name there. absurd (false≢true there);
    known = λ t name there. absurd (false≢true there);
    one_type = λ t u name first second. absurd (false≢true first);
  }
  reachable-IsConsistent r (registered {r = before} t name plugin reached run) =
      register-IsConsistent t name before (reachable-IsConsistent before reached) plugin r run
  reachable-IsConsistent r (unregistered {r = before} t name reached run) =
      unregister-IsConsistent t name before (reachable-IsConsistent before reached) r run
  reachable-IsConsistent r (replaced {r = before} t name plugin reached run) =
      replace-IsConsistent t name before (reachable-IsConsistent before reached) plugin r run
