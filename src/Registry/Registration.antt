-- ===== src/Registry/Registration.antt =====
-- `RegisterComponent` of component.go on a registry that is valid.
use tick_framework.Base.{
  ◌≡◌, refl, ap, sym, ◌∙◌, true, [], ◌∷◌, ◌++◌, none, some, GoMap, lookup, lookup-delete, assign,
  bytes_eq_refl, Option-cases, inl, inr, ok,
}
use tick_framework.Registry.{
  Component, ComponentState, init, Registry, unregister_canonical, unregister_component, note_state,
  append_component, register_component,
}
use tick_framework.Registry.Name.{canonical_name}
use tick_framework.Registry.Named.{others-absent}
use tick_framework.Registry.Validity.{
  name_of, others, IsValid, unregistered, unregister_canonical_lem, unregistered-IsValid,
  append_component-IsValid,
}

module _ {C V : Type 0} where
  -- What a registration makes of the list of components, with the registry valid.
  pub record IsRegistered (c : Component C) (r r' : Registry C V) : Type 0 where
    pub valid : IsValid r'
    pub components : r'.components ≡ others c.name r.components ++ c ∷ []

  abbrev noted : GoMap ComponentState → Registry C V → Registry C V
  noted states r = record r { component_states = states }

  note_state_lem :
      (c : Component C) (r : Registry C V)
      → (states : GoMap ComponentState) × (note_state c r ≡ noted states r)
  unfolding note_state
  note_state_lem c r = elim (Option-cases (lookup c.name r.component_states)) [
    | inl e ↦ (assign c.name init r.component_states, rw (e, note_state) refl)
    | inr (_, e) ↦ (r.component_states, rw (e, note_state) refl)
  ]

  noted-IsValid :
      (states : GoMap ComponentState) (r : Registry C V) → IsValid r → IsValid (noted states r)
  noted-IsValid states r v = record {
    distinct = v.distinct;
    ordered = v.ordered;
    mapped = v.mapped;
  }

  register_absent :
      (c : Component C) (r : Registry C V)
      → IsValid r
      → canonical_name c.name ≡ some c.name
      → lookup c.name r.component_map ≡ none
      → (r' : Registry C V) × (register_component c true r ≡ some (ok tt, r')) × IsRegistered c r r'
  unfolding register_component append_component
  register_absent c r v canonical e =
      let (states, n) = note_state_lem c r in
      (
        append_component c.name c (noted states r),
        rw (canonical, e, n, register_component) refl,
        record {
          valid = append_component-IsValid c (noted states r) (noted-IsValid states r v) e;
          components =
              ap (λ cs. cs ++ c ∷ [])
                (sym (others-absent name_of c.name r.components (sym (v.mapped c.name) ∙ e)));
        },
      )

  register_present :
      (c old : Component C) (r : Registry C V)
      → IsValid r
      → canonical_name c.name ≡ some c.name
      → lookup c.name r.component_map ≡ some old
      → (r' : Registry C V) × (register_component c true r ≡ some (ok tt, r')) × IsRegistered c r r'
  unfolding register_component unregister_component append_component
  register_present c old r v canonical e =
      let (states, n) = note_state_lem c r in
      let nv = noted-IsValid states r v in
      let gone : unregister_canonical c.name (note_state c r)
          ≡ some (unregistered c.name (noted states r)) =
        ap (unregister_canonical c.name) n ∙ unregister_canonical_lem c.name (noted states r) nv in
      (
        append_component c.name c (unregistered c.name (noted states r)),
        rw (canonical, e, canonical, gone, register_component) refl,
        record {
          valid =
              append_component-IsValid c (unregistered c.name (noted states r))
                (unregistered-IsValid c.name (noted states r) nv)
                (lookup-delete c.name c.name r.component_map ∙ rw (bytes_eq_refl c.name) refl);
          components = refl;
        },
      )

  -- On a valid registry and for a canonical name.
  pub register_component_lem :
      (c : Component C) (r : Registry C V)
      → IsValid r
      → canonical_name c.name ≡ some c.name
      → (r' : Registry C V) × (register_component c true r ≡ some (ok tt, r')) × IsRegistered c r r'
  register_component_lem c r v canonical = elim (Option-cases (lookup c.name r.component_map)) [
    | inl e ↦ register_absent c r v canonical e
    | inr (old, e) ↦ register_present c old r v canonical e
  ]
