-- ===== src/Engine/Registering.antt =====
-- `RegisterComponent` of component.go leaves the states of components as they read.
use tick_framework.Base.{
  ◌≡◌, refl, sym, ap, ◌∙◌, Bool, Bool-cases, List, [], ◌∷◌, some, Option-cases, Bytes, lookup,
  lookup-assign, bytes_eq, bytes_eq_iff, Res, inl, inr, arith,
}
use tick_framework.Registry.{
  Component, Registry, RegistryError, init, unregister_canonical, unregister_component, note_state,
  append_component, register_component,
}
use tick_framework.Engine.{read_state}

module _ {C V : Type 0} where
  canonical-states :
      (name : Bytes) (r r' : Registry C V)
      → unregister_canonical name r ≡ some r'
      → r'.component_states ≡ r.component_states
  unfolding unregister_canonical
  canonical-states name r r' e = ground arith

  names-states :
      (names : List Bytes) (r r' : Registry C V)
      → unregister_component names r ≡ some r'
      → r'.component_states ≡ r.component_states
  unfolding unregister_component
  names-states [] r r' e = ground arith
  names-states (name ∷ names) r r' e = grind (arith, canonical-states, names-states names)

  note_state-reads :
      (c : Component C) (r : Registry C V) (n : Bytes)
      → read_state (lookup n (note_state c r).component_states)
        ≡ read_state (lookup n r.component_states)
  unfolding note_state
  note_state-reads c r n = elim (Option-cases (lookup c.name r.component_states)) [
    | inr (s, e) ↦ rw (e, note_state) refl
    | inl e ↦ elim (Bool-cases (bytes_eq c.name n)) [
      | inl q ↦
          rw
            (
              e,
              note_state,
              lookup-assign c.name n init r.component_states,
              q,
              sym ((bytes_eq_iff c.name n).0 q),
              e,
            )
            refl
      | inr q ↦ rw (e, note_state, lookup-assign c.name n init r.component_states, q) refl
    ]
  ]

  register-noted :
      (c : Component C) (b : Bool) (r r' : Registry C V) (x : Res RegistryError (Unit {0}))
      → register_component c b r ≡ some (x, r')
      → r'.component_states ≡ (note_state c r).component_states
  unfolding register_component append_component
  register-noted c b r r' x e = grind (arith, names-states)

  pub register-reads :
      (c : Component C) (b : Bool) (r r' : Registry C V) (x : Res RegistryError (Unit {0}))
      (n : Bytes)
      → register_component c b r ≡ some (x, r')
      → read_state (lookup n r'.component_states) ≡ read_state (lookup n r.component_states)
  register-reads c b r r' x n e =
      ap (λ s. read_state (lookup n s)) (register-noted c b r r' x e) ∙ note_state-reads c r n
