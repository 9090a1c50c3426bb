-- ===== src/Engine/Starting.antt =====
-- ltick.go: a `Startup` that succeeds has started every component once, in the registry's order.
use tick_framework.Base.{
  ◌≡◌, refl, sym, ap, ◌∙◌, subst, false, List, [], ◌∷◌, ◌++◌, map, Option, none, some, Bytes,
  lookup, Res, ok, arith, All,
}
use tick_framework.Registry.{
  Component, ComponentState, prepared, initiated, startup, get_sorted_components,
}
use tick_framework.Registry.Validity.{IsValid, NamesDistinct}
use tick_framework.Registry.Sorted.{get_sorted_components_lem}
use tick_framework.Engine.{
  Hook, initiate, on_startup, state_initiate, state_startup, Failure, EngineError, World, Engine,
  Act, ◌>>◌, next, is_state, state_of, read_state, visit, visit_hooks, visit_all, visit_slice,
  visit_sorted, start_components, start_all, start_up, outside, run_callback, initiate_all, finish,
  returns, routes_failed, injection_failed,
}
use tick_framework.Engine.Steps.{
  Keeps, chain-Keeps, outside-Keeps, initiate_all-Keeps, inject_and_call-Keeps,
}
use tick_framework.Engine.Phases.{next_returns, IsVisited, visit_all-IsVisited}

module _ {C V K Ctx E : Type 0} (w : World C K Ctx E) (end : Failure E → EngineError E)
    (from to : ComponentState) (h : Hook) where
  pub visit_hooks_passes :
      (name : Bytes) (r : Option (Hook → Ctx → Res E (Option Ctx))) (e e1 : Engine C V K Ctx)
      → is_state (state_of name e) from ≡ false
      → visit_hooks {C = C} end from to h name r e ≡ (ok tt, e1)
      → e1 ≡ e
  unfolding visit_hooks
  visit_hooks_passes name none e e1 off q = ground arith
  visit_hooks_passes name (some run) e e1 off q =
      let passed : visit_hooks {C = C} end from to h name (some run) e ≡ (ok tt, e) = rw off refl in
      sym (ap (λ p. p.1) (sym passed ∙ q))

  -- Components that are in another state are passed over.
  visit_all_passes :
      (cs : List (Component C)) (e e' : Engine C V K Ctx)
      → All (λ c. is_state (state_of c.name e) from ≡ false) cs
      → visit_all w end from to h (map some cs) e ≡ (ok tt, e')
      → e' ≡ e
  unfolding visit_all visit
  visit_all_passes [] e e' off q = sym (ap (λ p. p.1) q)
  visit_all_passes (c ∷ cs) e e' (off, offs) q =
      let (e1, q1, q2) =
        next_returns (visit w end from to h c.name (some c) e)
          (visit_all w end from to h (map some cs)) e' q in
      let same = visit_hooks_passes c.name (w.hooks c.component) e e1 off q1 in
      visit_all_passes cs e e' offs
        (subst (λ x. visit_all w end from to h (map some cs) x ≡ (ok tt, e')) same q2)

not_prepared :
    {C V K Ctx : Type 0} (cs : List (Component C)) (e : Engine C V K Ctx)
    → All (λ c. state_of c.name e ≡ initiated) cs
    → All (λ c. is_state (state_of c.name e) prepared ≡ false) cs
not_prepared [] e at = tt
not_prepared (c ∷ cs) e (at, ats) = (rw at refl, not_prepared cs e ats)

module _ {C V K Ctx E : Type 0} (w : World C K Ctx E) where
  -- What `Startup` does before it comes to the components.
  abbrev before_components : Act C V K Ctx E
  before_components =
      (λ e. initiate_all w (w.range e.middlewares.middleware_map) e)
      >> run_callback w
      >> outside (λ x. returns (routes_failed x)) w.add_routes
      >> outside (λ x. returns (injection_failed x)) w.inject

  -- An engine with the same registry and the same calls.
  abbrev IsSame : Engine C V K Ctx → Engine C V K Ctx → Type 0
  IsSame e e1 = (e1.registry ≡ e.registry) × (e1.calls ≡ e.calls)

  before_components-IsSame : (e : Engine C V K Ctx) → Keeps (IsSame e) before_components
  unfolding run_callback
  before_components-IsSame e =
      chain-Keeps (IsSame e) _ _
        (chain-Keeps (IsSame e) _ _
          (chain-Keeps (IsSame e) _ _
            (λ e1.
              initiate_all-Keeps (IsSame e) (λ _ _ a. a) w (w.range e1.middlewares.middleware_map)
                e1)
            (inject_and_call-Keeps (IsSame e) (λ _ _ a. a) w.inject_callback w.callback_startup))
          (outside-Keeps (IsSame e) (λ x. returns (routes_failed x)) w.add_routes))
        (outside-Keeps (IsSame e) (λ x. returns (injection_failed x)) w.inject)

  -- The loops of `Startup` on components that are all initiated.
  start_components-IsVisited :
      (cs : List (Component C)) (e e' : Engine C V K Ctx)
      → NamesDistinct cs
      → All (λ c. state_of c.name e ≡ initiated) cs
      → start_components w (map some cs) e ≡ (ok tt, e')
      → IsVisited startup on_startup cs e e'
  start_components-IsVisited cs e e' d at q =
      let (e1, q1, q2) =
        next_returns (visit_all w returns prepared initiated initiate (map some cs) e)
          (visit_all w returns initiated startup on_startup (map some cs)) e' q in
      let same =
        visit_all_passes w returns prepared initiated initiate cs e e1 (not_prepared cs e at) q1 in
      visit_all-IsVisited w returns initiated startup on_startup cs e e' d at (
        subst (λ x. visit_all w returns initiated startup on_startup (map some cs) x ≡ (ok tt, e'))
          same q2)

  -- The same behind the registry's own list of them.
  visit_sorted-IsVisited :
      (e e1 e2 : Engine C V K Ctx)
      → IsValid e.registry
      → All (λ c. state_of c.name e ≡ initiated) e.registry.components
      → e1.registry ≡ e.registry
      → visit_sorted w (start_components w) e1 ≡ (ok tt, e2)
      → IsVisited startup on_startup e.registry.components e1 e2
  unfolding visit_sorted visit_slice
  visit_sorted-IsVisited e e1 e2 v at same q =
      let sorted : get_sorted_components false e1.registry ≡ some (map some e.registry.components) =
        ap (get_sorted_components false) same ∙ get_sorted_components_lem e.registry v in
      let at1 : All (λ c. state_of c.name e1 ≡ initiated) e.registry.components =
        subst
          (λ r.
            All (λ c. read_state (lookup c.name r.component_states) ≡ initiated)
              e.registry.components)
          (sym same) at in
      start_components-IsVisited e.registry.components e1 e2 v.distinct at1
        (subst (λ s. visit_slice (start_components w) s e1 ≡ (ok tt, e2)) sorted q)

  -- On an engine that is not started, whose registry is valid and whose components are all
  -- initiated, as `New` leaves them: a `Startup` that returns without an error has called the
  -- `OnStartup` of every component once, in the order of the registry, and no other hook; the
  -- components are all in the state startup, and the engine is, so that another `Startup` does
  -- nothing.
  pub start_up-order :
      (e e' : Engine C V K Ctx)
      → e.state ≡ state_initiate
      → IsValid e.registry
      → All (λ c. state_of c.name e ≡ initiated) e.registry.components
      → start_up w e ≡ (ok tt, e')
      → (e'.calls ≡ e.calls ++ map (λ c. (c.name, on_startup)) e.registry.components)
        × All (λ c. state_of c.name e' ≡ startup) e.registry.components
        × (e'.state ≡ state_startup)
        × (start_up w e' ≡ (ok tt, e'))
  unfolding start_up start_all
  start_up-order e e' idle v at q =
      let q0 : start_all w e ≡ (ok tt, e') = sym (rw (idle, start_up) refl) ∙ q in
      let (e2, q1, q2) =
        next_returns (next (before_components e) (visit_sorted w (start_components w)))
          (finish state_startup) e' q0 in
      let (e1, q3, q4) =
        next_returns (before_components e) (visit_sorted w (start_components w)) e2 q1 in
      let same : IsSame e e1 =
        subst (IsSame e) (ap (λ p. p.1) q3) (before_components-IsSame e e (refl, refl)) in
      let visited : IsVisited startup on_startup e.registry.components e1 e2 =
        visit_sorted-IsVisited e e1 e2 v at same.0 q4 in
      let end : record e2 { state = state_startup } ≡ e' = ap (λ p. p.1) q2 in
      subst
        (λ x.
          (x.calls
            ≡ e.calls ++ map (λ (c : Component C). (c.name, on_startup)) e.registry.components)
          × All (λ (c : Component C). state_of c.name x ≡ startup) e.registry.components
          × (x.state ≡ state_startup)
          × (start_up w x ≡ (ok tt, x)))
        end
        (
          visited.calls
              ∙ ap
                  (λ cs.
                    cs ++ map (λ (c : Component C). (c.name, on_startup)) e.registry.components)
                  same.1,
          visited.reached,
          refl,
          refl,
        )
