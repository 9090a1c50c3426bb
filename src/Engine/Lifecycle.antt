-- ===== src/Engine/Lifecycle.antt =====
-- ltick.go: what holds of the calls of hooks over `New`, `Startup` and `Shutdown`.
use tick_framework.Base.{
  ◌≡◌, refl, sym, ap, ◌∙◌, Bool, true, false, Bool-cases, List, [], ◌∷◌, Option, none, some, Bytes,
  lookup, Res, ok, fail, panic, inl, inr, codes,
}
use tick_framework.Registry.{
  Component, Registry, RegistryError, init, prepared, initiated, startup, shutdown,
  get_sorted_components, register_component, get_component_by_name,
}
use tick_framework.Engine.{
  prepare, initiate, on_startup, on_shutdown, World, Engine, Act, state_of, is_initial, is_running,
  start_components, visit_sorted, visit, visit_all, run_callback, end_callback, start_all, start_up,
  shut_all, shut_down, exits, returns, injection_failed, callback_failed, routes_failed,
  configuration_failed, registered, read_state, register_config, config_component, start_found,
  start_config, new_engine,
}
use tick_framework.Engine.Calls.{
  Accords, visit_all-Keeps, visit_names-Keeps, visit-Keeps, hooks_of, hooks_until,
}
use tick_framework.Engine.Steps.{
  Keeps, chain-Keeps, outside-Keeps, initiate_all-Keeps, call_if_any-Keeps, inject_and_call-Keeps,
  visit_slice-Keeps,
}
use tick_framework.Engine.Registering.{register-reads}

module _ {C V K Ctx E : Type 0} (w : World C K Ctx E) where
  start_components-Keeps :
      (cs : List (Option (Component C))) → Keeps (Accords {V = V}) (start_components w cs)
  unfolding hooks_until
  start_components-Keeps cs =
      chain-Keeps Accords (visit_all w returns prepared initiated initiate cs)
        (visit_all w returns initiated startup on_startup cs)
        (visit_all-Keeps w returns prepared initiated initiate refl cs)
        (visit_all-Keeps w returns initiated startup on_startup refl cs)

  pub start_all-Keeps : Keeps (Accords {V = V}) (start_all w)
  unfolding start_all run_callback visit_sorted
  start_all-Keeps =
      chain-Keeps Accords _ _
        (chain-Keeps Accords _ _
          (chain-Keeps Accords _ _
            (chain-Keeps Accords _ _
              (chain-Keeps Accords _ _
                (λ e.
                  initiate_all-Keeps Accords (λ e ctx a. a) w (w.range e.middlewares.middleware_map)
                    e)
                (inject_and_call-Keeps Accords (λ e ctx a. a) w.inject_callback w.callback_startup))
              (outside-Keeps Accords (λ x. returns (routes_failed x)) w.add_routes))
            (outside-Keeps Accords (λ x. returns (injection_failed x)) w.inject))
          (λ e.
            visit_slice-Keeps Accords (start_components w) start_components-Keeps
              (get_sorted_components false e.registry) e))
        (λ e a. a)

  registered-Accords :
      (o : Option (Res RegistryError (Unit {0}) × Registry C V)) (e : Engine C V K Ctx)
      → ((x : Res RegistryError (Unit {0})) (r : Registry C V) (n : Bytes)
          → o ≡ some (x, r)
          → read_state (lookup n r.component_states) ≡ state_of n e)
      → Accords e
      → Accords (registered {E = E} o e).1
  unfolding registered
  registered-Accords none e f a n = a n
  registered-Accords (some (ok u, r)) e f a n = a n ∙ ap hooks_until (sym (f (ok u) r n refl))
  registered-Accords (some (fail x, r)) e f a n = a n ∙ ap hooks_until (sym (f (fail x) r n refl))
  registered-Accords (some (panic, r)) e f a n = a n ∙ ap hooks_until (sym (f panic r n refl))

  register_config-Keeps : (config : C) → Keeps (Accords {V = V}) (register_config w config)
  unfolding register_config
  register_config-Keeps config e a =
      registered-Accords (register_component (config_component config) true e.registry) e
        (λ x r n. register-reads (config_component config) true e.registry r x n) a

  start_found-Keeps :
      (c : Option (Res RegistryError (Component C))) → Keeps (Accords {V = V}) (start_found w c)
  unfolding start_found hooks_until
  start_found-Keeps (some (ok c)) e a =
      chain-Keeps Accords (visit w exits init prepared prepare c.name (some c))
        (visit w exits prepared initiated initiate c.name (some c))
        (visit-Keeps w exits init prepared prepare refl c.name (some c))
        (visit-Keeps w exits prepared initiated initiate refl c.name (some c)) e a
  start_found-Keeps (some (fail x)) e a = a
  start_found-Keeps (some panic) e a = a
  start_found-Keeps none e a = a

  pub new_engine-Keeps : (config : C) → Keeps (Accords {V = V}) (new_engine w config)
  unfolding new_engine start_config visit_sorted hooks_until
  new_engine-Keeps config =
      chain-Keeps Accords _ _
        (chain-Keeps Accords _ _
          (chain-Keeps Accords _ _
            (chain-Keeps Accords _ _
              (chain-Keeps Accords _ _ (register_config-Keeps config)
                (λ e. start_found-Keeps (get_component_by_name (codes "Config") e.registry) e))
              (outside-Keeps Accords (λ x. exits (injection_failed x)) w.inject))
            (λ e.
              visit_names-Keeps w exits init prepared prepare refl e.registry.sorted_component_name
                e))
          (outside-Keeps Accords (λ x. exits (configuration_failed x)) w.load_config))
        (λ e.
          visit_slice-Keeps Accords (visit_all w exits prepared initiated initiate)
            (visit_all-Keeps w exits prepared initiated initiate refl)
            (get_sorted_components false e.registry) e)

  shut_all-Keeps : Keeps (Accords {V = V}) (shut_all w)
  unfolding shut_all end_callback visit_sorted hooks_until
  shut_all-Keeps =
      chain-Keeps Accords _ _
        (chain-Keeps Accords _ _
          (λ e.
            visit_slice-Keeps Accords (visit_all w returns startup shutdown on_shutdown)
              (visit_all-Keeps w returns startup shutdown on_shutdown refl)
              (get_sorted_components false e.registry) e)
          (call_if_any-Keeps Accords (λ e ctx a. a) (λ x. returns (callback_failed x))
            w.callback_shutdown))
        (λ e a. a)

  start_up-Keeps : Keeps (Accords {V = V}) (start_up w)
  unfolding start_up
  start_up-Keeps e a = elim (Bool-cases (is_initial e.state)) [
    | inl q ↦ rw q (start_all-Keeps e a)
    | inr q ↦ rw q a
  ]

  shut_down-Keeps : Keeps (Accords {V = V}) (shut_down w)
  unfolding shut_down
  shut_down-Keeps e a = elim (Bool-cases (is_running e.state)) [
    | inl q ↦ rw q (shut_all-Keeps e a)
    | inr q ↦ rw q a
  ]

  -- The engine behind a method, whether that has returned or failed.
  abbrev pub method : Bool → Act C V K Ctx E
  method true = start_up w
  method false = shut_down w

  -- The engine behind calls of `Startup` (true) and `Shutdown` (false) in any order.
  unfoldable pub behind : List Bool → Engine C V K Ctx → Engine C V K Ctx
  behind [] e = e
  behind (m ∷ ms) e = behind ms (method m e).1

  behind-Accords : (ms : List Bool) (e : Engine C V K Ctx) → Accords e → Accords (behind ms e)
  unfolding behind
  behind-Accords [] e a = a
  behind-Accords (true ∷ ms) e a = behind-Accords ms (start_up w e).1 (start_up-Keeps e a)
  behind-Accords (false ∷ ms) e a = behind-Accords ms (shut_down w e).1 (shut_down-Keeps e a)

  -- On a registry where every component reads as not prepared, and with no hook called yet: after
  -- `New`, and after any calls of `Startup` and `Shutdown` behind it, the hooks that were called
  -- for a name are those that lead to its state, in their order and each once, also where a method
  -- has failed.
  pub calls_accord :
      (config : C) (ms : List Bool) (e : Engine C V K Ctx)
      → e.calls ≡ []
      → ((name : Bytes) → state_of name e ≡ init)
      → (name : Bytes)
      → hooks_of name (behind ms (new_engine w config e).1).calls
        ≡ hooks_until (state_of name (behind ms (new_engine w config e).1))
  unfolding hooks_of hooks_until
  calls_accord config ms e none_called fresh =
      behind-Accords ms (new_engine w config e).1
        (new_engine-Keeps config e (λ name. rw (none_called, fresh name) refl))
