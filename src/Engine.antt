-- ===== src/Engine.antt =====
-- ltick.go: the engine, and the hooks of the components from its making to its shutdown.
pub mod Steps
pub mod Visits
pub mod Calls
pub mod Registering
pub mod Phases
pub mod Starting
pub mod Making
pub mod Lifecycle
mod Tests
use tick_framework.Base.{
  Bool, true, false, not, List, [], ◌∷◌, ◌++◌, map, Option, none, some, Bytes, GoMap, codes, lookup,
  assign, if◌then◌else◌, Res, ok, fail, panic,
}
use tick_framework.Registry.{
  Component, Registry, RegistryError, ComponentState, init, prepared, initiated, startup, shutdown,
  register_component, get_component_by_name, get_sorted_components,
}
use tick_framework.Middleware.{Middleware, MiddlewareRegistry}

-- The methods of `ComponentInterface`.
pub data Hook : Type 0 where
  prepare initiate on_startup on_shutdown : Hook

-- `State`
pub data State : Type 0 where
  state_initiate state_startup state_shutdown : State

-- Where an error comes from. What annotates it, such as the name of the component, is left out.
pub data Failure (E : Type 0) : Type 0 where
  invalid_type : Failure E
  registry_failed : RegistryError → Failure E
  hook_failed : Hook → E → Failure E
  middleware_failed : E → Failure E
  injection_failed : E → Failure E
  configuration_failed : E → Failure E
  callback_failed : E → Failure E
  routes_failed : E → Failure E

-- `os.Exit` after an error, or the return of an error
pub data EngineError (E : Type 0) : Type 0 where
  exits returns : Failure E → EngineError E

-- What the engine calls of the code it is given: a component's hooks, or a nil component; a
-- middleware's `Initiate`, or a nil middleware; injection, which is reflection; the loading of the
-- configuration; the injection into the callback and its methods, if there is one; the assembly of
-- the routes of all servers. None of them changes the state of a component, or more of the engine
-- than its context.
-- `range` is the order in which Go goes through a map.
pub record World (C K Ctx E : Type 0) : Type 0 where
  pub hooks : C → Option (Hook → Ctx → Res E (Option Ctx))
  pub initiate_middleware : K → Option (Ctx → Res E (Option Ctx))
  pub inject : Res E (Unit {0})
  pub load_config : Res E (Unit {0})
  pub inject_callback : Res E (Unit {0})
  pub callback_startup : Option (Ctx → Res E (Unit {0}) × Ctx)
  pub callback_shutdown : Option (Ctx → Res E (Unit {0}) × Ctx)
  pub add_routes : Res E (Unit {0})
  pub range : GoMap (Middleware K) → List (Middleware K)

-- `Engine`, and the hooks that it has called, the latest last.
pub record Engine (C V K Ctx : Type 0) : Type 0 where
  pub state : State
  pub registry : Registry C V
  pub middlewares : MiddlewareRegistry K
  pub context : Ctx
  pub calls : List (Bytes × Hook)

abbrev pub is_state : ComponentState → ComponentState → Bool
is_state init init = true
is_state prepared prepared = true
is_state initiated initiated = true
is_state startup startup = true
is_state shutdown shutdown = true
is_state _ _ = false

abbrev pub is_initial : State → Bool
is_initial state_initiate = true
is_initial _ = false

abbrev pub is_running : State → Bool
is_running state_startup = true
is_running _ = false

-- `ComponentStates[name]`; a missing entry reads as the first state.
abbrev pub read_state : Option ComponentState → ComponentState
read_state none = init
read_state (some s) = s

-- What a method does: it returns, fails or panics, and leaves an engine.
abbrev pub Act : (C V K Ctx E : Type 0) → Type 0
Act C V K Ctx E = Engine C V K Ctx → Res (EngineError E) (Unit {0}) × Engine C V K Ctx

-- What comes behind a step that has returned.
unfoldable pub next :
    {C V K Ctx E : Type 0}
    → Res (EngineError E) (Unit {0}) × Engine C V K Ctx
    → Act C V K Ctx E
    → Res (EngineError E) (Unit {0}) × Engine C V K Ctx
next (ok u, e) k = k e
next (fail x, e) k = (fail x, e)
next (panic, e) k = (panic, e)

infixl 5 ◌>>◌
abbrev pub ◌>>◌ : {C V K Ctx E : Type 0} → Act C V K Ctx E → Act C V K Ctx E → Act C V K Ctx E
◌>>◌ m k e = next (m e) k

module _ {C V K Ctx : Type 0} where
  abbrev pub state_of : Bytes → Engine C V K Ctx → ComponentState
  state_of name e = read_state (lookup name e.registry.component_states)

  -- the new state of a component, before its hook is called
  abbrev pub enter : Bytes → ComponentState → Hook → Engine C V K Ctx → Engine C V K Ctx
  enter name to hook e = record e {
    registry = record (e.registry) {
      component_states = assign name to e.registry.component_states;
    };
    calls = e.calls ++ (name, hook) ∷ [];
  }

  -- a context that a hook answers with, if it is not nil
  abbrev pub adopt : Option Ctx → Engine C V K Ctx → Engine C V K Ctx
  adopt none e = e
  adopt (some ctx) e = record e { context = ctx }

module _ {C V K Ctx E : Type 0} where
  -- A step whose outcome does not depend on the engine.
  abbrev pub outside : (E → EngineError E) → Res E (Unit {0}) → Act C V K Ctx E
  outside wrap r e = elim r [ ok u ↦ (ok u, e) | fail x ↦ (fail (wrap x), e) | panic ↦ (panic, e) ]

  -- The state is set before the hook runs, and stays when it fails.
  unfoldable pub call_hook :
      (Failure E → EngineError E)
      → ComponentState
      → Hook
      → Bytes
      → Res E (Option Ctx)
      → Act C V K Ctx E
  call_hook end to hook name (ok ctx) e = (ok tt, adopt ctx (enter name to hook e))
  call_hook end to hook name (fail x) e = (fail (end (hook_failed hook x)), enter name to hook e)
  call_hook end to hook name panic e = (panic, enter name to hook e)

  -- What is done with the hooks of a component that is not nil.
  unfoldable pub visit_hooks :
      (Failure E → EngineError E)
      → ComponentState
      → ComponentState
      → Hook
      → Bytes
      → Option (Hook → Ctx → Res E (Option Ctx))
      → Act C V K Ctx E
  visit_hooks end from to hook name none e = (fail (end invalid_type), e)
  visit_hooks end from to hook name (some run) e =
      if is_state (state_of name e) from
      then call_hook end to hook name (run hook e.context) e
      else (ok tt, e)

  -- A callback's answer, and the context that it leaves
  unfoldable pub called : (E → EngineError E) → Res E (Unit {0}) × Ctx → Act C V K Ctx E
  called wrap r e = outside wrap r.0 (record e { context = r.1 })

  unfoldable pub call_if_any :
      (E → EngineError E) → Option (Ctx → Res E (Unit {0}) × Ctx) → Act C V K Ctx E
  call_if_any wrap none e = (ok tt, e)
  call_if_any wrap (some run) e = called wrap (run e.context) e

  -- The callback of `Startup` gets its components first.
  unfoldable pub inject_and_call :
      Res E (Unit {0}) → Option (Ctx → Res E (Unit {0}) × Ctx) → Act C V K Ctx E
  inject_and_call inject none e = (ok tt, e)
  inject_and_call inject (some run) e =
      (outside (λ x. exits (injection_failed x)) inject
          >> call_if_any (λ x. exits (callback_failed x)) (some run))
        e

  unfoldable pub middleware_answered : Res E (Option Ctx) → Act C V K Ctx E
  middleware_answered (ok ctx) e = (ok tt, adopt ctx e)
  middleware_answered (fail x) e = (fail (exits (middleware_failed x)), e)
  middleware_answered panic e = (panic, e)

  -- One round of the loop over the middlewares.
  unfoldable pub initiate_middleware_with : Option (Ctx → Res E (Option Ctx)) → Act C V K Ctx E
  initiate_middleware_with none e = (fail (exits invalid_type), e)
  initiate_middleware_with (some run) e = middleware_answered (run e.context) e

  unfoldable pub registered : Option (Res RegistryError (Unit {0}) × Registry C V) → Act C V K Ctx E
  registered none e = (panic, e)
  registered (some (ok u, r)) e = (ok tt, record e { registry = r })
  registered (some (fail x, r)) e = (fail (exits (registry_failed x)), record e { registry = r })
  registered (some (panic, r)) e = (panic, record e { registry = r })

  -- A loop over sorted components, if they could be got.
  unfoldable pub visit_slice :
      (List (Option (Component C)) → Act C V K Ctx E)
      → Option (List (Option (Component C)))
      → Act C V K Ctx E
  visit_slice loop none e = (panic, e)
  visit_slice loop (some cs) e = loop cs e

  abbrev pub finish : State → Act C V K Ctx E
  finish state e = (ok tt, record e { state = state })

abbrev pub config_component : {C : Type 0} → C → Component C
config_component config = record {
  name = codes "Config";
  component = config;
  configure_path = [];
  dependencies = [];
}

module _ {C V K Ctx E : Type 0} (w : World C K Ctx E) where
  -- One round for a component, under a name: in the state `from` its hook is called, and it is in
  -- the state `to`.
  unfoldable pub visit :
      (Failure E → EngineError E)
      → ComponentState
      → ComponentState
      → Hook
      → Bytes
      → Option (Component C)
      → Act C V K Ctx E
  visit end from to hook name none e = (panic, e)
  visit end from to hook name (some c) e = visit_hooks end from to hook name (w.hooks c.component) e

  -- The loops over the sorted components.
  unfoldable pub visit_all :
      (Failure E → EngineError E)
      → ComponentState
      → ComponentState
      → Hook
      → List (Option (Component C))
      → Act C V K Ctx E
  visit_all end from to hook [] e = (ok tt, e)
  visit_all end from to hook (none ∷ cs) e = (panic, e)
  visit_all end from to hook (some c ∷ cs) e =
      (visit end from to hook c.name (some c) >> visit_all end from to hook cs) e

  -- The loop of `New` over the sorted names.
  unfoldable pub visit_names :
      (Failure E → EngineError E)
      → ComponentState
      → ComponentState
      → Hook
      → List Bytes
      → Act C V K Ctx E
  visit_names end from to hook [] e = (ok tt, e)
  visit_names end from to hook (name ∷ names) e =
      (visit end from to hook name (lookup name e.registry.component_map)
          >> visit_names end from to hook names)
        e

  -- `GetSortedComponents` of the registry as it is, and what is done with them
  unfoldable pub visit_sorted : (List (Option (Component C)) → Act C V K Ctx E) → Act C V K Ctx E
  visit_sorted loop e = visit_slice loop (get_sorted_components false e.registry) e

  -- The registration of the component Config in `New`.
  unfoldable pub register_config : C → Act C V K Ctx E
  register_config config e =
      registered (register_component (config_component config) true e.registry) e

  unfoldable pub start_found : Option (Res RegistryError (Component C)) → Act C V K Ctx E
  start_found (some (ok c)) e =
      (visit exits init prepared prepare c.name (some c)
          >> visit exits prepared initiated initiate c.name (some c))
        e
  start_found (some (fail x)) e = (panic, e)
  start_found (some panic) e = (panic, e)
  start_found none e = (panic, e)

  -- Preparing and initiating it at once.
  unfoldable pub start_config : Act C V K Ctx E
  start_config e = start_found (get_component_by_name (codes "Config") e.registry) e

  -- `New`, on the engine as it is when its fields are set
  unfoldable pub new_engine : C → Act C V K Ctx E
  new_engine config =
      register_config config
      >> start_config
      >> outside (λ x. exits (injection_failed x)) w.inject
      >> (λ e. visit_names exits init prepared prepare e.registry.sorted_component_name e)
      >> outside (λ x. exits (configuration_failed x)) w.load_config
      >> visit_sorted (visit_all exits prepared initiated initiate)

  -- The loop over the middlewares.
  unfoldable pub initiate_all : List (Middleware K) → Act C V K Ctx E
  initiate_all [] e = (ok tt, e)
  initiate_all (m ∷ ms) e =
      (initiate_middleware_with (w.initiate_middleware m.middleware) >> initiate_all ms) e

  unfoldable pub run_callback : Act C V K Ctx E
  run_callback = inject_and_call w.inject_callback w.callback_startup

  -- The loops of `Startup` over the components.
  abbrev pub start_components : List (Option (Component C)) → Act C V K Ctx E
  start_components cs =
      visit_all returns prepared initiated initiate cs
      >> visit_all returns initiated startup on_startup cs

  -- the part of `Startup` that follows its guard
  unfoldable pub start_all : Act C V K Ctx E
  start_all =
      (λ e. initiate_all (w.range e.middlewares.middleware_map) e)
      >> run_callback
      >> outside (λ x. returns (routes_failed x)) w.add_routes
      >> outside (λ x. returns (injection_failed x)) w.inject
      >> visit_sorted start_components
      >> finish state_startup

  unfoldable pub start_up : Act C V K Ctx E
  start_up e = if is_initial e.state then start_all e else (ok tt, e)

  unfoldable pub end_callback : Act C V K Ctx E
  end_callback = call_if_any (λ x. returns (callback_failed x)) w.callback_shutdown

  unfoldable pub shut_all : Act C V K Ctx E
  shut_all =
      visit_sorted (visit_all returns startup shutdown on_shutdown)
      >> end_callback
      >> finish state_shutdown

  unfoldable pub shut_down : Act C V K Ctx E
  shut_down e = if is_running e.state then shut_all e else (ok tt, e)
