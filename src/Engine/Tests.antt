-- ===== src/Engine/Tests.antt =====
-- Runs of the engine.
use tick_framework.Base.{
  ℕ, ◌≡◌, refl, sym, Bool, true, false, Bool-cases, inl, inr, List, [], ◌∷◌, ◌++◌, map, Option,
  none, some, Bytes, codes, bytes_eq, if◌then◌else◌, Res, ok, fail, All, GoMap, lookup,
}
use tick_framework.Registry.{
  Component, Registry, ComponentState, init, prepared, initiated, startup,
}
use tick_framework.Registry.Validity.{IsValid, others}
use tick_framework.Registry.Name.{canonical_name}
use tick_framework.Middleware.{empty_registry}
use tick_framework.Engine.{
  config_component, Hook, prepare, initiate, on_startup, on_shutdown, State, state_initiate,
  state_startup, World, Engine, state_of, returns, hook_failed, new_engine, start_up, shut_down,
}
use tick_framework.Engine.Calls.{hooks_of, hooks_until}
use tick_framework.Engine.Lifecycle.{behind, calls_accord}
use tick_framework.Engine.Making.{new_engine-initiated}
use tick_framework.Engine.Starting.{start_up-order}

-- A component is true if its `Initiate` fails for the context 0; every other hook answers with the
-- context 1.
abbrev answer : Bool → Hook → ℕ → Res ℕ (Option ℕ)
answer true initiate ℕ.zero = fail 4
answer c h ctx = ok (some 1)

abbrev world : World Bool ℕ ℕ ℕ
world = record {
  hooks = λ c. some (answer c);
  initiate_middleware = λ m. some (λ ctx. ok none);
  inject = ok tt;
  load_config = ok tt;
  inject_callback = ok tt;
  callback_startup = some (λ ctx. (ok tt, ctx));
  callback_shutdown = none;
  add_routes = ok tt;
  range = λ m. [];
}

abbrev log_component : Component Bool
log_component = record {
  name = codes "Log";
  component = false;
  configure_path = [];
  dependencies = [];
}

abbrev queue_component : Component Bool
queue_component = record {
  name = codes "Queue";
  component = false;
  configure_path = [];
  dependencies = [];
}

abbrev registry : ComponentState → Registry Bool ℕ
registry s = record {
  components = log_component ∷ queue_component ∷ [];
  component_map = (codes "Log", log_component) ∷ (codes "Queue", queue_component) ∷ [];
  sorted_component_name = codes "Log" ∷ codes "Queue" ∷ [];
  values = [];
  component_states = (codes "Log", s) ∷ (codes "Queue", s) ∷ [];
}

abbrev engine : ComponentState → Engine Bool ℕ ℕ ℕ
engine s = record {
  state = state_initiate;
  registry = registry s;
  middlewares = empty_registry;
  context = 0;
  calls = [];
}

registry-IsValid : (s : ComponentState) → IsValid (registry s)
unfolding tick_framework.Registry.Named.find_named lookup bytes_eq
registry-IsValid s = record {
  distinct = ((refl, tt), (tt, tt));
  ordered = refl;
  mapped = λ key. refl;
}

fresh : (name : Bytes) → state_of name (engine init) ≡ init
unfolding lookup
fresh name = elim (Bool-cases (bytes_eq (codes "Log") name)) [
  | inl e ↦ rw (e, lookup) refl
  | inr n ↦ elim (Bool-cases (bytes_eq (codes "Queue") name)) [
    | inl e ↦ rw (n, e, lookup) refl
    | inr m ↦ rw (n, m, lookup) refl
  ]
]

-- the engine behind `New`, `Startup` and `Shutdown`
abbrev served : Engine Bool ℕ ℕ ℕ
served = behind world (true ∷ false ∷ []) (new_engine world false (engine init)).1

calls_accord_example :
    hooks_of (codes "Log") served.calls ≡ hooks_until (state_of (codes "Log") served)
calls_accord_example =
    calls_accord world false (true ∷ false ∷ []) (engine init) refl fresh (codes "Log")

-- the engine behind a `Startup`
abbrev started : Engine Bool ℕ ℕ ℕ
started = (start_up world (engine initiated)).1

start_up-order_example :
    (started.calls ≡ [] ++ map (λ c. (c.name, on_startup)) (log_component ∷ queue_component ∷ []))
    × All (λ c. state_of c.name started ≡ startup) (log_component ∷ queue_component ∷ [])
    × (started.state ≡ state_startup)
    × (start_up world started ≡ (ok tt, started))
unfolding start_up tick_framework.Engine.start_all tick_framework.Engine.next
    tick_framework.Engine.initiate_all tick_framework.Engine.run_callback
    tick_framework.Engine.inject_and_call tick_framework.Engine.call_if_any
    tick_framework.Engine.called tick_framework.Engine.visit_sorted
    tick_framework.Engine.visit_slice tick_framework.Engine.visit_all tick_framework.Engine.visit
    tick_framework.Engine.visit_hooks tick_framework.Engine.call_hook
    tick_framework.Registry.get_sorted_components tick_framework.Registry.present_components
    tick_framework.Registry.fill_slice tick_framework.Base.assign lookup bytes_eq
start_up-order_example =
    start_up-order world (engine initiated) started refl (registry-IsValid initiated)
      (refl, (refl, tt)) refl

-- a component of the name "log"
abbrev lower_component : Component Bool
lower_component = record {
  name = codes "log";
  component = false;
  configure_path = [];
  dependencies = [];
}

abbrev lower_engine : Engine Bool ℕ ℕ ℕ
lower_engine = record {
  state = state_initiate;
  registry = record {
    components = lower_component ∷ [];
    component_map = (codes "Log", lower_component) ∷ [];
    sorted_component_name = codes "Log" ∷ [];
    values = [];
    component_states = (codes "log", init) ∷ [];
  };
  middlewares = empty_registry;
  context = 0;
  calls = [];
}

-- it is prepared, and not initiated
lower_not_initiated :
    (new_engine world false lower_engine).1.calls
    ≡ (codes "Config", prepare) ∷ (codes "Config", initiate) ∷ (codes "Log", prepare) ∷ []
unfolding new_engine tick_framework.Engine.register_config tick_framework.Engine.registered
    tick_framework.Engine.start_config tick_framework.Engine.start_found
    tick_framework.Engine.visit_names tick_framework.Registry.register_component
    tick_framework.Registry.note_state tick_framework.Registry.append_component
    tick_framework.Registry.get_component_by_name canonical_name
    tick_framework.Registry.Name.upper_byte tick_framework.Engine.start_all
    tick_framework.Engine.next tick_framework.Engine.initiate_all tick_framework.Engine.run_callback
    tick_framework.Engine.inject_and_call tick_framework.Engine.call_if_any
    tick_framework.Engine.called tick_framework.Engine.visit_sorted
    tick_framework.Engine.visit_slice tick_framework.Engine.visit_all tick_framework.Engine.visit
    tick_framework.Engine.visit_hooks tick_framework.Engine.call_hook
    tick_framework.Registry.get_sorted_components tick_framework.Registry.present_components
    tick_framework.Registry.fill_slice tick_framework.Base.assign lookup bytes_eq
lower_not_initiated = refl

abbrev failing_component : Component Bool
failing_component = record {
  name = codes "Log";
  component = true;
  configure_path = [];
  dependencies = [];
}

abbrev failing_engine : Engine Bool ℕ ℕ ℕ
failing_engine = record {
  state = state_initiate;
  registry = record {
    components = failing_component ∷ [];
    component_map = (codes "Log", failing_component) ∷ [];
    sorted_component_name = codes "Log" ∷ [];
    values = [];
    component_states = (codes "Log", prepared) ∷ [];
  };
  middlewares = empty_registry;
  context = 0;
  calls = [];
}

-- a `Startup` behind one in which `Initiate` has failed does not call it again
failed_then_started :
    ((start_up world failing_engine).0 ≡ fail (returns (hook_failed initiate 4)))
    × ((start_up world (start_up world failing_engine).1).0 ≡ ok tt)
    × ((start_up world (start_up world failing_engine).1).1.calls
        ≡ (codes "Log", initiate) ∷ (codes "Log", on_startup) ∷ [])
unfolding start_up tick_framework.Engine.start_all tick_framework.Engine.next
    tick_framework.Engine.initiate_all tick_framework.Engine.run_callback
    tick_framework.Engine.inject_and_call tick_framework.Engine.call_if_any
    tick_framework.Engine.called tick_framework.Engine.visit_sorted
    tick_framework.Engine.visit_slice tick_framework.Engine.visit_all tick_framework.Engine.visit
    tick_framework.Engine.visit_hooks tick_framework.Engine.call_hook
    tick_framework.Registry.get_sorted_components tick_framework.Registry.present_components
    tick_framework.Registry.fill_slice tick_framework.Base.assign lookup bytes_eq
failed_then_started = (refl, refl, refl)

-- the engine that `New` makes
abbrev made_engine : Engine Bool ℕ ℕ ℕ
made_engine = (new_engine world false (engine init)).1

new_engine-initiated_example :
    IsValid made_engine.registry
    × (made_engine.registry.components
        ≡ others (codes "Config") (log_component ∷ queue_component ∷ [])
          ++ config_component false ∷ [])
    × (made_engine.state ≡ state_initiate)
    × All (λ c. state_of c.name made_engine ≡ initiated) made_engine.registry.components
unfolding new_engine tick_framework.Engine.register_config tick_framework.Engine.registered
    tick_framework.Engine.start_config tick_framework.Engine.start_found
    tick_framework.Engine.visit_names tick_framework.Registry.register_component
    tick_framework.Registry.note_state tick_framework.Registry.append_component
    tick_framework.Registry.get_component_by_name canonical_name
    tick_framework.Registry.Name.upper_byte tick_framework.Engine.start_all
    tick_framework.Engine.next tick_framework.Engine.initiate_all tick_framework.Engine.run_callback
    tick_framework.Engine.inject_and_call tick_framework.Engine.call_if_any
    tick_framework.Engine.called tick_framework.Engine.visit_sorted
    tick_framework.Engine.visit_slice tick_framework.Engine.visit_all tick_framework.Engine.visit
    tick_framework.Engine.visit_hooks tick_framework.Engine.call_hook
    tick_framework.Registry.get_sorted_components tick_framework.Registry.present_components
    tick_framework.Registry.fill_slice tick_framework.Base.assign lookup bytes_eq
new_engine-initiated_example =
    new_engine-initiated world false (engine init) made_engine (registry-IsValid init) fresh refl
