-- ===== src/Engine/Visits.antt =====
-- ltick.go: what the loops over the components keep, for any property of engines.
use tick_framework.Base.{
  ◌≡◌, refl, true, Bool-cases, List, [], ◌∷◌, Option, none, some, Bytes, lookup, lookup-assign,
  bytes_eq, if◌then◌else◌, Res, ok, fail, panic, inl, inr, arith,
}
use tick_framework.Registry.{
  Component, ComponentState, init, prepared, initiated, startup, shutdown,
}
use tick_framework.Engine.{
  Hook, Failure, EngineError, World, Engine, is_state, state_of, enter, call_hook, visit,
  visit_hooks, visit_all, visit_names,
}
use tick_framework.Engine.Steps.{Keeps, chain-Keeps}

pub is_state_sound : (s t : ComponentState) → is_state s t ≡ true → s ≡ t
is_state_sound init init e = refl
is_state_sound init prepared e = ground arith
is_state_sound init initiated e = ground arith
is_state_sound init startup e = ground arith
is_state_sound init shutdown e = ground arith
is_state_sound prepared init e = ground arith
is_state_sound prepared prepared e = refl
is_state_sound prepared initiated e = ground arith
is_state_sound prepared startup e = ground arith
is_state_sound prepared shutdown e = ground arith
is_state_sound initiated init e = ground arith
is_state_sound initiated prepared e = ground arith
is_state_sound initiated initiated e = refl
is_state_sound initiated startup e = ground arith
is_state_sound initiated shutdown e = ground arith
is_state_sound startup init e = ground arith
is_state_sound startup prepared e = ground arith
is_state_sound startup initiated e = ground arith
is_state_sound startup startup e = refl
is_state_sound startup shutdown e = ground arith
is_state_sound shutdown init e = ground arith
is_state_sound shutdown prepared e = ground arith
is_state_sound shutdown initiated e = ground arith
is_state_sound shutdown startup e = ground arith
is_state_sound shutdown shutdown e = refl

module _ {C V K Ctx : Type 0} where
  pub state_of-enter :
      (name : Bytes) (to : ComponentState) (h : Hook) (n : Bytes) (e : Engine C V K Ctx)
      → state_of n (enter name to h e) ≡ (if bytes_eq name n then to else state_of n e)
  state_of-enter name to h n e = elim (Bool-cases (bytes_eq name n)) [
    | inl q ↦ rw (lookup-assign name n to e.registry.component_states, q) refl
    | inr q ↦ rw (lookup-assign name n to e.registry.component_states, q) refl
  ]

module _ {C V K Ctx E : Type 0} (P : Engine C V K Ctx → Type 0)
    (any_context : (e : Engine C V K Ctx) (ctx : Ctx) → P e → P (record e { context = ctx }))
    (w : World C K Ctx E) (end : Failure E → EngineError E) (from to : ComponentState) (h : Hook)
    (entering : (name : Bytes) (e : Engine C V K Ctx)
      → state_of name e ≡ from
      → P e
      → P (enter name to h e)) where
  call_hook_keeps :
      (name : Bytes) (r : Res E (Option Ctx)) (e : Engine C V K Ctx)
      → state_of name e ≡ from
      → P e
      → P (call_hook end to h name r e).1
  unfolding call_hook
  call_hook_keeps name (ok none) e at a = entering name e at a
  call_hook_keeps name (ok (some ctx)) e at a =
      any_context (enter name to h e) ctx (entering name e at a)
  call_hook_keeps name (fail x) e at a = entering name e at a
  call_hook_keeps name panic e at a = entering name e at a

  visit_hooks-Keeps :
      (name : Bytes) (r : Option (Hook → Ctx → Res E (Option Ctx)))
      → Keeps P (visit_hooks {C = C} end from to h name r)
  unfolding visit_hooks
  visit_hooks-Keeps name none e a = a
  visit_hooks-Keeps name (some run) e a = elim (Bool-cases (is_state (state_of name e) from)) [
    | inl p ↦
        rw p (call_hook_keeps name (run h e.context) e (is_state_sound (state_of name e) from p) a)
    | inr p ↦ rw p a
  ]

  pub visit-Keeps :
      (name : Bytes) (c : Option (Component C)) → Keeps P (visit w end from to h name c)
  unfolding visit
  visit-Keeps name none e a = a
  visit-Keeps name (some c) e a = visit_hooks-Keeps name (w.hooks c.component) e a

  pub visit_all-Keeps : (cs : List (Option (Component C))) → Keeps P (visit_all w end from to h cs)
  unfolding visit_all
  visit_all-Keeps [] e a = a
  visit_all-Keeps (none ∷ cs) e a = a
  visit_all-Keeps (some c ∷ cs) e a =
      chain-Keeps P (visit w end from to h c.name (some c)) (visit_all w end from to h cs)
        (visit-Keeps c.name (some c)) (visit_all-Keeps cs) e a

  pub visit_names-Keeps : (names : List Bytes) → Keeps P (visit_names w end from to h names)
  unfolding visit_names
  visit_names-Keeps [] e a = a
  visit_names-Keeps (name ∷ names) e a =
      chain-Keeps P (visit w end from to h name (lookup name e.registry.component_map))
        (visit_names w end from to h names)
        (visit-Keeps name (lookup name e.registry.component_map)) (visit_names-Keeps names) e a
