-- ===== src/Engine/Phases.antt =====
-- ltick.go: what a loop over the components does, and what a `Startup` that succeeds has done.
use tick_framework.Base.{
  ◌≡◌, refl, sym, ap, subst, bytes_eq_comm, ◌∙◌, true, false, List, [], ◌∷◌, ◌++◌, map, append-nil,
  append_assoc, Option, none, some, Bytes, bytes_eq, bytes_eq_refl, if◌then◌else◌, Res, ok, fail,
  panic, arith, All,
}
use tick_framework.Registry.{
  Component, ComponentState, init, prepared, initiated, startup, shutdown,
}
use tick_framework.Registry.Validity.{name_of, NamesDistinct}
use tick_framework.Engine.{
  Hook, Failure, EngineError, World, Engine, Act, next, is_state, state_of, enter, adopt, call_hook,
  visit, visit_hooks, visit_all,
}
use tick_framework.Engine.Visits.{state_of-enter}

module _ {C V K Ctx E : Type 0} where
  -- A chain that returns has steps that return.
  pub next_returns :
      (r : Res (EngineError E) (Unit {0}) × Engine C V K Ctx) (k : Act C V K Ctx E)
      (e' : Engine C V K Ctx)
      → next r k ≡ (ok tt, e')
      → (e : Engine C V K Ctx) × (r ≡ (ok tt, e)) × (k e ≡ (ok tt, e'))
  unfolding next
  next_returns (ok u, e) k e' q = (e, refl, q)
  next_returns (fail x, e) k e' q = ground arith
  next_returns (panic, e) k e' q = ground arith

is_state_refl : (s : ComponentState) → is_state s s ≡ true
is_state_refl init = refl
is_state_refl prepared = refl
is_state_refl initiated = refl
is_state_refl startup = refl
is_state_refl shutdown = refl

apart_comm :
    {C : Type 0} (n : Bytes) (cs : List (Component C))
    → All (λ c. bytes_eq n c.name ≡ false) cs
    → All (λ c. bytes_eq c.name n ≡ false) cs
apart_comm n [] a = tt
apart_comm n (c ∷ cs) (b, a) = (bytes_eq_comm c.name n ∙ b, apart_comm n cs a)

module _ {C V K Ctx : Type 0} where
  -- The engine behind one call of each component's hook: they are all in the new state.
  pub record IsVisited (to : ComponentState) (h : Hook) (cs : List (Component C))
      (e e' : Engine C V K Ctx) : Type 0 where
    pub components : e'.registry.components ≡ e.registry.components
    pub calls : e'.calls ≡ e.calls ++ map (λ c. (c.name, h)) cs
    pub reached : All (λ c. state_of c.name e' ≡ to) cs
    pub unreached :
        (n : Bytes) → All (λ c. bytes_eq (name_of c) n ≡ false) cs → state_of n e' ≡ state_of n e

  -- What one call makes of an engine.
  pub record IsEntered (to : ComponentState) (h : Hook) (name : Bytes) (e e' : Engine C V K Ctx)
      : Type 0 where
    pub components : e'.registry.components ≡ e.registry.components
    pub calls : e'.calls ≡ e.calls ++ (name, h) ∷ []
    pub states : (n : Bytes) → state_of n e' ≡ (if bytes_eq name n then to else state_of n e)

  adopt-IsEntered :
      (to : ComponentState) (h : Hook) (name : Bytes) (ctx : Option Ctx) (e : Engine C V K Ctx)
      → IsEntered to h name e (adopt ctx (enter name to h e))
  adopt-IsEntered to h name none e = record {
    components = refl;
    calls = refl;
    states = λ n. state_of-enter name to h n e;
  }
  adopt-IsEntered to h name (some ctx) e = record {
    components = refl;
    calls = refl;
    states = λ n. state_of-enter name to h n e;
  }

  -- A call changes the state of its own component alone.
  stay :
      (to : ComponentState) (h : Hook) (name : Bytes) (e e' : Engine C V K Ctx)
      (from : ComponentState) (cs : List (Component C))
      → IsEntered to h name e e'
      → All (λ c. bytes_eq name c.name ≡ false) cs
      → All (λ c. state_of c.name e ≡ from) cs
      → All (λ c. state_of c.name e' ≡ from) cs
  stay to h name e e' from [] one a at = tt
  stay to h name e e' from (c ∷ cs) one (b, a) (at, ats) =
      (one.states c.name ∙ rw b at, stay to h name e e' from cs one a ats)

  -- The head's state stays through the visits of the others.
  visits-IsVisited :
      (to : ComponentState) (h : Hook) (c : Component C) (cs : List (Component C))
      (e e1 e' : Engine C V K Ctx)
      → NamesDistinct (c ∷ cs)
      → IsEntered to h c.name e e1
      → IsVisited to h cs e1 e'
      → IsVisited to h (c ∷ cs) e e'
  visits-IsVisited to h c cs e e1 e' (a, d) one rest = record {
    components = rest.components ∙ one.components;
    calls =
        rest.calls
        ∙ ap (λ xs. xs ++ map (λ (c : Component C). (c.name, h)) cs) one.calls
        ∙ append_assoc e.calls ((c.name, h) ∷ []) (map (λ (c : Component C). (c.name, h)) cs);
    reached = (
      rest.unreached c.name (apart_comm c.name cs a)
          ∙ one.states c.name
          ∙ rw (bytes_eq_refl c.name) refl,
      rest.reached,
    );
    unreached = λ n (apart, aparts). rest.unreached n aparts ∙ one.states n ∙ rw apart refl;
  }

module _ {C V K Ctx E : Type 0} (w : World C K Ctx E) (end : Failure E → EngineError E)
    (from to : ComponentState) (h : Hook) where
  call_hook_returns :
      (name : Bytes) (r : Res E (Option Ctx)) (e e' : Engine C V K Ctx)
      → call_hook end to h name r e ≡ (ok tt, e')
      → IsEntered to h name e e'
  unfolding call_hook
  call_hook_returns name (ok ctx) e e' q =
      subst (IsEntered to h name e) (ap (λ p. p.1) q) (adopt-IsEntered to h name ctx e)
  call_hook_returns name (fail x) e e' q = ground arith
  call_hook_returns name panic e e' q = ground arith

  pub visit_hooks_returns :
      (name : Bytes) (r : Option (Hook → Ctx → Res E (Option Ctx))) (e e' : Engine C V K Ctx)
      → state_of name e ≡ from
      → visit_hooks {C = C} end from to h name r e ≡ (ok tt, e')
      → IsEntered to h name e e'
  unfolding visit_hooks
  visit_hooks_returns name none e e' at q = ground arith
  visit_hooks_returns name (some run) e e' at q =
      call_hook_returns name (run h e.context) e e'
        (sym (rw (at, is_state_refl from, visit_hooks) refl) ∙ q)

  pub visit_all-IsVisited :
      (cs : List (Component C)) (e e' : Engine C V K Ctx)
      → NamesDistinct cs
      → All (λ c. state_of c.name e ≡ from) cs
      → visit_all w end from to h (map some cs) e ≡ (ok tt, e')
      → IsVisited to h cs e e'
  unfolding visit_all visit
  visit_all-IsVisited [] e e' d at q = subst (IsVisited to h [] e) (ap (λ p. p.1) q) (record {
    components = refl;
    calls = sym (append-nil e.calls);
    reached = tt;
    unreached = λ n aparts. refl;
  })
  visit_all-IsVisited (c ∷ cs) e e' (a, d) (at, ats) q =
      let (e1, q1, q2) =
        next_returns (visit w end from to h c.name (some c) e)
          (visit_all w end from to h (map some cs)) e' q in
      let one = visit_hooks_returns c.name (w.hooks c.component) e e1 at q1 in
      visits-IsVisited to h c cs e e1 e' (a, d) one
        (visit_all-IsVisited cs e1 e' d (stay to h c.name e e1 from cs one a ats) q2)
