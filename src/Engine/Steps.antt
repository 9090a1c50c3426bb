-- ===== src/Engine/Steps.antt =====
-- ltick.go: the steps of the engine that change nothing but its context.
use tick_framework.Base.{Option, none, some, List, [], ◌∷◌, Res, ok, fail, panic}
use tick_framework.Registry.{Component}
use tick_framework.Middleware.{Middleware}
use tick_framework.Engine.{
  EngineError, World, Engine, Act, ◌>>◌, next, outside, called, visit_slice, initiate_all,
  middleware_answered, initiate_middleware_with, call_if_any, inject_and_call, exits,
  injection_failed, callback_failed,
}

-- The actions that do not break a property of engines.
abbrev pub Keeps : {C V K Ctx E : Type 0} → (Engine C V K Ctx → Type 0) → Act C V K Ctx E → Type 0
Keeps P m = (e : _) → P e → P (m e).1

module _ {C V K Ctx E : Type 0} (P : Engine C V K Ctx → Type 0) where
  next_keeps :
      (r : Res (EngineError E) (Unit {0}) × Engine C V K Ctx) (k : Act C V K Ctx E)
      → P r.1
      → Keeps P k
      → P (next r k).1
  unfolding next
  next_keeps (ok u, e) k a g = g e a
  next_keeps (fail x, e) k a g = a
  next_keeps (panic, e) k a g = a

  pub chain-Keeps : (m k : Act C V K Ctx E) → Keeps P m → Keeps P k → Keeps P (m >> k)
  chain-Keeps m k f g e a = next_keeps (m e) k (f e a) g

  pub outside-Keeps : (wrap : E → EngineError E) (r : Res E (Unit {0})) → Keeps P (outside wrap r)
  outside-Keeps wrap (ok u) e a = a
  outside-Keeps wrap (fail x) e a = a
  outside-Keeps wrap panic e a = a

  pub visit_slice-Keeps :
      (loop : List (Option (Component C)) → Act C V K Ctx E)
      → ((cs : List (Option (Component C))) → Keeps P (loop cs))
      → (cs : Option (List (Option (Component C)))) → Keeps P (visit_slice loop cs)
  unfolding visit_slice
  visit_slice-Keeps loop f none e a = a
  visit_slice-Keeps loop f (some cs) e a = f cs e a

module _ {C V K Ctx E : Type 0} (P : Engine C V K Ctx → Type 0)
    (any_context : (e : Engine C V K Ctx) (ctx : Ctx) → P e → P (record e { context = ctx })) where
  called-Keeps : (wrap : E → EngineError E) (r : Res E (Unit {0}) × Ctx) → Keeps P (called wrap r)
  unfolding called
  called-Keeps wrap (r, ctx) e a =
      outside-Keeps P wrap r (record e { context = ctx }) (any_context e ctx a)

  middleware_answered-Keeps : (r : Res E (Option Ctx)) → Keeps P (middleware_answered r)
  unfolding middleware_answered
  middleware_answered-Keeps (ok none) e a = a
  middleware_answered-Keeps (ok (some ctx)) e a = any_context e ctx a
  middleware_answered-Keeps (fail x) e a = a
  middleware_answered-Keeps panic e a = a

  initiate_middleware_with-Keeps :
      (r : Option (Ctx → Res E (Option Ctx))) → Keeps P (initiate_middleware_with r)
  unfolding initiate_middleware_with
  initiate_middleware_with-Keeps none e a = a
  initiate_middleware_with-Keeps (some run) e a = middleware_answered-Keeps (run e.context) e a

  pub initiate_all-Keeps :
      (w : World C K Ctx E) (ms : List (Middleware K)) → Keeps P (initiate_all w ms)
  unfolding initiate_all
  initiate_all-Keeps w [] e a = a
  initiate_all-Keeps w (m ∷ ms) e a =
      chain-Keeps P (initiate_middleware_with (w.initiate_middleware m.middleware))
        (initiate_all w ms) (initiate_middleware_with-Keeps (w.initiate_middleware m.middleware))
        (initiate_all-Keeps w ms) e a

  pub call_if_any-Keeps :
      (wrap : E → EngineError E) (r : Option (Ctx → Res E (Unit {0}) × Ctx))
      → Keeps P (call_if_any wrap r)
  unfolding call_if_any
  call_if_any-Keeps wrap none e a = a
  call_if_any-Keeps wrap (some run) e a = called-Keeps wrap (run e.context) e a

  pub inject_and_call-Keeps :
      (inject : Res E (Unit {0})) (r : Option (Ctx → Res E (Unit {0}) × Ctx))
      → Keeps P (inject_and_call inject r)
  unfolding inject_and_call
  inject_and_call-Keeps inject none e a = a
  inject_and_call-Keeps inject (some run) e a =
      chain-Keeps P (outside (λ x. exits (injection_failed x)) inject)
        (call_if_any (λ x. exits (callback_failed x)) (some run))
        (outside-Keeps P (λ x. exits (injection_failed x)) inject)
        (call_if_any-Keeps (λ x. exits (callback_failed x)) (some run)) e a
