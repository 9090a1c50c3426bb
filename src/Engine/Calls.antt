-- ===== src/Engine/Calls.antt =====
-- ltick.go: the hooks called for a component accord with its state, whatever the engine does.
use tick_framework.Base.{
  ◌≡◌, refl, sym, Bool-cases, List, [], ◌∷◌, ◌++◌, append-nil, Option, Bytes, bytes_eq,
  bytes_eq_iff, if◌then◌else◌, inl, inr,
}
use tick_framework.Registry.{
  Component, ComponentState, init, prepared, initiated, startup, shutdown,
}
use tick_framework.Engine.{
  Hook, prepare, initiate, on_startup, on_shutdown, Failure, EngineError, World, Engine, state_of,
  enter, visit, visit_all, visit_names,
}
use tick_framework.Engine.Visits
use tick_framework.Engine.Visits.{state_of-enter}
use tick_framework.Engine.Steps.{Keeps}

-- The hooks that were called for a name, in their order.
unfoldable pub hooks_of : Bytes → List (Bytes × Hook) → List Hook
hooks_of name [] = []
hooks_of name ((n, h) ∷ calls) =
    let rest = hooks_of name calls in if bytes_eq n name then h ∷ rest else rest

-- The hooks that lead to a state.
unfoldable pub hooks_until : ComponentState → List Hook
hooks_until init = []
hooks_until prepared = prepare ∷ []
hooks_until initiated = prepare ∷ initiate ∷ []
hooks_until startup = prepare ∷ initiate ∷ on_startup ∷ []
hooks_until shutdown = prepare ∷ initiate ∷ on_startup ∷ on_shutdown ∷ []

hooks_of-append :
    (name : Bytes) (xs ys : List (Bytes × Hook))
    → hooks_of name (xs ++ ys) ≡ hooks_of name xs ++ hooks_of name ys
unfolding hooks_of
hooks_of-append name [] ys = refl
hooks_of-append name ((n, h) ∷ xs) ys = elim (Bool-cases (bytes_eq n name)) [
  | inl e ↦ rw (e, hooks_of-append name xs ys) refl
  | inr e ↦ rw (e, hooks_of-append name xs ys) refl
]

module _ {C V K Ctx : Type 0} where
  -- The log of the calls tells of each name what its state says.
  abbrev pub Accords : Engine C V K Ctx → Type 0
  Accords e = (name : Bytes) → hooks_of name e.calls ≡ hooks_until (state_of name e)

-- A hook leads from a state to the next one.
abbrev pub IsStep : ComponentState → ComponentState → Hook → Type 0
IsStep from to h = hooks_until to ≡ hooks_until from ++ h ∷ []

module _ {C V K Ctx : Type 0} where
  enter-Accords :
      (name : Bytes) (from to : ComponentState) (h : Hook) (e : Engine C V K Ctx)
      → IsStep from to h
      → state_of name e ≡ from
      → Accords e
      → Accords (enter name to h e)
  unfolding hooks_of
  enter-Accords name from to h e step at a n = elim (Bool-cases (bytes_eq name n)) [
    | inl q ↦
        let same : name ≡ n = (bytes_eq_iff name n).0 q in
        rw
          (
            hooks_of-append n e.calls ((name, h) ∷ []),
            a n,
            state_of-enter name to h n e,
            q,
            step,
            sym same,
            at,
          )
          refl
    | inr q ↦
        rw
          (
            hooks_of-append n e.calls ((name, h) ∷ []),
            a n,
            state_of-enter name to h n e,
            q,
            append-nil (hooks_until (state_of n e)),
          )
          refl
  ]

module _ {C V K Ctx E : Type 0} (w : World C K Ctx E) (end : Failure E → EngineError E)
    (from to : ComponentState) (h : Hook) (step : IsStep from to h) where
  pub visit-Keeps :
      (name : Bytes) (c : Option (Component C))
      → Keeps (Accords {V = V}) (visit w end from to h name c)
  visit-Keeps =
      Visits.visit-Keeps Accords (λ e ctx a. a) w end from to h
        (λ name e at a. enter-Accords name from to h e step at a)

  pub visit_all-Keeps :
      (cs : List (Option (Component C))) → Keeps (Accords {V = V}) (visit_all w end from to h cs)
  visit_all-Keeps =
      Visits.visit_all-Keeps Accords (λ e ctx a. a) w end from to h
        (λ name e at a. enter-Accords name from to h e step at a)

  pub visit_names-Keeps :
      (names : List Bytes) → Keeps (Accords {V = V}) (visit_names w end from to h names)
  visit_names-Keeps =
      Visits.visit_names-Keeps Accords (λ e ctx a. a) w end from to h
        (λ name e at a. enter-Accords name from to h e step at a)
