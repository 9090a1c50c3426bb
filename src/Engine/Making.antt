-- ===== src/Engine/Making.antt =====
-- ltick.go: a `New` that succeeds leaves all components initiated.
use tick_framework.Base.{
  ◌≡◌, refl, sym, ap, ◌∙◌, subst, Bool, true, false, Bool-cases, not, List, [], ◌∷◌, ◌++◌, map,
  Option, none, some, Bytes, lookup, bytes_eq, bytes_eq_refl, Res, ok, fail, panic, inl, inr, arith,
  All, codes,
}
use tick_framework.Registry.{
  Component, Registry, RegistryError, ComponentState, init, prepared, initiated, startup, shutdown,
  get_sorted_components, register_component, get_component_by_name,
}
use tick_framework.Registry.Name.{canonical_name}
use tick_framework.Registry.Validity.{IsValid, names, others}
use tick_framework.Registry.Registration.{register_component_lem}
use tick_framework.Registry.Sorted.{get_sorted_components_lem}
use tick_framework.Engine.{
  Hook, prepare, initiate, State, Failure, EngineError, World, Engine, ◌>>◌, next, exits, state_of,
  enter, is_state, visit, visit_all, visit_names, visit_sorted, visit_slice, outside,
  register_config, registered, config_component, start_config, start_found, new_engine,
  injection_failed, configuration_failed,
}
use tick_framework.Engine.Visits
use tick_framework.Engine.Visits.{state_of-enter, is_state_sound}
use tick_framework.Engine.Steps.{Keeps, chain-Keeps, outside-Keeps}
use tick_framework.Engine.Registering.{register-reads}
use tick_framework.Engine.Phases.{next_returns, visit_hooks_returns}
use tick_framework.Engine.Starting.{visit_hooks_passes}

-- The states up to the initiated one.
abbrev is_early : ComponentState → Bool
is_early init = true
is_early prepared = true
is_early initiated = true
is_early startup = false
is_early shutdown = false

abbrev is_not : ComponentState → ComponentState → Bool
is_not from s = not (is_state s from)

only_initiated :
    (s : ComponentState)
    → is_early s ≡ true
    → is_not init s ≡ true
    → is_not prepared s ≡ true
    → s ≡ initiated
only_initiated init a b c = ground arith
only_initiated prepared a b c = ground arith
only_initiated initiated a b c = refl
only_initiated startup a b c = ground arith
only_initiated shutdown a b c = ground arith

module _ {C V K Ctx : Type 0} where
  -- A test that the new state passes is kept.
  enter_passes :
      (q : ComponentState → Bool) (n name : Bytes) (to : ComponentState) (h : Hook)
      (e : Engine C V K Ctx)
      → q to ≡ true
      → q (state_of n e) ≡ true
      → q (state_of n (enter name to h e)) ≡ true
  enter_passes q n name to h e new old = elim (Bool-cases (bytes_eq name n)) [
    | inl x ↦ rw (state_of-enter name to h n e, x) new
    | inr x ↦ rw (state_of-enter name to h n e, x) old
  ]

  -- What `New` does not change of the engine once Config is registered.
  record IsKept (cs : List (Component C)) (s : State) (e : Engine C V K Ctx) : Type 0 where
    pub valid : IsValid e.registry
    pub components : e.registry.components ≡ cs
    pub state : e.state ≡ s
    pub early : (n : Bytes) → is_early (state_of n e) ≡ true

  enter-IsKept :
      (cs : List (Component C)) (s : State) (name : Bytes) (to : ComponentState) (h : Hook)
      (e : Engine C V K Ctx)
      → is_early to ≡ true
      → IsKept cs s e
      → IsKept cs s (enter name to h e)
  enter-IsKept cs s name to h e new k = record {
    valid = record {
      distinct = k.valid.distinct;
      ordered = k.valid.ordered;
      mapped = k.valid.mapped;
    };
    components = k.components;
    state = k.state;
    early = λ n. enter_passes is_early n name to h e new (k.early n);
  }

  context-IsKept :
      (cs : List (Component C)) (s : State) (e : Engine C V K Ctx) (ctx : Ctx)
      → IsKept cs s e
      → IsKept cs s (record e { context = ctx })
  context-IsKept cs s e ctx k = record {
    valid = k.valid;
    components = k.components;
    state = k.state;
    early = k.early;
  }

module _ {C V K Ctx E : Type 0} (w : World C K Ctx E) (end : Failure E → EngineError E)
    (from to : ComponentState) (h : Hook) (apart : is_not from to ≡ true) where
  -- A visit that returns leaves its component out of the state `from`.
  visit_leaves :
      (name : Bytes) (c : Option (Component C)) (e e' : Engine C V K Ctx)
      → visit w end from to h name c e ≡ (ok tt, e')
      → is_not from (state_of name e') ≡ true
  unfolding visit
  visit_leaves name none e e' q = ground arith
  visit_leaves name (some c) e e' q = elim (Bool-cases (is_state (state_of name e) from)) [
    | inr x ↦
        let same = visit_hooks_passes w end from to h name (w.hooks c.component) e e' x q in
        rw (same, x) refl
    | inl x ↦
        let one =
          visit_hooks_returns w end from to h name (w.hooks c.component) e e'
            (is_state_sound (state_of name e) from x) q in
        rw (one.states name, bytes_eq_refl name) apart
  ]

  visit_all_leaves :
      (cs : List (Component C)) (e e' : Engine C V K Ctx)
      → visit_all w end from to h (map some cs) e ≡ (ok tt, e')
      → All (λ c. is_not from (state_of c.name e') ≡ true) cs
  unfolding visit_all
  visit_all_leaves [] e e' q = tt
  visit_all_leaves (c ∷ cs) e e' q =
      let (e1, q1, q2) =
        next_returns (visit w end from to h c.name (some c) e)
          (visit_all w end from to h (map some cs)) e' q in
      let kept =
        Visits.visit_all-Keeps (λ (x : Engine C V K Ctx). is_not from (state_of c.name x) ≡ true)
          (λ x ctx a. a) w end from to h
          (λ name x at a. enter_passes (is_not from) c.name name to h x apart a) (map some cs) e1
          (visit_leaves c.name (some c) e e1 q1) in
      (
        subst (λ x. is_not from (state_of c.name x) ≡ true) (ap (λ p. p.1) q2) kept,
        visit_all_leaves cs e1 e' q2,
      )

  visit_names_leaves :
      (ns : List Bytes) (e e' : Engine C V K Ctx)
      → visit_names w end from to h ns e ≡ (ok tt, e')
      → All (λ n. is_not from (state_of n e') ≡ true) ns
  unfolding visit_names
  visit_names_leaves [] e e' q = tt
  visit_names_leaves (n ∷ ns) e e' q =
      let c = lookup n e.registry.component_map in
      let (e1, q1, q2) =
        next_returns (visit w end from to h n c e) (visit_names w end from to h ns) e' q in
      let kept =
        Visits.visit_names-Keeps (λ (x : Engine C V K Ctx). is_not from (state_of n x) ≡ true)
          (λ x ctx a. a) w end from to h
          (λ name x at a. enter_passes (is_not from) n name to h x apart a) ns e1
          (visit_leaves n c e e1 q1) in
      (
        subst (λ x. is_not from (state_of n x) ≡ true) (ap (λ p. p.1) q2) kept,
        visit_names_leaves ns e1 e' q2,
      )

All-names :
    {C : Type 0} (P : Bytes → Type 0) (cs : List (Component C))
    → All P (names cs)
    → All (λ c. P c.name) cs
All-names P [] a = tt
All-names P (c ∷ cs) (a, more) = (a, All-names P cs more)

module _ {C V K Ctx E : Type 0} (w : World C K Ctx E) where
  all_initiated :
      (cs : List (Component C)) (e : Engine C V K Ctx)
      → ((n : Bytes) → is_early (state_of n e) ≡ true)
      → All (λ c. is_not init (state_of c.name e) ≡ true) cs
      → All (λ c. is_not prepared (state_of c.name e) ≡ true) cs
      → All (λ c. state_of c.name e ≡ initiated) cs
  all_initiated [] e early a b = tt
  all_initiated (c ∷ cs) e early (a, more_a) (b, more_b) = (
    only_initiated (state_of c.name e) (early c.name) a b,
    all_initiated cs e early more_a more_b,
  )

  keeps_visit_all :
      (q : ComponentState → Bool) (cs ds : List (Component C))
      → q initiated ≡ true
      → (e : Engine C V K Ctx) → All (λ c. q (state_of c.name e) ≡ true) ds
      → All
          (λ c.
            q (state_of c.name (visit_all w exits prepared initiated initiate (map some cs) e).1)
            ≡ true)
          ds
  keeps_visit_all q cs [] new e a = tt
  keeps_visit_all q cs (d ∷ ds) new e (a, more) = (
    Visits.visit_all-Keeps (λ (x : Engine C V K Ctx). q (state_of d.name x) ≡ true) (λ x ctx b. b) w
        exits prepared initiated initiate
        (λ name x at b. enter_passes q d.name name initiated initiate x new b) (map some cs) e a,
    keeps_visit_all q cs ds new e more,
  )

  start_found-IsKept :
      (cs : List (Component C)) (s : State) (c : Option (Res RegistryError (Component C)))
      → Keeps (IsKept {V = V} cs s) (start_found w c)
  unfolding start_found
  start_found-IsKept cs s (some (ok c)) e k =
      chain-Keeps (IsKept cs s) (visit w exits init prepared prepare c.name (some c))
        (visit w exits prepared initiated initiate c.name (some c))
        (Visits.visit-Keeps (IsKept cs s) (context-IsKept cs s) w exits init prepared prepare
          (λ name x at b. enter-IsKept cs s name prepared prepare x refl b) c.name (some c))
        (Visits.visit-Keeps (IsKept cs s) (context-IsKept cs s) w exits prepared initiated initiate
          (λ name x at b. enter-IsKept cs s name initiated initiate x refl b) c.name (some c))
        e k
  start_found-IsKept cs s (some (fail x)) e k = k
  start_found-IsKept cs s (some panic) e k = k
  start_found-IsKept cs s none e k = k

  -- The last loop of `New`, behind the loading of the configuration
  made_initiated :
      (cs : List (Component C)) (s : State) (e4 e5 e' : Engine C V K Ctx)
      → IsKept cs s e4
      → All (λ c. is_not init (state_of c.name e4) ≡ true) cs
      → outside (λ x. exits (configuration_failed x)) w.load_config e4 ≡ (ok tt, e5)
      → visit_sorted w (visit_all w exits prepared initiated initiate) e5 ≡ (ok tt, e')
      → IsKept cs s e' × All (λ c. state_of c.name e' ≡ initiated) cs
  unfolding visit_sorted visit_slice
  made_initiated cs s e4 e5 e' k4 at4 r4 r5 =
      let loaded = ap (λ p. p.1) r4 in
      let k5 : IsKept cs s e5 =
        subst (IsKept cs s) loaded
          (outside-Keeps (IsKept cs s) (λ x. exits (configuration_failed x)) w.load_config e4 k4) in
      let at5 : All (λ c. is_not init (state_of c.name e5) ≡ true) cs =
        subst (λ x. All (λ c. is_not init (state_of c.name x) ≡ true) cs) loaded
          (outside-Keeps
            (λ (x : Engine C V K Ctx). All (λ c. is_not init (state_of c.name x) ≡ true) cs)
            (λ x. exits (configuration_failed x)) w.load_config e4 at4) in
      let sorted : get_sorted_components false e5.registry ≡ some (map some cs) =
        get_sorted_components_lem e5.registry k5.valid
        ∙ ap (λ x. some (map some x)) k5.components in
      let r6 : visit_all w exits prepared initiated initiate (map some cs) e5 ≡ (ok tt, e') =
        subst (λ x. visit_slice (visit_all w exits prepared initiated initiate) x e5 ≡ (ok tt, e'))
          sorted r5 in
      let k6 : IsKept cs s e' = subst (IsKept cs s) (ap (λ p. p.1) r6) (
        Visits.visit_all-Keeps (IsKept cs s) (context-IsKept cs s) w exits prepared initiated
          initiate (λ name x at b. enter-IsKept cs s name initiated initiate x refl b) (map some cs)
          e5 k5) in
      let not_init : All (λ c. is_not init (state_of c.name e') ≡ true) cs =
        subst (λ x. All (λ c. is_not init (state_of c.name x) ≡ true) cs) (ap (λ p. p.1) r6)
          (keeps_visit_all (is_not init) cs cs refl e5 at5) in
      (
        k6,
        all_initiated cs e' k6.early not_init
            (visit_all_leaves w exits prepared initiated initiate refl cs e5 e' r6),
      )

  -- The part of `New` behind the registration of Config
  made :
      (cs : List (Component C)) (s : State) (e1 e' : Engine C V K Ctx)
      → IsKept cs s e1
      → (start_config w
            >> outside (λ x. exits (injection_failed x)) w.inject
            >> (λ e. visit_names w exits init prepared prepare e.registry.sorted_component_name e)
            >> outside (λ x. exits (configuration_failed x)) w.load_config
            >> visit_sorted w (visit_all w exits prepared initiated initiate))
          e1
        ≡ (ok tt, e')
      → IsKept cs s e' × All (λ c. state_of c.name e' ≡ initiated) cs
  unfolding start_config visit_sorted visit_slice
  made cs s e1 e' k1 q =
      let (e5, q5, r5) =
        next_returns _ (visit_sorted w (visit_all w exits prepared initiated initiate)) e' q in
      let (e4, q4, r4) =
        next_returns _ (outside (λ x. exits (configuration_failed x)) w.load_config) e5 q5 in
      let (e3, q3, r3) =
        next_returns _
          (λ e. visit_names w exits init prepared prepare e.registry.sorted_component_name e) e4
          q4 in
      let (e2, q2, r2) =
        next_returns _ (outside (λ x. exits (injection_failed x)) w.inject) e3 q3 in
      let k2 : IsKept cs s e2 =
        subst (IsKept cs s) (ap (λ p. p.1) q2)
          (start_found-IsKept cs s (get_component_by_name (codes "Config") e1.registry) e1 k1) in
      let k3 : IsKept cs s e3 =
        subst (IsKept cs s) (ap (λ p. p.1) r2)
          (outside-Keeps (IsKept cs s) (λ x. exits (injection_failed x)) w.inject e2 k2) in
      let k4 : IsKept cs s e4 = subst (IsKept cs s) (ap (λ p. p.1) r3) (
        Visits.visit_names-Keeps (IsKept cs s) (context-IsKept cs s) w exits init prepared prepare
          (λ name x at b. enter-IsKept cs s name prepared prepare x refl b)
          e3.registry.sorted_component_name e3 k3) in
      let left : All (λ n. is_not init (state_of n e4) ≡ true) e3.registry.sorted_component_name =
        visit_names_leaves w exits init prepared prepare refl e3.registry.sorted_component_name e3
          e4 r3 in
      let at4 : All (λ c. is_not init (state_of c.name e4) ≡ true) cs =
        All-names (λ n. is_not init (state_of n e4) ≡ true) cs
          (subst (All (λ n. is_not init (state_of n e4) ≡ true))
            (k3.valid.ordered ∙ ap names k3.components) left) in
      made_initiated cs s e4 e5 e' k4 at4 r4 r5

  -- On a valid registry where every component reads as not prepared: a `New` that returns leaves a
  -- valid registry with the components but one of the name Config, which comes last, all of them
  -- initiated, and the state of the engine as it is.
  pub new_engine-initiated :
      (config : C) (e e' : Engine C V K Ctx)
      → IsValid e.registry
      → ((n : Bytes) → state_of n e ≡ init)
      → new_engine w config e ≡ (ok tt, e')
      → IsValid e'.registry
        × (e'.registry.components
            ≡ others (codes "Config") e.registry.components ++ config_component config ∷ [])
        × (e'.state ≡ e.state)
        × All (λ c. state_of c.name e' ≡ initiated) e'.registry.components
  unfolding new_engine register_config registered next canonical_name
      tick_framework.Registry.Name.upper_byte
  new_engine-initiated config e e' v fresh q =
      let (r', done, reg) = register_component_lem (config_component config) e.registry v refl in
      let e1 : Engine C V K Ctx = record e { registry = r' } in
      let first : register_config w config e ≡ (ok tt, e1) = ap (λ o. registered o e) done in
      let k1 : IsKept
          (others (codes "Config") e.registry.components ++ config_component config ∷ []) e.state
          e1 =
        record {
          valid = reg.valid;
          components = reg.components;
          state = refl;
          early = λ n. ap is_early (
              register-reads (config_component config) true e.registry r' (ok tt) n done ∙ fresh n);
        } in
      let rest =
        subst
          (λ x.
            next
              (next
                (next
                  (next (next x (start_config w))
                    (outside (λ x. exits (injection_failed x)) w.inject))
                  (λ e.
                    visit_names w exits init prepared prepare e.registry.sorted_component_name e))
                (outside (λ x. exits (configuration_failed x)) w.load_config))
              (visit_sorted w (visit_all w exits prepared initiated initiate))
            ≡ (ok tt, e'))
          first q in
      let (k, all) = made _ e.state e1 e' k1 rest in
      (
        k.valid,
        k.components,
        k.state,
        subst (All (λ c. state_of c.name e' ≡ initiated)) (sym k.components) all,
      )
