-- ===== src/Registry/Sorting/Order.antt =====
-- The order that `SortComponent` returns.
use tick_framework.Base.{
  ℕ, zero, suc, ◌+◌, ◌≤◌, ◌<◌, ◌≡◌, ◌≢◌, refl, sym, ap, ◌∙◌, ◌⊎◌, inl, inr, List, [], ◌∷◌, ◌++◌,
  map, none, some, Bytes, length, ◌==◌, Bool-cases, arith, All, subst,
}
use tick_framework.Registry.{Component}
use tick_framework.Registry.Sorting.{
  note_dependencies, with_count, find_roots, sort_noted, sort_component,
}
use tick_framework.Registry.Sorting.Visits.{
  Has, NamesOnce, DiffersBeyondCase, last_visits, Has-last_visits, last_visits-NamesOnce, contains,
}
use tick_framework.Registry.Sorting.Visits.Order.{Follows, Follows-last_visits, visited-last_visits}
use tick_framework.Registry.Sorting.Levels.{Depends, IsRanked, IsWithin, level-Visits}

All-last_visits :
    (P : Bytes → Type 0) (visits : List Bytes) → All P visits → All P (last_visits visits)
unfolding last_visits
All-last_visits P [] a = tt
All-last_visits P (x ∷ visits) (p, a) = elim (Bool-cases (contains x visits)) [
  | inl again ↦ rw again (All-last_visits P visits a)
  | inr last ↦ rw last (p, All-last_visits P visits a)
]

module _ {C : Type 0} where
  with_count-ne-nil :
      (n : ℕ) (c : Component C) (cs : List (Component C))
      → with_count n (c ∷ cs) ≡ []
      → length c.dependencies ≢ n
  unfolding with_count
  with_count-ne-nil n c cs e h = ground (arith, h)

  All-with_count :
      (P : Component C → Type 0) (n : ℕ) (cs : List (Component C))
      → All P cs
      → All P (with_count n cs)
  unfolding with_count
  All-with_count P n [] a = tt
  All-with_count P n (c ∷ cs) (p, a) = elim (Bool-cases (length c.dependencies == n)) [
    | inl e ↦ rw e (p, All-with_count P n cs a)
    | inr e ↦ rw e (All-with_count P n cs a)
  ]

  list_cases :
      (l : List (Component C))
      → (l ≡ []) ⊎ ((c : Component C) × (cs : List (Component C)) × (l ≡ c ∷ cs))
  list_cases [] = inl refl
  list_cases (c ∷ cs) = inr (c, cs, refl)

  -- The loop for the roots ends, with the components that have the least number of dependencies.
  find_roots_lem :
      (rounds count : ℕ) (c : Component C) (cs : List (Component C))
      → count ≤ length c.dependencies
      → length c.dependencies < count + rounds
      → (n : ℕ) × (find_roots rounds count (c ∷ cs) ≡ some (with_count n (c ∷ cs)))
        × ((n ≡ count) ⊎ (with_count count (c ∷ cs) ≡ []))
  unfolding find_roots
  find_roots_lem zero count c cs h k = absurd (omega arith)
  find_roots_lem (suc rounds) count c cs h k = elim (list_cases (with_count count (c ∷ cs))) [
    | inr (r, roots, e) ↦ (count, rw (e, find_roots) refl, inl refl)
    | inl e ↦
        let more = with_count-ne-nil count c cs e in
        let (n, found, _) = find_roots_lem rounds (suc count) c cs (omega arith) (omega arith) in
        (n, rw (e, find_roots) found, inr e)
  ]

  abbrev pub names : List (Component C) → List Bytes
  names = map (λ c. c.name)

  -- What a sort promises of its result, for these components with their dependencies.
  pub record IsDependencyOrder (components : List (Component C)) (sorted : List Bytes)
      : Type 0 where
    pub once : NamesOnce sorted
    pub known : All (λ y. Has y (names components)) sorted
    pub behind : (x y : Bytes) → Depends x y components → Follows x y sorted
    pub roots : All (λ c. Has c.name sorted) (with_count 0 components)

  All-Has-names :
      (cs more : List (Component C))
      → ((y : Bytes) → Has y (names cs) → Has y (names more))
      → All (λ c. Has c.name (names more)) cs
  All-Has-names [] more f = tt
  All-Has-names (c ∷ cs) more f = (f c.name (inl refl), All-Has-names cs more (λ y h. f y (inr h)))

  All-three :
      (rank : Bytes → ℕ) (bound depth : ℕ) (ns : List Bytes) (cs : List (Component C))
      → bound < depth
      → All (λ c. rank c.name ≤ bound) cs
      → All (λ c. Has c.name ns) cs
      → All (IsWithin rank bound ns depth) cs
  All-three rank bound depth ns [] d a b = tt
  All-three rank bound depth ns (c ∷ cs) d (p, a) (q, b) =
      ((p, omega arith, q), All-three rank bound depth ns cs d a b)

  All-pair :
      (P Q : Component C → Type 0) (cs : List (Component C))
      → All P cs
      → All Q cs
      → All (λ c. P c × Q c) cs
  All-pair P Q [] a b = tt
  All-pair P Q (c ∷ cs) (p, a) (q, b) = ((p, q), All-pair P Q cs a b)

  All-reached :
      (visits : List Bytes) (cs : List (Component C))
      → All (λ c. Has c.name visits) cs
      → All (λ c. Has c.name (last_visits visits)) cs
  All-reached visits [] a = tt
  All-reached visits (c ∷ cs) (h, a) = (Has-last_visits c.name visits h, All-reached visits cs a)

  module _ (rank : Bytes → ℕ) (bound rounds depth : ℕ) (c : Component C) (cs : List (Component C))
      (ranked : IsRanked rank (c ∷ cs)) (bounded : All (λ d. rank d.name ≤ bound) (c ∷ cs))
      (differs : DiffersBeyondCase (names (c ∷ cs))) (enough : length c.dependencies < rounds)
      (deep : bound < depth) where
    sort_noted_lem :
        (sorted : List Bytes) × (sort_noted rounds depth (c ∷ cs) ≡ some sorted)
        × IsDependencyOrder (c ∷ cs) sorted
    unfolding sort_noted
    sort_noted_lem =
        let components = c ∷ cs in
        let ns = names components in
        let known = All-Has-names components components (λ y h. h) in
        let (n, found, least) = find_roots_lem rounds 0 c cs (omega arith) (omega arith) in
        let level = with_count n components in
        let run =
          level-Visits rank bound ns components ranked
            (All-pair (λ d. rank d.name ≤ bound) (λ d. Has d.name ns) components bounded known)
            depth level
            (All-with_count (IsWithin rank bound ns depth) n components
              (All-three rank bound depth ns components deep bounded known)) in
        (
          last_visits run.visits,
          rw (found, sort_noted)
              (run.runs [] ∙ ap some (visited-last_visits ns run.visits differs run.named)),
          record {
            once = last_visits-NamesOnce run.visits;
            known = All-last_visits (λ y. Has y ns) run.visits run.named;
            behind = λ x y d. Follows-last_visits x y run.visits (run.follows x y d);
            roots = elim least [
              | inl same ↦
                  subst
                    (λ m. All (λ d. Has d.name (last_visits run.visits)) (with_count m components))
                    same (All-reached run.visits level run.reaches)
              | inr none_there ↦
                  subst
                    (λ (l : List (Component C)). All (λ d. Has d.name (last_visits run.visits)) l)
                    (sym none_there) tt
            ];
          },
        )

no_roots : {C : Type 0} (rounds count : ℕ) → find_roots {C = C} rounds count [] ≡ none
unfolding find_roots with_count
no_roots zero count = refl
no_roots (suc rounds) count = no_roots rounds (suc count)

names-note_dependencies :
    {C : Type 0} (fields : C → List Bytes) (cs : List (Component C))
    → names (note_dependencies fields cs) ≡ names cs
unfolding note_dependencies
names-note_dependencies fields [] = refl
names-note_dependencies fields (c ∷ cs) = ap (λ ns. c.name ∷ ns) (names-note_dependencies fields cs)

All-note_dependencies :
    {C : Type 0} (P : Bytes → Type 0) (fields : C → List Bytes) (cs : List (Component C))
    → All (λ d. P d.name) cs
    → All (λ d. P d.name) (note_dependencies fields cs)
unfolding note_dependencies
All-note_dependencies P fields [] a = tt
All-note_dependencies P fields (c ∷ cs) (p, a) = (p, All-note_dependencies P fields cs a)

-- `SortComponent` of at least one component, whose dependencies, the injected fields included, have no
-- cycle and whose names differ in more than case, ends; each name in its result stands there once
-- and is a component's name, behind each entry of a name stands every component that depends on it,
-- and the components without dependencies are there.
pub sort_component_lem :
    {C : Type 0} (fields : C → List Bytes) (rank : Bytes → ℕ) (bound rounds depth : ℕ)
    (c : Component C) (cs : List (Component C))
    → IsRanked rank (note_dependencies fields (c ∷ cs))
    → All (λ d. rank d.name ≤ bound) (c ∷ cs)
    → DiffersBeyondCase (names (c ∷ cs))
    → length (c.dependencies ++ fields c.component) < rounds
    → bound < depth
    → (sorted : List Bytes) × (sort_component fields rounds depth (c ∷ cs) ≡ some sorted)
      × IsDependencyOrder (note_dependencies fields (c ∷ cs)) sorted
unfolding sort_component note_dependencies
sort_component_lem fields rank bound rounds depth c cs ranked bounded differs enough deep =
    sort_noted_lem rank bound rounds depth
      (record c { dependencies = c.dependencies ++ fields c.component })
      (note_dependencies fields cs) ranked
      (bounded.0, All-note_dependencies (λ n. rank n ≤ bound) fields cs bounded.1)
      (subst DiffersBeyondCase (sym (names-note_dependencies fields (c ∷ cs))) differs) enough deep

-- For no components the loop for the roots does not end.
pub sort_component_empty :
    {C : Type 0} (fields : C → List Bytes) (rounds depth : ℕ)
    → sort_component fields rounds depth [] ≡ none
unfolding sort_component note_dependencies sort_noted
sort_component_empty fields rounds depth = rw (no_roots rounds 0, sort_noted) refl
