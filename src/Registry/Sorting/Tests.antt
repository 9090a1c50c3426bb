-- ===== src/Registry/Sorting/Tests.antt =====
-- Runs of the sort.
use tick_framework.Base.{
  ℕ, ◌≡◌, refl, sym, ap, ◌∙◌, inl, inr, List, [], ◌∷◌, none, some, Bytes, codes, bytes_eq, arith,
  length, if◌then◌else◌, ◌==◌,
}
use tick_framework.Utility.Array.{to_lower, in_array_string, same_text}
use tick_framework.Registry.{Component}
use tick_framework.Registry.Sorting.{
  sort_component, note_dependencies, sort_noted, find_roots, with_count, sort_level, next_level,
  repeats, place, move_to_end,
}
use tick_framework.Registry.Sorting.Visits.{DiffersBeyondCase}
use tick_framework.Registry.Sorting.Order.{
  IsDependencyOrder, sort_component_lem, sort_component_empty,
}

abbrev component : Bytes → List Bytes → Component (List Bytes)
component name fields = record {
  name = name;
  component = fields;
  configure_path = [];
  dependencies = [];
}

abbrev log : Component (List Bytes)
log = component (codes "Log") []

-- it wants the log
abbrev database : Component (List Bytes)
database = component (codes "Database") (codes "Log" ∷ [])

-- it wants both
abbrev session : Component (List Bytes)
session = component (codes "Session") (codes "Log" ∷ codes "Database" ∷ [])

program : Unit {0}
unfolding sort_component note_dependencies sort_noted find_roots with_count sort_level next_level
    repeats place move_to_end in_array_string same_text to_lower bytes_eq
program = tt

-- the dependents of the log are visited twice
sort_runs :
    sort_component (λ fields. fields) 3 5 (session ∷ database ∷ log ∷ [])
    ≡ some (codes "Log" ∷ codes "Database" ∷ codes "Session" ∷ [])
unfolding program
sort_runs = refl

-- two components that want each other
cycle_runs :
    sort_component
      (λ fields. fields)
      3
      9
      (component (codes "A") (codes "B" ∷ []) ∷ component (codes "B") (codes "A" ∷ []) ∷ [])
    ≡ none
unfolding program
cycle_runs = refl

-- a component whose dependency is missing is left out beside one that has none
left_out :
    sort_component (λ fields. fields) 3 9 (component (codes "A") (codes "X" ∷ []) ∷ log ∷ [])
    ≡ some (codes "Log" ∷ [])
unfolding program
left_out = refl

rank : Bytes → ℕ
rank name = if length name == 3 then 0 else 1

both-DiffersBeyondCase : DiffersBeyondCase (codes "Database" ∷ codes "Log" ∷ [])
unfolding to_lower
both-DiffersBeyondCase a b (inl e) (inl f) h = sym e ∙ f
both-DiffersBeyondCase a b (inl e) (inr (inl f)) h =
    absurd (omega (arith, ap length (ap to_lower e ∙ h ∙ sym (ap to_lower f))))
both-DiffersBeyondCase a b (inr (inl e)) (inl f) h =
    absurd (omega (arith, ap length (ap to_lower e ∙ h ∙ sym (ap to_lower f))))
both-DiffersBeyondCase a b (inr (inl e)) (inr (inl f)) h = sym e ∙ f
both-DiffersBeyondCase a b (inl e) (inr (inr f)) h = absurd f
both-DiffersBeyondCase a b (inr (inl e)) (inr (inr f)) h = absurd f
both-DiffersBeyondCase a b (inr (inr e)) f h = absurd e

sort_component_lem_example :
    (sorted : List Bytes) × (sort_component (λ fields. fields) 3 2 (database ∷ log ∷ [])
      ≡ some sorted)
    × IsDependencyOrder (note_dependencies (λ fields. fields) (database ∷ log ∷ [])) sorted
unfolding note_dependencies rank
sort_component_lem_example =
    sort_component_lem (λ fields. fields) rank 1 3 2 database (log ∷ [])
      ((omega arith, tt), (tt, tt)) (omega arith, (omega arith, tt)) both-DiffersBeyondCase
      (omega arith) (omega arith)

sort_component_empty_example : sort_component {C = List Bytes} (λ fields. fields) 100 100 [] ≡ none
sort_component_empty_example = sort_component_empty (λ fields. fields) 100 100
