-- ===== src/Registry/Sorting.antt =====
-- `SortComponent` of component.go: an order of the components by their dependencies.
pub mod Visits
pub mod Levels
pub mod Order
mod Tests
use tick_framework.Base.{
  ℕ, zero, suc, ◌+◌, Bool, true, false, List, [], ◌∷◌, ◌++◌, map, Option, none, some, Bytes, length,
  take, drop, ◌==◌, bytes_eq, if◌then◌else◌,
}
use tick_framework.Registry.{Component}
use tick_framework.Utility.Array.{in_array_string}

-- The entry at an index, moved to the end: the two calls of `append` over one array.
unfoldable pub move_to_end : ℕ → List Bytes → List Bytes
move_to_end i sorted = take i sorted ++ (drop (suc i) sorted ++ take 1 (drop i sorted))

-- The name's place when its component is visited.
unfoldable pub place : Bytes → List Bytes → List Bytes
place name sorted = elim (in_array_string name sorted false) [
  | none ↦ sorted ++ name ∷ []
  | some i ↦ move_to_end i sorted
]

module _ {C : Type 0} where
  -- The first loop of `SortComponent`; `fields` names the injected fields of a component.
  -- The components of the list are distinct ones: the loop would add the fields of one that stands
  -- there twice a second time.
  unfoldable pub note_dependencies : (C → List Bytes) → List (Component C) → List (Component C)
  note_dependencies fields [] = []
  note_dependencies fields (c ∷ cs) =
      record c { dependencies = c.dependencies ++ fields c.component } ∷ note_dependencies fields cs

  unfoldable pub with_count : ℕ → List (Component C) → List (Component C)
  with_count n [] = []
  with_count n (c ∷ cs) =
      if length c.dependencies == n then c ∷ with_count n cs else with_count n cs

  -- The loop for the root components, on fuel.
  unfoldable pub find_roots : ℕ → ℕ → List (Component C) → Option (List (Component C))
  find_roots zero count cs = none
  find_roots (suc fuel) count cs = elim (with_count count cs) [
    | c ∷ roots ↦ some (c ∷ roots)
    | [] ↦ find_roots fuel (suc count) cs
  ]

  -- A component, once for each of these dependencies that has the name.
  unfoldable pub repeats : Bytes → Component C → List Bytes → List (Component C)
  repeats name c [] = []
  repeats name c (d ∷ ds) = if bytes_eq d name then c ∷ repeats name c ds else repeats name c ds

  -- The components that depend on the name.
  unfoldable pub next_level : Bytes → List (Component C) → List (Component C)
  next_level name [] = []
  next_level name (c ∷ cs) = repeats name c c.dependencies ++ next_level name cs

  -- `sortComponent`, on fuel for the depth of its calls.
  unfoldable pub sort_level :
      ℕ → List (Component C) → List (Component C) → List Bytes → Option (List Bytes)
  sort_level zero components [] sorted = some sorted
  sort_level zero components (c ∷ cs) sorted = none
  sort_level (suc fuel) components [] sorted = some sorted
  sort_level (suc fuel) components (c ∷ cs) sorted =
      elim (sort_level fuel components (next_level c.name components) (place c.name sorted)) [
        | none ↦ none
        | some sorted' ↦ sort_level (suc fuel) components cs sorted'
      ]

  -- `SortComponent` behind its first loop; the fuel is for the loop for the roots and for the depth.
  unfoldable pub sort_noted : ℕ → ℕ → List (Component C) → Option (List Bytes)
  sort_noted rounds depth components = elim (find_roots rounds 0 components) [
    | none ↦ none
    | some roots ↦ sort_level depth components roots []
  ]

  unfoldable pub sort_component :
      (C → List Bytes) → ℕ → ℕ → List (Component C) → Option (List Bytes)
  sort_component fields rounds depth components =
      sort_noted rounds depth (note_dependencies fields components)
