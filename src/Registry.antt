-- ===== src/Registry.antt =====
-- registry.go and component.go: the registry of components and values.
pub mod Sweep
pub mod Name
pub mod Named
pub mod Validity
pub mod Registration
pub mod Sorted
pub mod Sorting
mod Tests
use tick_framework.Base.{
  ℕ, zero, suc, ◌+◌, Bool, true, false, List, [], ◌∷◌, ◌++◌, map, Option, none, some, Bytes, GoMap,
  lookup, assign, delete, length, bytes_eq, if◌then◌else◌, Res, ok, fail, panic,
}
use mathlib.Core.List.{reverse}
use tick_framework.Registry.Name.{canonical_name}
use tick_framework.Registry.Sweep.{remove_in_range}

pub data RegistryError : Type 0 where
  component_exists component_not_exists value_exists value_not_exists : Bytes → RegistryError

pub data ComponentState : Type 0 where
  init prepared initiated startup shutdown : ComponentState

-- `Component`; its implementation is of any type, and its dependencies are given by name.
pub record Component (C : Type 0) : Type 0 where
  pub name : Bytes
  pub component : C
  pub configure_path : Bytes
  pub dependencies : List Bytes

-- The part of `Registry` that holds components and values.
pub record Registry (C V : Type 0) : Type 0 where
  pub components : List (Component C)
  pub component_map : GoMap (Component C)
  pub sorted_component_name : List Bytes
  pub values : GoMap V
  pub component_states : GoMap ComponentState

abbrev pub new_registry : {C V : Type 0} → Registry C V
new_registry = record {
  components = [];
  component_map = [];
  sorted_component_name = [];
  values = [];
  component_states = [];
}

-- The result slice of `GetSortedComponents`: it has the length of `Components`, what is not
-- filled stays nil, and a store behind its end panics.
unfoldable pub fill_slice : {A : Type 0} → ℕ → List A → Option (List (Option A))
fill_slice zero [] = some []
fill_slice zero (c ∷ cs) = none
fill_slice (suc n) [] = elim (fill_slice n []) [ none ↦ none | some rest ↦ some (none ∷ rest) ]
fill_slice (suc n) (c ∷ cs) = elim (fill_slice n cs) [
  | none ↦ none
  | some rest ↦ some (some c ∷ rest)
]

module _ {C V : Type 0} where
  -- The body of the loop of `UnregisterComponent`; `none` is a panic.
  unfoldable pub unregister_canonical : Bytes → Registry C V → Option (Registry C V)
  unregister_canonical name r =
      elim (remove_in_range (λ n. bytes_eq name n) r.sorted_component_name) [
        | none ↦ none
        | some names ↦
            elim (remove_in_range (λ (c : Component C). bytes_eq name c.name) r.components) [
              | none ↦ none
              | some components ↦ some (record r {
                component_map = delete name r.component_map;
                sorted_component_name = names;
                components = components;
              })
            ]
      ]

  unfoldable pub unregister_component : List Bytes → Registry C V → Option (Registry C V)
  unregister_component [] r = some r
  unregister_component (name ∷ names) r = elim (canonical_name name) [
    | none ↦ none
    | some canonical ↦ elim (unregister_canonical canonical r) [
      | none ↦ none
      | some r' ↦ unregister_component names r'
    ]
  ]

  -- the first lines of `RegisterComponent`
  unfoldable pub note_state : Component C → Registry C V → Registry C V
  note_state c r = elim (lookup c.name r.component_states) [
    | some _ ↦ r
    | none ↦ record r { component_states = assign c.name init r.component_states }
  ]

  -- its last lines
  unfoldable pub append_component : Bytes → Component C → Registry C V → Registry C V
  append_component name c r = record r {
    sorted_component_name = r.sorted_component_name ++ name ∷ [];
    components = r.components ++ c ∷ [];
    component_map = assign name c r.component_map;
  }

  -- `RegisterComponent`: the outcome and the registry that it leaves; `none` is a panic.
  unfoldable pub register_component :
      Component C → Bool → Registry C V → Option (Res RegistryError (Unit {0}) × Registry C V)
  register_component c ignore_if_exists r =
      let noted = note_state c r in
      elim (canonical_name c.name) [
        | none ↦ none
        | some name ↦ elim (lookup name r.component_map) [
          | none ↦ some (ok tt, append_component name c noted)
          | some _ ↦
              if ignore_if_exists
              then elim (unregister_component (name ∷ []) noted) [
                | none ↦ none
                | some r' ↦ some (ok tt, append_component name c r')
              ]
              else some (fail (component_exists name), noted)
        ]
      ]

  unfoldable pub get_component_by_name :
      Bytes → Registry C V → Option (Res RegistryError (Component C))
  get_component_by_name name r = elim (canonical_name name) [
    | none ↦ none
    | some canonical ↦ elim (lookup canonical r.component_map) [
      | none ↦ some (fail (component_not_exists canonical))
      | some c ↦ some (ok c)
    ]
  ]

  -- The components that the map holds for some names, in the order of the names.
  unfoldable pub present_components : Registry C V → List Bytes → List (Component C)
  present_components r [] = []
  present_components r (name ∷ names) = elim (lookup name r.component_map) [
    | none ↦ present_components r names
    | some c ↦ c ∷ present_components r names
  ]

  unfoldable pub get_sorted_components : Bool → Registry C V → Option (List (Option (Component C)))
  get_sorted_components is_reversed r = fill_slice (length r.components) (
      present_components r
        (if is_reversed then reverse r.sorted_component_name else r.sorted_component_name))

  unfoldable pub register_value :
      Bytes → V → Bool → Registry C V → Option (Res RegistryError (Registry C V))
  register_value key value force_overwrite r = elim (canonical_name key) [
    | none ↦ none
    | some k ↦ elim (lookup k r.values) [
      | none ↦ some (ok (record r { values = assign k value r.values }))
      | some _ ↦
          if force_overwrite
          then some (ok (record r { values = assign k value r.values }))
          else some (fail (value_exists k))
    ]
  ]

  unfoldable pub unregister_value :
      List Bytes → Registry C V → Option (Res RegistryError (Unit {0}) × Registry C V)
  unregister_value [] r = some (ok tt, r)
  unregister_value (key ∷ keys) r = elim (canonical_name key) [
    | none ↦ none
    | some k ↦ elim (lookup k r.values) [
      | none ↦ some (fail (value_not_exists k), r)
      | some _ ↦ unregister_value keys (record r { values = delete k r.values })
    ]
  ]

  unfoldable pub get_value : Bytes → Registry C V → Option (Res RegistryError V)
  get_value key r = elim (canonical_name key) [
    | none ↦ none
    | some k ↦ elim (lookup k r.values) [
      | none ↦ some (fail (value_not_exists k))
      | some v ↦ some (ok v)
    ]
  ]
