-- ===== src/Registry/Tests.antt =====
-- Runs of the registry.
use tick_framework.Base.{
  ℕ, ◌<◌, ◌≡◌, refl, true, false, [], ◌∷◌, ◌++◌, none, some, map, arith, Bytes, codes, ok, fail,
  ◌==◌,
}
use tick_framework.Registry.{
  Component, Registry, new_registry, register_component, unregister_component,
  get_sorted_components, component_exists,
}
use tick_framework.Registry.Name.{canonical_name}
use tick_framework.Registry.Sweep.{remove_in_range, reject, remove_in_range_once}
use tick_framework.Registry.Validity.{IsValid}
use tick_framework.Registry.Registration.{IsRegistered, register_component_lem}

-- of two neighbours that the test accepts, the second stays
neighbour_stays : remove_in_range (λ n. n == 2) (1 ∷ 2 ∷ 2 ∷ 3 ∷ []) ≡ some (1 ∷ 2 ∷ 3 ∷ [])
unfolding remove_in_range tick_framework.Registry.Sweep.sweep tick_framework.Registry.Sweep.pass
neighbour_stays = refl

-- removing the last two of three panics
removal_panics : remove_in_range (λ n. n == 2) (1 ∷ 2 ∷ 1 ∷ 2 ∷ []) ≡ none
unfolding remove_in_range tick_framework.Registry.Sweep.sweep tick_framework.Registry.Sweep.pass
removal_panics = refl

abbrev log_component : Component ℕ
log_component = record { name = codes "Log"; component = 1; configure_path = []; dependencies = [] }

abbrev empty : Registry ℕ ℕ
empty = new_registry

empty-IsValid : IsValid empty
unfolding tick_framework.Registry.Named.find_named tick_framework.Base.lookup
empty-IsValid = record { distinct = tt; ordered = refl; mapped = λ key. refl }

register_component_lem_example :
    (r' : Registry ℕ ℕ) × (register_component log_component true empty ≡ some (ok tt, r'))
    × IsRegistered log_component empty r'
unfolding canonical_name tick_framework.Registry.Name.upper_byte
register_component_lem_example = register_component_lem log_component empty empty-IsValid refl

registered :
    (r' : Registry ℕ ℕ) × (register_component log_component true empty ≡ some (ok tt, r'))
    × IsRegistered log_component empty r'
unfolding canonical_name tick_framework.Registry.Name.upper_byte
registered = register_component_lem log_component empty empty-IsValid refl

-- the registry with one component
abbrev one : Registry ℕ ℕ
one = registered.0

one-IsValid : IsValid one
one-IsValid = registered.2.valid
