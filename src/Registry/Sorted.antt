-- ===== src/Registry/Sorted.antt =====
-- `GetSortedComponents` of component.go on a registry that is valid.
use tick_framework.Base.{◌≡◌, refl, ap, ◌∙◌, false, List, [], ◌∷◌, map, some, All, length}
use tick_framework.Registry.{
  Component, Registry, present_components, fill_slice, get_sorted_components,
}
use tick_framework.Registry.Named.{IsFoundIn, all_found}
use tick_framework.Registry.Validity.{name_of, names, IsValid}

pub fill_slice_full : {A : Type 0} (xs : List A) → fill_slice (length xs) xs ≡ some (map some xs)
unfolding fill_slice
fill_slice_full [] = refl
fill_slice_full (x ∷ xs) = rw (fill_slice_full xs) refl

module _ {C V : Type 0} (r : Registry C V) (v : IsValid r) where
  present_all :
      (cs : List (Component C))
      → All (IsFoundIn name_of r.components) cs
      → present_components r (names cs) ≡ cs
  unfolding present_components
  present_all [] f = refl
  present_all (c ∷ cs) (e, f) = rw (v.mapped c.name, e, present_all cs f, present_components) refl

  -- On a valid registry.
  pub get_sorted_components_lem : get_sorted_components false r ≡ some (map some r.components)
  unfolding get_sorted_components
  get_sorted_components_lem =
      ap (λ ns. fill_slice (length r.components) (present_components r ns)) v.ordered
      ∙ ap (fill_slice (length r.components))
          (present_all r.components (all_found name_of r.components v.distinct))
      ∙ fill_slice_full r.components
