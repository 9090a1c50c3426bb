-- ===== src/Registry/Validity.antt =====
-- The registry's list, its map and its order of names tell the same.
use tick_framework.Base.{
  ◌≡◌, refl, ap, sym, ◌∙◌, List, [], ◌∷◌, ◌++◌, Option, none, some, Bytes, lookup, delete,
  lookup-assign, lookup-delete, bytes_eq, if◌then◌else◌,
}
use tick_framework.Registry.{Component, Registry, unregister_canonical, append_component}
use tick_framework.Registry.Named
use tick_framework.Registry.Named.{
  find_named, names_once, entries_once, reject-names, NamesDistinct-others, find_named-others,
  NamesDistinct-append, names-append, find_named-append,
}
use tick_framework.Registry.Sweep.{remove_in_range, remove_in_range_once}

module _ {C : Type 0} where
  abbrev pub name_of : Component C → Bytes
  name_of c = c.name

  abbrev pub names : List (Component C) → List Bytes
  names = Named.names name_of

  abbrev pub find_component : Bytes → List (Component C) → Option (Component C)
  find_component = find_named name_of

  abbrev pub NamesDistinct : List (Component C) → Type 0
  NamesDistinct = Named.NamesDistinct name_of

  -- The components of other names.
  abbrev pub others : Bytes → List (Component C) → List (Component C)
  others = Named.others name_of

module _ {C V : Type 0} where
  pub record IsValid (r : Registry C V) : Type 0 where
    pub distinct : NamesDistinct r.components
    pub ordered : r.sorted_component_name ≡ names r.components
    pub mapped : (key : Bytes) → lookup key r.component_map ≡ find_component key r.components

  -- The registry without a name.
  abbrev pub unregistered : Bytes → Registry C V → Registry C V
  unregistered key r = record r {
    component_map = delete key r.component_map;
    sorted_component_name = names (others key r.components);
    components = others key r.components;
  }

  pub unregister_canonical_lem :
      (key : Bytes) (r : Registry C V)
      → IsValid r
      → unregister_canonical key r ≡ some (unregistered key r)
  unfolding unregister_canonical
  unregister_canonical_lem key r v =
      let e1 : remove_in_range (λ n. bytes_eq key n) r.sorted_component_name
          ≡ some (names (others key r.components)) =
        ap (remove_in_range (λ n. bytes_eq key n)) v.ordered
        ∙ remove_in_range_once (λ n. bytes_eq key n) (names r.components)
            (names_once name_of key r.components v.distinct)
        ∙ ap some (reject-names name_of key r.components) in
      let e2 : remove_in_range (λ (c : Component C). bytes_eq key c.name) r.components
          ≡ some (others key r.components) =
        remove_in_range_once (λ (c : Component C). bytes_eq key c.name) r.components
          (entries_once name_of key r.components v.distinct) in
      rw (e1, e2, unregister_canonical) refl

  pub unregistered-IsValid :
      (key : Bytes) (r : Registry C V) → IsValid r → IsValid (unregistered key r)
  unregistered-IsValid key r v = record {
    distinct = NamesDistinct-others name_of key r.components v.distinct;
    ordered = refl;
    mapped = λ j.
        lookup-delete key j r.component_map
        ∙ ap (λ o. if bytes_eq key j then none else o) (v.mapped j)
        ∙ sym (find_named-others name_of key j r.components);
  }

  pub append_component-IsValid :
      (c : Component C) (r : Registry C V)
      → IsValid r
      → lookup c.name r.component_map ≡ none
      → IsValid (append_component c.name c r)
  unfolding append_component
  append_component-IsValid c r v absent =
      let missing : find_component c.name r.components ≡ none = sym (v.mapped c.name) ∙ absent in
      record {
        distinct = NamesDistinct-append name_of c r.components missing v.distinct;
        ordered = ap (λ ns. ns ++ c.name ∷ []) v.ordered ∙ names-append name_of c r.components;
        mapped = λ j.
            lookup-assign c.name j c r.component_map
            ∙ ap (λ o. if bytes_eq c.name j then some c else o) (v.mapped j)
            ∙ sym (find_named-append name_of c r.components j missing);
      }
