-- ===== src/Server/Mesh/Keys.antt =====
-- ltick.go: the registrations that the mesh leads to.
use tick_framework.Base.{
  Lacks, cut-append, split_n-step, split_n, ◌≡◌, refl, ap, ◌∙◌, Bool, Bool-cases, List, [], ◌∷◌,
  ◌++◌, map, some, Bytes, All, inl, inr,
}
use tick_framework.Registry.Sweep.{reject}
use tick_framework.Server.Mesh.{
  Entry, Registration, mesh_key, method_of, find, add_all, empty_mesh, register_parts,
  register_keys, registrations,
}
use tick_framework.Server.Mesh.Merge.{
  Place, place, places, key_of, same_place, routes_at, routes-add_all, sorted-empty_mesh,
}

-- A text without a dollar sign.
abbrev pub LacksDollar : Bytes → Type 0
LacksDollar = Lacks b'$'

split_n-mesh_key :
    (method group path : Bytes)
    → LacksDollar method
    → LacksDollar group
    → split_n b'$' 3 (mesh_key method group path) ≡ method ∷ group ∷ path ∷ []
unfolding split_n
split_n-mesh_key method group path nm ng =
    split_n-step b'$' 1 method (group ++ b'$' ∷ path) (mesh_key method group path)
      (cut-append b'$' method (group ++ b'$' ∷ path) refl nm)
    ∙ ap (λ parts. method ∷ parts)
        (split_n-step b'$' 0 group path (group ++ b'$' ∷ path) (cut-append b'$' group path refl ng))

-- A place whose method and group have no dollar sign.
abbrev pub IsPlain : Place → Type 0
IsPlain p = LacksDollar p.method × LacksDollar p.group

-- The registration for a place, with the routes of all calls there.
abbrev pub registration : {H : Type 0} → List (Entry H) → Place → Registration H
registration es p = record {
  method = method_of p.method;
  group = p.group;
  path = p.path;
  routes = routes_at p es;
}

reject-All :
    (P : Place → Type 0) (f : Place → Bool) (ps : List Place) → All P ps → All P (reject f ps)
unfolding reject
reject-All P f [] a = tt
reject-All P f (p ∷ ps) (a, rest) = elim (Bool-cases (f p)) [
  | inl e ↦ rw e (reject-All P f ps rest)
  | inr e ↦ rw e (a, reject-All P f ps rest)
]

module _ {H : Type 0} where
  register_keys-map :
      (es : List (Entry H)) (ps : List Place)
      → All IsPlain ps
      → register_keys (map key_of ps) (add_all es empty_mesh) ≡ some (map (registration es) ps)
  unfolding register_keys register_parts
  register_keys-map es [] _ = refl
  register_keys-map es (p ∷ ps) ((nm, ng), plain) =
      rw
        (
          split_n-mesh_key p.method p.group p.path nm ng,
          register_keys,
          register_parts,
          register_keys-map es ps plain,
        )
        (ap
          (λ rs. some (
            record { method = method_of p.method; group = p.group; path = p.path; routes = rs }
            ∷ map (registration es) ps))
          (routes-add_all p es))

  places-All :
      (P : Place → Type 0) (es : List (Entry H)) → All (λ e. P (place e)) es → All P (places es)
  unfolding places
  places-All P [] a = tt
  places-All P (e ∷ es) (a, rest) =
      (a, reject-All P (same_place (place e)) (places es) (places-All P es rest))

  -- For calls of `addMesh` whose methods and groups have no dollar sign: the keys lead back to the
  -- places, without a panic, and each place of a method in capitals, a group and a path is
  -- registered once, in the order in which the places come up first, with the routes of all calls
  -- there, in the order of the calls.
  pub registrations_lem :
      (es : List (Entry H))
      → All (λ e. IsPlain (place e)) es
      → registrations es ≡ some (map (registration es) (places es))
  unfolding registrations find
  registrations_lem es plain =
      ap (λ keys. register_keys keys (add_all es empty_mesh)) (sorted-empty_mesh es)
      ∙ register_keys-map es (places es) (places-All IsPlain es plain)
