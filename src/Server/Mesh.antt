-- ===== src/Server/Mesh.antt =====
-- ltick.go: the mesh of `Startup`, in which routes of one method, group and path are merged.
pub mod Merge
pub mod Keys
use tick_framework.Base.{
  split_n, ℕ, zero, suc, ◌≡◌, Bool, true, false, List, [], ◌∷◌, ◌++◌, map, Option, none, some,
  Bytes, GoMap, codes, lookup, assign, to_upper, bytes_eq, if◌then◌else◌, ◌==◌, Res, ok, fail,
  panic,
}
use tick_framework.Utility.Array.{to_lower}
use tick_framework.Server.{BasicAuth}

-- `routeHandler`
pub record RouteHandler (H : Type 0) : Type 0 where
  pub host : List Bytes
  pub basic_auth : Option BasicAuth
  pub handler : H

-- The arguments of a call of `addMesh`.
pub record Entry (H : Type 0) : Type 0 where
  pub method : Bytes
  pub group : Bytes
  pub path : Bytes
  pub route : RouteHandler H

-- The variables mesh and sortedMesh.
pub record Mesh (H : Type 0) : Type 0 where
  pub sorted : List Bytes
  pub mesh : GoMap (GoMap (GoMap (List (RouteHandler H))))

abbrev pub or_empty : {V : Type 0} → Option (GoMap V) → GoMap V
or_empty none = []
or_empty (some m) = m

abbrev pub or_nil : {V : Type 0} → Option (List V) → List V
or_nil none = []
or_nil (some vs) = vs

-- The texts of the mesh's keys.
abbrev pub mesh_key : Bytes → Bytes → Bytes → Bytes
mesh_key method group path = method ++ (b'$' ∷ (group ++ (b'$' ∷ path)))

abbrev pub is_none : {V : Type 0} → Option V → Bool
is_none none = true
is_none (some v) = false

module _ {H : Type 0} where
  -- `mesh[method][group][path]`; a missing map reads as an empty one.
  unfoldable pub find : Bytes → Bytes → Bytes → Mesh H → Option (List (RouteHandler H))
  find method group path m = lookup path (or_empty (lookup group (or_empty (lookup method m.mesh))))

  -- the function under the name of the method in capitals
  unfoldable pub add_upper : Bytes → Bytes → Bytes → RouteHandler H → Mesh H → Mesh H
  add_upper method group path route m =
      let groups = or_empty (lookup method m.mesh) in
      let paths = or_empty (lookup group groups) in
      let routes = lookup path paths in
      record {
        sorted = if is_none routes then m.sorted ++ mesh_key method group path ∷ [] else m.sorted;
        mesh =
            assign method (assign group (assign path (or_nil routes ++ route ∷ []) paths) groups)
              m.mesh;
      }

  unfoldable pub add_mesh : Entry H → Mesh H → Mesh H
  add_mesh e m = add_upper (to_upper e.method) e.group e.path e.route m

  abbrev pub empty_mesh : Mesh H
  empty_mesh = record { sorted = []; mesh = [] }

  unfoldable pub add_all : List (Entry H) → Mesh H → Mesh H
  add_all [] m = m
  add_all (e ∷ es) m = add_all es (add_mesh e m)

-- A call of the router: the method, none for any, on a path of a group.
pub record Registration (H : Type 0) : Type 0 where
  pub method : Option Bytes
  pub group : Bytes
  pub path : Bytes
  pub routes : List (RouteHandler H)

abbrev pub method_of : Bytes → Option Bytes
method_of method = if bytes_eq (to_lower method) (codes "any") then none else some method

module _ {H : Type 0} where
  -- The body of the loop over sortedMesh; a key of fewer than three parts panics.
  unfoldable pub register_parts : List Bytes → Mesh H → Option (Registration H)
  register_parts (method ∷ group ∷ path ∷ rest) m = some (record {
    method = method_of method;
    group = group;
    path = path;
    routes = or_nil (find method group path m);
  })
  register_parts _ m = none

  unfoldable pub register_keys : List Bytes → Mesh H → Option (List (Registration H))
  register_keys [] m = some []
  register_keys (key ∷ keys) m = elim (register_parts (split_n b'$' 3 key) m) [
    | none ↦ none
    | some r ↦ elim (register_keys keys m) [ none ↦ none | some rs ↦ some (r ∷ rs) ]
  ]

  -- The registrations that a sequence of calls of `addMesh` leads to.
  unfoldable pub registrations : List (Entry H) → Option (List (Registration H))
  registrations es = let m = add_all es empty_mesh in register_keys m.sorted m
