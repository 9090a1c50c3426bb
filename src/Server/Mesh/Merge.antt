-- ===== src/Server/Mesh/Merge.antt =====
-- ltick.go: what the mesh holds of the calls of `addMesh`.
use tick_framework.Base.{
  ◌≡◌, refl, sym, ap, ◌∙◌, Bool, true, false, Bool-cases, not, ◌&&◌, ◌||◌, List, [], ◌∷◌, ◌++◌,
  append_assoc, append-nil, map, Option, some, Bytes, GoMap, lookup, assign, lookup-assign,
  to_upper, bytes_eq, bytes_eq_iff, if◌then◌else◌, inl, inr, arith,
}
use tick_framework.Registry.Sweep.{reject}
use tick_framework.Server.Mesh.{
  RouteHandler, Entry, Mesh, or_empty, or_nil, is_none, mesh_key, empty_mesh, find, add_upper,
  add_mesh, add_all,
}

-- A place in the mesh: a method in capitals, a group and a path.
pub record Place : Type 0 where
  pub method : Bytes
  pub group : Bytes
  pub path : Bytes

abbrev pub same_place : Place → Place → Bool
same_place p q = bytes_eq p.method q.method && (bytes_eq p.group q.group && bytes_eq p.path q.path)

same_place_sound : (p q : Place) → same_place p q ≡ true → p ≡ q
same_place_sound p q e =
    let a = (bytes_eq_iff p.method q.method).0 (ground arith) in
    let b = (bytes_eq_iff p.group q.group).0 (ground arith) in
    let c = (bytes_eq_iff p.path q.path).0 (ground arith) in
    λ i. record { method = a i; group = b i; path = c i }

abbrev pub place : {H : Type 0} → Entry H → Place
place e = record { method = to_upper e.method; group = e.group; path = e.path }

-- An assignment, one level down
or_empty-assign :
    {V : Type 0} (k j : Bytes) (v : GoMap V) (m : GoMap (GoMap V))
    → or_empty (lookup j (assign k v m)) ≡ (if bytes_eq k j then v else or_empty (lookup j m))
or_empty-assign k j v m = elim (Bool-cases (bytes_eq k j)) [
  | inl e ↦ rw (lookup-assign k j v m, e) refl
  | inr e ↦ rw (lookup-assign k j v m, e) refl
]

abbrev pub key_of : Place → Bytes
key_of p = mesh_key p.method p.group p.path

-- The places in the order in which they come up first.
unfoldable pub places : {H : Type 0} → List (Entry H) → List Place
places [] = []
places (e ∷ es) = place e ∷ reject (same_place (place e)) (places es)

reject-reject :
    {A : Type 0} (f g h : A → Bool) (xs : List A)
    → ((x : A) → h x ≡ (g x || f x))
    → reject h xs ≡ reject f (reject g xs)
unfolding reject
reject-reject f g h [] ext = refl
reject-reject f g h (x ∷ xs) ext = ground (arith, ext x, reject-reject f g h xs ext)

reject_nothing :
    (f : Place → Bool) (ps : List Place) → ((p : Place) → f p ≡ false) → reject f ps ≡ ps
unfolding reject
reject_nothing f [] no_one = refl
reject_nothing f (p ∷ ps) no_one = rw (no_one p, reject_nothing f ps no_one) refl

module _ {H : Type 0} where
  abbrev pub find_at : Place → Mesh H → Option (List (RouteHandler H))
  find_at p = find p.method p.group p.path

  find-add_upper :
      (p q : Place) (route : RouteHandler H) (m : Mesh H)
      → find_at q (add_upper p.method p.group p.path route m)
        ≡ (if same_place p q then some (or_nil (find_at p m) ++ route ∷ []) else find_at q m)
  unfolding find add_upper
  find-add_upper p q route m =
      let groups = or_empty (lookup p.method m.mesh) in
      let paths = or_empty (lookup p.group groups) in
      let routes = or_nil (lookup p.path paths) ++ route ∷ [] in
      ap (λ x. lookup q.path (or_empty (lookup q.group x)))
        (or_empty-assign p.method q.method (assign p.group (assign p.path routes paths) groups)
          m.mesh)
      ∙ elim (Bool-cases (bytes_eq p.method q.method)) [
        | inr n ↦ rw n refl
        | inl e ↦ rw e (
            ap (λ x. lookup q.path x)
              (or_empty-assign p.group q.group (assign p.path routes paths) groups)
            ∙ elim (Bool-cases (bytes_eq p.group q.group)) [
              | inr n ↦ rw (n, sym ((bytes_eq_iff p.method q.method).0 e)) refl
              | inl g ↦ rw g (
                  lookup-assign p.path q.path routes paths
                  ∙ rw
                      (
                        sym ((bytes_eq_iff p.method q.method).0 e),
                        sym ((bytes_eq_iff p.group q.group).0 g),
                      )
                      refl)
            ])
      ]

  -- The routes of the entries at a place, in their order.
  unfoldable pub routes_at : Place → List (Entry H) → List (RouteHandler H)
  routes_at p [] = []
  routes_at p (e ∷ es) =
      let rest = routes_at p es in if same_place (place e) p then e.route ∷ rest else rest

  -- The routes behind those that a place has; a place with none of both stays missing.
  abbrev merged :
      Option (List (RouteHandler H)) → List (RouteHandler H) → Option (List (RouteHandler H))
  merged o [] = o
  merged o (r ∷ rs) = some (or_nil o ++ r ∷ rs)

  merged-cons :
      (o : Option (List (RouteHandler H))) (r : RouteHandler H) (rs : List (RouteHandler H))
      → merged (some (or_nil o ++ r ∷ [])) rs ≡ merged o (r ∷ rs)
  merged-cons o r [] = refl
  merged-cons o r (s ∷ rs) = ap some (append_assoc (or_nil o) (r ∷ []) (s ∷ rs))

  pub find-add_all :
      (p : Place) (es : List (Entry H)) (m : Mesh H)
      → find_at p (add_all es m) ≡ merged (find_at p m) (routes_at p es)
  unfolding add_all add_mesh routes_at
  find-add_all p [] m = refl
  find-add_all p (e ∷ es) m =
      find-add_all p es (add_mesh e m) ∙ elim (Bool-cases (same_place (place e) p)) [
        | inl q ↦
            let same : find_at (place e) m ≡ find_at p m =
              ap (λ x. find_at x m) (same_place_sound (place e) p q) in
            rw (find-add_upper (place e) p e.route m, q, same)
              (merged-cons (find_at p m) e.route (routes_at p es))
        | inr n ↦ rw (find-add_upper (place e) p e.route m, n) refl
      ]

  merged_none :
      (p : Place) (rs : List (RouteHandler H)) → or_nil (merged (find_at p empty_mesh) rs) ≡ rs
  unfolding find lookup
  merged_none p [] = refl
  merged_none p (r ∷ rs) = refl

  pub routes-add_all :
      (p : Place) (es : List (Entry H))
      → or_nil (find_at p (add_all es empty_mesh)) ≡ routes_at p es
  routes-add_all p es = ap or_nil (find-add_all p es empty_mesh) ∙ merged_none p (routes_at p es)

  -- Whether the mesh has routes at a place.
  abbrev present : Mesh H → Place → Bool
  present m p = not (is_none (find_at p m))

  present-add_mesh :
      (e : Entry H) (m : Mesh H) (p : Place)
      → present (add_mesh e m) p ≡ (same_place (place e) p || present m p)
  unfolding add_mesh
  present-add_mesh e m p = elim (Bool-cases (same_place (place e) p)) [
    | inl q ↦ rw (find-add_upper (place e) p e.route m, q) refl
    | inr n ↦ rw (find-add_upper (place e) p e.route m, n) refl
  ]

  sorted-add_mesh :
      (e : Entry H) (m : Mesh H)
      → (add_mesh e m).sorted
        ≡ (if present m (place e) then m.sorted else m.sorted ++ key_of (place e) ∷ [])
  unfolding add_mesh add_upper find
  sorted-add_mesh e m = ground arith

  sorted-add_all :
      (es : List (Entry H)) (m : Mesh H)
      → (add_all es m).sorted ≡ m.sorted ++ map key_of (reject (present m) (places es))
  unfolding add_all places reject
  sorted-add_all [] m = sym (append-nil m.sorted)
  sorted-add_all (e ∷ es) m =
      sorted-add_all es (add_mesh e m)
      ∙ rw
          (
            reject-reject (present m) (same_place (place e)) (present (add_mesh e m)) (places es)
                (present-add_mesh e m),
            sorted-add_mesh e m,
          )
          (elim (Bool-cases (present m (place e))) [
            | inl q ↦ rw q refl
            | inr n ↦ rw n (
                append_assoc m.sorted (key_of (place e) ∷ [])
                  (map key_of (reject (present m) (reject (same_place (place e)) (places es)))))
          ])

  pub sorted-empty_mesh :
      (es : List (Entry H)) → (add_all es empty_mesh).sorted ≡ map key_of (places es)
  unfolding find lookup
  sorted-empty_mesh es =
      sorted-add_all es empty_mesh
      ∙ ap (map key_of) (reject_nothing (present empty_mesh) (places es) (λ p. refl))
