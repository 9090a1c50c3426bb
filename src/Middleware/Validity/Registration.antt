-- ===== src/Middleware/Validity/Registration.antt =====
-- Registration, removal and use of middlewares on a registry that is valid.
use tick_framework.Base.{
  ◌≡◌, refl, ap, sym, ◌∙◌, Bool, true, false, List, [], ◌∷◌, ◌++◌, map, none, some, Bytes, All,
  lookup, lookup-delete, bytes_eq, bytes_eq_refl, bytes_eq_iff, length, ok, fail, Option-cases,
  Bool-cases, inl, inr, arith,
}
use tick_framework.Registry.{fill_slice}
use tick_framework.Registry.Name.{canonical_name}
use tick_framework.Registry.Named
use tick_framework.Registry.Named.{find_named, others-absent, IsFoundIn, all_found}
use tick_framework.Registry.Sorted.{fill_slice_full}
use tick_framework.Middleware.{
  middleware_not_exists, Middleware, MiddlewareRegistry, get, unregister_middleware,
  append_middleware, register_middleware, use_middleware, present_middlewares,
  get_sorted_middlewares,
}
use tick_framework.Middleware.Validity.{
  name_of, others, IsValid, without, remove_middleware_lem, without-IsValid,
  append_middleware-IsValid,
}

module _ {M : Type 0} where
  -- The registry with one middleware last, in place of one of its name.
  abbrev pub replaced : Middleware M → MiddlewareRegistry M → MiddlewareRegistry M
  replaced m r = append_middleware m.name m (without m.name r)

  pub replaced-IsValid :
      (m : Middleware M) (r : MiddlewareRegistry M) → IsValid r → IsValid (replaced m r)
  replaced-IsValid m r v =
      append_middleware-IsValid m (without m.name r) (without-IsValid m.name r v)
        (lookup-delete m.name m.name r.middleware_map ∙ rw (bytes_eq_refl m.name) refl)

  -- `UnregisterMiddleware` of one name, on a valid registry: it takes the middleware of that name out
  -- and leaves a valid registry, or there is none and it fails and changes nothing.
  pub unregister_middleware_lem :
      (name key : Bytes) (r : MiddlewareRegistry M)
      → IsValid r
      → canonical_name name ≡ some key
      → IsValid (without key r)
        × (unregister_middleware (name ∷ []) r ≡ elim (lookup key r.middleware_map) [
          | none ↦ some (fail (middleware_not_exists key), r)
          | some _ ↦ some (ok tt, without key r)
        ])
  unfolding unregister_middleware
  unregister_middleware_lem name key r v canonical = (
    without-IsValid key r v,
    elim (Option-cases (lookup key r.middleware_map)) [
      | inl e ↦ rw (canonical, e, unregister_middleware) refl
      | inr (m, e) ↦ rw (canonical, e, remove_middleware_lem key r v, unregister_middleware) refl
    ],
  )

  unregister_present :
      (key : Bytes) (m : Middleware M) (r : MiddlewareRegistry M)
      → IsValid r
      → canonical_name key ≡ some key
      → lookup key r.middleware_map ≡ some m
      → unregister_middleware (key ∷ []) r ≡ some (ok tt, without key r)
  unregister_present key m r v canonical e =
      (unregister_middleware_lem key key r v canonical).1 ∙ rw e refl

  -- What a registration makes of the list of middlewares, with the registry valid.
  pub record IsRegistered (m : Middleware M) (r r' : MiddlewareRegistry M) : Type 0 where
    pub valid : IsValid r'
    pub middlewares : r'.middlewares ≡ others m.name r.middlewares ++ m ∷ []

  register_absent :
      (m : Middleware M) (r : MiddlewareRegistry M) (ignore_if_exists : Bool)
      → IsValid r
      → canonical_name m.name ≡ some m.name
      → lookup m.name r.middleware_map ≡ none
      → (r' : MiddlewareRegistry M) × (register_middleware m ignore_if_exists r ≡ some (ok tt, r'))
        × IsRegistered m r r'
  unfolding register_middleware append_middleware
  register_absent m r b v canonical e = (
    append_middleware m.name m r,
    rw (canonical, e, register_middleware) refl,
    record {
      valid = append_middleware-IsValid m r v e;
      middlewares =
          ap (λ cs. cs ++ m ∷ [])
            (sym (others-absent name_of m.name r.middlewares (sym (v.mapped m.name) ∙ e)));
    },
  )

  register_present :
      (m old : Middleware M) (r : MiddlewareRegistry M)
      → IsValid r
      → canonical_name m.name ≡ some m.name
      → lookup m.name r.middleware_map ≡ some old
      → (r' : MiddlewareRegistry M) × (register_middleware m true r ≡ some (ok tt, r'))
        × IsRegistered m r r'
  unfolding register_middleware append_middleware
  register_present m old r v canonical e = (
    replaced m r,
    rw (canonical, e, unregister_present m.name old r v canonical, register_middleware) refl,
    record { valid = replaced-IsValid m r v; middlewares = refl },
  )

  -- `RegisterMiddleware` that overrides, on a valid registry and for a canonical name, succeeds, leaves
  -- a valid registry, and puts the middleware last in place of one of its name.
  pub register_middleware_lem :
      (m : Middleware M) (r : MiddlewareRegistry M)
      → IsValid r
      → canonical_name m.name ≡ some m.name
      → (r' : MiddlewareRegistry M) × (register_middleware m true r ≡ some (ok tt, r'))
        × IsRegistered m r r'
  register_middleware_lem m r v canonical = elim (Option-cases (lookup m.name r.middleware_map)) [
    | inl e ↦ register_absent m r true v canonical e
    | inr (old, e) ↦ register_present m old r v canonical e
  ]

  get-find_named :
      (name key : Bytes) (optional : List (Middleware M))
      → canonical_name name ≡ some key
      → get name optional ≡ some (find_named name_of key optional)
  unfolding get find_named
  get-find_named name key [] canonical = refl
  get-find_named name key (m ∷ ms) canonical = elim (Bool-cases (bytes_eq m.name key)) [
    | inl e ↦
        let e' : bytes_eq key m.name ≡ true =
          ground (arith, bytes_eq_iff m.name key, bytes_eq_iff key m.name) in
        rw (canonical, e, e', get) refl
    | inr n ↦
        let n' : bytes_eq key m.name ≡ false =
          ground (arith, bytes_eq_iff m.name key, bytes_eq_iff key m.name) in
        rw (canonical, n, n', get) (get-find_named name key ms canonical)
  ]

  -- Each name is that of an optional middleware.
  abbrev pub Resolves : List (Middleware M) → List Bytes → List (Middleware M) → Type 0
  Resolves optional [] [] = Unit
  Resolves optional [] (m ∷ ms) = ⊥
  Resolves optional (name ∷ names) [] = ⊥
  Resolves optional (name ∷ names) (m ∷ ms) =
      (canonical_name name ≡ some m.name)
      × (canonical_name m.name ≡ some m.name)
      × (find_named name_of m.name optional ≡ some m)
      × Resolves optional names ms

  -- The middlewares after some are put last, one after the other.
  abbrev pub moved_last : List (Middleware M) → List (Middleware M) → List (Middleware M)
  moved_last [] cs = cs
  moved_last (m ∷ ms) cs = moved_last ms (others m.name cs ++ m ∷ [])

  use_step :
      (optional : List (Middleware M)) (name : Bytes) (names : List Bytes) (m : Middleware M)
      (r r' : MiddlewareRegistry M)
      → canonical_name name ≡ some m.name
      → find_named name_of m.name optional ≡ some m
      → canonical_name m.name ≡ some m.name
      → register_middleware m true r ≡ some (ok tt, r')
      → use_middleware optional (name ∷ names) r ≡ use_middleware optional names r'
  unfolding use_middleware
  use_step optional name names m r r' canonical found fixed done =
      rw
        (
          canonical,
          get-find_named m.name m.name optional fixed ∙ ap some found,
          done,
          use_middleware,
        )
        refl

  -- `UseMiddleware` with names of optional middlewares, on a valid registry, succeeds, leaves a valid
  -- registry, and puts these middlewares last, in the order of the names.
  pub use_middleware_lem :
      (optional : List (Middleware M)) (names : List Bytes) (ms : List (Middleware M))
      (r : MiddlewareRegistry M)
      → IsValid r
      → Resolves optional names ms
      → (r' : MiddlewareRegistry M) × (use_middleware optional names r ≡ some (ok tt, r'))
        × IsValid r'
        × (r'.middlewares ≡ moved_last ms r.middlewares)
  unfolding use_middleware
  use_middleware_lem optional [] [] r v h = (r, refl, v, refl)
  use_middleware_lem optional [] (m ∷ ms) r v h = absurd h
  use_middleware_lem optional (name ∷ names) [] r v h = absurd h
  use_middleware_lem optional (name ∷ names) (m ∷ ms) r v (canonical, fixed, found, h) =
      let (r1, done, g) = register_middleware_lem m r v fixed in
      let (r2, rest, valid, same) = use_middleware_lem optional names ms r1 g.valid h in
      (
        r2,
        use_step optional name names m r r1 canonical found fixed done ∙ rest,
        valid,
        same ∙ ap (moved_last ms) g.middlewares,
      )

module _ {M : Type 0} (r : MiddlewareRegistry M) (v : IsValid r) where
  present_all :
      (ms : List (Middleware M))
      → All (IsFoundIn name_of r.middlewares) ms
      → present_middlewares r (Named.names name_of ms) ≡ ms
  unfolding present_middlewares
  present_all [] f = refl
  present_all (m ∷ ms) (e, f) = rw (v.mapped m.name, e, present_all ms f, present_middlewares) refl

  -- On a valid registry `GetSortedMiddlewares` returns all middlewares in the order of registration.
  pub get_sorted_middlewares_lem : get_sorted_middlewares false r ≡ some (map some r.middlewares)
  unfolding get_sorted_middlewares
  get_sorted_middlewares_lem =
      ap (λ ns. fill_slice (length r.middlewares) (present_middlewares r ns)) v.ordered
      ∙ ap (fill_slice (length r.middlewares))
          (present_all r.middlewares (all_found name_of r.middlewares v.distinct))
      ∙ fill_slice_full r.middlewares
