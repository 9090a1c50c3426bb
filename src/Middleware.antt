-- ===== src/Middleware.antt =====
-- middleware.go: the part of the registry that holds middlewares.
pub mod Validity
pub mod IpFilter
mod Tests
use tick_framework.Base.{
  ℕ, Bool, true, false, List, [], ◌∷◌, ◌++◌, Option, none, some, Bytes, GoMap, codes, lookup,
  assign, delete, length, bytes_eq, if◌then◌else◌, Res, ok, fail, panic, ◌>>=◌,
}
use mathlib.Core.List.{reverse}
use tick_framework.Registry.Name.{canonical_name}
use tick_framework.Registry.Sweep.{remove_in_range}
use tick_framework.Registry.{fill_slice}

pub data MiddlewareError : Type 0 where
  middleware_exists middleware_not_exists : Bytes → MiddlewareError

-- `Middleware`; its implementation is of any type.
pub record Middleware (M : Type 0) : Type 0 where
  pub name : Bytes
  pub middleware : M

-- The part of `Registry` that holds middlewares.
pub record MiddlewareRegistry (M : Type 0) : Type 0 where
  pub middlewares : List (Middleware M)
  pub middleware_map : GoMap (Middleware M)
  pub sorted_middleware_name : List Bytes

abbrev pub empty_registry : {M : Type 0} → MiddlewareRegistry M
empty_registry = record { middlewares = []; middleware_map = []; sorted_middleware_name = [] }

-- What a method does: it returns, fails or panics, and leaves a registry where it does not panic.
abbrev pub Outcome : Type 0 → Type 0
Outcome M = Option (Res MiddlewareError (Unit {0}) × MiddlewareRegistry M)

module _ {M : Type 0} where
  -- `Middlewares.Get`; `none` is a panic.
  unfoldable pub get : Bytes → List (Middleware M) → Option (Option (Middleware M))
  get name [] = some none
  get name (c ∷ cs) = elim (canonical_name name) [
    | none ↦ none
    | some canonical ↦ elim (bytes_eq canonical c.name) [
      | true ↦ some (some c)
      | false ↦ get name cs
    ]
  ]

  -- `GetMiddlewareByName`
  unfoldable pub get_middleware_by_name :
      Bytes → MiddlewareRegistry M → Option (Res MiddlewareError (Middleware M))
  get_middleware_by_name name r = elim (canonical_name name) [
    | none ↦ none
    | some canonical ↦ elim (lookup canonical r.middleware_map) [
      | none ↦ some (fail (middleware_not_exists canonical))
      | some m ↦ some (ok m)
    ]
  ]

  -- The rest of the body of the loop of `UnregisterMiddleware`, for a name that exists.
  unfoldable pub remove_middleware : Bytes → MiddlewareRegistry M → Option (MiddlewareRegistry M)
  remove_middleware name r =
      elim (remove_in_range (λ n. bytes_eq name n) r.sorted_middleware_name) [
        | none ↦ none
        | some names ↦
            elim (remove_in_range (λ (m : Middleware M). bytes_eq name m.name) r.middlewares) [
              | none ↦ none
              | some middlewares ↦ some (record r {
                middlewares = middlewares;
                middleware_map = delete name r.middleware_map;
                sorted_middleware_name = names;
              })
            ]
      ]

  unfoldable pub unregister_middleware : List Bytes → MiddlewareRegistry M → Outcome M
  unregister_middleware [] r = some (ok tt, r)
  unregister_middleware (middleware_name ∷ rest) r = elim (canonical_name middleware_name) [
    | none ↦ none
    | some name ↦ elim (lookup name r.middleware_map) [
      | none ↦ some (fail (middleware_not_exists name), r)
      | some _ ↦ elim (remove_middleware name r) [
        | none ↦ none
        | some r' ↦ unregister_middleware rest r'
      ]
    ]
  ]

  -- the last lines of `RegisterMiddleware`
  unfoldable pub append_middleware :
      Bytes → Middleware M → MiddlewareRegistry M → MiddlewareRegistry M
  append_middleware name m r = record r {
    middlewares = r.middlewares ++ m ∷ [];
    middleware_map = assign name m r.middleware_map;
    sorted_middleware_name = r.sorted_middleware_name ++ name ∷ [];
  }

  unfoldable pub register_middleware : Middleware M → Bool → MiddlewareRegistry M → Outcome M
  register_middleware m ignore_if_exists r = elim (canonical_name m.name) [
    | none ↦ none
    | some name ↦ elim (lookup name r.middleware_map) [
      | none ↦ some (ok tt, append_middleware name m r)
      | some _ ↦
          if ignore_if_exists
          then elim (unregister_middleware (name ∷ []) r) [
            | none ↦ none
            | some (ok _, r') ↦ some (ok tt, append_middleware name m r')
            | some (fail e, r') ↦ some (fail e, r')
            | some (panic, r') ↦ none
          ]
          else some (fail (middleware_exists name), r)
    ]
  ]

  -- `UseMiddleware` over the optional middlewares. The injection that follows looks for tagged fields
  -- of `Middleware` itself, which has none, and does nothing.
  unfoldable pub use_middleware :
      List (Middleware M) → List Bytes → MiddlewareRegistry M → Outcome M
  use_middleware optional [] r = some (ok tt, r)
  use_middleware optional (middleware_name ∷ rest) r = elim (canonical_name middleware_name) [
    | none ↦ none
    | some name ↦ elim (get name optional) [
      | none ↦ none
      | some none ↦ some (fail (middleware_not_exists name), r)
      | some (some m) ↦ elim (register_middleware m true r) [
        | none ↦ none
        | some (ok _, r') ↦ use_middleware optional rest r'
        | some (fail e, r') ↦ some (fail e, r')
        | some (panic, r') ↦ none
      ]
    ]
  ]

  -- The middlewares that the map holds for some names, in the order of the names.
  unfoldable pub present_middlewares : MiddlewareRegistry M → List Bytes → List (Middleware M)
  present_middlewares r [] = []
  present_middlewares r (name ∷ names) = elim (lookup name r.middleware_map) [
    | none ↦ present_middlewares r names
    | some m ↦ m ∷ present_middlewares r names
  ]

  unfoldable pub get_sorted_middlewares :
      Bool → MiddlewareRegistry M → Option (List (Option (Middleware M)))
  get_sorted_middlewares is_reversed r = fill_slice (length r.middlewares) (
      present_middlewares r
        (if is_reversed then reverse r.sorted_middleware_name else r.sorted_middleware_name))
