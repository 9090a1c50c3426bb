-- ===== src/Middleware/Tests.antt =====
-- Runs of the registry of middlewares.
use tick_framework.Base.{ℕ, ◌≡◌, refl, true, false, [], ◌∷◌, some, map, codes, lookup, bytes_eq, ok}
use tick_framework.Registry.Name.{canonical_name, upper_byte}
use tick_framework.Registry.Named.{find_named}
use tick_framework.Middleware.{
  Middleware, MiddlewareRegistry, empty_registry, register_middleware, use_middleware,
  get_sorted_middlewares,
}
use tick_framework.Middleware.Validity.{IsValid}
use tick_framework.Middleware.Validity.Registration.{
  IsRegistered, register_middleware_lem, moved_last, use_middleware_lem, get_sorted_middlewares_lem,
}

abbrev ip_filter : Middleware ℕ
ip_filter = record { name = codes "IPFilter"; middleware = 1 }

abbrev empty : MiddlewareRegistry ℕ
empty = empty_registry

empty-IsValid : IsValid empty
unfolding find_named lookup
empty-IsValid = record { distinct = tt; ordered = refl; mapped = λ key. refl }

registered :
    (r' : MiddlewareRegistry ℕ) × (register_middleware ip_filter true empty ≡ some (ok tt, r'))
    × IsRegistered ip_filter empty r'
unfolding canonical_name upper_byte
registered = register_middleware_lem ip_filter empty empty-IsValid refl

-- the registry with one middleware
abbrev one : MiddlewareRegistry ℕ
one = registered.0

one-IsValid : IsValid one
one-IsValid = registered.2.valid

use_middleware_lem_example :
    (r' : MiddlewareRegistry ℕ) × (use_middleware (ip_filter ∷ []) (codes "iPFilter" ∷ []) empty
      ≡ some (ok tt, r'))
    × IsValid r'
    × (r'.middlewares ≡ moved_last (ip_filter ∷ []) empty.middlewares)
unfolding canonical_name upper_byte find_named bytes_eq
use_middleware_lem_example =
    use_middleware_lem (ip_filter ∷ []) (codes "iPFilter" ∷ []) (ip_filter ∷ []) empty empty-IsValid
      (refl, refl, refl, tt)

get_sorted_middlewares_lem_example :
    get_sorted_middlewares false one ≡ some (map some one.middlewares)
get_sorted_middlewares_lem_example = get_sorted_middlewares_lem one one-IsValid
