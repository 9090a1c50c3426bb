-- ===== src/Middleware/Validity.antt =====
-- The registry of middlewares: its list, its map and its order of names tell the same.
pub mod Registration
use tick_framework.Base.{
  ◌≡◌, refl, ap, sym, ◌∙◌, List, [], ◌∷◌, ◌++◌, Option, none, some, Bytes, lookup, delete,
  lookup-assign, lookup-delete, bytes_eq, if◌then◌else◌,
}
use tick_framework.Registry.Named
use tick_framework.Registry.Named.{
  find_named, NamesDistinct, names_once, entries_once, reject-names, NamesDistinct-others,
  find_named-others, NamesDistinct-append, names-append, find_named-append,
}
use tick_framework.Registry.Sweep.{remove_in_range, remove_in_range_once}
use tick_framework.Middleware.{Middleware, MiddlewareRegistry, remove_middleware, append_middleware}

module _ {M : Type 0} where
  abbrev pub name_of : Middleware M → Bytes
  name_of m = m.name

  -- The middlewares of other names.
  abbrev pub others : Bytes → List (Middleware M) → List (Middleware M)
  others = Named.others name_of

  pub record IsValid (r : MiddlewareRegistry M) : Type 0 where
    pub distinct : NamesDistinct name_of r.middlewares
    pub ordered : r.sorted_middleware_name ≡ Named.names name_of r.middlewares
    pub mapped : (key : Bytes) → lookup key r.middleware_map ≡ find_named name_of key r.middlewares

  -- The registry without a name.
  abbrev pub without : Bytes → MiddlewareRegistry M → MiddlewareRegistry M
  without key r = record r {
    middlewares = others key r.middlewares;
    middleware_map = delete key r.middleware_map;
    sorted_middleware_name = Named.names name_of (others key r.middlewares);
  }

  pub remove_middleware_lem :
      (key : Bytes) (r : MiddlewareRegistry M)
      → IsValid r
      → remove_middleware key r ≡ some (without key r)
  unfolding remove_middleware
  remove_middleware_lem key r v =
      let e1 : remove_in_range (λ n. bytes_eq key n) r.sorted_middleware_name
          ≡ some (Named.names name_of (others key r.middlewares)) =
        ap (remove_in_range (λ n. bytes_eq key n)) v.ordered
        ∙ remove_in_range_once (λ n. bytes_eq key n) (Named.names name_of r.middlewares)
            (names_once name_of key r.middlewares v.distinct)
        ∙ ap some (reject-names name_of key r.middlewares) in
      let e2 : remove_in_range (λ (m : Middleware M). bytes_eq key m.name) r.middlewares
          ≡ some (others key r.middlewares) =
        remove_in_range_once (λ (m : Middleware M). bytes_eq key m.name) r.middlewares
          (entries_once name_of key r.middlewares v.distinct) in
      rw (e1, e2, remove_middleware) refl

  pub without-IsValid :
      (key : Bytes) (r : MiddlewareRegistry M) → IsValid r → IsValid (without key r)
  without-IsValid key r v = record {
    distinct = NamesDistinct-others name_of key r.middlewares v.distinct;
    ordered = refl;
    mapped = λ j.
        lookup-delete key j r.middleware_map
        ∙ ap (λ o. if bytes_eq key j then none else o) (v.mapped j)
        ∙ sym (find_named-others name_of key j r.middlewares);
  }

  pub append_middleware-IsValid :
      (m : Middleware M) (r : MiddlewareRegistry M)
      → IsValid r
      → lookup m.name r.middleware_map ≡ none
      → IsValid (append_middleware m.name m r)
  unfolding append_middleware
  append_middleware-IsValid m r v absent =
      let missing : find_named name_of m.name r.middlewares ≡ none =
        sym (v.mapped m.name) ∙ absent in
      record {
        distinct = NamesDistinct-append name_of m r.middlewares missing v.distinct;
        ordered = ap (λ ns. ns ++ m.name ∷ []) v.ordered ∙ names-append name_of m r.middlewares;
        mapped = λ j.
            lookup-assign m.name j m r.middleware_map
            ∙ ap (λ o. if bytes_eq m.name j then some m else o) (v.mapped j)
            ∙ sym (find_named-append name_of m r.middlewares j missing);
      }
