-- ===== src/Server.antt =====
-- server.go: servers with their routes, proxies and pages, as the program sets them up.
pub mod Mesh
pub mod Routes
pub mod Dispatch
pub mod Options
mod Tests
use tick_framework.Base.{
  ℕ, Bool, true, false, List, [], ◌∷◌, ◌++◌, Option, none, some, Bytes, GoMap, codes, lookup,
  assign,
}

pub record BasicAuth : Type 0 where
  pub username : Bytes
  pub password : Bytes

-- `ServerRouterProxy`
pub record Proxy : Type 0 where
  pub host : List Bytes
  pub group : Bytes
  pub path : Bytes
  pub upstream : Bytes

-- `ServerRouterMetrics`
pub record Metrics : Type 0 where
  pub host : List Bytes
  pub group : Bytes
  pub basic_auth : Option BasicAuth

-- `ServerRouterPprof`
pub record Pprof : Type 0 where
  pub host : List Bytes
  pub basic_auth : Option BasicAuth

-- `ServerRouterRoute`, with handlers of any type, which may be nil.
pub record Route (A : Type 0) : Type 0 where
  pub host : List Bytes
  pub group : Bytes
  pub method : List Bytes
  pub path : Bytes
  pub basic_auth : Option BasicAuth
  pub handlers : List (Option A)

-- The part of `ServerRouter` that the routes come from; routes and proxies may be nil.
pub record Router (A : Type 0) : Type 0 where
  pub metrics : Option Metrics
  pub pprof : Option Pprof
  pub proxys : List (Option Proxy)
  pub routes : List (Option (Route A))

module _ {A : Type 0} where
  -- The methods of `Server` that add a route for one method
  unfoldable pub add_method :
      Bytes → List Bytes → Bytes → Bytes → List (Option A) → Router A → Router A
  add_method method host group path handlers r = record r {
    routes =
        r.routes
        ++ some (record {
          host = host;
          group = group;
          method = method ∷ [];
          path = path;
          basic_auth = none;
          handlers = handlers;
        })
          ∷ [];
  }

  abbrev pub get : List Bytes → Bytes → Bytes → List (Option A) → Router A → Router A
  get = add_method (codes "GET")

  abbrev pub post : List Bytes → Bytes → Bytes → List (Option A) → Router A → Router A
  post = add_method (codes "POST")

  abbrev pub put : List Bytes → Bytes → Bytes → List (Option A) → Router A → Router A
  put = add_method (codes "PUT")

  abbrev pub patch : List Bytes → Bytes → Bytes → List (Option A) → Router A → Router A
  patch = add_method (codes "PATCH")

  abbrev pub delete : List Bytes → Bytes → Bytes → List (Option A) → Router A → Router A
  delete = add_method (codes "DELETE")

  abbrev pub connect : List Bytes → Bytes → Bytes → List (Option A) → Router A → Router A
  connect = add_method (codes "CONNECT")

  abbrev pub options : List Bytes → Bytes → Bytes → List (Option A) → Router A → Router A
  options = add_method (codes "OPTIONS")

  abbrev pub trace : List Bytes → Bytes → Bytes → List (Option A) → Router A → Router A
  trace = add_method (codes "TRACE")

  unfoldable pub add_proxy : List Bytes → Bytes → Bytes → Bytes → Router A → Router A
  add_proxy host group path upstream r = record r {
    proxys =
        r.proxys
        ++ some (record { host = host; group = group; path = path; upstream = upstream }) ∷ [];
  }

  unfoldable pub set_pprof : List Bytes → Option BasicAuth → Router A → Router A
  set_pprof host basic_auth r = record r {
    pprof = some (record { host = host; basic_auth = basic_auth });
  }

  unfoldable pub set_metrics : List Bytes → Bytes → Option BasicAuth → Router A → Router A
  set_metrics host group basic_auth r = record r {
    metrics = some (record { host = host; group = group; basic_auth = basic_auth });
  }
