-- ===== src/Server/Routes.antt =====
-- ltick.go: the calls of `addMesh` in `Startup`, and the registrations they lead to.
pub mod Handlers
use tick_framework.Base.{
  ℕ, zero, suc, ◌+◌, Bool, true, false, ◌&&◌, List, [], ◌∷◌, ◌++◌, map, Option, none, some, Bytes,
  codes, bytes_eq, if◌then◌else◌, ltb, length, Res, ok, fail, panic, ◌>>=◌,
}
use tick_framework.Server.{Proxy, Metrics, Pprof, Route, Router}
use tick_framework.Server.Mesh.{RouteHandler, Entry, Registration, registrations}

-- The pages of `net/http/pprof`
pub data Page : Type 0 where
  index_page cmdline_page profile_page symbol_page trace_page : Page

-- `metricsHandler`, `pprofHandlerFunc`, `ServerRouterProxy` and the program's own handlers
pub data Handler (A : Type 0) : Type 0 where
  metrics_handler : Handler A
  pprof_handler : Page → Handler A
  proxy_handler : Proxy → Handler A
  api_handler : A → Handler A

-- "ltick: route does not exists"
pub data RouteError : Type 0 where
  route_not_exists : RouteError

abbrev pub or_panic : {B : Type 0} → Option B → Res RouteError B
or_panic none = panic
or_panic (some b) = ok b

module _ {A : Type 0} where
  unfoldable pub metrics_entries : Option Metrics → List (Entry (Handler A))
  metrics_entries none = []
  metrics_entries (some m) =
      record {
        method = codes "GET";
        group = m.group;
        path = [];
        route = record { host = m.host; basic_auth = m.basic_auth; handler = metrics_handler };
      }
      ∷ []

  abbrev pprof_entry : Pprof → Bytes → Page → Entry (Handler A)
  pprof_entry p path page = record {
    method = codes "ANY";
    group = codes "/debug/pprof";
    path = path;
    route = record { host = p.host; basic_auth = p.basic_auth; handler = pprof_handler page };
  }

  unfoldable pub pprof_entries : Option Pprof → List (Entry (Handler A))
  pprof_entries none = []
  pprof_entries (some p) =
      pprof_entry p (codes "*") index_page
      ∷ pprof_entry p (codes "/cmdline") cmdline_page
      ∷ pprof_entry p (codes "/profile") profile_page
      ∷ pprof_entry p (codes "/symbol") symbol_page
      ∷ pprof_entry p (codes "/trace") trace_page
      ∷ []

  abbrev pub proxy_entry : Bytes → Proxy → Entry (Handler A)
  proxy_entry method p = record {
    method = method;
    group = p.group;
    path = p.path;
    route = record { host = p.host; basic_auth = none; handler = proxy_handler p };
  }

  -- The loop over the proxies of a route and a method.
  unfoldable pub proxies_of : Bytes → Route A → List (Option Proxy) → List (Entry (Handler A))
  proxies_of method route [] = []
  proxies_of method route (none ∷ ps) = proxies_of method route ps
  proxies_of method route (some p ∷ ps) =
      let rest = proxies_of method route ps in
      if bytes_eq p.group route.group && bytes_eq p.path route.path
      then proxy_entry method p ∷ rest
      else rest

  abbrev api_entry : Bytes → Route A → A → Entry (Handler A)
  api_entry method route handler = record {
    method = method;
    group = route.group;
    path = route.path;
    route = record {
      host = route.host;
      basic_auth = route.basic_auth;
      handler = api_handler handler;
    };
  }

  -- `route.Handlers[index]`
  unfoldable pub handler_at : ℕ → List (Option A) → Res RouteError (Option A)
  handler_at n [] = panic
  handler_at zero (h ∷ hs) = ok h
  handler_at (suc n) (h ∷ hs) = handler_at n hs

  unfoldable pub handler_entries :
      Bytes → Route A → List (Option Proxy) → Option A → List (Entry (Handler A))
  handler_entries method route proxys none = []
  handler_entries method route proxys (some h) =
      proxies_of method route proxys ++ api_entry method route h ∷ []

  -- The loop over the methods of a route, from an index.
  unfoldable pub method_entries :
      Route A → List (Option Proxy) → ℕ → List Bytes → Res RouteError (List (Entry (Handler A)))
  method_entries route proxys index [] = ok []
  method_entries route proxys index (method ∷ methods) =
      let rest = method_entries route proxys (suc index) methods in
      if ltb (length route.handlers) index then rest else do
        h ← handler_at index route.handlers
        es ← rest
        ok (handler_entries method route proxys h ++ es)

  -- The loop over the routes.
  unfoldable pub route_entries :
      List (Option Proxy) → List (Option (Route A)) → Res RouteError (List (Entry (Handler A)))
  route_entries proxys [] = ok []
  route_entries proxys (none ∷ routes) = fail route_not_exists
  route_entries proxys (some route ∷ routes) = do
    es ← method_entries route proxys 0 route.method
    rest ← route_entries proxys routes
    ok (es ++ rest)

  -- The last loop, over the proxies.
  unfoldable pub any_proxies : List (Option Proxy) → List (Entry (Handler A))
  any_proxies [] = []
  any_proxies (none ∷ ps) = any_proxies ps
  any_proxies (some p ∷ ps) = proxy_entry (codes "ANY") p ∷ any_proxies ps

  unfoldable pub assemble_routes :
      Router A → List (Option (Route A)) → Res RouteError (List (Registration (Handler A)))
  assemble_routes r [] = ok []
  assemble_routes r (route ∷ routes) = do
    es ← route_entries r.proxys (route ∷ routes)
    or_panic (
        registrations
          (metrics_entries r.metrics ++ pprof_entries r.pprof ++ es ++ any_proxies r.proxys))

  -- The routes of a server. Without a route nothing is registered, the pages and proxies neither.
  unfoldable pub assemble : Router A → Res RouteError (List (Registration (Handler A)))
  assemble r = assemble_routes r r.routes
