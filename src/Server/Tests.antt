-- ===== src/Server/Tests.antt =====
-- Runs of a server's routes.
use tick_framework.Base.{
  ℕ, ◌≡◌, refl, true, false, List, [], ◌∷◌, map, Option, none, some, Bytes, codes, Res, ok, panic,
  All, ◌==◌,
}
use tick_framework.Server.{Router, Route, get, post, add_proxy, set_metrics}
use tick_framework.Server.Mesh.{RouteHandler, Entry, registrations}
use tick_framework.Server.Mesh.Merge.{places}
use tick_framework.Server.Mesh.Keys.{registration, registrations_lem}
use tick_framework.Server.Routes.{assemble, RouteError}
use tick_framework.Server.Routes.Handlers.{assemble_panics}
use tick_framework.Server.Options.{Timeouts, read_duration, set_options, resolve}
use tick_framework.Server.Dispatch.{choose_route, Serves, choose_route-Serves}

abbrev route : ℕ → Bytes → RouteHandler ℕ
route n host = record { host = host ∷ []; basic_auth = none; handler = n }

abbrev entry : Bytes → Bytes → RouteHandler ℕ → Entry ℕ
entry method path r = record { method = method; group = codes "/api"; path = path; route = r }

-- two of three calls are of one place
abbrev three : List (Entry ℕ)
three =
    entry (codes "get") (codes "/a") (route 1 (codes "a.*"))
    ∷ entry (codes "PUT") (codes "/a$b") (route 2 (codes "*"))
    ∷ entry (codes "GET") (codes "/a") (route 3 (codes "*"))
    ∷ []

three_letters :
    All (λ c. (c == b'$') ≡ false) (codes "GET") × All (λ c. (c == b'$') ≡ false) (codes "/api")
three_letters = ((refl, (refl, (refl, tt))), (refl, (refl, (refl, (refl, tt)))))

registrations_lem_example : registrations three ≡ some (map (registration three) (places three))
unfolding tick_framework.Base.to_upper
registrations_lem_example =
    registrations_lem three (three_letters, (three_letters, (three_letters, tt)))

choose_route-Serves_example :
    (o : Option (RouteHandler ℕ)) × (choose_route
        (route 1 (codes "a.*") ∷ route 3 (codes "*") ∷ [])
        (codes "a.b")
      ≡ some o)
    × Serves (codes "a.b") (route 1 (codes "a.*") ∷ route 3 (codes "*") ∷ []) o
choose_route-Serves_example =
    choose_route-Serves (codes "a.b") (route 1 (codes "a.*") ∷ route 3 (codes "*") ∷ [])

abbrev lonely : Route ℕ
lonely = record {
  host = codes "*" ∷ [];
  group = codes "/";
  method = codes "GET" ∷ [];
  path = codes "/x";
  basic_auth = none;
  handlers = [];
}

abbrev lonely_router : Router ℕ
lonely_router = record { metrics = none; pprof = none; proxys = []; routes = some lonely ∷ [] }

assemble_panics_example : assemble lonely_router ≡ panic
assemble_panics_example = assemble_panics lonely_router (lonely ∷ []) refl refl

abbrev no_routes : Router ℕ
no_routes = record { metrics = none; pprof = none; proxys = []; routes = [] }

-- metrics alone are not registered
metrics_alone : assemble (set_metrics [] (codes "/metrics") none no_routes) ≡ ok []
unfolding assemble tick_framework.Server.Routes.assemble_routes set_metrics
metrics_alone = refl

-- minutes
abbrev parse : Bytes → Option ℕ
parse [] = none
parse (c ∷ s) = some c

abbrev timeouts : Timeouts ℕ
timeouts = record {
  idle = record { text = codes "2m"; duration = 0 };
  read = record { text = codes "3m"; duration = 0 };
  read_header = record { text = codes "4m"; duration = 0 };
  write = record { text = codes "5m"; duration = 0 };
  graceful_stop = record { text = codes "6m"; duration = 0 };
}

-- the text counts, not the duration
text_counts : (resolve parse (set_options (read_duration 7 ∷ []) timeouts)).read.duration ≡ b'3'
unfolding resolve set_options tick_framework.Server.Options.set_option
    tick_framework.Server.Options.resolve_timeout tick_framework.Server.Options.resolve_text
    tick_framework.Server.Options.parsed
text_counts = refl
