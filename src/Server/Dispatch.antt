-- ===== src/Server/Dispatch.antt =====
-- ltick.go and server.go: the choice of a route by the host of a request.
use tick_framework.Base.{
  ◌≡◌, refl, Bool, true, false, List, [], ◌∷◌, Option, none, some, Bytes, ◌⊎◌, inl, inr, ◌↔◌, arith,
}
use tick_framework.Utility.Wildcard.{wildcard_match}
use tick_framework.Utility.Wildcard.Matching.{Matches, wildcard_match-Matches}
use tick_framework.Server.Mesh.{RouteHandler}

-- The host of a request, or that of its URL.
unfoldable pub request_host : Bytes → Bytes → Bytes
request_host [] url_host = url_host
request_host (c ∷ host) url_host = c ∷ host

-- One round of the loop over the hosts of a route, and what the rest of the loop gives.
unfoldable pub match_round : Option Bool → Option Bool → Option Bool
match_round none rest = none
match_round (some true) rest = some true
match_round (some false) rest = rest

-- The loop over the hosts of a route; `none` is a panic.
unfoldable pub match_hosts : List Bytes → Bytes → Option Bool
match_hosts [] host = some false
match_hosts (pattern ∷ patterns) host =
    match_round (wildcard_match pattern host) (match_hosts patterns host)

module _ {H : Type 0} where
  unfoldable pub choose_round :
      RouteHandler H
      → Option Bool
      → Option (Option (RouteHandler H))
      → Option (Option (RouteHandler H))
  choose_round route none rest = none
  choose_round route (some true) rest = some (some route)
  choose_round route (some false) rest = rest

  -- The loop over the routes: the route that serves the request, if there is one. Its credentials,
  -- if it has some, replace those of the request.
  unfoldable pub choose_route : List (RouteHandler H) → Bytes → Option (Option (RouteHandler H))
  choose_route [] host = some none
  choose_route (route ∷ routes) host =
      choose_round route (match_hosts route.host host) (choose_route routes host)

-- Some pattern of a list matches the host.
pub data Admits (host : Bytes) : List Bytes → Type 0 where
  here :
      {pattern : Bytes} {patterns : List Bytes}
      → Matches host pattern
      → Admits host (pattern ∷ patterns)
  there :
      {pattern : Bytes} {patterns : List Bytes}
      → Admits host patterns
      → Admits host (pattern ∷ patterns)

not-Admits-nil : {host : Bytes} → ¬ Admits host []
not-Admits-nil a = elim a [ ]

Admits-cons :
    {host pattern : Bytes} {patterns : List Bytes}
    → Admits host (pattern ∷ patterns)
    → Matches host pattern ⊎ Admits host patterns
Admits-cons (here m) = inl m
Admits-cons (there a) = inr a

-- What the loop over the hosts answers.
data IsAnswer (host : Bytes) (patterns : List Bytes) : Option Bool → Type 0 where
  admitted : Admits host patterns → IsAnswer host patterns (some true)
  refused : ¬ Admits host patterns → IsAnswer host patterns (some false)

match_round-IsAnswer :
    (pattern : Bytes) (patterns : List Bytes) (host : Bytes) (b : Bool) (o : Option Bool)
    → ((b ≡ true) ↔ Matches host pattern)
    → IsAnswer host patterns o
    → IsAnswer host (pattern ∷ patterns) (match_round (some b) o)
unfolding match_round
match_round-IsAnswer pattern patterns host true o m a = admitted (here (m.0 refl))
match_round-IsAnswer pattern patterns host false o m (admitted a) = admitted (there a)
match_round-IsAnswer pattern patterns host false o m (refused r) = refused (λ a.
    elim (Admits-cons a) [
      | inl found ↦ let wrong : false ≡ true = m.1 found in ground arith
      | inr rest ↦ r rest
    ])

match_hosts-IsAnswer :
    (patterns : List Bytes) (host : Bytes) → IsAnswer host patterns (match_hosts patterns host)
unfolding match_hosts
match_hosts-IsAnswer [] host = refused not-Admits-nil
match_hosts-IsAnswer (pattern ∷ patterns) host =
    let (b, e, m) = wildcard_match-Matches pattern host in
    rw (e, match_hosts)
      (match_round-IsAnswer pattern patterns host b (match_hosts patterns host) m
        (match_hosts-IsAnswer patterns host))

module _ {H : Type 0} (host : Bytes) where
  -- Which route of a list serves a request for a host: the first one that admits it.
  pub data Serves : List (RouteHandler H) → Option (RouteHandler H) → Type 0 where
    nobody : Serves [] none
    first :
        {r : RouteHandler H} {rs : List (RouteHandler H)}
        → Admits host r.host
        → Serves (r ∷ rs) (some r)
    later :
        {r : RouteHandler H} {rs : List (RouteHandler H)} {o : Option (RouteHandler H)}
        → ¬ Admits host r.host
        → Serves rs o
        → Serves (r ∷ rs) o

  choose_round-Serves :
      (r : RouteHandler H) (rs : List (RouteHandler H)) (a : Option Bool)
      → IsAnswer host r.host a
      → (o : Option (RouteHandler H)) → Serves rs o
      → (o' : Option (RouteHandler H)) × (choose_round r a (some o) ≡ some o') × Serves (r ∷ rs) o'
  unfolding choose_round
  choose_round-Serves r rs a (admitted f) o s = (some r, refl, first f)
  choose_round-Serves r rs a (refused f) o s = (o, refl, later f s)

  -- The choice of a route ends without a panic, with the first route of the list one of whose hosts
  -- matches the host of the request, and with none if no route has such a host.
  pub choose_route-Serves :
      (routes : List (RouteHandler H))
      → (o : Option (RouteHandler H)) × (choose_route routes host ≡ some o) × Serves routes o
  unfolding choose_route
  choose_route-Serves [] = (none, refl, nobody)
  choose_route-Serves (r ∷ rs) =
      let (o, e, s) = choose_route-Serves rs in
      let (o', e', s') =
        choose_round-Serves r rs (match_hosts r.host host) (match_hosts-IsAnswer r.host host) o s in
      (o', rw (e, choose_route) e', s')
