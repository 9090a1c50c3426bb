-- ===== src/Server/Routes/Handlers.antt =====
-- ltick.go: when the assembly of a router's routes goes through.
use tick_framework.Base.{
  ℕ, zero, suc, ◌+◌, ◌≤◌, ◌<◌, ◌≡◌, refl, Bool, true, false, Bool-cases, not, ◌&&◌, List, [], ◌∷◌,
  ◌++◌, map, Option, some, Bytes, ltb, leb, length, Res, ok, panic, inl, inr, arith,
}
use tick_framework.Server.{Proxy, Route, Router}
use tick_framework.Server.Mesh.{Entry}
use tick_framework.Server.Routes.{
  Handler, RouteError, handler_at, handler_entries, method_entries, route_entries, assemble,
  assemble_routes,
}

abbrev pub is_ok : {B : Type 0} → Res RouteError B → Bool
is_ok (ok b) = true
is_ok _ = false

abbrev pub panics : {B : Type 0} → Res RouteError B → Bool
panics panic = true
panics _ = false

module _ {A : Type 0} where
  -- A route has a handler, which may be nil, for each of its methods.
  abbrev pub fits : Route A → Bool
  fits route = leb (length route.method) (length route.handlers)

  abbrev pub all_fit : List (Route A) → Bool
  all_fit [] = true
  all_fit (route ∷ routes) = fits route && all_fit routes

  handler_at_within :
      (n : ℕ) (hs : List (Option A)) → n < length hs → (h : Option A) × (handler_at n hs ≡ ok h)
  unfolding handler_at
  handler_at_within n [] lt = ground arith
  handler_at_within zero (h ∷ hs) lt = (h, refl)
  handler_at_within (suc n) (h ∷ hs) lt = handler_at_within n hs (omega arith)

  handler_at_end : (hs : List (Option A)) → handler_at (length hs) hs ≡ panic
  unfolding handler_at
  handler_at_end [] = refl
  handler_at_end (h ∷ hs) = handler_at_end hs

  method_entries_fitting :
      (route : Route A) (proxys : List (Option Proxy)) (n : ℕ) (methods : List Bytes)
      → n + length methods ≤ length route.handlers
      → (es : List (Entry (Handler A))) × (method_entries route proxys n methods ≡ ok es)
  unfolding method_entries
  method_entries_fitting route proxys n [] le = ([], refl)
  method_entries_fitting route proxys n (method ∷ methods) le =
      let (h, e1) = handler_at_within n route.handlers (omega arith) in
      let (es, e2) = method_entries_fitting route proxys (suc n) methods (omega arith) in
      let inside : ltb (length route.handlers) n ≡ false = ground arith in
      (handler_entries method route proxys h ++ es, rw (inside, e1, e2, method_entries) refl)

  method_entries_panicking :
      (route : Route A) (proxys : List (Option Proxy)) (n : ℕ) (methods : List Bytes)
      → n ≤ length route.handlers
      → length route.handlers < n + length methods
      → method_entries route proxys n methods ≡ panic
  unfolding method_entries
  method_entries_panicking route proxys n [] le lt = absurd (omega arith)
  method_entries_panicking route proxys n (method ∷ methods) le lt =
      let inside : ltb (length route.handlers) n ≡ false = ground arith in
      elim (Bool-cases (ltb n (length route.handlers))) [
        | inl q ↦
            let (h, e1) = handler_at_within n route.handlers (ground arith) in
            let rest =
              method_entries_panicking route proxys (suc n) methods (ground arith) (omega arith) in
            rw (inside, e1, rest, method_entries) refl
        | inr q ↦
            let same : n ≡ length route.handlers = ground arith in
            let out : handler_at n route.handlers ≡ panic =
              rw same (handler_at_end route.handlers) in
            rw (inside, out, method_entries) refl
      ]

  route_entries_cases :
      (proxys : List (Option Proxy)) (routes : List (Route A))
      → ((all_fit routes ≡ true)
          → (es : List (Entry (Handler A))) × (route_entries proxys (map some routes) ≡ ok es))
        × ((all_fit routes ≡ false) → route_entries proxys (map some routes) ≡ panic)
  unfolding route_entries
  route_entries_cases proxys [] = (λ _. ([], refl), λ q. ground arith)
  route_entries_cases proxys (route ∷ routes) = elim (Bool-cases (fits route)) [
    | inr q ↦
        let out =
          method_entries_panicking route proxys 0 route.method (omega arith) (ground arith) in
        (λ p. absurd (ground arith), λ p. rw (out, route_entries) refl)
    | inl q ↦
        let (es, e1) = method_entries_fitting route proxys 0 route.method (ground arith) in
        let (if_fit, if_not) = route_entries_cases proxys routes in
        (
          λ p.
              let (rest, e2) = if_fit (ground arith) in
              (es ++ rest, rw (e1, e2, route_entries) refl),
          λ p. rw (e1, if_not (ground arith), route_entries) refl,
        )
  ]

  -- For a list of routes none of which is nil: the loop over the routes collects the calls of
  -- `addMesh` exactly if every route has at least as many handlers, nil or not, as methods, and
  -- panics exactly otherwise.
  pub route_entries_lem :
      (proxys : List (Option Proxy)) (routes : List (Route A))
      → (is_ok (route_entries proxys (map some routes)) ≡ all_fit routes)
        × (panics (route_entries proxys (map some routes)) ≡ not (all_fit routes))
  route_entries_lem proxys routes =
      let (if_fit, if_not) = route_entries_cases proxys routes in
      elim (Bool-cases (all_fit routes)) [
        | inl q ↦ let (es, e) = if_fit q in rw (e, q) (refl, refl)
        | inr q ↦ rw (if_not q, q) (refl, refl)
      ]

  -- Where a route, none of which is nil, has fewer handlers than methods, the assembly panics,
  -- whatever the pages and the proxies are.
  pub assemble_panics :
      (r : Router A) (routes : List (Route A))
      → r.routes ≡ map some routes
      → all_fit routes ≡ false
      → assemble r ≡ panic
  unfolding assemble assemble_routes
  assemble_panics r [] e q = ground arith
  assemble_panics r (route ∷ routes) e q =
      let (if_fit, if_not) = route_entries_cases r.proxys (route ∷ routes) in
      rw (e, if_not q, assemble_routes) refl
