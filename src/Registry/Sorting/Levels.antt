-- ===== src/Registry/Sorting/Levels.antt =====
-- The calls of `sortComponent` end where the dependencies have no cycle, and visit the dependents of
-- each visited component behind it.
use tick_framework.Base.{
  ℕ, zero, suc, ◌+◌, ◌≤◌, ◌<◌, ◌≡◌, refl, sym, ap, ◌∙◌, ◌⊎◌, inl, inr, List, [], ◌∷◌, ◌++◌, some,
  Bytes, bytes_eq, bytes_eq_iff, Bool-cases, arith, All, All-append,
}
use tick_framework.Registry.{Component}
use tick_framework.Registry.Sorting.{place, repeats, next_level, sort_level}
use tick_framework.Registry.Sorting.Visits.{Has, visited}
use tick_framework.Registry.Sorting.Visits.Order.{Follows}

Has-append_left : (x : Bytes) (k l : List Bytes) → Has x k → Has x (k ++ l)
Has-append_left x [] l h = absurd h
Has-append_left x (y ∷ k) l (inl e) = inl e
Has-append_left x (y ∷ k) l (inr h) = inr (Has-append_left x k l h)

Has-append_right : (x : Bytes) (k l : List Bytes) → Has x l → Has x (k ++ l)
Has-append_right x [] l h = h
Has-append_right x (y ∷ k) l h = inr (Has-append_right x k l h)

Follows-append :
    (x y : Bytes) (k l : List Bytes) → Follows x y k → Follows x y l → Follows x y (k ++ l)
Follows-append x y [] l f g = g
Follows-append x y (z ∷ k) l (h, f) g =
    ((λ e. Has-append_left y k l (h e)), Follows-append x y k l f g)

visited-append : (k l sorted : List Bytes) → visited (k ++ l) sorted ≡ visited l (visited k sorted)
unfolding visited
visited-append [] l sorted = refl
visited-append (x ∷ k) l sorted = visited-append k l (place x sorted)

module _ {C : Type 0} where
  -- A component with the second name depends on the first one.
  abbrev pub Depends : Bytes → Bytes → List (Component C) → Type 0
  Depends x y [] = ⊥
  Depends x y (c ∷ cs) = ((c.name ≡ y) × Has x c.dependencies) ⊎ Depends x y cs

  -- `rank` puts each dependency below its component, so there is no cycle.
  abbrev pub IsRanked : (Bytes → ℕ) → List (Component C) → Type 0
  IsRanked rank = All (λ c. All (λ d. rank d < rank c.name) c.dependencies)

  All-repeats :
      (P : Component C → Type 0) (name : Bytes) (c : Component C) (ds : List Bytes)
      → (Has name ds → P c)
      → All P (repeats name c ds)
  unfolding repeats
  All-repeats P name c [] h = tt
  All-repeats P name c (d ∷ ds) h = elim (Bool-cases (bytes_eq d name)) [
    | inl e ↦ rw e (h (inl ((bytes_eq_iff d name).0 e)), All-repeats P name c ds (λ m. h (inr m)))
    | inr n ↦ rw n (All-repeats P name c ds (λ m. h (inr m)))
  ]

  All-next_level :
      (P Q : Component C → Type 0) (name : Bytes) (cs : List (Component C))
      → ((c : Component C) → P c → Has name c.dependencies → Q c)
      → All P cs
      → All Q (next_level name cs)
  unfolding next_level
  All-next_level P Q name [] h a = tt
  All-next_level P Q name (c ∷ cs) h (p, a) =
      All-append Q (repeats name c c.dependencies) (next_level name cs)
        (All-repeats Q name c c.dependencies (h c p)) (All-next_level P Q name cs h a)

  All-repeats_of :
      (P : Bytes → Type 0) (name : Bytes) (c : Component C) (ds : List Bytes)
      (more : List (Component C))
      → Has name ds
      → All (λ d. P d.name) (repeats name c ds ++ more)
      → P c.name
  unfolding repeats
  All-repeats_of P name c [] more h a = absurd h
  All-repeats_of P name c (d ∷ ds) more h a = elim (Bool-cases (bytes_eq d name)) [
    | inl e ↦ (rw e at a).0
    | inr n ↦ elim h [
      | inl same ↦ absurd (ground (arith, n, (bytes_eq_iff d name).1 same))
      | inr m ↦ All-repeats_of P name c ds more m (rw n at a)
    ]
  ]

  All-behind : (P : Component C → Type 0) (k l : List (Component C)) → All P (k ++ l) → All P l
  All-behind P [] l a = a
  All-behind P (x ∷ k) l (p, a) = All-behind P k l a

  -- A dependent of the name is on its next level.
  All-dependents :
      (P : Bytes → Type 0) (name y : Bytes) (cs : List (Component C))
      → Depends name y cs
      → All (λ d. P d.name) (next_level name cs)
      → P y
  unfolding next_level
  All-dependents P name y [] h a = absurd h
  All-dependents P name y (c ∷ cs) (inl (e, h)) a =
      rw e at (All-repeats_of P name c c.dependencies (next_level name cs) h a)
  All-dependents P name y (c ∷ cs) (inr h) a =
      All-dependents P name y cs h
        (All-behind (λ d. P d.name) (repeats name c c.dependencies) (next_level name cs) a)

  -- A level's component is known, and its depth leaves room in the fuel.
  abbrev pub IsWithin : (Bytes → ℕ) → ℕ → List Bytes → ℕ → Component C → Type 0
  IsWithin rank bound names fuel c =
      (rank c.name ≤ bound) × (bound < rank c.name + fuel) × Has c.name names

  module _ (rank : Bytes → ℕ) (bound : ℕ) (names : List Bytes) (components : List (Component C))
      (ranked : IsRanked rank components)
      (bounded : All (λ c. (rank c.name ≤ bound) × Has c.name names) components) where
    -- What a call on a level does.
    pub record Visits (fuel : ℕ) (level : List (Component C)) : Type 0 where
      pub visits : List Bytes
      pub runs :
          (sorted : List Bytes)
          → sort_level fuel components level sorted ≡ some (visited visits sorted)
      pub named : All (λ y. Has y names) visits
      pub follows : (x y : Bytes) → Depends x y components → Follows x y visits
      pub reaches : All (λ c. Has c.name visits) level

    All-Has : (P : Bytes → Type 0) (x : Bytes) (ds : List Bytes) → All P ds → Has x ds → P x
    All-Has P x [] a h = absurd h
    All-Has P x (d ∷ ds) (p, a) (inl e) = rw e at p
    All-Has P x (d ∷ ds) (p, a) (inr h) = All-Has P x ds a h

    All-both :
        (P Q : Component C → Type 0) (cs : List (Component C))
        → All P cs
        → All Q cs
        → All (λ c. P c × Q c) cs
    All-both P Q [] p q = tt
    All-both P Q (c ∷ cs) (p, ps) (q, qs) = ((p, q), All-both P Q cs ps qs)

    All-map :
        (P Q : Component C → Type 0) (cs : List (Component C))
        → ((c : Component C) → P c → Q c)
        → All P cs
        → All Q cs
    All-map P Q [] f a = tt
    All-map P Q (c ∷ cs) f (p, a) = (f c p, All-map P Q cs f a)

    next_level-IsWithin :
        (fuel : ℕ) (c : Component C)
        → IsWithin rank bound names (suc fuel) c
        → All (IsWithin rank bound names fuel) (next_level c.name components)
    next_level-IsWithin fuel c w =
        All-next_level
          (λ d.
            All (λ x. rank x < rank d.name) d.dependencies
            × ((rank d.name ≤ bound) × Has d.name names))
          (IsWithin rank bound names fuel) c.name components
          (λ d (lower, (le, has)) m.
            let rises = All-Has (λ x. rank x < rank d.name) c.name d.dependencies lower m in
            (le, omega (arith, rises, w.1), has))
          (All-both (λ d. All (λ x. rank x < rank d.name) d.dependencies)
            (λ d. (rank d.name ≤ bound) × Has d.name names) components ranked bounded)

    pub level-Visits :
        (fuel : ℕ) (level : List (Component C))
        → All (IsWithin rank bound names fuel) level
        → Visits fuel level
    unfolding sort_level visited
    level-Visits zero [] w = record {
      visits = [];
      runs = λ sorted. refl;
      named = tt;
      follows = λ x y d. tt;
      reaches = tt;
    }
    level-Visits zero (c ∷ cs) (w, _) = absurd (omega arith)
    level-Visits (suc fuel) [] w = record {
      visits = [];
      runs = λ sorted. refl;
      named = tt;
      follows = λ x y d. tt;
      reaches = tt;
    }
    level-Visits (suc fuel) (c ∷ cs) (w, ws) =
        let below =
          level-Visits fuel (next_level c.name components) (next_level-IsWithin fuel c w) in
        let rest = level-Visits (suc fuel) cs ws in
        record {
          visits = c.name ∷ (below.visits ++ rest.visits);
          runs = λ sorted.
              rw (below.runs (place c.name sorted), sort_level)
                (rest.runs (visited below.visits (place c.name sorted))
                  ∙ ap some (sym (visited-append below.visits rest.visits (place c.name sorted))));
          named =
              (w.2, All-append (λ y. Has y names) below.visits rest.visits below.named rest.named);
          follows = λ x y d. (
            λ e. Has-append_left y below.visits rest.visits (
                All-dependents (λ n. Has n below.visits) c.name y components (rw e d)
                  below.reaches),
            Follows-append x y below.visits rest.visits (below.follows x y d) (rest.follows x y d),
          );
          reaches = (
            inl refl,
            All-map (λ d. Has d.name rest.visits)
                (λ d. Has d.name (c.name ∷ (below.visits ++ rest.visits))) cs
                (λ d h. inr (Has-append_right d.name below.visits rest.visits h)) rest.reaches,
          );
        }
