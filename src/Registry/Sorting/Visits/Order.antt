-- ===== src/Registry/Sorting/Visits/Order.antt =====
-- Any visits from an empty slice leave each name at its last visit.
use tick_framework.Base.{
  ◌≡◌, refl, sym, ap, ◌∙◌, Bool, false, ◌||◌, inl, inr, List, [], ◌∷◌, ◌++◌, Bytes, bytes_eq,
  bytes_eq_comm, Bool-cases, arith, All, All-append, append_assoc, append-nil,
}
use tick_framework.Registry.Sweep.{reject}
use tick_framework.Registry.Sorting.Visits.{
  Has, contains, NamesOnce, DiffersBeyondCase, last_visits, visited, place_lem, Has-last_visits,
}

contains-reject_self : (x : Bytes) (l : List Bytes) → contains x (reject (bytes_eq x) l) ≡ false
unfolding contains reject
contains-reject_self x [] = refl
contains-reject_self x (y ∷ ys) = ground (arith, bytes_eq_comm x y, contains-reject_self x ys)

contains-reject :
    (p : Bytes → Bool) (x : Bytes) (l : List Bytes)
    → contains x l ≡ false
    → contains x (reject p l) ≡ false
unfolding contains reject
contains-reject p x [] h = refl
contains-reject p x (y ∷ ys) h = ground (arith, contains-reject p x ys)

contains-append :
    (x : Bytes) (k l : List Bytes) → contains x (k ++ l) ≡ (contains x k || contains x l)
unfolding contains
contains-append x [] l = refl
contains-append x (y ∷ k) l = ground (arith, contains-append x k l)

NamesOnce-reject : (p : Bytes → Bool) (l : List Bytes) → NamesOnce l → NamesOnce (reject p l)
unfolding reject
NamesOnce-reject p [] o = tt
NamesOnce-reject p (y ∷ ys) (fresh, o) = elim (Bool-cases (p y)) [
  | inl e ↦ rw e (NamesOnce-reject p ys o)
  | inr n ↦ rw n (contains-reject p y ys fresh, NamesOnce-reject p ys o)
]

NamesOnce-snoc :
    (x : Bytes) (l : List Bytes) → contains x l ≡ false → NamesOnce l → NamesOnce (l ++ x ∷ [])
unfolding contains
NamesOnce-snoc x [] h o = (refl, tt)
NamesOnce-snoc x (y ∷ ys) h (fresh, o) = (
  ground (arith, contains-append y ys (x ∷ []), bytes_eq_comm x y, fresh),
  NamesOnce-snoc x ys (ground arith) o,
)

All-reject : (P : Bytes → Type 0) (p : Bytes → Bool) (l : List Bytes) → All P l → All P (reject p l)
unfolding reject
All-reject P p [] a = tt
All-reject P p (y ∷ ys) (h, a) = elim (Bool-cases (p y)) [
  | inl e ↦ rw e (All-reject P p ys a)
  | inr n ↦ rw n (h, All-reject P p ys a)
]

-- The names of a slice that none of the visits is to.
unvisited : List Bytes → List Bytes → List Bytes
unvisited visits = reject (λ y. contains y visits)

unvisited-append :
    (visits k l : List Bytes) → unvisited visits (k ++ l) ≡ unvisited visits k ++ unvisited visits l
unfolding unvisited reject
unvisited-append visits [] l = refl
unvisited-append visits (y ∷ k) l = ground (arith, unvisited-append visits k l)

unvisited-reject :
    (x : Bytes) (visits l : List Bytes)
    → unvisited visits (reject (bytes_eq x) l) ≡ unvisited (x ∷ visits) l
unfolding unvisited reject contains
unvisited-reject x visits [] = refl
unvisited-reject x visits (y ∷ ys) = ground (arith, unvisited-reject x visits ys)

unvisited_self :
    (x : Bytes) (visits : List Bytes)
    → unvisited visits (x ∷ []) ++ last_visits visits ≡ last_visits (x ∷ visits)
unfolding unvisited reject last_visits
unvisited_self x visits = ground arith

unvisited_none : (l : List Bytes) → unvisited [] l ≡ l
unfolding unvisited reject contains
unvisited_none [] = refl
unvisited_none (y ∷ ys) = ap (λ r. y ∷ r) (unvisited_none ys)

visited_lem :
    (names visits l : List Bytes)
    → DiffersBeyondCase names
    → All (λ y. Has y names) visits
    → All (λ y. Has y names) l
    → NamesOnce l
    → visited visits l ≡ unvisited visits l ++ last_visits visits
unfolding visited last_visits
visited_lem names [] l d v a o = sym (append-nil (unvisited [] l) ∙ unvisited_none l)
visited_lem names (x ∷ visits) l d (named, v) a o =
    let moved = reject (bytes_eq x) l ++ x ∷ [] in
    ap (visited visits) (place_lem names d x named l a o)
    ∙ visited_lem names visits moved d v
        (All-append (λ y. Has y names) (reject (bytes_eq x) l) (x ∷ [])
          (All-reject (λ y. Has y names) (bytes_eq x) l a) (named, tt))
        (NamesOnce-snoc x (reject (bytes_eq x) l) (contains-reject_self x l)
          (NamesOnce-reject (bytes_eq x) l o))
    ∙ ap (λ k. k ++ last_visits visits)
        (unvisited-append visits (reject (bytes_eq x) l) (x ∷ [])
          ∙ ap (λ k. k ++ unvisited visits (x ∷ [])) (unvisited-reject x visits l))
    ∙ append_assoc (unvisited (x ∷ visits) l) (unvisited visits (x ∷ [])) (last_visits visits)
    ∙ ap (λ k. unvisited (x ∷ visits) l ++ k) (unvisited_self x visits)

-- Visits to names that differ in more than case.
pub visited-last_visits :
    (names visits : List Bytes)
    → DiffersBeyondCase names
    → All (λ y. Has y names) visits
    → visited visits [] ≡ last_visits visits
unfolding unvisited reject
visited-last_visits names visits d v = visited_lem names visits [] d v tt tt

-- Each entry of one name has an entry of the other one behind it.
abbrev pub Follows : Bytes → Bytes → List Bytes → Type 0
Follows x y [] = Unit
Follows x y (z ∷ l) = (z ≡ x → Has y l) × Follows x y l

pub Follows-last_visits :
    (x y : Bytes) (visits : List Bytes) → Follows x y visits → Follows x y (last_visits visits)
unfolding last_visits
Follows-last_visits x y [] f = tt
Follows-last_visits x y (z ∷ visits) (h, f) = elim (Bool-cases (contains z visits)) [
  | inl again ↦ rw again (Follows-last_visits x y visits f)
  | inr last ↦ rw last ((λ e. Has-last_visits y visits (h e)), Follows-last_visits x y visits f)
]
