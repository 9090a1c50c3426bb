-- ===== src/Registry/Sorting/Visits.antt =====
-- The slice that `sortComponent` builds: the visited names, each at its last visit.
pub mod Order
use tick_framework.Base.{
  ℕ, zero, suc, ◌+◌, ◌≡◌, refl, sym, ap, ◌∙◌, Bool, true, false, ◌||◌, ◌⊎◌, inl, inr, List, [], ◌∷◌,
  ◌++◌, map, Option, none, some, Bytes, length, take, drop, ◌==◌, bytes_eq, bytes_eq_iff,
  bytes_eq_comm, if◌then◌else◌, Bool-cases, arith, All, All-append, append_assoc, append-nil,
}
use tick_framework.Registry.Sweep.{reject}
use tick_framework.Registry.Sorting.{move_to_end, place}
use tick_framework.Utility.Array.{in_array_string, same_text, to_lower}

abbrev pub Has : Bytes → List Bytes → Type 0
Has x [] = ⊥
Has x (y ∷ ys) = (y ≡ x) ⊎ Has x ys

unfoldable pub contains : Bytes → List Bytes → Bool
contains x [] = false
contains x (y ∷ ys) = bytes_eq y x || contains x ys

pub contains-Has : (x : Bytes) (l : List Bytes) → contains x l ≡ true → Has x l
unfolding contains
contains-Has x [] h = cc
contains-Has x (y ∷ ys) h = elim (Bool-cases (bytes_eq y x)) [
  | inl e ↦ inl ((bytes_eq_iff y x).0 e)
  | inr n ↦ inr (contains-Has x ys (ground (arith, n)))
]

pub Has-contains : (x : Bytes) (l : List Bytes) → Has x l → contains x l ≡ true
unfolding contains
Has-contains x [] h = absurd h
Has-contains x (y ∷ ys) (inl e) = ground (arith, bytes_eq_iff y x)
Has-contains x (y ∷ ys) (inr h) = ground (arith, Has-contains x ys h)

-- No name stands twice.
abbrev pub NamesOnce : List Bytes → Type 0
NamesOnce [] = Unit
NamesOnce (x ∷ xs) = (contains x xs ≡ false) × NamesOnce xs

-- Names of the list that differ, differ in more than case.
abbrev pub DiffersBeyondCase : List Bytes → Type 0
DiffersBeyondCase names =
    (a b : Bytes) → Has a names → Has b names → to_lower a ≡ to_lower b → a ≡ b

-- The visited names in the order of their last visits.
unfoldable pub last_visits : List Bytes → List Bytes
last_visits [] = []
last_visits (x ∷ visits) = if contains x visits then last_visits visits else x ∷ last_visits visits

-- The slice after the visits.
unfoldable pub visited : List Bytes → List Bytes → List Bytes
visited [] sorted = sorted
visited (x ∷ visits) sorted = visited visits (place x sorted)

pub contains-last_visits :
    (x : Bytes) (visits : List Bytes) → contains x (last_visits visits) ≡ contains x visits
unfolding last_visits contains
contains-last_visits x [] = refl
contains-last_visits x (y ∷ visits) =
    ground (arith, contains-last_visits x visits, bytes_eq_iff y x)

pub last_visits-NamesOnce : (visits : List Bytes) → NamesOnce (last_visits visits)
unfolding last_visits
last_visits-NamesOnce [] = tt
last_visits-NamesOnce (y ∷ visits) = elim (Bool-cases (contains y visits)) [
  | inl again ↦ rw again (last_visits-NamesOnce visits)
  | inr last ↦ rw last (contains-last_visits y visits ∙ last, last_visits-NamesOnce visits)
]

pub Has-last_visits : (x : Bytes) (visits : List Bytes) → Has x visits → Has x (last_visits visits)
Has-last_visits x visits h =
    contains-Has x (last_visits visits) (contains-last_visits x visits ∙ Has-contains x visits h)

reject-absent : (x : Bytes) (l : List Bytes) → contains x l ≡ false → reject (bytes_eq x) l ≡ l
unfolding reject contains
reject-absent x [] h = refl
reject-absent x (y ∷ ys) h = ground (arith, bytes_eq_comm x y, reject-absent x ys)

-- What a search in the slice finds, against the exact comparison of names.
abbrev Finds : Bytes → List Bytes → Type 0
Finds x l =
    ((in_array_string x l false ≡ none) × (contains x l ≡ false))
    ⊎ ((i : ℕ) × (in_array_string x l false ≡ some i)
        × (take i l ++ drop (suc i) l ≡ reject (bytes_eq x) l)
        × (take 1 (drop i l) ≡ x ∷ []))

module _ (names : List Bytes) (differs : DiffersBeyondCase names) (x : Bytes)
    (named : Has x names) where
  same_text-exact : (y : Bytes) → Has y names → same_text false x y ≡ bytes_eq x y
  unfolding same_text
  same_text-exact y h = elim (Bool-cases (bytes_eq (to_lower x) (to_lower y))) [
    | inl e ↦
        let same : x ≡ y = differs x y named h ((bytes_eq_iff (to_lower x) (to_lower y)).0 e) in
        e ∙ sym ((bytes_eq_iff x y).1 same)
    | inr n ↦ elim (Bool-cases (bytes_eq x y)) [
      | inr m ↦ n ∙ sym m
      | inl e ↦
          let same : to_lower x ≡ to_lower y = ap to_lower ((bytes_eq_iff x y).0 e) in
          ground (arith, n, (bytes_eq_iff (to_lower x) (to_lower y)).1 same)
    ]
  ]

  search-Finds : (l : List Bytes) → All (λ y. Has y names) l → NamesOnce l → Finds x l
  unfolding in_array_string contains reject
  search-Finds [] a o = inl (refl, refl)
  search-Finds (y ∷ ys) (h, a) (fresh, o) = elim (Bool-cases (bytes_eq x y)) [
    | inl e ↦
        let same : x ≡ y = (bytes_eq_iff x y).0 e in
        let gone : reject (bytes_eq x) ys ≡ ys = reject-absent x ys (rw same fresh) in
        inr (0, rw (same_text-exact y h, e, in_array_string) refl, rw (e, gone) refl, rw same refl)
    | inr n ↦ elim (search-Finds ys a o) [
      | inl (none_found, absent) ↦ inl (
        rw (same_text-exact y h, n, none_found, in_array_string) refl,
        ground (arith, bytes_eq_comm x y, n, absent),
      )
      | inr (i, found, others, itself) ↦ inr (
        suc i,
        rw (same_text-exact y h, n, found, in_array_string) refl,
        rw n (ap (λ r. y ∷ r) others),
        itself,
      )
    ]
  ]

  -- A visit takes the name out of the slice and puts it last.
  pub place_lem :
      (l : List Bytes)
      → All (λ y. Has y names) l
      → NamesOnce l
      → place x l ≡ reject (bytes_eq x) l ++ x ∷ []
  unfolding place move_to_end
  place_lem l a o = elim (search-Finds l a o) [
    | inl (none_found, absent) ↦ rw (none_found, place, reject-absent x l absent) refl
    | inr (i, found, others, itself) ↦
        rw (found, place, itself)
          (sym (append_assoc (take i l) (drop (suc i) l) (x ∷ [])) ∙ ap (λ r. r ++ x ∷ []) others)
  ]
