-- ===== src/Registry/Named.antt =====
-- Lists of things with a name, by which the registry keeps them.
use tick_framework.Base.{
  ◌≡◌, refl, ap, sym, ◌∙◌, subst, true, false, List, [], ◌∷◌, ◌++◌, map, Option, none, some, Bytes,
  All, All-append, bytes_eq, bytes_eq_iff, bytes_eq_refl, bytes_eq_comm, if◌then◌else◌, arith,
  Bool-cases, inl, inr,
}
use tick_framework.Registry.Sweep.{reject, AcceptsOnce}

module _ {E : Type 0} (name_of : E → Bytes) where
  abbrev pub names : List E → List Bytes
  names = map name_of

  unfoldable pub find_named : Bytes → List E → Option E
  find_named key [] = none
  find_named key (c ∷ cs) = if bytes_eq (name_of c) key then some c else find_named key cs

  abbrev pub NamesDistinct : List E → Type 0
  NamesDistinct [] = Unit
  NamesDistinct (c ∷ cs) = All (λ d. bytes_eq (name_of c) (name_of d) ≡ false) cs × NamesDistinct cs

  -- The components of other names.
  abbrev pub others : Bytes → List E → List E
  others key = reject (λ c. bytes_eq key (name_of c))

  All-names :
      (key : Bytes) (cs : List E)
      → All (λ d. bytes_eq key (name_of d) ≡ false) cs
      → All (λ n. bytes_eq key n ≡ false) (names cs)
  All-names key [] a = tt
  All-names key (c ∷ cs) (n, a) = (n, All-names key cs a)

  All-of_name :
      (key : Bytes) (c : E) (cs : List E)
      → bytes_eq key (name_of c) ≡ true
      → All (λ d. bytes_eq (name_of c) (name_of d) ≡ false) cs
      → All (λ d. bytes_eq key (name_of d) ≡ false) cs
  All-of_name key c cs e a =
      subst (λ k. All (λ d. bytes_eq k (name_of d) ≡ false) cs)
        (sym ((bytes_eq_iff key (name_of c)).0 e)) a

  pub entries_once :
      (key : Bytes) (cs : List E)
      → NamesDistinct cs
      → AcceptsOnce (λ c. bytes_eq key (name_of c)) cs
  entries_once key [] d = tt
  entries_once key (c ∷ cs) (a, d) = elim (Bool-cases (bytes_eq key (name_of c))) [
    | inl e ↦ rw e (All-of_name key c cs e a)
    | inr n ↦ rw n (entries_once key cs d)
  ]

  pub names_once :
      (key : Bytes) (cs : List E) → NamesDistinct cs → AcceptsOnce (λ n. bytes_eq key n) (names cs)
  names_once key [] d = tt
  names_once key (c ∷ cs) (a, d) = elim (Bool-cases (bytes_eq key (name_of c))) [
    | inl e ↦ rw e (All-names key cs (All-of_name key c cs e a))
    | inr n ↦ rw n (names_once key cs d)
  ]

  pub reject-names :
      (key : Bytes) (cs : List E) → reject (λ n. bytes_eq key n) (names cs) ≡ names (others key cs)
  unfolding reject
  reject-names key [] = refl
  reject-names key (c ∷ cs) = elim (Bool-cases (bytes_eq key (name_of c))) [
    | inl e ↦ rw e (reject-names key cs)
    | inr n ↦ rw (n, reject-names key cs)
  ]

  pub find_named-others :
      (key j : Bytes) (cs : List E)
      → find_named j (others key cs) ≡ (if bytes_eq key j then none else find_named j cs)
  unfolding reject find_named
  find_named-others key j [] = ground arith
  find_named-others key j (c ∷ cs) = ground (
    arith,
    find_named-others key j cs,
    bytes_eq_iff key (name_of c),
    bytes_eq_iff (name_of c) j,
    bytes_eq_iff key j,
  )

  pub All-others : (P : E → Type 0) (key : Bytes) (cs : List E) → All P cs → All P (others key cs)
  unfolding reject
  All-others P key [] a = tt
  All-others P key (c ∷ cs) (p, a) = elim (Bool-cases (bytes_eq key (name_of c))) [
    | inl e ↦ rw e (All-others P key cs a)
    | inr n ↦ rw n (p, All-others P key cs a)
  ]

  pub NamesDistinct-others :
      (key : Bytes) (cs : List E) → NamesDistinct cs → NamesDistinct (others key cs)
  unfolding reject
  NamesDistinct-others key [] d = tt
  NamesDistinct-others key (c ∷ cs) (a, d) = elim (Bool-cases (bytes_eq key (name_of c))) [
    | inl e ↦ rw e (NamesDistinct-others key cs d)
    | inr n ↦ rw n (
      All-others (λ e. bytes_eq (name_of c) (name_of e) ≡ false) key cs a,
      NamesDistinct-others key cs d,
    )
  ]

  pub names-append : (c : E) (cs : List E) → names cs ++ (name_of c) ∷ [] ≡ names (cs ++ c ∷ [])
  names-append c [] = refl
  names-append c (d ∷ cs) = ap (λ ns. (name_of d) ∷ ns) (names-append c cs)

  pub find_named-append :
      (c : E) (cs : List E) (j : Bytes)
      → find_named (name_of c) cs ≡ none
      → find_named j (cs ++ c ∷ []) ≡ (if bytes_eq (name_of c) j then some c else find_named j cs)
  unfolding find_named
  find_named-append c [] j h = refl
  find_named-append c (d ∷ cs) j h = ground (
    arith,
    find_named-append c cs j,
    bytes_eq_iff (name_of d) (name_of c),
    bytes_eq_iff (name_of c) j,
    bytes_eq_iff (name_of d) j,
  )

  pub NamesDistinct-append :
      (c : E) (cs : List E)
      → find_named (name_of c) cs ≡ none
      → NamesDistinct cs
      → NamesDistinct (cs ++ c ∷ [])
  unfolding find_named
  NamesDistinct-append c [] h d = (tt, tt)
  NamesDistinct-append c (e ∷ cs) h (a, d) =
      let apart : bytes_eq (name_of e) (name_of c) ≡ false = ground arith in
      let rest : find_named (name_of c) cs ≡ none = ground (arith, apart) in
      (
        All-append (λ x. bytes_eq (name_of e) (name_of x) ≡ false) cs (c ∷ []) a (apart, tt),
        NamesDistinct-append c cs rest d,
      )

  -- Each entry is found under its name.
  abbrev pub IsFoundIn : List E → E → Type 0
  IsFoundIn cs c = find_named (name_of c) cs ≡ some c

  found_behind :
      (c : E) (cs ds : List E)
      → All (λ d. bytes_eq (name_of c) (name_of d) ≡ false) ds
      → All (IsFoundIn cs) ds
      → All (IsFoundIn (c ∷ cs)) ds
  unfolding find_named
  found_behind c cs [] a f = tt
  found_behind c cs (d ∷ ds) (n, a) (e, f) = (rw n e, found_behind c cs ds a f)

  pub all_found : (cs : List E) → NamesDistinct cs → All (IsFoundIn cs) cs
  unfolding find_named
  all_found [] d = tt
  all_found (c ∷ cs) (a, d) =
      (rw (bytes_eq_refl (name_of c)) refl, found_behind c cs cs a (all_found cs d))

  pub others-absent : (key : Bytes) (cs : List E) → find_named key cs ≡ none → others key cs ≡ cs
  unfolding find_named reject
  others-absent key [] h = refl
  others-absent key (c ∷ cs) h = elim (Bool-cases (bytes_eq (name_of c) key)) [
    | inl e ↦ absurd (ground (arith, e))
    | inr n ↦
        let apart : bytes_eq key (name_of c) ≡ false = bytes_eq_comm key (name_of c) ∙ n in
        let rest : find_named key cs ≡ none = ground (arith, n) in
        rw (apart, others-absent key cs rest) refl
  ]
