-- ===== src/Utility/Wildcard/Matching.antt =====
-- The match of utility/string.go against a relation between texts and patterns.
use tick_framework.Base.{
  ℕ, ◌≡◌, ◌≢◌, ◌↔◌, refl, Bool, true, false, [], ◌∷◌, Option, some, Bytes, ◌==◌, bytes_eq,
  bytes_eq_iff, arith, inl, inr, ◌||◌, if◌then◌else◌, ◌⊎◌, ==_iff, Bool-cases, codes,
}
use tick_framework.Utility.Wildcard.{or_else, deep_match_rune, is_empty, wildcard_match}

-- A star stands for any text, a question mark for one byte, and any other byte for itself.
pub data Matches : Bytes → Bytes → Type 0 where
  done : Matches [] []
  one :
      {c p : ℕ} {str pattern : Bytes}
      → p ≢ b'*'
      → (p ≡ b'?') ⊎ (c ≡ p)
      → Matches str pattern
      → Matches (c ∷ str) (p ∷ pattern)
  nothing :
      {p : ℕ} {str pattern : Bytes} → p ≡ b'*' → Matches str pattern → Matches str (p ∷ pattern)
  more :
      {c p : ℕ} {str pattern : Bytes}
      → p ≡ b'*'
      → Matches str (p ∷ pattern)
      → Matches (c ∷ str) (p ∷ pattern)

-- The answer of a search for a match: it is given, and it is right.
pub data Answers (P : Type 0) : Option Bool → Type 0 where
  found : P → Answers P (some true)
  refused : ¬ P → Answers P (some false)

not-Matches-nil : {c : ℕ} {str : Bytes} → ¬ Matches (c ∷ str) []
not-Matches-nil m = elim m [ ]

Matches-of_nil :
    {p : ℕ} {pattern : Bytes} → Matches [] (p ∷ pattern) → (p ≡ b'*') × Matches [] pattern
Matches-of_nil (nothing e m) = (e, m)

Matches-of_star :
    {c p : ℕ} {str pattern : Bytes}
    → p ≡ b'*'
    → Matches (c ∷ str) (p ∷ pattern)
    → Matches (c ∷ str) pattern ⊎ Matches str (p ∷ pattern)
Matches-of_star e (one n h m) = absurd (n e)
Matches-of_star e (nothing _ m) = inl m
Matches-of_star e (more _ m) = inr m

Matches-of_one :
    {c p : ℕ} {str pattern : Bytes}
    → p ≢ b'*'
    → Matches (c ∷ str) (p ∷ pattern)
    → ((p ≡ b'?') ⊎ (c ≡ p)) × Matches str pattern
Matches-of_one n (one _ h m) = (h, m)
Matches-of_one n (nothing e m) = absurd (n e)
Matches-of_one n (more e m) = absurd (n e)

Answers-map : {P Q : Type 0} {o : Option Bool} → (P → Q) → (Q → P) → Answers P o → Answers Q o
Answers-map f g (found p) = found (f p)
Answers-map f g (refused n) = refused (λ q. n (g q))

Answers-or_else :
    {P Q R : Type 0} {a b : Option Bool}
    → (P → R)
    → (Q → R)
    → (R → P ⊎ Q)
    → Answers P a
    → Answers Q b
    → Answers R (or_else a b)
unfolding or_else
Answers-or_else f g h (found p) _ = found (f p)
Answers-or_else f g h (refused n) (found q) = found (g q)
Answers-or_else f g h (refused n) (refused m) =
    refused (λ r. elim (h r) [ inl p ↦ n p | inr q ↦ m q ])

ne_of_test : (a b : ℕ) → (a == b) ≡ false → a ≢ b
ne_of_test a b h = ground arith

fits_of_test : (c p : ℕ) → (p == b'?' || c == p) ≡ true → (p ≡ b'?') ⊎ (c ≡ p)
fits_of_test c p h = ground arith

misfits_of_test : (c p : ℕ) → (p == b'?' || c == p) ≡ false → ¬ ((p ≡ b'?') ⊎ (c ≡ p))
misfits_of_test c p h = ground arith

deep_match_rune-Answers :
    (str pattern : Bytes) → Answers (Matches str pattern) (deep_match_rune str pattern false)
unfolding deep_match_rune
deep_match_rune-Answers [] [] = found done
deep_match_rune-Answers (c ∷ str) [] = refused not-Matches-nil
deep_match_rune-Answers [] (p ∷ pattern) = elim (Bool-cases (p == b'*')) [
  | inl e ↦
      rw (e, deep_match_rune)
        (Answers-or_else (nothing ((==_iff p b'*').0 e)) absurd (λ m. inl (Matches-of_nil m).1)
          (deep_match_rune-Answers [] pattern) (refused (λ x. x)))
  | inr n ↦
      let only_false : (if p == b'?' then some false else some false) ≡ some false = ground arith in
      rw (n, deep_match_rune)
        (rw only_false (refused (λ m. ne_of_test p b'*' n (Matches-of_nil m).0)))
]
deep_match_rune-Answers (c ∷ str) (p ∷ pattern) = elim (Bool-cases (p == b'*')) [
  | inl e ↦
      let star : p ≡ b'*' = (==_iff p b'*').0 e in
      rw (e, deep_match_rune)
        (Answers-or_else (nothing star) (more star) (Matches-of_star star)
          (deep_match_rune-Answers (c ∷ str) pattern) (deep_match_rune-Answers str (p ∷ pattern)))
  | inr n ↦
      let plain = ne_of_test p b'*' n in
      elim (Bool-cases (p == b'?' || c == p)) [
        | inl h ↦
            rw (n, h, deep_match_rune)
              (Answers-map (one plain (fits_of_test c p h)) (λ m. (Matches-of_one plain m).1)
                (deep_match_rune-Answers str pattern))
        | inr h ↦
            rw (n, h, deep_match_rune)
              (refused (λ m. misfits_of_test c p h (Matches-of_one plain m).0))
      ]
]

Matches-star : (str : Bytes) → Matches str (b'*' ∷ [])
Matches-star [] = nothing refl done
Matches-star (c ∷ str) = more refl (Matches-star str)

wildcard_match-Answers :
    (pattern name : Bytes) → Answers (Matches name pattern) (wildcard_match pattern name)
unfolding wildcard_match is_empty bytes_eq
wildcard_match-Answers [] [] = found done
wildcard_match-Answers [] (c ∷ name) = refused not-Matches-nil
wildcard_match-Answers (p ∷ pattern) name = elim (Bool-cases (bytes_eq (p ∷ pattern) (codes "*"))) [
  | inl e ↦
      rw (e, wildcard_match)
        (found (rw ((bytes_eq_iff (p ∷ pattern) (codes "*")).0 e) (Matches-star name)))
  | inr n ↦ rw (n, wildcard_match) (deep_match_rune-Answers name (p ∷ pattern))
]

Answers-total :
    {P : Type 0} {o : Option Bool} → Answers P o → (b : Bool) × (o ≡ some b) × ((b ≡ true) ↔ P)
Answers-total (found p) = (true, refl, (λ _. p, λ _. refl))
Answers-total (refused n) = (false, refl, (λ e. cc, λ p. absurd (n p)))

-- `WildcardMatch` ends without a panic for every pattern and every name, and returns true exactly if
-- the name matches the pattern.
pub wildcard_match-Matches :
    (pattern name : Bytes)
    → (b : Bool) × (wildcard_match pattern name ≡ some b) × ((b ≡ true) ↔ Matches name pattern)
wildcard_match-Matches pattern name = Answers-total (wildcard_match-Answers pattern name)
