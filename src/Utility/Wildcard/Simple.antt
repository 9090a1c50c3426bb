-- ===== src/Utility/Wildcard/Simple.antt =====
-- `WildcardMatchSimple` of utility/string.go beside `WildcardMatch`.
use tick_framework.Base.{
  ℕ, ◌≡◌, ◌≢◌, refl, Bool, true, false, [], ◌∷◌, ◌++◌, Option, none, some, Bytes, ◌==◌, All,
  bytes_eq, arith, inl, inr, ◌⊎◌, ==_iff, Bool-cases, codes, ◌||◌,
}
use tick_framework.Utility.Wildcard.{
  or_else, deep_match_rune, is_empty, wildcard_match, wildcard_match_simple,
}
use tick_framework.Utility.Wildcard.Matching.{Matches, done, one, nothing, more}

-- A question mark stands in the pattern.
abbrev pub HasQuestion : Bytes → Type 0
HasQuestion [] = ⊥
HasQuestion (p ∷ pattern) = (p ≡ b'?') ⊎ HasQuestion pattern

-- The first call's answer is the second one's, or it panics.
abbrev Agrees : Bytes → Option Bool → Option Bool → Type 0
Agrees pattern a b = (a ≡ b) ⊎ ((a ≡ none) × HasQuestion pattern)

Agrees-tail :
    (p : ℕ) (pattern : Bytes) {a b : Option Bool} → Agrees pattern a b → Agrees (p ∷ pattern) a b
Agrees-tail p pattern (inl e) = inl e
Agrees-tail p pattern (inr (e, q)) = inr (e, inr q)

Agrees-or_else :
    (pattern : Bytes) (a b c d : Option Bool)
    → Agrees pattern a b
    → Agrees pattern c d
    → Agrees pattern (or_else a c) (or_else b d)
unfolding or_else
Agrees-or_else pattern none b c d (inl e) h = inl (rw (← e, or_else) refl)
Agrees-or_else pattern none b c d (inr (_, q)) h = inr (refl, q)
Agrees-or_else pattern (some true) b c d (inl e) h = inl (rw (← e, or_else) refl)
Agrees-or_else pattern (some true) b c d (inr (e, q)) h = inl cc
Agrees-or_else pattern (some false) b c d (inl e) h = rw (← e, or_else) h
Agrees-or_else pattern (some false) b c d (inr (e, q)) h = inl cc

deep_match_rune-Agrees :
    (str pattern : Bytes)
    → Agrees pattern (deep_match_rune str pattern true) (deep_match_rune str pattern false)
unfolding deep_match_rune
deep_match_rune-Agrees [] [] = inl refl
deep_match_rune-Agrees (c ∷ str) [] = inl refl
deep_match_rune-Agrees [] (p ∷ pattern) = elim (Bool-cases (p == b'*')) [
  | inl e ↦
      rw (e, deep_match_rune)
        (Agrees-or_else (p ∷ pattern) _ _ (some false) (some false)
          (Agrees-tail p pattern (deep_match_rune-Agrees [] pattern)) (inl refl))
  | inr n ↦ elim (Bool-cases (p == b'?')) [
    | inl q ↦ rw (n, q, deep_match_rune) (inr (refl, inl ((==_iff p b'?').0 q)))
    | inr q ↦ rw (n, q, deep_match_rune) (inl refl)
  ]
]
deep_match_rune-Agrees (c ∷ str) (p ∷ pattern) = elim (Bool-cases (p == b'*')) [
  | inl e ↦
      rw (e, deep_match_rune)
        (Agrees-or_else (p ∷ pattern) _ _ _ _
          (Agrees-tail p pattern (deep_match_rune-Agrees (c ∷ str) pattern))
          (deep_match_rune-Agrees str (p ∷ pattern)))
  | inr n ↦ elim (Bool-cases (p == b'?' || c == p)) [
    | inl h ↦
        rw (n, h, deep_match_rune) (Agrees-tail p pattern (deep_match_rune-Agrees str pattern))
    | inr h ↦ rw (n, h, deep_match_rune) (inl refl)
  ]
]

-- `WildcardMatchSimple` answers what `WildcardMatch` answers, or it panics; it panics only for
-- patterns with a question mark.
pub wildcard_match_simple_agrees :
    (pattern name : Bytes)
    → (wildcard_match_simple pattern name ≡ wildcard_match pattern name)
      ⊎ ((wildcard_match_simple pattern name ≡ none) × HasQuestion pattern)
unfolding wildcard_match wildcard_match_simple is_empty
wildcard_match_simple_agrees [] name = inl refl
wildcard_match_simple_agrees (p ∷ pattern) name =
    elim (Bool-cases (bytes_eq (p ∷ pattern) (codes "*"))) [
      | inl e ↦ inl (rw (e, wildcard_match, wildcard_match_simple) refl)
      | inr n ↦
          rw (n, wildcard_match, wildcard_match_simple) (deep_match_rune-Agrees name (p ∷ pattern))
    ]

deep_match_rune_panics :
    (name pattern rest : Bytes)
    → Matches name pattern
    → All (λ p. p ≢ b'*') pattern
    → deep_match_rune name (pattern ++ b'?' ∷ rest) true ≡ none
unfolding deep_match_rune
deep_match_rune_panics [] [] rest done a = refl
deep_match_rune_panics (c ∷ name) [] rest m a = elim m [ ]
deep_match_rune_panics (c ∷ name) (p ∷ pattern) rest (one n h m) (_, a) =
    let plain : (p == b'*') ≡ false = ground arith in
    let fits : (p == b'?' || c == p) ≡ true = ground (arith, h) in
    rw (plain, fits, deep_match_rune) (deep_match_rune_panics name pattern rest m a)
deep_match_rune_panics name (p ∷ pattern) rest (nothing e m) (n, a) = absurd (n e)
deep_match_rune_panics (c ∷ name) (p ∷ pattern) rest (more e m) (n, a) = absurd (n e)

-- `WildcardMatchSimple` panics for a name and a pattern in which a question mark follows a part
-- without stars that the whole name matches.
pub wildcard_match_simple_panics :
    (name pattern rest : Bytes)
    → Matches name pattern
    → All (λ p. p ≢ b'*') pattern
    → wildcard_match_simple (pattern ++ b'?' ∷ rest) name ≡ none
unfolding wildcard_match_simple is_empty bytes_eq
wildcard_match_simple_panics name [] rest m a = deep_match_rune_panics name [] rest m a
wildcard_match_simple_panics name (p ∷ pattern) rest m (n, a) =
    let plain : (p == b'*') ≡ false = ground arith in
    rw (plain, wildcard_match_simple) (deep_match_rune_panics name (p ∷ pattern) rest m (n, a))
