-- ===== src/Utility/Wildcard.antt =====
-- utility/string.go, the match of a text against a pattern with wildcards.
pub mod Matching
pub mod Simple
mod Tests
use tick_framework.Base.{
  ℕ, Bool, true, false, ◌||◌, List, [], ◌∷◌, Option, none, some, Bytes, codes, ◌==◌, bytes_eq,
  if◌then◌else◌,
}

-- `a || b` of two calls that may panic: the second is made only where the first is false.
unfoldable pub or_else : Option Bool → Option Bool → Option Bool
or_else none later = none
or_else (some true) later = some true
or_else (some false) later = later

-- `deepMatchRune`; `none` is the panic of `str[1:]` on the empty text. A round of the loop for a
-- byte that is no star goes on with both texts one byte shorter.
unfoldable pub deep_match_rune : Bytes → Bytes → Bool → Option Bool
deep_match_rune [] [] simple = some true
deep_match_rune (c ∷ str) [] simple = some false
deep_match_rune [] (p ∷ pattern) simple = elim (p == b'*') [
  | true ↦ or_else (deep_match_rune [] pattern simple) (some false)
  | false ↦ if p == b'?' then (if simple then none else some false) else some false
]
deep_match_rune (c ∷ str) (p ∷ pattern) simple = elim (p == b'*') [
  | true ↦
      or_else (deep_match_rune (c ∷ str) pattern simple) (deep_match_rune str (p ∷ pattern) simple)
  | false ↦ elim (p == b'?' || c == p) [
    | true ↦ deep_match_rune str pattern simple
    | false ↦ some false
  ]
]

unfoldable pub is_empty : Bytes → Bool
is_empty [] = true
is_empty (c ∷ s) = false

unfoldable pub wildcard_match_simple : Bytes → Bytes → Option Bool
wildcard_match_simple pattern name =
    if is_empty pattern
    then some (bytes_eq name pattern)
    else if bytes_eq pattern (codes "*")
    then some true
    else deep_match_rune name pattern true

unfoldable pub wildcard_match : Bytes → Bytes → Option Bool
wildcard_match pattern name =
    if is_empty pattern
    then some (bytes_eq name pattern)
    else if bytes_eq pattern (codes "*")
    then some true
    else deep_match_rune name pattern false
