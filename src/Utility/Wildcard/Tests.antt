-- ===== src/Utility/Wildcard/Tests.antt =====
-- Runs of the match of texts against patterns.
use tick_framework.Base.{
  ◌≡◌, ◌↔◌, refl, Bool, true, false, [], none, some, codes, bytes_eq, inr, arith,
}
use tick_framework.Utility.Wildcard.{
  deep_match_rune, or_else, is_empty, wildcard_match, wildcard_match_simple,
}
use tick_framework.Utility.Wildcard.Matching.{Matches, done, one, wildcard_match-Matches}
use tick_framework.Utility.Wildcard.Simple.{wildcard_match_simple_panics}

wildcard_match-Matches_example :
    (b : Bool) × (wildcard_match (codes "a*c?") (codes "abbcd") ≡ some b)
    × ((b ≡ true) ↔ Matches (codes "abbcd") (codes "a*c?"))
wildcard_match-Matches_example = wildcard_match-Matches (codes "a*c?") (codes "abbcd")

program : Unit {0}
unfolding wildcard_match wildcard_match_simple deep_match_rune or_else is_empty bytes_eq
program = tt

match_runs : wildcard_match (codes "a*c?") (codes "abbcd") ≡ some true
unfolding program
match_runs = refl

mismatch_runs : wildcard_match (codes "a*c?") (codes "abbdd") ≡ some false
unfolding program
mismatch_runs = refl

-- a question mark is a wildcard of the simple match too
simple_runs : wildcard_match_simple (codes "a?") (codes "ab") ≡ some true
unfolding program
simple_runs = refl

wildcard_match_simple_panics_example : wildcard_match_simple (codes "a?") (codes "a") ≡ none
wildcard_match_simple_panics_example =
    wildcard_match_simple_panics (codes "a") (codes "a") [] (one (λ e. omega arith) (inr refl) done)
      ((λ e. omega arith), tt)
