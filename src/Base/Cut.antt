-- ===== src/Base/Cut.antt =====
-- Cutting a text at a separator of one byte.
use Prim.Native.Nat.{ℕ, zero, suc}
use mathlib.Core.Bool.{true, false}
use mathlib.Core.List.{List, [], ◌∷◌, ◌++◌}
use mathlib.Core.Option.{Option, none, some}
use mathlib.Core.Path.{◌≡◌, refl}
use native.Mathlib.Omega.{arith}
use tick_framework.Base.Lists.{All}
use tick_framework.Base.Tests.{◌==◌, if◌then◌else◌}
use tick_framework.Base.Text.{Bytes}

-- What comes before the first separator and what comes behind it, if there is one.
unfoldable pub cut : ℕ → Bytes → Option (Bytes × Bytes)
cut sep [] = none
cut sep (c ∷ s) =
    let rest = cut sep s in
    if c == sep then some ([], s) else elim rest [ none ↦ none | some (a, b) ↦ some (c ∷ a, b) ]

-- `strings.SplitN` and `bytes.SplitN` by a separator of one byte, into at least one part.
unfoldable pub split_n : ℕ → ℕ → Bytes → List Bytes
split_n sep zero s = []
split_n sep (suc zero) s = s ∷ []
split_n sep (suc (suc n)) s = elim (cut sep s) [
  | none ↦ s ∷ []
  | some (a, b) ↦ a ∷ split_n sep (suc n) b
]

-- A text without the separator.
abbrev pub Lacks : ℕ → Bytes → Type 0
Lacks sep = All (λ c. (c == sep) ≡ false)

pub cut-append :
    (sep : ℕ) (s rest : Bytes)
    → (sep == sep) ≡ true
    → Lacks sep s
    → cut sep (s ++ sep ∷ rest) ≡ some (s, rest)
unfolding cut
cut-append sep [] rest same _ = rw same refl
cut-append sep (c ∷ s) rest same (n, ns) = rw (n, cut-append sep s rest same ns, cut) refl

pub split_n-step :
    (sep n : ℕ) (a b s : Bytes)
    → cut sep s ≡ some (a, b)
    → split_n sep (suc (suc n)) s ≡ a ∷ split_n sep (suc n) b
unfolding split_n
split_n-step sep n a b s e = rw (e, split_n) refl

same_byte : (c d : ℕ) → (c == d) ≡ true → c ≡ d
same_byte c d e = ground arith

-- A cut leaves out one separator.
pub cut_parts : (sep : ℕ) (s a b : Bytes) → cut sep s ≡ some (a, b) → s ≡ a ++ sep ∷ b
unfolding cut
cut_parts sep [] a b e = ground arith
cut_parts sep (c ∷ s) a b e = grind (arith, cut_parts sep s, same_byte c sep)

-- Three parts are what is between and around the first two separators.
pub split_n_three :
    (sep : ℕ) (s a b c : Bytes) → split_n sep 3 s ≡ a ∷ b ∷ c ∷ [] → s ≡ a ++ sep ∷ (b ++ sep ∷ c)
unfolding split_n
split_n_three sep s a b c e = grind (arith, cut_parts)
