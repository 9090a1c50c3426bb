-- ===== src/Base/Words.antt =====
-- What the code uses of the package strings, on ASCII texts.
use Prim.Native.Nat.{ℕ, ◌-◌}
use mathlib.Core.Bool.{Bool, true, false, ◌&&◌, ◌||◌}
use mathlib.Core.List.{List, [], ◌∷◌, map}
use tick_framework.Base.Tests.{leb, ◌==◌, if◌then◌else◌}
use tick_framework.Base.Text.{Bytes}

-- `strings.ToUpper`
unfoldable pub to_upper : Bytes → Bytes
to_upper = map (λ c. if leb b'a' c && leb c b'z' then c - 32 else c)

-- A byte in front of the first part, or a separator.
abbrev extend : Bool → ℕ → List Bytes → List Bytes
extend true c parts = [] ∷ parts
extend false c [] = (c ∷ []) ∷ []
extend false c (part ∷ parts) = (c ∷ part) ∷ parts

-- `strings.Split` by a separator of one byte
unfoldable pub split : ℕ → Bytes → List Bytes
split sep [] = [] ∷ []
split sep (c ∷ s) = extend (c == sep) c (split sep s)

abbrev is_space : ℕ → Bool
is_space c = c == 32 || leb 9 c && leb c 13

unfoldable pub trim_left : Bytes → Bytes
trim_left [] = []
trim_left (c ∷ s) = if is_space c then trim_left s else c ∷ s

-- A byte in front of what `trim_right` leaves; a space there goes, too.
abbrev attach : ℕ → Bytes → Bytes
attach c [] = if is_space c then [] else c ∷ []
attach c (d ∷ s) = c ∷ d ∷ s

unfoldable pub trim_right : Bytes → Bytes
trim_right [] = []
trim_right (c ∷ s) = attach c (trim_right s)

-- `strings.TrimSpace`
unfoldable pub trim_space : Bytes → Bytes
trim_space s = trim_right (trim_left s)

-- `strings.HasPrefix`
unfoldable pub has_prefix : Bytes → Bytes → Bool
has_prefix s [] = true
has_prefix [] (p ∷ prefix) = false
has_prefix (c ∷ s) (p ∷ prefix) = c == p && has_prefix s prefix
