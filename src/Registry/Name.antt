-- ===== src/Registry/Name.antt =====
-- `canonicalName` of component.go.
use tick_framework.Base.{
  ℕ, ◌-◌, [], ◌∷◌, ◌++◌, Option, none, some, Bytes, ltb, leb, ◌&&◌, if◌then◌else◌,
}

-- `strings.ToUpper` of a text of one byte: a byte from 128 on is no text by itself, and becomes
-- U+FFFD.
unfoldable pub upper_byte : ℕ → Bytes
upper_byte c =
    if leb b'a' c && leb c b'z'
    then (c - 32) ∷ []
    else if ltb c 128
    then c ∷ []
    else 239 ∷ 191 ∷ 189 ∷ []

-- `none` is the panic of `name[0:1]` on the empty name.
unfoldable pub canonical_name : Bytes → Option Bytes
canonical_name [] = none
canonical_name (c ∷ rest) = some (upper_byte c ++ rest)
