-- ===== src/Utility/Array.antt =====
-- utility/array.go: the search for a text in a slice and in the values of a map.
use tick_framework.Base.{
  ℕ, suc, ◌+◌, ◌&&◌, Bool, true, false, List, [], ◌∷◌, map, Option, none, some, Bytes, GoMap, leb,
  bytes_eq, if◌then◌else◌,
}

-- `strings.ToLower`, of ASCII texts
unfoldable pub to_lower : Bytes → Bytes
to_lower = map (λ c. if leb b'A' c && leb c b'Z' then c + 32 else c)

unfoldable pub same_text : Bool → Bytes → Bytes → Bool
same_text case_sensitive needle value =
    if case_sensitive then bytes_eq needle value else bytes_eq (to_lower needle) (to_lower value)

-- `InArrayString`: the index of the first entry that is the needle
unfoldable pub in_array_string : Bytes → List Bytes → Bool → Option ℕ
in_array_string needle [] case_sensitive = none
in_array_string needle (value ∷ haystack) case_sensitive =
    elim (same_text case_sensitive needle value) [
      | true ↦ some 0
      | false ↦ elim (in_array_string needle haystack case_sensitive) [
        | none ↦ none
        | some i ↦ some (suc i)
      ]
    ]

unfoldable pub in_map_string : Bytes → GoMap Bytes → Bool
in_map_string needle [] = false
in_map_string needle ((k, value) ∷ haystack) = elim (bytes_eq needle value) [
  | true ↦ true
  | false ↦ in_map_string needle haystack
]
