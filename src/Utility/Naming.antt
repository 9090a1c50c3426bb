-- ===== src/Utility/Naming.antt =====
-- utility/string.go: names with words in snake case and in camel case.
pub mod Words
mod Tests
use tick_framework.Base.{
  ℕ, ◌-◌, Bool, true, false, not, ◌&&◌, ◌||◌, List, [], ◌∷◌, ◌++◌, Bytes, leb, ◌==◌, if◌then◌else◌,
  split,
}
use tick_framework.Utility.Array.{to_lower}
use tick_framework.Registry.Name.{upper_byte}

abbrev pub is_upper : ℕ → Bool
is_upper d = leb b'A' d && leb d b'Z'

abbrev pub is_lower : ℕ → Bool
is_lower d = leb b'a' d && leb d b'z'

abbrev pub underscore : ℕ
underscore = b'_'

unfoldable pub upper_first : Bytes → Bytes
upper_first [] = []
upper_first (c ∷ v) = upper_byte c ++ v

-- The loop of `SnakeToUpperCamel`.
unfoldable pub write_words : List Bytes → Bytes
write_words [] = []
write_words (v ∷ vs) = upper_first v ++ write_words vs

unfoldable pub snake_to_upper_camel : Bytes → Bytes
snake_to_upper_camel s = write_words (split underscore s)

-- `j` after a byte in the loop of `SnakeString`
abbrev pub after_byte : Bool → ℕ → Bool
after_byte j d = if is_upper d then false else if d == underscore then j else true

unfoldable pub snake_loop : Bool → Bytes → Bytes
snake_loop j [] = []
snake_loop j (d ∷ s) =
    let rest = snake_loop (after_byte j d) s in
    if is_upper d && j then underscore ∷ d ∷ rest else d ∷ rest

unfoldable pub snake_string : Bytes → Bytes
snake_string s = to_lower (snake_loop false s)

abbrev pub begins_lower : Bytes → Bool
begins_lower [] = false
begins_lower (d ∷ s) = is_lower d

-- The byte becomes a capital; `k` is the one after the first test.
abbrev pub becomes_upper : Bool → Bool → ℕ → Bool
becomes_upper j k d = is_lower d && (j || not k)

-- The loop of `CamelString`.
unfoldable pub camel_loop : Bool → Bool → Bytes → Bytes
camel_loop j k [] = []
camel_loop j k (d ∷ s) = elim (becomes_upper j (k || is_upper d) d) [
  | true ↦ (d - 32) ∷ camel_loop false true s
  | false ↦ elim ((k || is_upper d) && d == underscore && begins_lower s) [
    | true ↦ camel_loop true (k || is_upper d) s
    | false ↦ d ∷ camel_loop j (k || is_upper d) s
  ]
]

unfoldable pub camel_string : Bytes → Bytes
camel_string s = camel_loop false false s
