-- ===== src/Api/Tags.antt =====
-- api/param.go: the tags of a parameter, such as "<in:query> <name:p> <len: 1:10>".
pub mod RoundTrip
mod Tests
use tick_framework.Base.{
  ℕ, Bool, true, false, ◌&&◌, ◌||◌, not, List, [], ◌∷◌, ◌++◌, Option, none, some, Bytes, GoMap,
  assign, ◌==◌, if◌then◌else◌, split, bytes_eq,
}

abbrev is_blank : ℕ → Bool
is_blank c = c == b' '

abbrev attach : ℕ → Bytes → Bytes
attach c [] = if is_blank c then [] else c ∷ []
attach c (d ∷ s) = c ∷ d ∷ s

-- `strings.TrimRight` by blanks
unfoldable pub trim_right_blanks : Bytes → Bytes
trim_right_blanks [] = []
trim_right_blanks (c ∷ s) = attach c (trim_right_blanks s)

-- Where the loop PAIR stands: behind the colon, where blanks are cut off; within a text; or behind
-- a backslash.
pub data Mode : Type 0 where
  cutting within escaped : Mode

-- The name, once its colon has come, and `tag[:i]`.
pub record Pair : Type 0 where
  pub name : Option Bytes
  pub read : Bytes
  pub mode : Mode

-- Where `ParseTags` stands: in front of the next tag, behind its bracket, where blanks are passed
-- over, or in the loop PAIR.
pub data Position : Type 0 where
  before opened : Position
  inside : Pair → Position

abbrev pub is_bracket : ℕ → Bool
is_bracket c = c == b'<' || c == b'>'

abbrev pub is_none : Option Bytes → Bool
is_none none = true
is_none (some s) = false

abbrev pub keep : ℕ → Pair → Pair
keep c p = record p { read = p.read ++ c ∷ []; mode = within }

-- A byte in the loop PAIR that is not escaped and does not close the tag.
unfoldable pub take_plain : ℕ → Pair → Pair
take_plain c p =
    if c == b':' && is_none p.name
    then record { name = some (trim_right_blanks p.read); read = []; mode = cutting }
    else if c == b'\\'
    then record p { mode = escaped }
    else keep c p

-- A byte behind a backslash: a bracket stands for itself, and of another one the backslash stays.
unfoldable pub take_escaped : ℕ → Pair → Pair
take_escaped c p =
    if is_bracket c then keep c p else record p { read = p.read ++ b'\\' ∷ c ∷ []; mode = within }

-- The entry of a tag that closes.
unfoldable pub close_pair : Option Bytes → Bytes → GoMap Bytes → GoMap Bytes
close_pair none read values = assign (trim_right_blanks read) [] values
close_pair (some name) read values = assign name (trim_right_blanks read) values

abbrev pub fresh : Pair
fresh = record { name = none; read = []; mode = within }

unfoldable pub step_plain : ℕ → Pair → GoMap Bytes → Position × GoMap Bytes
step_plain c p values =
    if c == b'>'
    then (before, close_pair p.name p.read values)
    else (inside (take_plain c p), values)

unfoldable pub step_inside : Mode → ℕ → Pair → GoMap Bytes → Position × GoMap Bytes
step_inside within c p values = step_plain c p values
step_inside cutting c p values = if is_blank c then (inside p, values) else step_plain c p values
step_inside escaped c p values = (inside (take_escaped c p), values)

unfoldable pub step : Position → ℕ → GoMap Bytes → Position × GoMap Bytes
step before c values = if c == b'<' then (opened, values) else (before, values)
step opened c values = if is_blank c then (opened, values) else step_plain c fresh values
step (inside p) c values = step_inside p.mode c p values

-- The end of the text: a backslash there panics, and a tag that is open is dropped.
abbrev pub finish : Position → GoMap Bytes → Option (GoMap Bytes)
finish (inside p) values = elim p.mode [
  | escaped ↦ none
  | within ↦ some values
  | cutting ↦ some values
]
finish _ values = some values

-- The loops of `ParseTags` as one pass over the bytes.
unfoldable pub parse_from : Position → GoMap Bytes → Bytes → Option (GoMap Bytes)
parse_from position values [] = finish position values
parse_from position values (c ∷ tag) =
    let next = step position c values in parse_from next.0 next.1 tag

-- `ParseTags`; `none` is a panic.
unfoldable pub parse_tags : Bytes → Option (GoMap Bytes)
parse_tags tag = parse_from before [] tag

abbrev is_empty : Bytes → Bool
is_empty [] = true
is_empty (c ∷ s) = false

-- `parseTuple` behind its split; `none` is a panic.
unfoldable pub tuple_of : List Bytes → Option (Bytes × Bytes)
tuple_of (a ∷ []) = if is_empty a then none else some (a, a)
tuple_of (a ∷ b ∷ []) = if is_empty a && is_empty b then none else some (a, b)
tuple_of _ = none

unfoldable pub parse_tuple : Bytes → Option (Bytes × Bytes)
parse_tuple tuple = tuple_of (split b':' tuple)
