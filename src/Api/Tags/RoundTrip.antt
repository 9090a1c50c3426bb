-- ===== src/Api/Tags/RoundTrip.antt =====
-- api/param.go: tags that are written out are read back.
use tick_framework.Base.{
  ℕ, ◌≡◌, refl, ap, ◌∙◌, true, false, Bool-cases, ◌&&◌, List, [], ◌∷◌, ◌++◌, append_assoc,
  append-nil, none, some, Bytes, GoMap, assign, ◌==◌, All, if◌then◌else◌, inl, inr, arith,
}
use tick_framework.Api.Tags.{
  trim_right_blanks, Mode, cutting, within, escaped, Position, before, opened, inside, is_bracket,
  take_plain, take_escaped, close_pair, step_plain, step_inside, step, parse_from, parse_tags,
}

-- A bracket behind a backslash.
unfoldable pub escape : Bytes → Bytes
escape [] = []
escape (c ∷ s) = let rest = escape s in if is_bracket c then b'\\' ∷ c ∷ rest else c ∷ rest

abbrev pub print_tag : Bytes × Bytes → Bytes
print_tag t = b'<' ∷ (t.0 ++ b':' ∷ (escape t.1 ++ b'>' ∷ []))

unfoldable pub print_tags : List (Bytes × Bytes) → Bytes
print_tags [] = []
print_tags (t ∷ ts) = print_tag t ++ b' ' ∷ print_tags ts

-- A byte of a name: no colon, no backslash and no bracket that closes.
abbrev IsNameByte : ℕ → Type 0
IsNameByte c = ((c == b':') ≡ false) × ((c == b'\\') ≡ false) × ((c == b'>') ≡ false)

abbrev LacksBackslash : Bytes → Type 0
LacksBackslash = All (λ c. (c == b'\\') ≡ false)

-- A text that does not begin with a blank.
abbrev pub BeginsPlain : Bytes → Type 0
BeginsPlain [] = Unit
BeginsPlain (c ∷ s) = (c == b' ') ≡ false

-- Within a name or a value
abbrev at_name : Bytes → Position
at_name read = inside (record { name = none; read = read; mode = within })

abbrev at_value : Mode → Bytes → Bytes → Position
at_value mode name read = inside (record { name = some name; read = read; mode = mode })

step-at_name :
    (c : ℕ) (read : Bytes) (values : GoMap Bytes)
    → IsNameByte c
    → step (at_name read) c values ≡ (at_name (read ++ c ∷ []), values)
unfolding step step_inside step_plain take_plain
step-at_name c read values (colon, slash, close) = rw (close, colon, slash, take_plain) refl

step-at_value :
    (c : ℕ) (name read : Bytes) (values : GoMap Bytes)
    → is_bracket c ≡ false
    → (c == b'\\') ≡ false
    → step (at_value within name read) c values ≡ (at_value within name (read ++ c ∷ []), values)
unfolding step step_inside step_plain take_plain
step-at_value c name read values b slash =
    let close : (c == b'>') ≡ false = ground arith in
    let colon : ((c == b':') && false) ≡ false = ground arith in
    rw (close, take_plain, colon, slash) refl

step_bracket :
    (c : ℕ) (name read : Bytes) (values : GoMap Bytes)
    → is_bracket c ≡ true
    → step (at_value escaped name read) c values ≡ (at_value within name (read ++ c ∷ []), values)
unfolding step step_inside take_escaped
step_bracket c name read values b = rw (take_escaped, b) refl

name_read :
    (name read rest : Bytes) (values : GoMap Bytes)
    → All IsNameByte name
    → parse_from (at_name read) values (name ++ rest)
      ≡ parse_from (at_name (read ++ name)) values rest
unfolding parse_from
name_read [] read rest values _ = rw (append-nil read) refl
name_read (c ∷ name) read rest values (plain_c, plain) =
    ap (λ n. parse_from n.0 n.1 (name ++ rest)) (step-at_name c read values plain_c)
    ∙ name_read name (read ++ c ∷ []) rest values plain
    ∙ ap (λ r. parse_from (at_name r) values rest) (append_assoc read (c ∷ []) name)

value_read :
    (name value read rest : Bytes) (values : GoMap Bytes)
    → LacksBackslash value
    → parse_from (at_value within name read) values (escape value ++ rest)
      ≡ parse_from (at_value within name (read ++ value)) values rest
unfolding parse_from escape step step_inside step_plain take_plain
value_read name [] read rest values _ = rw (append-nil read) refl
value_read name (c ∷ value) read rest values (slash, plain) =
    let again = value_read name value (read ++ c ∷ []) rest values plain in
    let whole =
      ap (λ r. parse_from (at_value within name r) values rest)
        (append_assoc read (c ∷ []) value) in
    elim (Bool-cases (is_bracket c)) [
      | inl b ↦ rw b (
          ap (λ n. parse_from n.0 n.1 (escape value ++ rest)) (step_bracket c name read values b)
          ∙ again
          ∙ whole)
      | inr b ↦ rw b (
          ap (λ n. parse_from n.0 n.1 (escape value ++ rest))
            (step-at_value c name read values b slash)
          ∙ again
          ∙ whole)
    ]

-- Blanks that are passed over are not there in a text that begins with something else.
opened_read :
    (c : ℕ) (s : Bytes) (values : GoMap Bytes)
    → (c == b' ') ≡ false
    → parse_from opened values (c ∷ s) ≡ parse_from (at_name []) values (c ∷ s)
unfolding parse_from step step_inside
opened_read c s values n =
    let same : step opened c values ≡ step (at_name []) c values = rw (n, step) refl in
    ap (λ (x : Position × GoMap Bytes). parse_from x.0 x.1 s) same

cutting_read :
    (c : ℕ) (name s : Bytes) (values : GoMap Bytes)
    → (c == b' ') ≡ false
    → parse_from (at_value cutting name []) values (c ∷ s)
      ≡ parse_from (at_value within name []) values (c ∷ s)
unfolding parse_from step step_inside step_plain take_plain
cutting_read c name s values n =
    let same : step (at_value cutting name []) c values ≡ step (at_value within name []) c values =
      rw (n, step_inside) refl in
    ap (λ (x : Position × GoMap Bytes). parse_from x.0 x.1 s) same

cutting_value :
    (name value rest : Bytes) (values : GoMap Bytes)
    → BeginsPlain value
    → parse_from (at_value cutting name []) values (escape value ++ b'>' ∷ rest)
      ≡ parse_from (at_value within name []) values (escape value ++ b'>' ∷ rest)
unfolding escape
cutting_value name [] rest values _ = cutting_read b'>' name rest values refl
cutting_value name (c ∷ value) rest values n = elim (Bool-cases (is_bracket c)) [
  | inl b ↦ rw b (cutting_read b'\\' name (c ∷ (escape value ++ b'>' ∷ rest)) values refl)
  | inr b ↦ rw b (cutting_read c name (escape value ++ b'>' ∷ rest) values n)
]

opened_name :
    (name rest : Bytes) (values : GoMap Bytes)
    → BeginsPlain name
    → parse_from opened values (name ++ b':' ∷ rest)
      ≡ parse_from (at_name []) values (name ++ b':' ∷ rest)
opened_name [] rest values _ = opened_read b':' rest values refl
opened_name (c ∷ name) rest values n = opened_read c (name ++ b':' ∷ rest) values n

-- A name and a value that a tag can carry: neither begins or ends with a blank, the value has no
-- backslash, and the name has none, no colon and no closing bracket.
pub record IsTag (t : Bytes × Bytes) : Type 0 where
  pub name_bytes : All IsNameByte t.0
  pub name_begins : BeginsPlain t.0
  pub name_ends : trim_right_blanks t.0 ≡ t.0
  pub value_bytes : LacksBackslash t.1
  pub value_begins : BeginsPlain t.1
  pub value_ends : trim_right_blanks t.1 ≡ t.1

tag_read :
    (name value rest : Bytes) (values : GoMap Bytes)
    → IsTag (name, value)
    → parse_from before values (print_tag (name, value) ++ rest)
      ≡ parse_from before (assign name value values) rest
unfolding parse_from step step_inside step_plain take_plain close_pair
tag_read name value rest values t =
    ap (λ s. parse_from opened values s)
      (append_assoc name (b':' ∷ (escape value ++ b'>' ∷ [])) rest
        ∙ ap (λ s. name ++ b':' ∷ s) (append_assoc (escape value) (b'>' ∷ []) rest))
    ∙ opened_name name (escape value ++ b'>' ∷ rest) values t.name_begins
    ∙ name_read name [] (b':' ∷ (escape value ++ b'>' ∷ rest)) values t.name_bytes
    ∙ ap (λ n. parse_from (at_value cutting n []) values (escape value ++ b'>' ∷ rest)) t.name_ends
    ∙ cutting_value name value rest values t.value_begins
    ∙ value_read name value [] (b'>' ∷ rest) values t.value_bytes
    ∙ ap (λ v. parse_from before (assign name v values) rest) t.value_ends

blank_read :
    (s : Bytes) (values : GoMap Bytes)
    → parse_from before values (b' ' ∷ s) ≡ parse_from before values s
unfolding parse_from step
blank_read s values = refl

-- The entries of tags, from the first to the last.
unfoldable pub entered : List (Bytes × Bytes) → GoMap Bytes → GoMap Bytes
entered [] values = values
entered (t ∷ ts) values = entered ts (assign t.0 t.1 values)

print_tags_read :
    (ts : List (Bytes × Bytes)) (values : GoMap Bytes)
    → All IsTag ts
    → parse_from before values (print_tags ts) ≡ some (entered ts values)
unfolding parse_from print_tags entered
print_tags_read [] values _ = refl
print_tags_read (t ∷ ts) values (h, hs) =
    tag_read t.0 t.1 (b' ' ∷ print_tags ts) values h
    ∙ blank_read (print_tags ts) (assign t.0 t.1 values)
    ∙ print_tags_read ts (assign t.0 t.1 values) hs

-- Tags that are written out, with a backslash in front of the brackets of their values, are read
-- back without a panic: the map has the value of each name, the last one where a name is there
-- twice. The names and values neither begin nor end with a blank, the values have no backslash, and
-- the names have none, no colon and no closing bracket.
pub parse_tags-print_tags :
    (ts : List (Bytes × Bytes)) → All IsTag ts → parse_tags (print_tags ts) ≡ some (entered ts [])
unfolding parse_tags
parse_tags-print_tags ts h = print_tags_read ts [] h
