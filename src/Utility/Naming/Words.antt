-- ===== src/Utility/Naming/Words.antt =====
-- utility/string.go: a name in snake case goes to camel case and back.
use tick_framework.Base.{
  ℕ, ◌-◌, ◌≡◌, refl, sym, ◌∙◌, ap, Bool, true, false, not, ◌&&◌, ◌||◌, List, [], ◌∷◌, ◌++◌,
  append-nil, Bytes, All, leb, ◌==◌, if◌then◌else◌, split, arith,
}
use tick_framework.Utility.Array.{to_lower}
use tick_framework.Registry.Name.{upper_byte}
use tick_framework.Utility.Naming.{
  is_lower, underscore, upper_first, write_words, snake_to_upper_camel, snake_loop, snake_string,
  camel_loop, camel_string,
}

abbrev pub is_small : ℕ → Bool
is_small d = is_lower d || (leb b'0' d && leb d b'9')

-- A word: a small letter, and one small letter or digit at least.
abbrev pub IsWord : Bytes → Type 0
IsWord [] = ⊥
IsWord (c ∷ []) = ⊥
IsWord (c ∷ d ∷ r) = (is_lower c ≡ true) × All (λ x. is_small x ≡ true) (d ∷ r)

-- The words with underscores between them.
abbrev pub joined : List Bytes → Bytes
joined [] = []
joined (w ∷ []) = w
joined (w ∷ v ∷ ws) = w ++ underscore ∷ joined (v ∷ ws)

-- The words with capitals.
abbrev pub capitals : List Bytes → Bytes
capitals [] = []
capitals ([] ∷ ws) = capitals ws
capitals ((c ∷ r) ∷ ws) = (c - 32) ∷ (r ++ capitals ws)

camel_loop-small :
    (r t : Bytes)
    → All (λ x. is_small x ≡ true) r
    → camel_loop false true (r ++ t) ≡ r ++ camel_loop false true t
unfolding camel_loop
camel_loop-small [] t h = refl
camel_loop-small (x ∷ r) t (h, hs) = let e = camel_loop-small r t hs in ground arith

camel_loop-lower :
    (j k : Bool) (c : ℕ) (t : Bytes)
    → (j || not k) ≡ true
    → is_lower c ≡ true
    → camel_loop j k (c ∷ t) ≡ (c - 32) ∷ camel_loop false true t
unfolding camel_loop
camel_loop-lower j k c t h l = ground arith

camel_loop-underscore :
    (c : ℕ) (t : Bytes)
    → is_lower c ≡ true
    → camel_loop false true (underscore ∷ c ∷ t) ≡ camel_loop true true (c ∷ t)
unfolding camel_loop
camel_loop-underscore c t l = ground arith

camel_loop-next :
    (w : Bytes) (ws : List Bytes)
    → IsWord w
    → camel_loop false true (underscore ∷ joined (w ∷ ws)) ≡ camel_loop true true (joined (w ∷ ws))
camel_loop-next [] ws word = absurd word
camel_loop-next (c ∷ []) ws word = absurd word
camel_loop-next (c ∷ d ∷ r) [] (lower, small) = camel_loop-underscore c (d ∷ r) lower
camel_loop-next (c ∷ d ∷ r) (v ∷ ws) (lower, small) =
    camel_loop-underscore c ((d ∷ r) ++ underscore ∷ joined (v ∷ ws)) lower

camel_loop-joined :
    (j k : Bool) (ws : List Bytes)
    → (j || not k) ≡ true
    → All IsWord ws
    → camel_loop j k (joined ws) ≡ capitals ws
unfolding camel_loop
camel_loop-joined j k [] h words = refl
camel_loop-joined j k ([] ∷ ws) h (word, words) = absurd word
camel_loop-joined j k ((c ∷ []) ∷ ws) h (word, words) = absurd word
camel_loop-joined j k ((c ∷ d ∷ r) ∷ []) h ((lower, small), words) =
    ap (λ s. camel_loop j k (c ∷ s)) (sym (append-nil (d ∷ r)))
    ∙ camel_loop-lower j k c ((d ∷ r) ++ []) h lower
    ∙ ap (◌∷◌ (c - 32)) (camel_loop-small (d ∷ r) [] small)
camel_loop-joined j k ((c ∷ d ∷ r) ∷ [] ∷ ws) h (_, (word, words)) = absurd word
camel_loop-joined j k ((c ∷ d ∷ r) ∷ (b ∷ v) ∷ ws) h ((lower, small), (word, words)) =
    camel_loop-lower j k c ((d ∷ r) ++ underscore ∷ joined ((b ∷ v) ∷ ws)) h lower
    ∙ ap (◌∷◌ (c - 32)) (
        camel_loop-small (d ∷ r) (underscore ∷ joined ((b ∷ v) ∷ ws)) small
        ∙ ap (λ s. (d ∷ r) ++ s)
            (camel_loop-next (b ∷ v) ws word
              ∙ camel_loop-joined true true ((b ∷ v) ∷ ws) refl (word, words)))

snake_loop-small :
    (r t : Bytes)
    → All (λ x. is_small x ≡ true) r
    → to_lower (snake_loop true (r ++ t)) ≡ r ++ to_lower (snake_loop true t)
unfolding snake_loop to_lower
snake_loop-small [] t h = refl
snake_loop-small (x ∷ r) t (h, hs) = let e = snake_loop-small r t hs in ground arith

abbrev behind : Bool → Bytes → Bytes
behind j s = if j then underscore ∷ s else s

snake_loop-capital :
    (j : Bool) (c d : ℕ) (t : Bytes)
    → is_lower c ≡ true
    → is_small d ≡ true
    → to_lower (snake_loop j ((c - 32) ∷ d ∷ t)) ≡ behind j (c ∷ d ∷ to_lower (snake_loop true t))
unfolding snake_loop to_lower
snake_loop-capital j c d t lower small = ground arith

snake_loop-capitals :
    (j : Bool) (w : Bytes) (ws : List Bytes)
    → All IsWord (w ∷ ws)
    → to_lower (snake_loop j (capitals (w ∷ ws))) ≡ behind j (joined (w ∷ ws))
unfolding snake_loop to_lower
snake_loop-capitals j [] ws (word, words) = absurd word
snake_loop-capitals j (c ∷ []) ws (word, words) = absurd word
snake_loop-capitals j (c ∷ d ∷ r) [] ((lower, (small, smalls)), words) =
    snake_loop-capital j c d (r ++ []) lower small
    ∙ ap (λ s. behind j (c ∷ d ∷ s)) (snake_loop-small r [] smalls ∙ append-nil r)
snake_loop-capitals j (c ∷ d ∷ r) (v ∷ ws) ((lower, (small, smalls)), words) =
    snake_loop-capital j c d (r ++ capitals (v ∷ ws)) lower small
    ∙ ap (λ s. behind j (c ∷ d ∷ s))
        (snake_loop-small r (capitals (v ∷ ws)) smalls
          ∙ ap (λ s. r ++ s) (snake_loop-capitals true v ws words))

split-small :
    (r t p : Bytes) (ps : List Bytes)
    → All (λ x. is_small x ≡ true) r
    → split underscore t ≡ p ∷ ps
    → split underscore (r ++ t) ≡ (r ++ p) ∷ ps
unfolding split
split-small [] t p ps h e = e
split-small (x ∷ r) t p ps (h, hs) e =
    let k = split-small r t p ps hs e in
    let apart : (x == underscore) ≡ false = ground (arith, h) in rw (apart, k)

lower-IsSmall :
    (c d : ℕ) (r : Bytes) → IsWord (c ∷ d ∷ r) → All (λ x. is_small x ≡ true) (c ∷ d ∷ r)
lower-IsSmall c d r (lower, smalls) = (ground (arith, lower), smalls)

split-joined :
    (w : Bytes) (ws : List Bytes)
    → All IsWord (w ∷ ws)
    → split underscore (joined (w ∷ ws)) ≡ w ∷ ws
unfolding split
split-joined [] ws (word, words) = absurd word
split-joined (c ∷ []) ws (word, words) = absurd word
split-joined (c ∷ d ∷ r) [] (word, words) =
    let h = split-small (c ∷ d ∷ r) [] [] [] (lower-IsSmall c d r word) refl in
    ap (split underscore) (sym (append-nil (c ∷ d ∷ r)))
    ∙ h
    ∙ ap (λ v. v ∷ []) (append-nil (c ∷ d ∷ r))
split-joined (c ∷ d ∷ r) (v ∷ ws) (word, words) =
    let rest : split underscore (underscore ∷ joined (v ∷ ws)) ≡ [] ∷ v ∷ ws =
      ap (λ l. [] ∷ l) (split-joined v ws words) in
    let h = split-small (c ∷ d ∷ r) _ [] (v ∷ ws) (lower-IsSmall c d r word) rest in
    h ∙ ap (λ u. u ∷ v ∷ ws) (append-nil (c ∷ d ∷ r))

write_words-capitals : (ws : List Bytes) → All IsWord ws → write_words ws ≡ capitals ws
unfolding write_words upper_first upper_byte
write_words-capitals [] words = refl
write_words-capitals ([] ∷ ws) (word, words) = absurd word
write_words-capitals ((c ∷ []) ∷ ws) (word, words) = absurd word
write_words-capitals ((c ∷ d ∷ r) ∷ ws) ((lower, smalls), words) =
    let h = write_words-capitals ws words in
    let capital : upper_byte c ≡ (c - 32) ∷ [] = ground (arith, lower) in rw (capital, h)

-- A name of words, of a small letter and one more small letter or digit at least each, with
-- underscores between them, has one name in camel case by CamelString and by SnakeToUpperCamel, and
-- SnakeString leads back from there.
pub snake_string-camel_string :
    (w : Bytes) (ws : List Bytes)
    → All IsWord (w ∷ ws)
    → (snake_string (camel_string (joined (w ∷ ws))) ≡ joined (w ∷ ws))
      × (camel_string (joined (w ∷ ws)) ≡ snake_to_upper_camel (joined (w ∷ ws)))
unfolding snake_string camel_string snake_to_upper_camel
snake_string-camel_string w ws words =
    let camel = camel_loop-joined false false (w ∷ ws) refl words in
    (
      ap (λ s. to_lower (snake_loop false s)) camel ∙ snake_loop-capitals false w ws words,
      camel
          ∙ sym (write_words-capitals (w ∷ ws) words)
          ∙ ap write_words (sym (split-joined w ws words)),
    )
