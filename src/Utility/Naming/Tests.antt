-- ===== src/Utility/Naming/Tests.antt =====
-- Runs on names.
use tick_framework.Base.{◌≡◌, refl, [], ◌∷◌, codes}
use tick_framework.Utility.Array.{to_lower}
use tick_framework.Utility.Naming.{
  snake_string, snake_loop, camel_string, camel_loop, snake_to_upper_camel,
}
use tick_framework.Utility.Naming.Words.{snake_string-camel_string}

snake_string-camel_string_example :
    (snake_string (camel_string (codes "max_idle")) ≡ codes "max_idle")
    × (camel_string (codes "max_idle") ≡ snake_to_upper_camel (codes "max_idle"))
snake_string-camel_string_example =
    snake_string-camel_string (codes "max") (codes "idle" ∷ [])
      ((refl, (refl, (refl, tt))), ((refl, (refl, (refl, (refl, tt)))), tt))

-- the second of two capitals begins no word
capitals_together : snake_string (codes "IDName") ≡ codes "idname"
unfolding snake_string snake_loop to_lower
capitals_together = refl

-- an underscore that no small letter follows stays
digit_word : camel_string (codes "xx_1y") ≡ codes "Xx_1y"
unfolding camel_string camel_loop
digit_word = refl
