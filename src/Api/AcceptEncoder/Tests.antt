-- ===== src/Api/AcceptEncoder/Tests.antt =====
-- Runs of the choice of an encoding, with weights in tenths.
use tick_framework.Base.{
  ℕ, Res, ◌≡◌, ◌⊎◌, ◌-◌, inr, refl, Bool, true, [], ◌∷◌, none, some, Bytes, codes, bytes_eq, split,
  ltb, ◌==◌, ok, pos, trim_space, trim_left, trim_right, lookup, arith, if◌then◌else◌,
}
use tick_framework.Api.AcceptEncoder.{
  Settings, default_settings, init_gzip, kept_level, accepts_method, gzip_encoder, encoder_name,
  Floats, Request, offer, offer_parts, better, choose, remove_q, parse_accepted, parse_encoding,
}
use tick_framework.Api.AcceptEncoder.Offers.{IsOrdered, first_plain, IsBest}
use tick_framework.Api.AcceptEncoder.Offers.Best.{parse_accepted_lem}
use tick_framework.Api.AcceptEncoder.Pools.{
  Pools, level_writer, no_writers, write_level, encoder_of, ArePooled,
}
use tick_framework.Api.AcceptEncoder.Pools.Levels.{write_level_lem}

-- "1" is 1.0, and "0.d" is d tenths; other texts count as 0.
abbrev tenths : Bytes → ℕ
tenths [] = 0
tenths (c ∷ []) = if c == b'1' then 10 else 0
tenths (c ∷ d ∷ []) = 0
tenths (c ∷ d ∷ e ∷ []) = e - 48
tenths (c ∷ d ∷ e ∷ f ∷ s) = 0

abbrev numbers : Floats ℕ
numbers = record {
  parse_float = tenths;
  zero_float = 0;
  is_zero = λ f. f == 0;
  greater = λ f g. ltb g f;
}

numbers-IsOrdered : IsOrdered numbers
numbers-IsOrdered = record {
  greater_irrefl = λ f. ground arith;
  greater_trans = λ f g h l m. ground arith;
}

abbrev asking : Request
asking = record {
  request_method = codes "GET";
  accept_encoding = codes "gzip;q=0.5, br, deflate;q=0.8";
}

program : Unit {0}
unfolding parse_accepted choose offer offer_parts better remove_q split lookup encoder_name
    trim_space trim_left trim_right bytes_eq
program = tt

asking-deflate : parse_accepted numbers asking ≡ codes "deflate"
unfolding program
asking-deflate = refl

parse_accepted_lem_example :
    (first_plain numbers (split b',' asking.accept_encoding) ≡ some (parse_accepted numbers asking))
    ⊎ ((first_plain numbers (split b',' asking.accept_encoding) ≡ none)
        × IsBest numbers
            (split b',' asking.accept_encoding)
            (record { name = []; value = 0 })
            (parse_accepted numbers asking))
parse_accepted_lem_example = parse_accepted_lem numbers numbers-IsOrdered asking (λ h. absurd cc)

abbrev settings : Settings
settings = init_gzip (pos 20) (pos 4) (codes "get" ∷ codes "Post" ∷ []) default_settings

-- the best compression is in use once, with a gzip writer in its pool
abbrev pools : Pools
pools = record {
  gzip = record { custom = []; best = level_writer gzip_encoder 9 ∷ [] };
  deflate = no_writers;
}

abbrev run : Res Bytes (Bool × Bytes × Bytes) × Pools
run = write_level (λ e l b. l ∷ b) (some 3) settings 0 (codes "*") 9 (ok (codes "text")) pools

write_level_lem_example :
    (run.0 ≡ ok (true, codes "gzip", 9 ∷ codes "te")) × ArePooled settings run.1
unfolding program encoder_of init_gzip kept_level
write_level_lem_example =
    write_level_lem (λ e l b. l ∷ b) (some 3) settings 0 9 pools (codes "*") (ok (codes "text"))
      (inr refl) ((tt, (refl, tt)), (tt, tt))

not_accepted : parse_encoding numbers default_settings (some asking) ≡ []
unfolding program parse_encoding accepts_method
not_accepted = refl
