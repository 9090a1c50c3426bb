-- ===== src/Session/Cookie/Tests.antt =====
-- Runs of the cookies, with simple packages.
use tick_framework.Base.{
  ℕ, suc, zero, ◌+◌, ◌-◌, ◌<◌, ◌≤◌, ◌≡◌, refl, sym, ap, ◌∙◌, Bool, true, false, List, [], ◌∷◌, map,
  Option, none, some, Bytes, codes, length, replicate, Lacks, ltb, if◌then◌else◌, Res, ok, fail,
  pos, arith, ◌==◌,
}
use tick_framework.Session.Cookie.{Packages, encode_cookie, decode_cookie, expired}
use tick_framework.Session.Cookie.Laws.{IsLawful, decode_cookie-encode_cookie}
use tick_framework.Session.Cookie.Authentic.{IsAuthentic, decode_cookie-IsAuthentic}

abbrev flip : ℕ → ℕ
flip zero = 1
flip (suc zero) = 0
flip (suc (suc n)) = suc (suc n)

-- numbers but the bar
abbrev shift : ℕ → ℕ
shift c = if ltb c b'|' then c else c + 1

abbrev unshift : ℕ → ℕ
unshift c = if ltb c b'|' then c else c - 1

abbrev tail : Bytes → Option Bytes
tail [] = none
tail (c ∷ v) = some v

abbrev or_zero : Option Bytes → ℕ
or_zero none = 0
or_zero (some b) = length b

-- a value is written behind a byte, a number as so many zeros
abbrev simple : Packages Bytes
simple = record {
  encode_gob = λ v. some (7 ∷ v);
  decode_gob = tail;
  block_size = 2;
  xor_key_stream = λ iv b. map flip b;
  encode = map shift;
  decode = λ b. some (map unshift b);
  hmac = λ key b. length b ∷ key;
  format_int = λ n. replicate n 0;
  parse_int = λ b. some (pos (length b));
}

flip_twice : (b : Bytes) → map flip (map flip b) ≡ b
flip_twice [] = refl
flip_twice (zero ∷ b) = ap (λ s. 0 ∷ s) (flip_twice b)
flip_twice (suc zero ∷ b) = ap (λ s. 1 ∷ s) (flip_twice b)
flip_twice (suc (suc n) ∷ b) = ap (λ s. suc (suc n) ∷ s) (flip_twice b)

length-flip : (b : Bytes) → length (map flip b) ≡ length b
length-flip [] = refl
length-flip (c ∷ b) = ap suc (length-flip b)

unshift-shift : (c : ℕ) → unshift (shift c) ≡ c
unshift-shift c = ground arith

shift_back : (b : Bytes) → map unshift (map shift b) ≡ b
shift_back [] = refl
shift_back (c ∷ b) = rw (unshift-shift c, shift_back b) refl

shift_text : (b : Bytes) → Lacks b'|' (map shift b)
shift_text [] = tt
shift_text (c ∷ b) = (ground arith, shift_text b)

length-replicate : (n : ℕ) → length {A = ℕ} (replicate n 0) ≡ n
length-replicate zero = refl
length-replicate (suc n) = ap suc (length-replicate n)

zeros_text : (n : ℕ) → Lacks b'|' (replicate n 0)
zeros_text zero = tt
zeros_text (suc n) = (refl, zeros_text n)

simple-IsLawful : IsLawful simple
simple-IsLawful = record {
  gob_reads = λ v b e. ap (λ o. elim o [ none ↦ none | some x ↦ tail x ]) (sym e);
  gob_writes = λ v b e. let n : length b ≡ suc (length v) = ap or_zero (sym e) in omega arith;
  stream_length = λ iv b. length-flip b;
  stream_inverse = λ iv b. flip_twice b;
  base64_reads = λ b. ap some (shift_back b);
  base64_text = shift_text;
  int_reads = λ n. ap (λ m. some (pos m)) (length-replicate n);
  int_text = zeros_text;
}

-- the cookie of a value at the time 3
abbrev cookie : Bytes
cookie = elim (encode_cookie simple (codes "k") (some (1 ∷ 2 ∷ [])) 3 (codes "sid") (codes "v")) [
  | ok b ↦ b
  | _ ↦ []
]

decode_cookie-encode_cookie_example :
    decode_cookie simple (codes "k") (codes "sid") cookie 10 8 ≡ ok (codes "v")
unfolding encode_cookie tick_framework.Session.Cookie.encrypt
decode_cookie-encode_cookie_example =
    decode_cookie-encode_cookie simple simple-IsLawful (codes "k") (1 ∷ 2 ∷ []) (codes "sid") cookie
      (codes "v") 10 8 3 refl (omega arith) (omega arith) refl

-- at the time 14 it is too old
cookie_expires : decode_cookie simple (codes "k") (codes "sid") cookie 10 14 ≡ fail expired
unfolding encode_cookie decode_cookie tick_framework.Session.Cookie.encrypt
    tick_framework.Session.Cookie.check_parts tick_framework.Session.Cookie.check_date
    tick_framework.Base.split_n tick_framework.Base.cut tick_framework.Base.bytes_eq
cookie_expires = refl

cookie_is_read : decode_cookie simple (codes "k") (codes "sid") cookie 10 8 ≡ ok (codes "v")
unfolding encode_cookie decode_cookie tick_framework.Session.Cookie.encrypt
    tick_framework.Session.Cookie.decrypt tick_framework.Session.Cookie.open_value
    tick_framework.Session.Cookie.check_parts tick_framework.Session.Cookie.check_date
    tick_framework.Base.split_n tick_framework.Base.cut tick_framework.Base.bytes_eq
cookie_is_read = refl

decode_cookie-IsAuthentic_example :
    (b : Bytes) × (simple.decode cookie ≡ some b)
    × IsAuthentic simple (codes "k") (codes "sid") 10 8 b (codes "v")
decode_cookie-IsAuthentic_example =
    decode_cookie-IsAuthentic simple (codes "k") (codes "sid") 10 8 cookie (codes "v")
      cookie_is_read
