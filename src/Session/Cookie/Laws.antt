-- ===== src/Session/Cookie/Laws.antt =====
-- session/protocol.go: a cookie is read back, and one that is read has been signed.
use tick_framework.Base.{
  ℕ, suc, ◌+◌, ◌-◌, ◌≤◌, ◌<◌, ◌≡◌, refl, sym, ap, ◌∙◌, true, false, [], ◌∷◌, ◌++◌, append_assoc,
  some, Option-cases, Bytes, bytes_eq_refl, split_n, split_n-step, cut-append, Lacks, length,
  length-append, take, drop, take-append, drop-append, ltb, Res, ok, fail, pos, inl, inr, arith,
}
use tick_framework.Session.Cookie.{
  CookieError, Packages, encrypt, decrypt, signed_text, encode_cookie, open_value, check_date,
  check_parts, decode_cookie, gob_failed, sign,
}

-- What the packages document: each reader reads what its writer wrote; gob writes something; a stream
-- cipher keeps the length and is its own inverse; base64 and decimal numbers have no bar. The code
-- calls the numbers' functions for an int64 only; the laws are of any extension of them.
pub record IsLawful {V : Type 0} (p : Packages V) : Type 0 where
  pub gob_reads : (v : V) (b : Bytes) → p.encode_gob v ≡ some b → p.decode_gob b ≡ some v
  pub gob_writes : (v : V) (b : Bytes) → p.encode_gob v ≡ some b → 0 < length b
  pub stream_length : (iv b : Bytes) → length (p.xor_key_stream iv b) ≡ length b
  pub stream_inverse : (iv b : Bytes) → p.xor_key_stream iv (p.xor_key_stream iv b) ≡ b
  pub base64_reads : (b : Bytes) → p.decode (p.encode b) ≡ some b
  pub base64_text : (b : Bytes) → Lacks b'|' (p.encode b)
  pub int_reads : (n : ℕ) → p.parse_int (p.format_int n) ≡ some (pos n)
  pub int_text : (n : ℕ) → Lacks b'|' (p.format_int n)

-- What is signed, behind the name.
abbrev pub body : Bytes → Bytes → Bytes
body date value = date ++ b'|' ∷ (value ++ b'|' ∷ [])

pub body-append :
    (date value mac : Bytes) → body date value ++ mac ≡ date ++ b'|' ∷ (value ++ b'|' ∷ mac)
body-append date value mac =
    append_assoc date (b'|' ∷ (value ++ b'|' ∷ [])) mac
    ∙ ap (λ s. date ++ b'|' ∷ s) (append_assoc value (b'|' ∷ []) mac)

drop_name : (name s : Bytes) → drop (length name + 1) (name ++ b'|' ∷ s) ≡ s
drop_name [] s = refl
drop_name (c ∷ name) s =
    let step : length (c ∷ name) + 1 ≡ suc (length name + 1) = omega arith in
    rw step (drop_name name s)

pub take_body : (r mac : Bytes) → take (length (r ++ mac) - length mac) (r ++ mac) ≡ r
take_body r mac =
    let n = length-append r mac in take-append r mac (length (r ++ mac) - length mac) (omega arith)

ok_injective : {A : Type 0} {a b : A} → ◌≡◌ {A = Res CookieError A} (ok a) (ok b) → a ≡ b
ok_injective e = ground arith

module _ {V : Type 0} (p : Packages V) (l : IsLawful p) where
  decrypt-encrypt :
      (iv b : Bytes)
      → length iv ≡ p.block_size
      → 0 < length b
      → decrypt p (iv ++ p.xor_key_stream iv b) ≡ ok b
  unfolding decrypt
  decrypt-encrypt iv b size some_byte =
      let n = length-append iv (p.xor_key_stream iv b) in
      let k = l.stream_length iv b in
      let longer : ltb p.block_size (length (iv ++ p.xor_key_stream iv b)) ≡ true = ground arith in
      let front = take-append iv (p.xor_key_stream iv b) p.block_size (sym size) in
      let back = drop-append iv (p.xor_key_stream iv b) p.block_size (sym size) in
      rw (longer, front, back) (ap ok (l.stream_inverse iv b))

  open_value-encrypt :
      (iv b : Bytes) (v : V)
      → length iv ≡ p.block_size
      → p.encode_gob v ≡ some b
      → open_value p (p.encode (iv ++ p.xor_key_stream iv b)) ≡ ok v
  unfolding open_value
  open_value-encrypt iv b v size e =
      rw
        (
          l.base64_reads (iv ++ p.xor_key_stream iv b),
          decrypt-encrypt iv b size (l.gob_writes v b e),
          l.gob_reads v b e,
        )
        refl

  split_parts :
      (date value mac : Bytes)
      → Lacks b'|' date
      → Lacks b'|' value
      → split_n b'|' 3 (body date value ++ mac) ≡ date ∷ value ∷ mac ∷ []
  unfolding split_n
  split_parts date value mac nd nv =
      ap (split_n b'|' 3) (body-append date value mac)
      ∙ split_n-step b'|' 1 date (value ++ b'|' ∷ mac) (date ++ b'|' ∷ (value ++ b'|' ∷ mac))
          (cut-append b'|' date (value ++ b'|' ∷ mac) refl nd)
      ∙ ap (λ parts. date ∷ parts)
          (split_n-step b'|' 0 value mac (value ++ b'|' ∷ mac) (cut-append b'|' value mac refl nv))

  check_date_passes :
      (lifetime now then_ : ℕ) (value : Bytes)
      → then_ ≤ now
      → now ≤ then_ + lifetime
      → check_date p lifetime now value (some (pos then_)) ≡ open_value p value
  unfolding check_date
  check_date_passes lifetime now then_ value past young =
      let a : ltb now then_ ≡ false = ground arith in
      let b : ltb (then_ + lifetime) now ≡ false = ground arith in rw (a, b, check_date) refl

  check_parts_passes :
      (hash_key name date value : Bytes) (lifetime now then_ : ℕ)
      → p.parse_int date ≡ some (pos then_)
      → then_ ≤ now
      → now ≤ then_ + lifetime
      → check_parts p hash_key name lifetime now
          (body date value ++ p.hmac hash_key (signed_text name date value))
          (date ∷ value ∷ p.hmac hash_key (signed_text name date value) ∷ [])
        ≡ open_value p value
  unfolding check_parts
  check_parts_passes hash_key name date value lifetime now then_ e past young =
      let mac = p.hmac hash_key (signed_text name date value) in
      rw (take_body (body date value) mac, bytes_eq_refl mac, e, check_parts)
        (check_date_passes lifetime now then_ value past young)

  decode_cookie-sign :
      (hash_key name date value : Bytes) (lifetime now then_ : ℕ)
      → Lacks b'|' date
      → Lacks b'|' value
      → p.parse_int date ≡ some (pos then_)
      → then_ ≤ now
      → now ≤ then_ + lifetime
      → decode_cookie p hash_key name
          (sign p hash_key name (signed_text name date value))
          lifetime
          now
        ≡ open_value p value
  unfolding decode_cookie
  decode_cookie-sign hash_key name date value lifetime now then_ nd nv e past young =
      let text = signed_text name date value in
      let mac = p.hmac hash_key text in
      let cookie : drop (length name + 1) (text ++ mac) ≡ body date value ++ mac =
        ap (drop (length name + 1)) (append_assoc name (b'|' ∷ body date value) mac)
        ∙ drop_name name (body date value ++ mac) in
      rw
        (
          l.base64_reads (drop (length name + 1) (text ++ mac)),
          cookie,
          split_parts date value mac nd nv,
        )
        (check_parts_passes hash_key name date value lifetime now then_ e past young)

  -- With lawful packages and a vector of the block size: a cookie that is made of a value at a time
  -- is read as that value, under the same key and name, at every later time within the lifetime.
  pub decode_cookie-encode_cookie :
      (hash_key iv name cookie : Bytes) (value : V) (lifetime now then_ : ℕ)
      → length iv ≡ p.block_size
      → then_ ≤ now
      → now ≤ then_ + lifetime
      → encode_cookie p hash_key (some iv) then_ name value ≡ ok cookie
      → decode_cookie p hash_key name cookie lifetime now ≡ ok value
  unfolding encode_cookie encrypt
  decode_cookie-encode_cookie hash_key iv name cookie value lifetime now then_ size past young
        made =
      elim (Option-cases (p.encode_gob value)) [
        | inl e ↦
            let wrong : encode_cookie p hash_key (some iv) then_ name value ≡ fail gob_failed =
              rw (e, encode_cookie) refl in
            let apart : fail gob_failed ≡ ok cookie = sym wrong ∙ made in absurd (ground arith)
        | inr (b, e) ↦
            let date = p.format_int then_ in
            let sealed = p.encode (iv ++ p.xor_key_stream iv b) in
            let same : cookie ≡ sign p hash_key name (signed_text name date sealed) =
              ok_injective (sym made ∙ rw (e, encode_cookie) refl) in
            rw same (
              decode_cookie-sign hash_key name date sealed lifetime now then_ (l.int_text then_)
                (l.base64_text (iv ++ p.xor_key_stream iv b)) (l.int_reads then_) past young
              ∙ open_value-encrypt iv b value size e)
      ]
