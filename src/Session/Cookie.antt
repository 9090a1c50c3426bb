-- ===== src/Session/Cookie.antt =====
-- session/protocol.go: cookies that are encrypted, dated and signed.
pub mod Laws
pub mod Authentic
mod Tests
use tick_framework.Base.{
  ℕ, suc, ◌+◌, ◌-◌, ◌≡◌, Bool, true, false, List, [], ◌∷◌, ◌++◌, Option, none, some, Bytes,
  bytes_eq, split_n, length, take, drop, ltb, if◌then◌else◌, Res, ok, fail, panic, ◌>>=◌, ℤ, pos,
  negsuc,
}

-- Why a cookie is not made or not read.
pub data CookieError : Type 0 where
  gob_failed no_random_iv not_decrypted bad_base64 : CookieError
  invalid_value not_valid invalid_timestamp too_new expired : CookieError

-- What the code calls of Go's packages: gob, the block cipher in counter mode for a key, base64, HMAC
-- with SHA-1, and decimal numbers.
pub record Packages (V : Type 0) : Type 0 where
  pub encode_gob : V → Option Bytes
  pub decode_gob : Bytes → Option V
  pub block_size : ℕ
  pub xor_key_stream : Bytes → Bytes → Bytes
  pub encode : Bytes → Bytes
  pub decode : Bytes → Option Bytes
  pub hmac : Bytes → Bytes → Bytes
  pub format_int : ℕ → Bytes
  pub parse_int : Bytes → Option ℤ

abbrev pub or_fail : {A : Type 0} → CookieError → Option A → Res CookieError A
or_fail x none = fail x
or_fail x (some a) = ok a

-- `t1 > t2`, and `t1 < t2 - gcmaxlifetime`
abbrev pub is_too_new : ℤ → ℕ → Bool
is_too_new (pos t) now = ltb now t
is_too_new (negsuc t) now = false

abbrev pub is_expired : ℤ → ℕ → ℕ → Bool
is_expired (pos t) lifetime now = ltb (t + lifetime) now
is_expired (negsuc t) lifetime now = ltb lifetime (now + suc t)

-- "name|date|value|", which the signature is of.
abbrev pub signed_text : Bytes → Bytes → Bytes → Bytes
signed_text name date value = name ++ b'|' ∷ (date ++ b'|' ∷ (value ++ b'|' ∷ []))

module _ {V : Type 0} (p : Packages V) where
  -- The vector is random, and missing where no random bytes can be had.
  unfoldable pub encrypt : Option Bytes → Bytes → Res CookieError Bytes
  encrypt none value = fail no_random_iv
  encrypt (some iv) value = ok (iv ++ p.xor_key_stream iv value)

  unfoldable pub decrypt : Bytes → Res CookieError Bytes
  decrypt value =
      if ltb p.block_size (length value)
      then ok (p.xor_key_stream (take p.block_size value) (drop p.block_size value))
      else fail not_decrypted

  -- The last steps of `encodeCookie`
  abbrev pub sign : Bytes → Bytes → Bytes → Bytes
  sign hash_key name text = p.encode (drop (length name + 1) (text ++ p.hmac hash_key text))

  -- `encodeCookie`, at a time
  unfoldable pub encode_cookie : Bytes → Option Bytes → ℕ → Bytes → V → Res CookieError Bytes
  encode_cookie hash_key iv now name value = do
    b ← or_fail gob_failed (p.encode_gob value)
    c ← encrypt iv b
    ok (sign hash_key name (signed_text name (p.format_int now) (p.encode c)))

  -- Steps 4 and 5 of `decodeCookie`
  unfoldable pub open_value : Bytes → Res CookieError V
  open_value value = do
    c ← or_fail bad_base64 (p.decode value)
    b ← decrypt c
    or_fail gob_failed (p.decode_gob b)

  -- Step 3
  unfoldable pub check_date : ℕ → ℕ → Bytes → Option ℤ → Res CookieError V
  check_date lifetime now value none = fail invalid_timestamp
  check_date lifetime now value (some t) =
      if is_too_new t now
      then fail too_new
      else if is_expired t lifetime now
      then fail expired
      else open_value value

  -- Step 2, on the value and its parts
  unfoldable pub check_parts : Bytes → Bytes → ℕ → ℕ → Bytes → List Bytes → Res CookieError V
  check_parts hash_key name lifetime now b (date ∷ value ∷ mac ∷ []) =
      if bytes_eq (p.hmac hash_key (name ++ b'|' ∷ take (length b - length mac) b)) mac
      then check_date lifetime now value (p.parse_int date)
      else fail not_valid
  check_parts hash_key name lifetime now b _ = fail invalid_value

  -- `decodeCookie`, at a time
  unfoldable pub decode_cookie : Bytes → Bytes → Bytes → ℕ → ℕ → Res CookieError V
  decode_cookie hash_key name value lifetime now = do
    b ← or_fail bad_base64 (p.decode value)
    check_parts hash_key name lifetime now b (split_n b'|' 3 b)
