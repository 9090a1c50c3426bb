-- ===== src/Session/Cookie/Authentic.antt =====
-- session/protocol.go: what is known of a cookie that is read.
use tick_framework.Base.{
  ℕ, ◌-◌, ◌≡◌, refl, sym, ap, ◌∙◌, false, Bool-cases, List, [], ◌∷◌, ◌++◌, Option, none, some,
  Option-cases, Bytes, bytes_eq, bytes_eq_iff, split_n, split_n_three, length, take, ok, ℤ, inl,
  inr, arith,
}
use tick_framework.Session.Cookie.{
  Packages, signed_text, open_value, check_date, check_parts, decode_cookie, is_too_new, is_expired,
}
use tick_framework.Session.Cookie.Laws.{body, body-append, take_body}

module _ {V : Type 0} (p : Packages V) (hash_key name : Bytes) (lifetime now : ℕ) where
  -- A text with a date that holds now, a payload that opens to the value, and the signature of
  -- "name|date|payload|" under the key.
  pub record IsAuthentic (b : Bytes) (v : V) : Type 0 where
    pub date : Bytes
    pub payload : Bytes
    pub mac : Bytes
    pub t : ℤ
    pub parts : b ≡ body date payload ++ mac
    pub signed : mac ≡ p.hmac hash_key (signed_text name date payload)
    pub dated : p.parse_int date ≡ some t
    pub not_too_new : is_too_new t now ≡ false
    pub not_expired : is_expired t lifetime now ≡ false
    pub opened : open_value p payload ≡ ok v

  check_date_ok :
      (payload : Bytes) (o : Option ℤ) (v : V)
      → check_date p lifetime now payload o ≡ ok v
      → (t : ℤ) × (o ≡ some t)
        × (is_too_new t now ≡ false)
        × (is_expired t lifetime now ≡ false)
        × (open_value p payload ≡ ok v)
  unfolding check_date
  check_date_ok payload none v e = ground arith
  check_date_ok payload (some t) v e = elim (Bool-cases (is_too_new t now)) [
    | inl q ↦ let r = rw (q, check_date) at e in absurd (ground arith)
    | inr q ↦ elim (Bool-cases (is_expired t lifetime now)) [
      | inl x ↦ let r = rw (q, x, check_date) at e in absurd (ground arith)
      | inr x ↦ (t, refl, q, x, rw (q, x, check_date) at e)
    ]
  ]

  check_parts_ok :
      (b : Bytes) (parts : List Bytes) (v : V)
      → split_n b'|' 3 b ≡ parts
      → check_parts p hash_key name lifetime now b parts ≡ ok v
      → IsAuthentic b v
  unfolding check_parts
  check_parts_ok b [] v s e = absurd (ground arith)
  check_parts_ok b (date ∷ []) v s e = absurd (ground arith)
  check_parts_ok b (date ∷ payload ∷ []) v s e = absurd (ground arith)
  check_parts_ok b (date ∷ payload ∷ mac ∷ more ∷ rest) v s e = absurd (ground arith)
  check_parts_ok b (date ∷ payload ∷ mac ∷ []) v s e =
      let whole : b ≡ body date payload ++ mac =
        split_n_three b'|' b date payload mac s ∙ sym (body-append date payload mac) in
      let front : take (length b - length mac) b ≡ body date payload =
        rw whole (take_body (body date payload) mac) in
      elim (Bool-cases
        (bytes_eq (p.hmac hash_key (name ++ b'|' ∷ take (length b - length mac) b)) mac)) [
          | inr n ↦ let r = rw (n, check_parts) at e in absurd (ground arith)
          | inl q ↦
              let (t, dated, new, old, opened) =
                check_date_ok payload (p.parse_int date) v (rw (q, check_parts) at e) in
              record {
                date = date;
                payload = payload;
                mac = mac;
                t = t;
                parts = whole;
                signed =
                    sym (
                      (bytes_eq_iff
                          (p.hmac hash_key (name ++ b'|' ∷ take (length b - length mac) b)) mac).0
                        q)
                    ∙ ap (λ x. p.hmac hash_key (name ++ b'|' ∷ x)) front;
                dated = dated;
                not_too_new = new;
                not_expired = old;
                opened = opened;
              }
        ]

  -- A cookie that is read, under a key and a name, is base64 of a text with a date that is neither too
  -- new nor expired, a payload that opens to the value that is read, and the signature of
  -- "name|date|payload|" under the key.
  pub decode_cookie-IsAuthentic :
      (cookie : Bytes) (v : V)
      → decode_cookie p hash_key name cookie lifetime now ≡ ok v
      → (b : Bytes) × (p.decode cookie ≡ some b) × IsAuthentic b v
  unfolding decode_cookie
  decode_cookie-IsAuthentic cookie v e = elim (Option-cases (p.decode cookie)) [
    | inl q ↦ let r = rw (q, decode_cookie) at e in absurd (ground arith)
    | inr (b, q) ↦ (b, q, check_parts_ok b (split_n b'|' 3 b) v refl (rw (q, decode_cookie) at e))
  ]
