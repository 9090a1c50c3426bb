-- ===== src/Api/AcceptEncoder/Methods.antt =====
-- api/acceptencoder/acceptencoder.go: the methods whose answers are encoded.
use tick_framework.Base.{
  ◌≡◌, inl, inr, refl, ◌∙◌, ap, Bool, true, false, List, [], ◌∷◌, Bytes, GoMap, codes, lookup,
  assign, lookup-assign, bytes_eq, bytes_eq_iff, ℤ, to_upper, Bool-cases, arith, ◌||◌,
}
use tick_framework.Api.AcceptEncoder.{
  Settings, init_gzip, include_methods, only_get, accepts_method, found,
}

-- The method is one of the list in capitals.
abbrev pub is_among : Bytes → List Bytes → Bool
is_among method [] = false
is_among method (m ∷ methods) = bytes_eq (to_upper m) method || is_among method methods

-- Answers to the method are encoded: to GET where the list is empty.
abbrev pub is_answered : Bytes → List Bytes → Bool
is_answered method [] = bytes_eq method (codes "GET")
is_answered method (m ∷ methods) = is_among method (m ∷ methods)

or_false : (b : Bool) → (b || false) ≡ b
or_false b = ground arith

or_true : (b : Bool) → (b || true) ≡ true
or_true b = ground arith

found-include_methods :
    (method : Bytes) (methods : List Bytes) (included : GoMap Bool)
    → found (lookup method (include_methods methods included))
      ≡ (is_among method methods || found (lookup method included))
unfolding include_methods
found-include_methods method [] included = refl
found-include_methods method (m ∷ methods) included =
    let h = found-include_methods method methods (assign (to_upper m) true included) in
    let e = ap found (lookup-assign (to_upper m) method true included) in
    elim (Bool-cases (bytes_eq (to_upper m) method)) [
      | inl k ↦ h ∙ rw (e, k, or_true (is_among method methods))
      | inr k ↦ h ∙ rw (e, k)
    ]

-- After InitGzip with no methods only answers to GET are encoded, and otherwise the answers to the
-- methods of the list, in capitals.
pub accepts_method-init_gzip :
    (min_length compress_level : ℤ) (methods : List Bytes) (settings : Settings) (method : Bytes)
    → accepts_method (init_gzip min_length compress_level methods settings) method
      ≡ is_answered method methods
unfolding accepts_method init_gzip only_get include_methods lookup
accepts_method-init_gzip min_length compress_level [] settings method =
    or_false (bytes_eq method (codes "GET"))
accepts_method-init_gzip min_length compress_level (m ∷ []) settings method =
    let h = found-include_methods method (m ∷ []) [] in
    let upper = bytes_eq_iff (to_upper m) (codes "GET") in
    let same = bytes_eq_iff method (codes "GET") in
    let whole = bytes_eq_iff (to_upper m) method in grind arith
accepts_method-init_gzip min_length compress_level (m ∷ n ∷ methods) settings method =
    found-include_methods method (m ∷ n ∷ methods) [] ∙ grind arith
