-- ===== src/Utility/Kvstore/Tests.antt =====
-- Runs of utility/kvstore.go.
use tick_framework.Base.{
  ◌+◌, ◌≤◌, ◌≡◌, ◌↔◌, refl, false, [], ◌∷◌, ◌++◌, arith, Bytes, codes, length, drop, ok, fail,
  panic, u32, uint16, uint32,
}
use tick_framework.Utility.Kvstore.{
  kvstore_magic_num, invalid_length, new_kvstore_data, get, set, unmarshal_binary, eof,
}
use tick_framework.Utility.Kvstore.RoundTrip.{encode, get-set}
use tick_framework.Utility.Kvstore.Malformed.{unmarshal_binary-panic_iff}

abbrev earlier : Bytes
earlier = encode (codes "a") (codes "1")

abbrev later : Bytes
later = codes "tail"

-- a header that announces a key of 2^32 - 10 bytes
abbrev overflowing : Bytes
overflowing = 249 ∷ 110 ∷ 255 ∷ 255 ∷ 255 ∷ 246 ∷ 0 ∷ 0 ∷ 0 ∷ 0 ∷ []

unmarshal_overflowing : unmarshal_binary overflowing ≡ panic
unfolding unmarshal_binary tick_framework.Utility.Kvstore.unmarshal_contents
    tick_framework.Base.slice
unmarshal_overflowing = refl

unmarshal_short : unmarshal_binary (codes "short") ≡ fail invalid_length
unfolding unmarshal_binary
unmarshal_short = refl

get_at_end : get earlier 12 ≡ fail eof
unfolding get tick_framework.Utility.Kvstore.get_data
get_at_end = refl

get-set_example :
    get ((earlier ++ encode (codes "key") (codes "value")) ++ later) (length earlier)
    ≡ ok (new_kvstore_data (codes "key") (codes "value"))
unfolding set tick_framework.Utility.Kvstore.marshal_binary
get-set_example =
    get-set earlier (codes "key") (codes "value") later (omega arith) (omega arith) refl

unmarshal_binary-panic_iff_example : (unmarshal_binary overflowing ≡ panic) ↔ (
    (10 ≤ length overflowing)
    × (uint16 overflowing ≡ kvstore_magic_num)
    × (4294967296 ≤ 10 + uint32 (drop 2 overflowing) + uint32 (drop 6 overflowing))
    × (u32 (10 + uint32 (drop 2 overflowing) + uint32 (drop 6 overflowing))
        ≤ u32 (length overflowing)))
unmarshal_binary-panic_iff_example = unmarshal_binary-panic_iff overflowing (omega arith)
