-- ===== src/Utility/Kvstore/Malformed.antt =====
-- utility/kvstore.go on bytes that no `MarshalBinary` wrote.
use tick_framework.Base.{
  ℕ, zero, suc, ◌+◌, ◌≤◌, ◌<◌, ◌≡◌, ◌↔◌, [], ◌∷◌, arith, Bytes, IsBytes, length, drop, panic, u32,
  uint16, uint32, uint32-lt, slice,
}
use tick_framework.Utility.Kvstore.{kvstore_magic_num, unmarshal_contents, unmarshal_binary}

IsBytes-drop : (n : ℕ) (r : Bytes) → IsBytes r → IsBytes (drop n r)
IsBytes-drop zero r h = h
IsBytes-drop (suc n) [] h = tt
IsBytes-drop (suc n) (x ∷ r) h = IsBytes-drop n r h.1

unmarshal_contents-panic_iff :
    (kl vl : ℕ) (data' : Bytes)
    → kl < 4294967296
    → vl < 4294967296
    → (unmarshal_contents kl vl data' ≡ panic)
      ↔ ((4294967296 ≤ 10 + kl + vl) × (u32 (10 + kl + vl) ≤ u32 (length data')))
unfolding unmarshal_contents slice
unmarshal_contents-panic_iff kl vl data' hk hv = ground arith

-- `UnmarshalBinary` panics exactly if a good header announces lengths whose sum overflows uint32
-- to a value within the data: then the length check passes and a slice is out of range.
pub unmarshal_binary-panic_iff :
    (data' : Bytes)
    → IsBytes data'
    → (unmarshal_binary data' ≡ panic) ↔ (
        (10 ≤ length data')
        × (uint16 data' ≡ kvstore_magic_num)
        × (4294967296 ≤ 10 + uint32 (drop 2 data') + uint32 (drop 6 data'))
        × (u32 (10 + uint32 (drop 2 data') + uint32 (drop 6 data')) ≤ u32 (length data')))
unfolding unmarshal_binary
unmarshal_binary-panic_iff data' h =
    let kl = uint32-lt (drop 2 data') (IsBytes-drop 2 data' h) in
    let vl = uint32-lt (drop 6 data') (IsBytes-drop 6 data' h) in
    ground (
      arith,
      unmarshal_contents-panic_iff (uint32 (drop 2 data')) (uint32 (drop 6 data')) data' kl vl,
    )
