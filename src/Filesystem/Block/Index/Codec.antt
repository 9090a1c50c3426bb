-- ===== src/Filesystem/Block/Index/Codec.antt =====
-- Encoding and decoding an index entry (filesystem/block/index.go).
use tick_framework.Base.{
  ℕ, suc, ◌+◌, ◌≤◌, ◌<◌, ◌≡◌, ◌↔◌, refl, ◌∙◌, true, [], ◌++◌, arith, Bytes, length, take, drop,
  length-append, take-append, drop-append, le→ltb, bytes_eq_iff, u32, uint32, uint64, put_uint32,
  put_uint64, uint32-put, uint64-put, u32_small, slice_lem, drop_past, copy_into-take,
}
use tick_framework.Filesystem.Block.Index.{
  Index, same, marshal_binary, unmarshal_fields, unmarshal_binary, decoded,
}

-- `Same` is equality.
pub same_iff : (a b : Index) → (same a b ≡ true) ↔ (a ≡ b)
unfolding same
same_iff a b = ground (arith, bytes_eq_iff a.filename_content b.filename_content)

-- The ranges of the fields, and the file name's length that the header states.
pub record IsWellSized (idx : Index) : Type 0 where
  pub stated : idx.filename_length ≡ length idx.filename_content
  pub small_name : 16 + length idx.filename_content < 4294967296
  pub small_offset : idx.offset < 18446744073709551616
  pub small_length : idx.content_length < 4294967296

pub length-marshal_binary :
    (idx : Index) → length (marshal_binary idx) ≡ 16 + length idx.filename_content
unfolding marshal_binary
length-marshal_binary idx = omega (
  arith,
  length-append idx.filename_content (put_uint64 idx.offset ++ put_uint32 idx.content_length),
)

-- The fields that stand behind a name in the data.
unmarshal_fields_lem :
    (fl : ℕ) (data' : Bytes)
    → 16 + fl ≤ length data'
    → length data' < 4294967296
    → unmarshal_fields fl data'
      ≡ decoded (record {
        filename_length = fl;
        filename_content = take fl (drop 4 data');
        offset = uint64 (take 8 (drop (4 + fl) data'));
        content_length = uint32 (take 4 (drop (12 + fl) data'));
      })
unfolding unmarshal_fields
unmarshal_fields_lem fl data' h small = rw (
  u32_small (4 + fl) (omega arith),
  u32_small (12 + fl) (omega arith),
  u32_small (16 + fl) (omega arith),
  slice_lem data' 4 fl (4 + fl) refl (omega arith),
  slice_lem data' (4 + fl) 8 (12 + fl) (omega arith) (omega arith),
  slice_lem data' (12 + fl) 4 (16 + fl) (omega arith) (omega arith),
  copy_into-take data' 4 fl (omega arith),
)

unmarshal_fields-marshal_binary :
    (idx : Index)
    → IsWellSized idx
    → unmarshal_fields (length idx.filename_content) (marshal_binary idx) ≡ decoded idx
unfolding marshal_binary
unmarshal_fields-marshal_binary idx h =
    let name = idx.filename_content in
    let fields = put_uint64 idx.offset ++ put_uint32 idx.content_length in
    let n = length name in
    let whole = length-marshal_binary idx in
    let four_on : 4 + n ≡ suc (suc (suc (suc n))) = omega arith in
    let twelve_on : 12 + n ≡ suc (suc (suc (suc (n + 8)))) = omega arith in
    let off = uint64-put idx.offset [] h.small_offset in
    let len = uint32-put idx.content_length [] h.small_length in
    rw (
      unmarshal_fields_lem n (marshal_binary idx) (omega arith) (omega arith),
      four_on,
      twelve_on,
      take-append name fields n refl,
      drop-append name fields n refl,
      drop_past name fields 8,
      off,
      len,
      ← h.stated,
    )

-- `UnmarshalBinary` gives back what `MarshalBinary` wrote, whatever the receiver held.
pub unmarshal_binary-marshal_binary :
    (idx old : Index) → IsWellSized idx → unmarshal_binary old (marshal_binary idx) ≡ decoded idx
unfolding unmarshal_binary
unmarshal_binary-marshal_binary idx old h =
    let whole = length-marshal_binary idx in
    let fl : uint32 (marshal_binary idx) ≡ length idx.filename_content =
      unfold marshal_binary in uint32-put idx.filename_length [] (omega arith) ∙ h.stated in
    rw (
      fl,
      le→ltb (length (marshal_binary idx)) 4 (omega arith),
      le→ltb (u32 (length (marshal_binary idx))) (u32 (4 + length idx.filename_content + 8 + 4))
          (omega arith),
      unmarshal_fields-marshal_binary idx h,
    )
