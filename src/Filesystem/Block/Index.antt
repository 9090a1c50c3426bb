-- ===== src/Filesystem/Block/Index.antt =====
-- filesystem/block/index.go: where the content of a key is stored, and its binary form.
pub mod Codec
use tick_framework.Base.{
  ℕ, ◌+◌, [], ◌++◌, Bool, ◌&&◌, Bytes, bytes_eq, length, drop, ltb, ◌==◌, if◌then◌else◌, Res, ok,
  fail, panic, u32, uint32, uint64, put_uint32, put_uint64, slice, copy_into,
}

-- `length` is uint32, `offset` uint64.
pub record Index : Type 0 where
  pub filename_length : ℕ
  pub filename_content : Bytes
  pub offset : ℕ
  pub content_length : ℕ

unfoldable pub same : Index → Index → Bool
same idx other =
    idx.filename_length == other.filename_length
    && (idx.offset == other.offset
        && (idx.content_length == other.content_length
            && bytes_eq idx.filename_content other.filename_content))

abbrev pub new_index : Bytes → ℕ → ℕ → Index
new_index filename offset content_length = record {
  filename_length = u32 (length filename);
  filename_content = filename;
  offset = offset;
  content_length = content_length;
}

-- An empty file name says that the key is deleted.
abbrev pub new_del_index : Index
new_del_index = new_index [] 0 0

abbrev pub is_del : Index → Bool
is_del idx = idx.filename_length == 0

-- `&Index{}`
abbrev pub zero_index : Index
zero_index = record { filename_length = 0; filename_content = []; offset = 0; content_length = 0 }

abbrev pub filename : Index → Bytes
filename idx = idx.filename_content

unfoldable pub marshal_binary : Index → Bytes
marshal_binary idx =
    put_uint32 idx.filename_length
    ++ (idx.filename_content ++ (put_uint64 idx.offset ++ put_uint32 idx.content_length))

-- `UnmarshalBinary` writes into its receiver, also where it then returns `errIndexInvalidLength`.
pub data Decoded : Type 0 where
  decoded refused : Index → Decoded
  crashed : Decoded

infixl 5 ◌>>=◌
abbrev ◌>>=◌ : Res (Unit {0}) Bytes → (Bytes → Decoded) → Decoded
ok a >>= f = f a
fail e >>= f = crashed
panic >>= f = crashed

-- The part behind the length check; sums are in uint32.
unfoldable pub unmarshal_fields : ℕ → Bytes → Decoded
unmarshal_fields fl data' = do
  name ← slice data' 4 (u32 (4 + fl))
  offset ← slice data' (u32 (4 + fl)) (u32 (12 + fl))
  content_length ← slice data' (u32 (12 + fl)) (u32 (16 + fl))
  decoded (record {
    filename_length = fl;
    filename_content = copy_into fl name;
    offset = uint64 offset;
    content_length = uint32 content_length;
  })

unfoldable pub unmarshal_binary : Index → Bytes → Decoded
unmarshal_binary idx data' =
    let fl = uint32 data' in
    if ltb (length data') 4
    then refused idx
    else if ltb (u32 (length data')) (u32 (4 + fl + 8 + 4))
    then refused (record idx { filename_length = fl })
    else unmarshal_fields fl data'
