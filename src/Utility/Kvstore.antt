-- ===== src/Utility/Kvstore.antt =====
-- utility/kvstore.go: the record format, and reading and writing records of a file.
pub mod RoundTrip
pub mod Malformed
mod Tests
use tick_framework.Base.{
  ℕ, zero, suc, ◌+◌, ◌-◌, ◌%◌, ◌<◌, ◌≡◌, refl, Bool, not, List, [], ◌∷◌, ◌++◌, Option, none, some,
  Bytes, length, take, drop, replicate, ltb, leb, ◌==◌, if◌then◌else◌, Res, ok, fail, panic, ◌>>=◌,
  u32, uint16, uint32, put_uint16, put_uint32, slice, copy_into,
}

-- The sentinel errors of utility/kvstore.go and of the block store above it, `io.EOF`, and those of
-- the file system: a seek to a negative offset, a refused write, a file that is not there.
pub data Error : Type 0 where
  illegal_magic_number invalid_length eof invalid_argument io_error key_not_exist read_size
        no_such_file :
      Error

-- `KVSTORE_MAGIC_NUM`, 0xF96E
abbrev pub kvstore_magic_num : ℕ
kvstore_magic_num = 63854

pub record KvstoreData : Type 0 where
  pub magic_number : ℕ
  pub key_length : ℕ
  pub value_length : ℕ
  pub key_content : Bytes
  pub value_content : Bytes

abbrev pub new_kvstore_data : Bytes → Bytes → KvstoreData
new_kvstore_data key value = record {
  magic_number = kvstore_magic_num;
  key_length = u32 (length key);
  value_length = u32 (length value);
  key_content = key;
  value_content = value;
}

-- `Size`, in uint32
abbrev pub size : KvstoreData → ℕ
size d = u32 (10 + d.key_length + d.value_length)

unfoldable pub marshal_binary : KvstoreData → Res Error Bytes
marshal_binary d =
    if not (d.magic_number == kvstore_magic_num)
    then fail illegal_magic_number
    else ok (
        put_uint16 d.magic_number
        ++ (put_uint32 d.key_length
            ++ (put_uint32 d.value_length ++ (d.key_content ++ d.value_content))))

-- the rest of `UnmarshalBinary`, once the two lengths are read; its sums are in uint32
unfoldable pub unmarshal_contents : ℕ → ℕ → Bytes → Res Error KvstoreData
unmarshal_contents kl vl data' =
    if ltb (u32 (length data')) (u32 (10 + kl + vl)) then fail invalid_length else do
      key ← slice data' 10 (u32 (10 + kl))
      value ← slice data' (u32 (10 + kl)) (u32 (10 + kl + vl))
      ok (record {
        magic_number = kvstore_magic_num;
        key_length = kl;
        value_length = vl;
        key_content = copy_into kl key;
        value_content = copy_into vl value;
      })

unfoldable pub unmarshal_binary : Bytes → Res Error KvstoreData
unmarshal_binary data' =
    if ltb (length data') 10
    then fail invalid_length
    else if not (uint16 data' == kvstore_magic_num)
    then fail illegal_magic_number
    else unmarshal_contents (uint32 (drop 2 data')) (uint32 (drop 6 data')) data'

-- `Read` of a file's contents at a position into a buffer of `n` bytes: what is there, at most `n`,
-- and `io.EOF` at the end.
unfoldable pub read_at : Bytes → ℕ → ℕ → Res Error Bytes
read_at content pos n =
    if leb (length content) pos then fail eof else ok (take n (drop pos content))

-- The loop of `get` that fills the buffer: `need` bytes are missing. The fuel runs out only if a
-- `Read` returns nothing and no error.
unfoldable pub fill : ℕ → Bytes → ℕ → ℕ → Res Error Bytes
fill zero content pos need = panic
fill (suc fuel) content pos zero = ok []
fill (suc fuel) content pos (suc need) = do
  got ← read_at content pos (suc need)
  rest ← fill fuel content (pos + length got) (suc need - length got)
  ok (got ++ rest)

-- `get`: the header, zeros where the file ends in it, then the contents that it announces. An
-- offset from 2^63 on is negative as an int64, and `Seek` refuses it.
unfoldable pub get_data : Bytes → ℕ → Res Error Bytes
unfolding read_at
get_data content offset = if leb 9223372036854775808 offset then fail invalid_argument else do
  header ← read_at content offset 10
  let buf = copy_into 10 header
  let total = u32 (10 + uint32 (drop 2 buf) + uint32 (drop 6 buf))
  if ltb total 10 then panic else do
    rest ← fill (suc total) content (offset + length header) (total - 10)
    ok (buf ++ rest)

unfoldable pub get : Bytes → ℕ → Res Error KvstoreData
get content offset = do data' ← get_data content offset; unmarshal_binary data'

-- `Set` on a writer that appends to a file with these contents, and what the file has then. A writer
-- that fails may have written a part: `some n` is a `Write` that returns an error when at most `n` of
-- its bytes are in the file.
unfoldable pub set : Option ℕ → Bytes → KvstoreData → Res Error (Unit {0}) × Bytes
set refused content d = elim (marshal_binary d) [
  | ok data' ↦ elim refused [
    | none ↦ (ok tt, content ++ data')
    | some n ↦ (fail io_error, content ++ take n data')
  ]
  | fail e ↦ (fail e, content)
  | panic ↦ (panic, content)
]
