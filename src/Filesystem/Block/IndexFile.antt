-- ===== src/Filesystem/Block/IndexFile.antt =====
-- filesystem/block/file.go, the index file: its writer with the buffer, its reader and its loading.
pub mod Replay
use tick_framework.Base.{
  ℕ, zero, suc, ◌+◌, Bool, true, false, List, [], ◌∷◌, ◌++◌, Option, none, some, Bytes, GoMap,
  assign, delete, lookup, length, take, drop, if◌then◌else◌, Res, ok, fail, panic, ◌>>=◌,
}
use tick_framework.Utility.Kvstore
use tick_framework.Utility.Kvstore.{Error, eof, io_error, new_kvstore_data, size}
use tick_framework.Filesystem.Block.Index.{
  Index, Decoded, decoded, refused, crashed, is_del, zero_index, marshal_binary, unmarshal_binary,
}
use tick_framework.Filesystem.Block.Disk.{Disk, contents, open_append, put, refusal}

-- `indexWriter` over `fileBufferWriteSeeker`: `buffering` is a `writer` that writes to both.
pub record IndexWriter : Type 0 where
  pub path : Bytes
  pub buffer : Bytes
  pub buffering : Bool

abbrev is_empty : Bytes → Bool
is_empty [] = true
is_empty (c ∷ s) = false

unfoldable pub new_index_writer : Bytes → Bool → Disk → Res Error (IndexWriter × Disk)
new_index_writer filename trunc disk = do
  disk' ← open_append filename trunc disk
  ok (record { path = filename; buffer = []; buffering = false }, disk')

-- `Write`: the file first, then the buffer, to which a write never fails. Where the write to the
-- file fails, a part of the entry may be there, and the buffer is not written.
unfoldable pub write : IndexWriter → Bytes → Index → Disk → Res Error IndexWriter × Disk
write w key index disk =
    let entry = new_kvstore_data key (marshal_binary index) in
    let r = Kvstore.set (refusal disk w.path) (contents disk w.path) entry in
    (
      elim r.0 [
        | ok _ ↦ ok (record w {
          buffer = if w.buffering then (Kvstore.set none w.buffer entry).1 else w.buffer;
        })
        | fail e ↦ fail e
        | panic ↦ panic
      ],
      put w.path r.1 disk,
    )

unfoldable pub write_and_buffered : IndexWriter → IndexWriter
write_and_buffered w = record w { buffering = true }

-- `BufferWriteTo`: the buffered bytes go to the writer `to`; an empty buffer writes nothing. Where
-- the write fails, the bytes that are written leave the buffer, too.
unfoldable pub buffer_write_to :
    IndexWriter → IndexWriter → Disk → Res Error (Unit {0}) × (IndexWriter × IndexWriter × Disk)
buffer_write_to from to disk =
    if is_empty from.buffer
    then (ok tt, (from, to, disk))
    else if disk.writable to.path
    then (
      ok tt,
      (
        record from { buffer = [] },
        record to { buffer = if to.buffering then to.buffer ++ from.buffer else to.buffer },
        put to.path (contents disk to.path ++ from.buffer) disk,
      ),
    )
    else (
      fail io_error,
      (
        record from { buffer = drop (disk.torn_after to.path) from.buffer },
        to,
        put to.path (contents disk to.path ++ take (disk.torn_after to.path) from.buffer) disk,
      ),
    )

-- The index that a record's value decodes to. `SequentialRead` drops the error of
-- `UnmarshalBinary` and goes on with what it left in the entry.
unfoldable pub decode_index : Bytes → Res Error Index
decode_index value = elim (unmarshal_binary zero_index value) [
  | decoded index ↦ ok index
  | refused index ↦ ok index
  | crashed ↦ panic
]

-- `SequentialRead` at an offset: the key, its index, and the next offset.
unfoldable pub sequential_read : Bytes → ℕ → Res Error (Bytes × Index × ℕ)
sequential_read content offset = do
  d ← Kvstore.get content offset
  index ← decode_index d.value_content
  ok (d.key_content, index, offset + size d)

-- One round of the loop of `LoadIndexFromFile`.
unfoldable pub apply_entry : Bytes → Index → GoMap Index → GoMap Index
apply_entry key index table = if is_del index then delete key table else assign key index table

-- The loop of `LoadIndexFromFile` on fuel; `none` means that the fuel ran out. The end of the file
-- is no error. The table that goes with another error is used by no caller.
unfoldable pub load_from : ℕ → Bytes → ℕ → GoMap Index → Option (Res Error (GoMap Index))
load_from zero content offset table = none
load_from (suc fuel) content offset table = elim (sequential_read content offset) [
  | ok (key, index, next) ↦ load_from fuel content next (apply_entry key index table)
  | fail eof ↦ some (ok table)
  | fail e ↦ some (fail e)
  | panic ↦ some panic
]

-- The fuel: every round but the last passes a record, of at least ten bytes.
unfoldable pub load_index_from_file : Bytes → Disk → Option (Res Error (GoMap Index))
load_index_from_file filename disk = elim (lookup filename disk.files) [
  | none ↦ some (ok [])
  | some content ↦ load_from (suc (length content)) content 0 []
]
