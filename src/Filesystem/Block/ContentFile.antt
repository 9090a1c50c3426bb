-- ===== src/Filesystem/Block/ContentFile.antt =====
-- filesystem/block/file.go, the content files: their writer and their reader.
use tick_framework.Base.{
  ℕ, ◌+◌, false, Bytes, length, ◌==◌, if◌then◌else◌, Res, ok, fail, panic, ◌>>=◌, copy_into,
}
use tick_framework.Utility.Kvstore
use tick_framework.Utility.Kvstore.{Error, read_size, new_kvstore_data, size}
use tick_framework.Filesystem.Block.Index.{Index, new_index}
use tick_framework.Filesystem.Block.Disk.{Disk, contents, open_append, put, refusal, trim_prefix}

-- `contentWriter`; its base path is the block's directory.
pub record ContentWriter : Type 0 where
  pub path : Bytes
  pub written : ℕ

unfoldable pub new_content_writer : Bytes → Disk → Res Error (ContentWriter × Disk)
new_content_writer filename disk = do
  disk' ← open_append filename false disk
  ok (record { path = filename; written = length (contents disk' filename) }, disk')

-- `Write`: the record goes to the end of the file, the index entry says where it begins. A write
-- that fails may leave a part of the record in the file, and does not count it.
unfoldable pub write :
    Bytes → ContentWriter → Bytes → Bytes → Disk → Res Error (ContentWriter × Index) × Disk
write basepath w key value disk =
    let d = new_kvstore_data key value in
    let r = Kvstore.set (refusal disk w.path) (contents disk w.path) d in
    (
      elim r.0 [
        | ok _ ↦ ok (
          record w { written = w.written + size d },
          new_index (trim_prefix w.path basepath) w.written (size d),
        )
        | fail e ↦ fail e
        | panic ↦ panic
      ],
      put w.path r.1 disk,
    )

-- `Read` on a file with these contents.
unfoldable pub read : Bytes → ℕ → ℕ → Res Error Bytes
read content offset content_length = do
  d ← Kvstore.get content offset
  if size d == content_length then ok (copy_into d.value_length d.value_content) else fail read_size

-- `SequentialRead` at an offset: the key, its index entry and the next offset.
unfoldable pub sequential_read : Bytes → Bytes → Bytes → ℕ → Res Error (Bytes × Index × ℕ)
sequential_read basepath path content offset = do
  d ← Kvstore.get content offset
  ok (d.key_content, new_index (trim_prefix path basepath) offset (size d), offset + size d)
