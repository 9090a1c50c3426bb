-- ===== src/Filesystem/Block/Engine.antt =====
-- filesystem/block/block.go: the block store over its directory.
pub mod Growth
pub mod Binds
pub mod Steps
pub mod Writes
pub mod Indexing
pub mod View
pub mod Failures
pub mod Contract
use tick_framework.Base.{
  ℕ, ◌+◌, Bool, true, false, ◌&&◌, ◌||◌, List, [], ◌∷◌, Option, none, some, Bytes, codes, GoMap,
  lookup, assign, delete, bytes_eq, ltb, leb, if◌then◌else◌, Res, ok, fail, panic,
}
use tick_framework.Utility.Kvstore.{Error, key_not_exist, no_such_file}
use tick_framework.Filesystem.Block.Index.{Index, new_del_index, is_del, same}
use tick_framework.Filesystem.Block.Disk.{Disk, join, rename}
use tick_framework.Filesystem.Block.ContentFile
use tick_framework.Filesystem.Block.ContentFile.{ContentWriter, new_content_writer}
use tick_framework.Filesystem.Block.IndexFile
use tick_framework.Filesystem.Block.IndexFile.{IndexWriter, new_index_writer, load_index_from_file}

-- `FilenameBlockIndex` and `FilenameBlockIndexTemp`
abbrev pub filename_block_index : Bytes
filename_block_index = codes "blockIndex"

abbrev pub filename_block_index_temp : Bytes
filename_block_index_temp = codes "blockIndexTemp"

-- A `max_size` of 0 stands for every `maxSize` that is not positive.
pub record Block : Type 0 where
  pub temp_dir : Bytes
  pub max_size : ℕ
  pub content_writer : Option ContentWriter
  pub index_table : GoMap Index
  pub index_writer : IndexWriter

-- A block store with the disk that it works on.
pub record Store : Type 0 where
  pub block : Block
  pub disk : Disk

-- What a method does: it returns or fails, and leaves a store in both cases.
abbrev pub M : Type 0 → Type 0
M A = Store → Res Error A × Store

infixl 5 ◌>>=◌
abbrev pub ◌>>=◌ : {A B : Type 0} → M A → (A → M B) → M B
◌>>=◌ m f s = elim (m s).0 [
  | ok a ↦ f a (m s).1
  | fail e ↦ (fail e, (m s).1)
  | panic ↦ (panic, (m s).1)
]

abbrev pub index_path : Block → Bytes
index_path b = join b.temp_dir filename_block_index

abbrev pub temp_path : Block → Bytes
temp_path b = join b.temp_dir filename_block_index_temp

-- The part of `updateContentWriter` behind the label `update`; `stamp` is the name that the clock
-- and the random source make.
unfoldable pub switch_content_writer : Bytes → M (Unit {0})
switch_content_writer stamp s = elim (new_content_writer (join s.block.temp_dir stamp) s.disk) [
  | ok (w, disk) ↦
      (ok tt, record { block = record (s.block) { content_writer = some w }; disk = disk })
  | fail e ↦ (fail e, record s { block = record (s.block) { content_writer = none } })
  | panic ↦ (panic, s)
]

unfoldable pub update_content_writer : Bytes → M (Unit {0})
update_content_writer stamp s = elim s.block.content_writer [
  | none ↦ switch_content_writer stamp s
  | some w ↦
      if ltb 0 s.block.max_size && leb s.block.max_size w.written
      then switch_content_writer stamp s
      else (ok tt, s)
]

-- `b.contentWriter.Write` on the open writer; a call on a nil interface panics.
unfoldable pub write_open_content : Bytes → Bytes → M Index
write_open_content key value s = elim s.block.content_writer [
  | none ↦ (panic, s)
  | some w ↦
      let r = ContentFile.write s.block.temp_dir w key value s.disk in
      elim r.0 [
        | ok (w', index) ↦
            (ok index, record { block = record (s.block) { content_writer = some w' }; disk = r.1 })
        | fail e ↦ (fail e, record s { disk = r.1 })
        | panic ↦ (panic, record s { disk = r.1 })
      ]
]

unfoldable pub write_content : Bytes → Bytes → Bytes → M Index
write_content stamp key value = do _ ← update_content_writer stamp; write_open_content key value

-- the index file first, then the table
unfoldable pub write_index : Bytes → Index → M (Unit {0})
write_index key index s =
    let r = IndexFile.write s.block.index_writer key index s.disk in
    elim r.0 [
      | ok w ↦ (
        ok tt,
        record {
          block = record (s.block) {
            index_writer = w;
            index_table = assign key index s.block.index_table;
          };
          disk = r.1;
        },
      )
      | fail e ↦ (fail e, record s { disk = r.1 })
      | panic ↦ (panic, record s { disk = r.1 })
    ]

unfoldable pub set : Bytes → Bytes → Bytes → M (Unit {0})
set stamp key value = do index ← write_content stamp key value; write_index key index

unfoldable pub read_index : Store → Bytes → Res Error Index
read_index s key = elim (lookup key s.block.index_table) [
  | none ↦ fail key_not_exist
  | some index ↦ ok index
]

unfoldable pub read_content : Store → Index → Res Error Bytes
read_content s index = elim (lookup (join s.block.temp_dir index.filename_content) s.disk.files) [
  | none ↦ fail no_such_file
  | some content ↦ ContentFile.read content index.offset index.content_length
]

unfoldable pub get : Store → Bytes → Res Error Bytes
get s key = elim (read_index s key) [
  | ok index ↦ read_content s index
  | fail e ↦ fail e
  | panic ↦ panic
]

unfoldable pub del : Bytes → M (Unit {0})
del key s =
    let r = IndexFile.write s.block.index_writer key new_del_index s.disk in
    elim r.0 [
      | ok w ↦ (
        ok tt,
        record {
          block = record (s.block) {
            index_writer = w;
            index_table = delete key s.block.index_table;
          };
          disk = r.1;
        },
      )
      | fail e ↦ (fail e, record s { disk = r.1 })
      | panic ↦ (panic, record s { disk = r.1 })
    ]
