-- ===== src/Filesystem/Block/Dump.antt =====
-- filesystem/block/block.go: the dump of the index, which writes its file anew.
pub mod Replays
pub mod Files
pub mod Contract
pub mod Parts
mod Tests
use tick_framework.Base.{
  true, false, List, [], ◌∷◌, Option, none, some, Bytes, GoMap, Res, ok, fail, panic,
}
use tick_framework.Utility.Kvstore.{Error}
use tick_framework.Filesystem.Block.Index.{Index}
use tick_framework.Filesystem.Block.Disk.{Disk, rename}
use tick_framework.Filesystem.Block.IndexFile
use tick_framework.Filesystem.Block.IndexFile.{
  IndexWriter, new_index_writer, write_and_buffered, buffer_write_to, load_index_from_file,
}
use tick_framework.Filesystem.Block.IndexFile.Replay.{Entries}
use tick_framework.Filesystem.Block.Engine.{Store, index_path, temp_path}

-- The first critical section of `dumpIndex`.
unfoldable pub begin_dump : Store → Store
begin_dump s = record s {
  block = record (s.block) { index_writer = write_and_buffered s.block.index_writer };
}

-- The loop over the loaded table: an entry whose write fails is passed over.
unfoldable pub write_entries : Entries → IndexWriter → Disk → Res Error IndexWriter × Disk
write_entries [] w disk = (ok w, disk)
write_entries ((key, index) ∷ es) w disk =
    let r = IndexFile.write w key index disk in
    elim r.0 [
      | ok w' ↦ write_entries es w' r.1
      | fail e ↦ write_entries es w r.1
      | panic ↦ (panic, r.1)
    ]

-- The part between the critical sections; `range` is the order in which Go goes through a map.
-- `none` means that the fuel of the loading ran out.
unfoldable pub write_temp : (GoMap Index → Entries) → Store → Option (Res Error IndexWriter × Disk)
write_temp range s = elim (load_index_from_file (index_path s.block) s.disk) [
  | none ↦ none
  | some (fail e) ↦ some (fail e, s.disk)
  | some panic ↦ some (panic, s.disk)
  | some (ok table) ↦ elim (new_index_writer (temp_path s.block) true s.disk) [
    | ok (w, disk) ↦ some (write_entries (range table) w disk)
    | fail e ↦ some (fail e, s.disk)
    | panic ↦ some (panic, s.disk)
  ]
]

-- The second critical section. The file that the new writer has open gets the name of the index
-- file; the rename, whose error the code drops, is taken to succeed.
unfoldable pub end_dump : IndexWriter → Store → Res Error (Unit {0}) × Store
end_dump w s =
    let (r, (old, w', disk)) = buffer_write_to s.block.index_writer w s.disk in
    let stopped : Store = record { block = record (s.block) { index_writer = old }; disk = disk } in
    elim r [
      | ok _ ↦ (
        ok tt,
        record {
          block = record (s.block) { index_writer = record w' { path = index_path s.block } };
          disk = rename (temp_path s.block) (index_path s.block) disk;
        },
      )
      | fail e ↦ (fail e, stopped)
      | panic ↦ (panic, stopped)
    ]

-- `dumpIndex` when nothing comes between its parts.
unfoldable pub dump_index : (GoMap Index → Entries) → Store → Option (Res Error (Unit {0}) × Store)
dump_index range s = elim (write_temp range (begin_dump s)) [
  | none ↦ none
  | some (fail e, disk) ↦ some (fail e, record (begin_dump s) { disk = disk })
  | some (panic, disk) ↦ some (panic, record (begin_dump s) { disk = disk })
  | some (ok w, disk) ↦ some (end_dump w (record (begin_dump s) { disk = disk }))
]
