-- ===== src/Filesystem/Block/Dump/Tests.antt =====
-- Runs of a dump: a key that was set twice, and one that was set and deleted.
use tick_framework.Base.{
  ◌≡◌, refl, true, [], ◌∷◌, none, some, Bytes, codes, All, lookup, assign, delete, bytes_eq, ok,
  arith,
}
use tick_framework.Filesystem.Block.Index.{Index, new_index, new_del_index, marshal_binary}
use tick_framework.Filesystem.Block.Index.Codec.{IsWellSized}
use tick_framework.Filesystem.Block.Disk.{join, strip}
use tick_framework.Filesystem.Block.IndexFile.{apply_entry}
use tick_framework.Filesystem.Block.IndexFile.Replay.{Entries, IsWritable, log, replay}
use tick_framework.Filesystem.Block.Engine.{write_index, Store, temp_path}
use tick_framework.Filesystem.Block.Dump.{end_dump, dump_index}
use tick_framework.Filesystem.Block.Dump.Replays.{IsOrderOf}
use tick_framework.Filesystem.Block.Dump.Files.{plain_writer}
use tick_framework.Filesystem.Block.Dump.Contract.{IsDumping, IsDumped, end_dump-IsDumped}
use tick_framework.Filesystem.Block.Dump.Parts.{IsBegun, write_index-IsDumping, dump_index-IsDumped}

abbrev first : Index
first = new_index (codes "/f") 0 12

abbrev second : Index
second = new_index (codes "/f") 12 12

first-IsWellSized : IsWellSized first
first-IsWellSized = record {
  stated = refl;
  small_name = omega arith;
  small_offset = omega arith;
  small_length = omega arith;
}

second-IsWellSized : IsWellSized second
second-IsWellSized = record {
  stated = refl;
  small_name = omega arith;
  small_offset = omega arith;
  small_length = omega arith;
}

deleted-IsWellSized : IsWellSized new_del_index
deleted-IsWellSized = record {
  stated = refl;
  small_name = omega arith;
  small_offset = omega arith;
  small_length = omega arith;
}

-- what the index file has when a dump begins
abbrev history : Entries
history =
    (codes "a", first) ∷ (codes "k", first) ∷ (codes "k", new_del_index) ∷ (codes "a", second) ∷ []

-- what a dump makes of it
abbrev kept : Entries
kept = (codes "a", second) ∷ []

-- a key that is set while the dump runs
abbrev later : Entries
later = (codes "k", second) ∷ []

later-IsWritable : IsWritable (codes "k", second)
unfolding marshal_binary
later-IsWritable = record { fits = omega arith; well_sized = second-IsWellSized }

history-IsWritable : All IsWritable history
unfolding marshal_binary
history-IsWritable = (
  record { fits = omega arith; well_sized = first-IsWellSized },
  (
    record { fits = omega arith; well_sized = first-IsWellSized },
    (
      record { fits = omega arith; well_sized = deleted-IsWellSized },
      (record { fits = omega arith; well_sized = second-IsWellSized }, tt),
    ),
  ),
)

abbrev dir : Bytes
dir = codes "/data"

abbrev store : Store
store = record {
  block = record {
    temp_dir = dir;
    max_size = 0;
    content_writer = none;
    index_table = kept;
    index_writer = plain_writer (join dir (codes "blockIndex"));
  };
  disk = record {
    files = (join dir (codes "blockIndex"), log history) ∷ [];
    writable = λ path. true;
    torn_after = λ path. 0;
  };
}

store-IsBegun : IsBegun store history []
unfolding lookup assign delete bytes_eq join strip apply_entry marshal_binary
store-IsBegun = record {
  in_file = refl;
  all_writable = history-IsWritable;
  agrees = λ key. refl;
  in_buffer = refl;
  small = omega arith;
  can_write = refl;
}

kept-IsOrderOf : IsOrderOf (replay history []) (replay history [])
unfolding lookup assign delete bytes_eq apply_entry
kept-IsOrderOf = record { all_there = (refl, tt); once = (refl, tt); same = λ key. refl }

dump_index-IsDumped_example :
    (t : Store) × (dump_index (λ table. table) store ≡ some (ok tt, t)) × IsDumped store t
dump_index-IsDumped_example =
    dump_index-IsDumped (λ table. table) store history [] store-IsBegun kept-IsOrderOf

-- the dump has begun, and the new file is written
abbrev running : Store
running = record store {
  block = record (store.block) {
    index_writer = record (store.block.index_writer) { buffering = true };
  };
  disk = record (store.disk) {
    files = (join dir (codes "blockIndexTemp"), log kept) ∷ store.disk.files;
  };
}

running-IsDumping : IsDumping running history [] [] kept
unfolding lookup assign delete bytes_eq join strip apply_entry marshal_binary
running-IsDumping = record {
  in_file = refl;
  all_writable = history-IsWritable;
  agrees = λ key. refl;
  in_buffer = refl;
  in_temp = refl;
  ordered = record { all_there = (refl, tt); once = (refl, tt); same = λ key. refl };
  can_write = refl;
}

-- a key is set in between
abbrev grown : Store
grown = (write_index (codes "k") second running).1

grown-IsDumping : IsDumping grown history [] later kept
grown-IsDumping =
    (write_index-IsDumping running history [] [] kept (codes "k") second running-IsDumping refl refl
      refl later-IsWritable refl).1

write_index-IsDumping_example :
    ((write_index (codes "k") second running).0 ≡ ok tt)
    × IsDumping (write_index (codes "k") second running).1 history [] later kept
write_index-IsDumping_example =
    write_index-IsDumping running history [] [] kept (codes "k") second running-IsDumping refl refl
      refl later-IsWritable refl

end_dump-IsDumped_example :
    (t : Store) × (end_dump (plain_writer (temp_path grown.block)) grown ≡ (ok tt, t))
    × IsDumped grown t
end_dump-IsDumped_example = end_dump-IsDumped grown history [] later kept grown-IsDumping
