-- ===== src/Filesystem/Block/Tests.antt =====
-- Runs of the block store.
use tick_framework.Base.{
  not, ◌+◌, ◌<◌, ◌≡◌, ◌≢◌, ◌⊎◌, refl, Bool, true, false, [], ◌∷◌, none, some, arith, Bytes, codes,
  length, All, GoMap, lookup, assign, delete, Res, ok, fail, bytes_eq, Bool-cases, Option-cases,
  inl, inr, copy_into, slice,
}
use tick_framework.Utility.Kvstore
use tick_framework.Utility.Kvstore.{Error, io_error, key_not_exist}
use tick_framework.Filesystem.Block.Index.{
  Index, new_index, same, marshal_binary, unmarshal_binary, decoded, zero_index, new_del_index,
}
use tick_framework.Filesystem.Block.Index.Codec.{IsWellSized, unmarshal_binary-marshal_binary}
use tick_framework.Filesystem.Block.Disk.{
  Disk, contents, join, trim_prefix, join-trim_prefix, strip, trim_from, open_append,
}
use tick_framework.Filesystem.Block.ContentFile
use tick_framework.Filesystem.Block.ContentFile.{new_content_writer}
use tick_framework.Filesystem.Block.IndexFile
use tick_framework.Filesystem.Block.IndexFile.{load_index_from_file}
use tick_framework.Filesystem.Block.IndexFile.Replay.{
  Entries, IsWritable, log, replay, load_index_from_file-log,
}
use tick_framework.Filesystem.Block.Engine.{
  Store, index_path, get, set, del, write_content, switch_content_writer, update_content_writer,
  write_open_content, write_index, read_index, read_content,
}
use tick_framework.Filesystem.Block.Engine.Steps.{IsContentPath}
use tick_framework.Filesystem.Block.Engine.Writes.{HasSmallFiles}
use tick_framework.Filesystem.Block.Engine.View.{Represents, answer, get-Represents, Keeps-Spares}
use tick_framework.Filesystem.Block.Engine.Growth.{Grows-refl}
use tick_framework.Filesystem.Block.Engine.Failures.{Answers, set_failed-Answers}
use tick_framework.Filesystem.Block.Engine.Contract.{
  set-Represents, del-Represents, reload-Represents,
}

abbrev stored_index : Index
stored_index = new_index (codes "/f") 7 21

stored_index-IsWellSized : IsWellSized stored_index
stored_index-IsWellSized = record {
  stated = refl;
  small_name = omega arith;
  small_offset = omega arith;
  small_length = omega arith;
}

unmarshal_binary-marshal_binary_example :
    unmarshal_binary zero_index (marshal_binary stored_index) ≡ decoded stored_index
unmarshal_binary-marshal_binary_example =
    unmarshal_binary-marshal_binary stored_index zero_index stored_index-IsWellSized

abbrev dir : Bytes
dir = codes "/data"

join-trim_prefix_example : join dir (trim_prefix (join dir (codes "f")) dir) ≡ join dir (codes "f")
join-trim_prefix_example = join-trim_prefix dir (codes "f")

-- a key stored, and then deleted
abbrev history : Entries
history = (codes "k", stored_index) ∷ (codes "k", new_del_index) ∷ []

deleted-IsWellSized : IsWellSized new_del_index
deleted-IsWellSized = record {
  stated = refl;
  small_name = omega arith;
  small_offset = omega arith;
  small_length = omega arith;
}

history-IsWritable : All IsWritable history
unfolding marshal_binary
history-IsWritable = (
  record { fits = omega arith; well_sized = stored_index-IsWellSized },
  (record { fits = omega arith; well_sized = deleted-IsWellSized }, tt),
)

abbrev index_file : Bytes
index_file = join dir (codes "blockIndex")

abbrev disk_of : Bytes → Disk
disk_of content = record {
  files = (index_file, content) ∷ [];
  writable = λ path. true;
  torn_after = λ path. 0;
}

load_index_from_file-log_example :
    load_index_from_file index_file (disk_of (log history)) ≡ some (ok (replay history []))
unfolding lookup bytes_eq join strip marshal_binary
load_index_from_file-log_example =
    load_index_from_file-log history index_file (disk_of (log history)) refl history-IsWritable
      (omega arith)

-- A store in an empty directory, in which the paths that this test accepts can be written.
abbrev start : (Bytes → Bool) → Store
start writable = record {
  block = record {
    temp_dir = dir;
    max_size = 0;
    content_writer = none;
    index_table = [];
    index_writer = record { path = index_file; buffer = []; buffering = false };
  };
  disk = record { files = (index_file, []) ∷ []; writable = writable; torn_after = λ path. 12 };
}

abbrev open_store : Store
open_store = start (λ path. true)

start-Represents : (writable : Bytes → Bool) → Represents (start writable) []
unfolding lookup bytes_eq join strip
start-Represents writable = record {
  is_open = record { writer = λ w e. absurd (ground (arith, e)); index_file = refl };
  logged = record { entries = []; present = refl; all_writable = tt; agrees = λ key. refl };
  keeps = λ key. refl;
}

abbrev stamp : Bytes
stamp = codes "20200101.3"

stamp-IsContentPath : IsContentPath dir (join dir stamp)
unfolding bytes_eq join strip trim_prefix trim_from
stamp-IsContentPath = record { apart = refl; short = omega arith }

small_lookup :
    (path : Bytes) (files : GoMap Bytes)
    → All (λ f. length f.1 < 9223372036854775808) files
    → (content : Bytes) → lookup path files ≡ some content
    → length content < 9223372036854775808
unfolding lookup
small_lookup path [] a content e = absurd (ground (arith, e))
small_lookup path ((other, c) ∷ files) (h, a) content e = elim (Bool-cases (bytes_eq other path)) [
  | inl same ↦ ground (arith, h)
  | inr apart ↦ small_lookup path files a content (ground (arith, e, apart))
]

HasSmallFiles-files :
    (disk : Disk) → All (λ f. length f.1 < 9223372036854775808) disk.files → HasSmallFiles disk
unfolding contents
HasSmallFiles-files disk a path = elim (Option-cases (lookup path disk.files)) [
  | inl e ↦ rw e (omega arith)
  | inr (content, e) ↦ rw e (small_lookup path disk.files a content e)
]

abbrev Small : GoMap Bytes → Type 0
Small = All (λ f. length f.1 < 9223372036854775808)

-- the store after a first `Set`
abbrev filled_store : Store
filled_store = (set stamp (codes "k") (codes "v") open_store).1

abbrev one_key : GoMap Bytes
one_key = (codes "k", codes "v") ∷ []

first_run :
    Small (write_content stamp (codes "k") (codes "v") open_store).1.disk.files
    × ((set stamp (codes "k") (codes "v") open_store).0 ≡ ok tt)
    × (get open_store (codes "k") ≡ fail key_not_exist)
    × (get filled_store (codes "k") ≡ ok (codes "v"))
    × (length (contents filled_store.disk (index_path filled_store.block)) < 9223372036854775808)
unfolding lookup assign bytes_eq copy_into slice join strip trim_from trim_prefix contents
    open_append marshal_binary Kvstore.marshal_binary Kvstore.unmarshal_contents
    Kvstore.unmarshal_binary Kvstore.read_at Kvstore.fill Kvstore.get_data Kvstore.get Kvstore.set
    new_content_writer ContentFile.write ContentFile.read IndexFile.write switch_content_writer
    update_content_writer write_open_content write_content write_index set read_index read_content
    get
first_run = ((omega arith, (omega arith, tt)), refl, refl, refl, omega arith)

second_run :
    Small (write_content stamp (codes "j") (codes "w") filled_store).1.disk.files
    × ((set stamp (codes "j") (codes "w") filled_store).0 ≡ ok tt)
    × IsContentPath filled_store.block.temp_dir (join filled_store.block.temp_dir stamp)
unfolding lookup assign bytes_eq copy_into slice join strip trim_from trim_prefix contents
    open_append marshal_binary Kvstore.marshal_binary Kvstore.unmarshal_contents
    Kvstore.unmarshal_binary Kvstore.read_at Kvstore.fill Kvstore.get_data Kvstore.get Kvstore.set
    new_content_writer ContentFile.write ContentFile.read IndexFile.write switch_content_writer
    update_content_writer write_open_content write_content write_index set read_index read_content
    get
second_run = ((omega arith, (omega arith, tt)), refl, stamp-IsContentPath)

filled_store-Represents : Represents filled_store one_key
unfolding assign
filled_store-Represents =
    set-Represents stamp (codes "k") (codes "v") open_store [] (start-Represents (λ path. true))
      stamp-IsContentPath (omega arith) (omega arith) (HasSmallFiles-files _ first_run.0)
      first_run.1

set-Represents_example :
    Represents
      (set stamp (codes "j") (codes "w") filled_store).1
      (assign (codes "j") (codes "w") one_key)
set-Represents_example =
    set-Represents stamp (codes "j") (codes "w") filled_store one_key filled_store-Represents
      second_run.2 (omega arith) (omega arith) (HasSmallFiles-files _ second_run.0) second_run.1

-- The same files, where the index file takes the first bytes of a record and then refuses.
abbrev refusing : Store → Store
refusing s = record s {
  disk = record (s.disk) {
    writable = λ path. not (bytes_eq path index_file);
    torn_after = λ path. 12;
  };
}

refusing-Represents : (s : Store) (m : GoMap Bytes) → Represents s m → Represents (refusing s) m
unfolding contents
refusing-Represents s m r = record {
  is_open = record {
    writer = λ w e.
        let u = r.is_open.writer w e in
        record { name = u.name; placed = u.placed; good = u.good; tracked = u.tracked };
    index_file = r.is_open.index_file;
  };
  logged = record {
    entries = r.logged.entries;
    present = r.logged.present;
    all_writable = r.logged.all_writable;
    agrees = r.logged.agrees;
  };
  keeps = λ key.
      Keeps-Spares s (refusing s) key (lookup key m)
        (record { grows = Grows-refl s.disk; same_dir = refl; same_table = refl }) (r.keeps key);
}

-- The failure leaves a torn record: the index file is twelve bytes longer.
torn_run :
    ((set stamp (codes "j") (codes "w") (refusing filled_store)).0 ≡ fail io_error)
    × (length
          (contents (set stamp (codes "j") (codes "w") (refusing filled_store)).1.disk index_file)
        ≡ length (contents filled_store.disk index_file) + 12)
unfolding lookup assign bytes_eq copy_into slice join strip trim_from trim_prefix contents
    open_append marshal_binary Kvstore.marshal_binary Kvstore.unmarshal_contents
    Kvstore.unmarshal_binary Kvstore.read_at Kvstore.fill Kvstore.get_data Kvstore.get Kvstore.set
    new_content_writer ContentFile.write ContentFile.read IndexFile.write switch_content_writer
    update_content_writer write_open_content write_content write_index set read_index read_content
    get
torn_run = (refl, refl)

ok_or_fail : (r : Res Error (Unit {0})) → r ≡ fail io_error → r ≢ ok tt
ok_or_fail r e h = absurd (ground (arith, e, h))

set_failed-Answers_example :
    Answers (set stamp (codes "j") (codes "w") (refusing filled_store)).1 one_key
set_failed-Answers_example =
    set_failed-Answers stamp (codes "j") (codes "w") (refusing filled_store) one_key
      (refusing-Represents filled_store one_key filled_store-Represents) (ok_or_fail _ torn_run.0)

get-Represents_example : get filled_store (codes "k") ≡ answer (lookup (codes "k") one_key)
get-Represents_example = get-Represents filled_store one_key (codes "k") filled_store-Represents

del-Represents_example :
    (((del (codes "k") filled_store).0 ≡ ok tt)
      × Represents (del (codes "k") filled_store).1 (delete (codes "k") one_key))
    ⊎ (((del (codes "k") filled_store).0 ≡ fail io_error)
        × Answers (del (codes "k") filled_store).1 one_key)
del-Represents_example =
    del-Represents (codes "k") filled_store one_key filled_store-Represents (omega arith)

reload-Represents_example :
    (table : GoMap Index) × (load_index_from_file (index_path filled_store.block) filled_store.disk
      ≡ some (ok table))
    × ((key : Bytes) → lookup key table ≡ lookup key filled_store.block.index_table)
reload-Represents_example =
    reload-Represents filled_store one_key filled_store-Represents first_run.4
