-- ===== src/Filesystem/Block/Engine/Indexing.antt =====
-- The write of an entry to the index file, and what the file says after it.
use tick_framework.Base.{
  take, ◌≡◌, refl, ap, sym, ◌∙◌, true, false, [], ◌∷◌, ◌++◌, append_assoc, append-nil, arith, Bytes,
  All, All-append, length, some, GoMap, lookup, lookup-assign, lookup-delete, bytes_eq,
  bytes_eq_comm, ok, fail, if◌then◌else◌,
}
use tick_framework.Utility.Kvstore.{io_error}
use tick_framework.Utility.Kvstore.RoundTrip.{encode, Fits}
use tick_framework.Filesystem.Block.Index.{Index, marshal_binary}
use tick_framework.Filesystem.Block.Disk.{Disk, contents, put, contents-put_ne, lookup-put_self}
use tick_framework.Filesystem.Block.IndexFile
use tick_framework.Filesystem.Block.IndexFile.{IndexWriter, apply_entry, load_index_from_file}
use tick_framework.Filesystem.Block.IndexFile.Replay.{Entries, IsWritable, log, replay}
use tick_framework.Filesystem.Block.Engine.{Store, index_path}
use tick_framework.Filesystem.Block.Engine.Steps.{IsOpen}
use tick_framework.Filesystem.Block.Engine.Writes.{set_ok, set_fail}

-- What the writer's buffer holds after these bytes.
abbrev pub buffered : IndexWriter → Bytes → Bytes
buffered w more = if w.buffering then w.buffer ++ more else w.buffer

module _ (w : IndexWriter) (key : Bytes) (index : Index) (disk : Disk)
    (fits : Fits key (marshal_binary index)) where
  pub write_ok :
      disk.writable w.path ≡ true
      → IndexFile.write w key index disk ≡ (
        ok (record w { buffer = buffered w (encode key (marshal_binary index)) }),
        put w.path (contents disk w.path ++ encode key (marshal_binary index)) disk,
      )
  unfolding IndexFile.write
  write_ok can = ground (
    arith,
    can,
    set_ok (contents disk w.path) key (marshal_binary index) fits,
    set_ok w.buffer key (marshal_binary index) fits,
  )

  -- A write that fails leaves a part of the entry behind.
  pub write_fail :
      disk.writable w.path ≡ false
      → IndexFile.write w key index disk ≡ (
        fail io_error,
        put w.path
            (contents disk w.path
              ++ take (disk.torn_after w.path) (encode key (marshal_binary index)))
            disk,
      )
  unfolding IndexFile.write
  write_fail cannot = ground (
    arith,
    cannot,
    set_fail (disk.torn_after w.path) (contents disk w.path) key (marshal_binary index) fits,
  )

-- The store after an entry is in the index file, with the table that goes with it.
abbrev pub indexed : Store → Bytes → Index → GoMap Index → Store
indexed s key index table =
    let w = s.block.index_writer in
    let entry = encode key (marshal_binary index) in
    record {
      block = record (s.block) {
        index_writer = record w { buffer = buffered w entry };
        index_table = table;
      };
      disk = put w.path (contents s.disk w.path ++ entry) s.disk;
    }

pub indexed-IsOpen :
    (s : Store) (key : Bytes) (index : Index) (table : GoMap Index)
    → IsOpen s
    → IsOpen (indexed s key index table)
indexed-IsOpen s key index table o = record {
  writer = λ w e.
      let u = o.writer w e in
      let iw = s.block.index_writer in
      record {
        name = u.name;
        placed = u.placed;
        good = u.good;
        tracked =
            u.tracked
            ∙ ap length (
                sym (
                  contents-put_ne iw.path s.disk
                    (contents s.disk iw.path ++ encode key (marshal_binary index)) w.path
                    (ap (λ p. bytes_eq p w.path) o.index_file
                      ∙ bytes_eq_comm (index_path s.block) w.path
                      ∙ u.good.apart)));
      };
  index_file = o.index_file;
}

-- The index file at this path holds the records of some entries, and they leave the table, as far
-- as a lookup can tell.
pub record IsLogged (disk : Disk) (path : Bytes) (table : GoMap Index) : Type 0 where
  pub entries : Entries
  pub present : lookup path disk.files ≡ some (log entries)
  pub all_writable : All IsWritable entries
  pub agrees : (key : Bytes) → lookup key (replay entries []) ≡ lookup key table

pub log-append : (es fs : Entries) → log (es ++ fs) ≡ log es ++ log fs
log-append [] fs = refl
log-append ((key, index) ∷ es) fs =
    ap (λ t. encode key (marshal_binary index) ++ t) (log-append es fs)
    ∙ sym (append_assoc (encode key (marshal_binary index)) (log es) (log fs))

pub replay-append :
    (es fs : Entries) (table : GoMap Index) → replay (es ++ fs) table ≡ replay fs (replay es table)
replay-append [] fs table = refl
replay-append ((key, index) ∷ es) fs table = replay-append es fs (apply_entry key index table)

-- A lookup after an entry depends on the table only through lookups.
pub apply_entry-agrees :
    (key : Bytes) (index : Index) (a b : GoMap Index) (j : Bytes)
    → lookup j a ≡ lookup j b
    → lookup j (apply_entry key index a) ≡ lookup j (apply_entry key index b)
unfolding apply_entry
apply_entry-agrees key index a b j h = ground (
  arith,
  lookup-assign key j index a,
  lookup-assign key j index b,
  lookup-delete key j a,
  lookup-delete key j b,
)

pub IsLogged-put :
    (disk : Disk) (path : Bytes) (table : GoMap Index) (key : Bytes) (index : Index)
    → IsLogged disk path table
    → IsWritable (key, index)
    → IsLogged
        (put path (contents disk path ++ encode key (marshal_binary index)) disk)
        path
        (apply_entry key index table)
unfolding contents
IsLogged-put disk path table key index l w = record {
  entries = l.entries ++ (key, index) ∷ [];
  present =
      rw (l.present, lookup-put_self)
        (ap some (
          sym (
            log-append l.entries ((key, index) ∷ [])
            ∙ ap (λ t. log l.entries ++ t) (append-nil (encode key (marshal_binary index))))));
  all_writable = All-append IsWritable l.entries _ l.all_writable (w, tt);
  agrees = λ j.
      ap (lookup j) (replay-append l.entries ((key, index) ∷ []) [])
      ∙ apply_entry-agrees key index (replay l.entries []) table j (l.agrees j);
}
