-- ===== src/Filesystem/Block/IndexFile/Replay.antt =====
-- Replaying an index file: loading gives what the entries that were written say.
use tick_framework.Base.{
  ℕ, zero, suc, ◌+◌, ◌≤◌, ◌<◌, ◌≡◌, ap, sym, ◌∙◌, List, [], ◌∷◌, ◌++◌, append_assoc, append-nil,
  arith, Bytes, All, length, length-append, GoMap, lookup, some, ok, fail,
}
use tick_framework.Utility.Kvstore
use tick_framework.Utility.Kvstore.{Error, eof, new_kvstore_data, size, read_at, get_data}
use tick_framework.Utility.Kvstore.RoundTrip.{
  encode, Fits, get_data-encode, unmarshal_binary-encode, length-encode, size-new,
}
use tick_framework.Filesystem.Block.Index.{Index, zero_index, marshal_binary}
use tick_framework.Filesystem.Block.Index.Codec.{IsWellSized, unmarshal_binary-marshal_binary}
use tick_framework.Filesystem.Block.Disk.{Disk}
use tick_framework.Filesystem.Block.IndexFile.{
  sequential_read, decode_index, apply_entry, load_from, load_index_from_file,
}

-- The entries that were written, oldest first.
abbrev pub Entries : Type 0
Entries = List (Bytes × Index)

-- The bytes that `write` appends for the entries.
abbrev pub log : Entries → Bytes
log [] = []
log ((key, index) ∷ es) = encode key (marshal_binary index) ++ log es

-- The table that the entries leave.
abbrev pub replay : Entries → GoMap Index → GoMap Index
replay [] table = table
replay ((key, index) ∷ es) table = replay es (apply_entry key index table)

pub record IsWritable (e : Bytes × Index) : Type 0 where
  pub fits : Fits e.0 (marshal_binary e.1)
  pub well_sized : IsWellSized e.1

decode_index-marshal_binary :
    (index : Index) → IsWellSized index → decode_index (marshal_binary index) ≡ ok index
unfolding decode_index
decode_index-marshal_binary index h =
    rw (unmarshal_binary-marshal_binary index zero_index h, decode_index)

sequential_read_lem :
    (before key rest : Bytes) (index : Index)
    → IsWritable (key, index)
    → length before < 9223372036854775808
    → sequential_read (before ++ (encode key (marshal_binary index) ++ rest)) (length before)
      ≡ ok (key, index, length before + (10 + length key + length (marshal_binary index)))
unfolding sequential_read Kvstore.get
sequential_read_lem before key rest index w small =
    rw
      (
        get_data-encode before key (marshal_binary index) rest w.fits small,
        unmarshal_binary-encode key (marshal_binary index) w.fits,
        decode_index-marshal_binary index w.well_sized,
      )
      (ap (λ n. ok (key, index, length before + n)) (size-new key (marshal_binary index) w.fits))

sequential_read_end :
    (content : Bytes)
    → length content < 9223372036854775808
    → sequential_read content (length content) ≡ fail eof
unfolding sequential_read Kvstore.get get_data read_at
sequential_read_end content small = ground arith

load_from_ok :
    (fuel : ℕ) (content key : Bytes) (index : Index) (offset next : ℕ) (table : GoMap Index)
    → sequential_read content offset ≡ ok (key, index, next)
    → load_from (suc fuel) content offset table
      ≡ load_from fuel content next (apply_entry key index table)
unfolding load_from
load_from_ok fuel content key index offset next table e = rw (e, load_from)

load_from_eof :
    (fuel : ℕ) (content : Bytes) (offset : ℕ) (table : GoMap Index)
    → sequential_read content offset ≡ fail eof
    → load_from (suc fuel) content offset table ≡ some (ok table)
unfolding load_from
load_from_eof fuel content offset table e = rw (e, load_from)

load_from-log :
    (es : Entries) (fuel : ℕ) (before : Bytes) (table : GoMap Index)
    → All IsWritable es
    → length es < fuel
    → length (before ++ log es) < 9223372036854775808
    → load_from fuel (before ++ log es) (length before) table ≡ some (ok (replay es table))
load_from-log es zero before table w h small = absurd (omega arith)
load_from-log [] (suc fuel) before table w h small = rw append_nil (
    load_from_eof fuel before (length before) table
      (sequential_read_end before (rw append_nil at small)))
  where
    append_nil : before ++ [] ≡ before
    append_nil = append-nil before
load_from-log ((key, index) ∷ es) (suc fuel) before table (w, ws) h small =
    let entry = encode key (marshal_binary index) in
    let regrouped : before ++ (entry ++ log es) ≡ (before ++ entry) ++ log es =
      sym (append_assoc before entry (log es)) in
    let next = length before + (10 + length key + length (marshal_binary index)) in
    let passed : next ≡ length (before ++ entry) =
      omega (arith, length-append before entry, length-encode key (marshal_binary index)) in
    let table' = apply_entry key index table in
    load_from_ok fuel (before ++ (entry ++ log es)) key index (length before) next table (
      sequential_read_lem before key (log es) index w
        (omega (arith, length-append before (entry ++ log es))))
    ∙ (λ i. load_from fuel (regrouped i) (passed i) table')
    ∙ load_from-log es fuel (before ++ entry) table' ws (omega arith) (rw (← regrouped) small)

length-log : (es : Entries) → length es ≤ length (log es)
length-log [] = omega arith
length-log ((key, index) ∷ es) =
    let entry = encode key (marshal_binary index) in
    omega
      (arith, length-append entry (log es), length-encode key (marshal_binary index), length-log es)

-- Loading an index file that holds the records of some entries, each of a size that fits its
-- fields, ends within its fuel and gives the table that these entries leave.
pub load_index_from_file-log :
    (es : Entries) (path : Bytes) (disk : Disk)
    → lookup path disk.files ≡ some (log es)
    → All IsWritable es
    → length (log es) < 9223372036854775808
    → load_index_from_file path disk ≡ some (ok (replay es []))
unfolding load_index_from_file
load_index_from_file-log es path disk found w small =
    rw (found, load_index_from_file)
      (load_from-log es (suc (length (log es))) [] [] w (omega (arith, length-log es)) small)
