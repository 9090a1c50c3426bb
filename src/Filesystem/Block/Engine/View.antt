-- ===== src/Filesystem/Block/Engine/View.antt =====
-- The block store implements a map from keys to values, and its index file can rebuild its table.
use tick_framework.Base.{
  ◌≡◌, refl, ap, sym, ◌∙◌, subst, false, ◌++◌, arith, Bytes, Option, none, some, GoMap, lookup,
  assign, delete, lookup-assign_eq, lookup-assign_ne, lookup-delete_eq, lookup-delete_ne, bytes_eq,
  bytes_eq_iff, Res, ok, fail, Bool-cases, inl, inr,
}
use tick_framework.Utility.Kvstore.{Error, key_not_exist}
use tick_framework.Utility.Kvstore.RoundTrip.{encode, Fits}
use tick_framework.Filesystem.Block.Index.{Index, is_del, new_del_index, marshal_binary}
use tick_framework.Filesystem.Block.Disk.{contents, join, put}
use tick_framework.Filesystem.Block.IndexFile.{apply_entry}
use tick_framework.Filesystem.Block.IndexFile.Replay.{IsWritable}
use tick_framework.Filesystem.Block.Engine.{
  Store, filename_block_index, index_path, get, read_index, read_content,
}
use tick_framework.Filesystem.Block.Engine.Growth.{
  IsStored, IsPlaced, Grows-put, Grows-IsStored, read-stored,
}
use tick_framework.Filesystem.Block.Engine.Steps.{IsOpen, Progress, Spares, Progress-Spares}
use tick_framework.Filesystem.Block.Engine.Indexing.{
  indexed, indexed-IsOpen, IsLogged, IsLogged-put,
}

-- What the store keeps for a key, against what an abstract map holds for it.
abbrev pub Keeps : Store → Bytes → Option Bytes → Type 0
Keeps s key none = lookup key s.block.index_table ≡ none
Keeps s key (some value) =
    (index : Index) × (lookup key s.block.index_table ≡ some index)
    × IsStored s.disk s.block.temp_dir index key value

pub record Represents (s : Store) (m : GoMap Bytes) : Type 0 where
  pub is_open : IsOpen s
  pub logged : IsLogged s.disk (index_path s.block) s.block.index_table
  pub keeps : (key : Bytes) → Keeps s key (lookup key m)

-- the answer of `Get`, by the abstract map
abbrev pub answer : Option Bytes → Res Error Bytes
answer none = fail key_not_exist
answer (some value) = ok value

pub get-Keeps : (s : Store) (key : Bytes) (o : Option Bytes) → Keeps s key o → get s key ≡ answer o
unfolding get read_index read_content
get-Keeps s key none h = rw (h, get, read_index)
get-Keeps s key (some value) (index, found, stored) =
    rw (found, get, read_index, stored.found, read_content, stored.starts, stored.measures)
      (read-stored stored.before key value stored.rest stored.fits stored.small)

-- `Get` answers what the abstract map holds: the value, or that the key does not exist.
pub get-Represents :
    (s : Store) (m : GoMap Bytes) (key : Bytes) → Represents s m → get s key ≡ answer (lookup key m)
get-Represents s m key r = get-Keeps s key (lookup key m) (r.keeps key)

-- A step that leaves the table alone and only appends to the files keeps every key.
pub Keeps-Spares :
    (s t : Store) (key : Bytes) (o : Option Bytes) → Spares s t → Keeps s key o → Keeps t key o
Keeps-Spares s t key none p h = ap (lookup key) p.same_table ∙ h
Keeps-Spares s t key (some value) p (index, found, stored) = (
  index,
  ap (lookup key) p.same_table ∙ found,
  subst (λ d. IsStored t.disk d index key value) (sym p.same_dir) (Grows-IsStored p.grows stored),
)

pub Represents-Progress :
    (s t : Store) (m : GoMap Bytes) → Progress s t → Represents s m → Represents t m
Represents-Progress s t m p r = record {
  is_open = p.open_after;
  logged = record {
    entries = r.logged.entries;
    present =
        ap (λ d. lookup (join d filename_block_index) t.disk.files) p.same_dir
        ∙ p.same_index_file
        ∙ r.logged.present;
    all_writable = r.logged.all_writable;
    agrees = λ key. r.logged.agrees key ∙ ap (lookup key) (sym p.same_table);
  };
  keeps = λ key. Keeps-Spares s t key (lookup key m) (Progress-Spares p) (r.keeps key);
}

-- A key that an index write does not touch is kept as it was.
Keeps-indexed :
    (s : Store) (key : Bytes) (index : Index) (table : GoMap Index) (j : Bytes) (o : Option Bytes)
    → lookup j table ≡ lookup j s.block.index_table
    → Keeps s j o
    → Keeps (indexed s key index table) j o
Keeps-indexed s key index table j none e h = e ∙ h
Keeps-indexed s key index table j (some value) e (i, found, stored) =
    (i, e ∙ found, Grows-IsStored (Grows-put _ _ s.disk) stored)

-- Both writes of an index entry: the table and the file change in the same way.
indexed-IsLogged :
    (s : Store) (key : Bytes) (index : Index)
    → IsOpen s
    → IsLogged s.disk (index_path s.block) s.block.index_table
    → IsWritable (key, index)
    → IsLogged
        (indexed s key index (apply_entry key index s.block.index_table)).disk
        (index_path s.block)
        (apply_entry key index s.block.index_table)
indexed-IsLogged s key index o l w =
    subst
      (λ p.
        IsLogged (put p (contents s.disk p ++ encode key (marshal_binary index)) s.disk)
          (index_path s.block) (apply_entry key index s.block.index_table))
      (sym o.index_file)
      (IsLogged-put s.disk (index_path s.block) s.block.index_table key index l w)

pub apply_entry_kept :
    (key : Bytes) (index : Index) (table : GoMap Index)
    → is_del index ≡ false
    → apply_entry key index table ≡ assign key index table
unfolding apply_entry
apply_entry_kept key index table h = rw h

apply_entry_deleted :
    (key : Bytes) (table : GoMap Index) → apply_entry key new_del_index table ≡ delete key table
unfolding apply_entry
apply_entry_deleted key table = refl

del-IsWritable :
    (key : Bytes) → Fits key (marshal_binary new_del_index) → IsWritable (key, new_del_index)
del-IsWritable key fits = record { fits = fits; well_sized = omega arith }

module _ (s : Store) (m : GoMap Bytes) (key : Bytes) (r : Represents s m) where
  pub assigned-Represents :
      (value : Bytes) (index : Index)
      → IsPlaced s.disk s.block.temp_dir index key value
      → IsWritable (key, index)
      → Represents (indexed s key index (assign key index s.block.index_table)) (assign key value m)
  assigned-Represents value index placed w =
      let after = indexed s key index (assign key index s.block.index_table) in
      record {
        is_open = indexed-IsOpen s key index _ r.is_open;
        logged =
            subst (λ t. IsLogged (indexed s key index t).disk (index_path s.block) t)
              (apply_entry_kept key index s.block.index_table placed.kept)
              (indexed-IsLogged s key index r.is_open r.logged w);
        keeps = λ j. elim (Bool-cases (bytes_eq key j)) [
          | inl equal ↦
              let same : key ≡ j = (bytes_eq_iff key j).0 equal in
              subst (Keeps after j) (sym (lookup-assign_eq key j value m equal)) (
                index,
                lookup-assign_eq key j index s.block.index_table equal,
                subst (λ k. IsStored after.disk s.block.temp_dir index k value) same
                    (Grows-IsStored (Grows-put _ _ s.disk) placed.stored),
              )
          | inr distinct ↦ subst (Keeps after j) (sym (lookup-assign_ne key j value m distinct)) (
              Keeps-indexed s key index _ j (lookup j m)
                (lookup-assign_ne key j index s.block.index_table distinct) (r.keeps j))
        ];
      }

  pub deleted-Represents :
      Fits key (marshal_binary new_del_index)
      → Represents (indexed s key new_del_index (delete key s.block.index_table)) (delete key m)
  deleted-Represents fits =
      let after = indexed s key new_del_index (delete key s.block.index_table) in
      record {
        is_open = indexed-IsOpen s key new_del_index _ r.is_open;
        logged =
            subst (λ t. IsLogged (indexed s key new_del_index t).disk (index_path s.block) t)
              (apply_entry_deleted key s.block.index_table)
              (indexed-IsLogged s key new_del_index r.is_open r.logged (del-IsWritable key fits));
        keeps = λ j. elim (Bool-cases (bytes_eq key j)) [
          | inl equal ↦
              subst (Keeps after j) (sym (lookup-delete_eq key j m equal))
                (lookup-delete_eq key j s.block.index_table equal)
          | inr distinct ↦ subst (Keeps after j) (sym (lookup-delete_ne key j m distinct)) (
              Keeps-indexed s key new_del_index _ j (lookup j m)
                (lookup-delete_ne key j s.block.index_table distinct) (r.keeps j))
        ];
      }
