-- ===== src/Filesystem/Block/Engine/Contract.antt =====
-- What `Set` and `Del` of the block store promise, and what a restart finds.
use tick_framework.Base.{
  ◌<◌, ◌≡◌, ◌≢◌, ap, sym, ◌∙◌, subst, true, false, ◌⊎◌, inl, inr, refl, take, ◌++◌, [], arith,
  Bytes, length, some, Bool-cases, GoMap, lookup, assign, delete, Res, ok, fail,
}
use tick_framework.Utility.Kvstore.{Error, io_error}
use tick_framework.Utility.Kvstore.RoundTrip.{encode, Fits}
use tick_framework.Filesystem.Block.Index.{Index, marshal_binary, new_del_index}
use tick_framework.Filesystem.Block.Index.Codec.{length-marshal_binary}
use tick_framework.Filesystem.Block.Disk.{contents, join, put}
use tick_framework.Filesystem.Block.IndexFile.{load_index_from_file}
use tick_framework.Filesystem.Block.IndexFile.Replay.{replay, load_index_from_file-log}
use tick_framework.Filesystem.Block.Engine.{Store, index_path, set, del, write_content, write_index}
use tick_framework.Filesystem.Block.Engine.Binds.{>>=_cases}
use tick_framework.Filesystem.Block.Engine.Growth.{IsPlaced, Grows-put}
use tick_framework.Filesystem.Block.Engine.Steps.{IsContentPath, Spares}
use tick_framework.Filesystem.Block.Engine.Failures.{Answers, Spares-Answers}
use tick_framework.Filesystem.Block.Engine.Writes.{
  HasSmallFiles, write_content-Progress, write_content-IsPlaced,
}
use tick_framework.Filesystem.Block.Engine.Indexing.{write_ok, write_fail, indexed}
use tick_framework.Filesystem.Block.Engine.View.{
  Represents, Represents-Progress, assigned-Represents, deleted-Represents,
}

module _ (key : Bytes) (index : Index) (s : Store) (fits : Fits key (marshal_binary index)) where
  pub write_index_ok :
      s.disk.writable s.block.index_writer.path ≡ true
      → write_index key index s
        ≡ (ok tt, indexed s key index (assign key index s.block.index_table))
  unfolding write_index
  write_index_ok can =
      let e = write_ok s.block.index_writer key index s.disk fits can in ground (arith, e)

  write_index_fail :
      s.disk.writable s.block.index_writer.path ≡ false
      → (write_index key index s).0 ≡ fail io_error
  unfolding write_index
  write_index_fail cannot =
      let e = write_fail s.block.index_writer key index s.disk fits cannot in ground (arith, e)

  write_index-Represents :
      (value : Bytes) (m : GoMap Bytes)
      → Represents s m
      → IsPlaced s.disk s.block.temp_dir index key value
      → (write_index key index s).0 ≡ ok tt
      → Represents (write_index key index s).1 (assign key value m)
  write_index-Represents value m r placed done =
      elim (Bool-cases (s.disk.writable s.block.index_writer.path)) [
        | inl can ↦ rw (write_index_ok can) (
            assigned-Represents s m key r value index placed
              (record { fits = fits; well_sized = placed.sized }))
        | inr cannot ↦ absurd (ground (arith, write_index_fail cannot))
      ]

module _ (stamp key value : Bytes) (s : Store) (m : GoMap Bytes) (r : Represents s m)
    (good : IsContentPath s.block.temp_dir (join s.block.temp_dir stamp)) (fits : Fits key value)
    (short : length key < 2147483638)
    (small : HasSmallFiles (write_content stamp key value s).1.disk) where
  abbrev written : Store
  written = (write_content stamp key value s).1

  written-Represents :
      (index : Index) → (write_content stamp key value s).0 ≡ ok index → Represents written m
  written-Represents index e =
      Represents-Progress s written m
        (write_content-Progress stamp key value s r.is_open good fits index e) r

  set_cases :
      ((index : Index) × ((write_content stamp key value s).0 ≡ ok index)
        × (set stamp key value s ≡ write_index key index written))
      ⊎ (((set stamp key value s).1 ≡ written)
          × ((u : Unit {0}) → (set stamp key value s).0 ≢ ok u))
  unfolding set
  set_cases = >>=_cases (write_content stamp key value) (write_index key) s

  IsPlaced-written :
      (index : Index)
      → (write_content stamp key value s).0 ≡ ok index
      → IsPlaced written.disk written.block.temp_dir index key value
  IsPlaced-written index e =
      subst (λ d. IsPlaced written.disk d index key value)
        (sym (write_content-Progress stamp key value s r.is_open good fits index e).same_dir)
        (write_content-IsPlaced stamp key value s r.is_open good fits index e small)

  Fits-written :
      (index : Index)
      → IsPlaced written.disk written.block.temp_dir index key value
      → Fits key (marshal_binary index)
  Fits-written index placed = omega (arith, length-marshal_binary index, placed.short)

  -- Of a key and a value whose record is shorter than 2^32 bytes, the key of less than 2147483638,
  -- where the path of a new content file is not the index file's and its name has less than
  -- 2147483632 bytes, and where every file is shorter than 2^63 bytes after the content is
  -- written: on a store that represents a map, a Set that returns no error leaves one that
  -- represents the map with the value under the key, in the table as in the index file.
  pub set-Represents :
      (set stamp key value s).0 ≡ ok tt → Represents (set stamp key value s).1 (assign key value m)
  set-Represents done = elim set_cases [
    | inr (_, stopped) ↦ absurd (stopped tt done)
    | inl (index, e, same) ↦
        let placed = IsPlaced-written index e in
        subst (λ (x : Res Error (Unit {0}) × Store). Represents x.1 (assign key value m)) (sym same)
          (write_index-Represents key index written (Fits-written index placed) value m
            (written-Represents index e) placed
            (ap (λ (x : Res Error (Unit {0}) × Store). x.0) (sym same) ∙ done))
  ]

module _ (key : Bytes) (s : Store) (m : GoMap Bytes) (r : Represents s m)
    (short : length key < 2147483648) where
  Fits-deleted : Fits key (marshal_binary new_del_index)
  Fits-deleted = omega (arith, length-marshal_binary new_del_index)

  -- The store with these bytes behind the index file.
  abbrev cut_off : Bytes → Store
  cut_off more = record s {
    disk = put s.block.index_writer.path (contents s.disk s.block.index_writer.path ++ more) s.disk;
  }

  cut_off-Spares : (more : Bytes) → Spares s (cut_off more)
  cut_off-Spares more = record {
    grows = Grows-put _ more s.disk;
    same_dir = refl;
    same_table = refl;
  }

  -- Del of a key shorter than 2^31 bytes, on a store that represents a map, returns no error and
  -- leaves a store that represents the map without the key, or it fails and changes no answer of Get,
  -- whatever part of its entry is left in the index file.
  pub del-Represents :
      (((del key s).0 ≡ ok tt) × Represents (del key s).1 (delete key m))
      ⊎ (((del key s).0 ≡ fail io_error) × Answers (del key s).1 m)
  unfolding del
  del-Represents = elim (Bool-cases (s.disk.writable s.block.index_writer.path)) [
    | inl can ↦
        let e = write_ok s.block.index_writer key new_del_index s.disk Fits-deleted can in
        let gone : del key s
            ≡ (ok tt, indexed s key new_del_index (delete key s.block.index_table)) =
          ground (arith, e) in
        inl (rw gone, rw gone (deleted-Represents s m key r Fits-deleted))
    | inr cannot ↦
        let e = write_fail s.block.index_writer key new_del_index s.disk Fits-deleted cannot in
        let torn_entry : Bytes =
          take (s.disk.torn_after s.block.index_writer.path)
            (encode key (marshal_binary new_del_index)) in
        let torn : del key s ≡ (fail io_error, cut_off torn_entry) = ground (arith, e) in
        inr
          (rw torn, rw torn (Spares-Answers s (cut_off torn_entry) m r (cut_off-Spares torn_entry)))
  ]

-- After a restart, loading the index file, if it is shorter than 2^63 bytes, of a store that
-- represents a map ends and gives a table that agrees with the one in memory on every key.
pub reload-Represents :
    (s : Store) (m : GoMap Bytes)
    → Represents s m
    → length (contents s.disk (index_path s.block)) < 9223372036854775808
    → (table : GoMap Index) × (load_index_from_file (index_path s.block) s.disk ≡ some (ok table))
      × ((key : Bytes) → lookup key table ≡ lookup key s.block.index_table)
unfolding contents
reload-Represents s m r small =
    let l = r.logged in
    (
      replay l.entries [],
      load_index_from_file-log l.entries (index_path s.block) s.disk l.present l.all_writable
          (rw l.present at small),
      l.agrees,
    )
