-- ===== src/Filesystem/Block/Engine/Steps.antt =====
-- What the internal steps of the block store leave alone.
use tick_framework.Base.{
  some_eq, subst, ◌+◌, ◌<◌, ◌≡◌, refl, ◌∙◌, ◌⊎◌, inl, inr, true, false, [], append-nil, arith,
  Bytes, length, none, some, Bool-cases, lookup, bytes_eq, ok, fail, Option-cases, ltb, leb, ◌&&◌,
}
use tick_framework.Utility.Kvstore.{io_error}
use tick_framework.Filesystem.Block.Disk.{
  Disk, join, contents, put, open_append, trim_prefix, lookup-put_ne,
}
use tick_framework.Filesystem.Block.ContentFile.{ContentWriter, new_content_writer}
use tick_framework.Filesystem.Block.Engine.{
  Store, filename_block_index, index_path, switch_content_writer, update_content_writer,
}
use tick_framework.Filesystem.Block.Engine.Growth.{Grows, Grows-refl, Grows-trans, Grows-put}

-- A content file's path: it is not the index file's, and the name that an entry keeps is short.
pub record IsContentPath (dir path : Bytes) : Type 0 where
  pub apart : bytes_eq path (join dir filename_block_index) ≡ false
  pub short : 16 + length (trim_prefix path dir) < 2147483648

-- The writer's file stands in the directory beside the index file, and `written` is its length.
pub record IsWriterOpen (disk : Disk) (dir : Bytes) (w : ContentWriter) : Type 0 where
  pub name : Bytes
  pub placed : w.path ≡ join dir name
  pub good : IsContentPath dir w.path
  pub tracked : w.written ≡ length (contents disk w.path)

pub record IsOpen (s : Store) : Type 0 where
  pub writer :
      (w : ContentWriter) → s.block.content_writer ≡ some w → IsWriterOpen s.disk s.block.temp_dir w
  pub index_file : s.block.index_writer.path ≡ index_path s.block

-- A step that writes content: the index and the index file are as before.
pub record Progress (s t : Store) : Type 0 where
  pub grows : Grows s.disk t.disk
  pub open_after : IsOpen t
  pub same_dir : t.block.temp_dir ≡ s.block.temp_dir
  pub same_table : t.block.index_table ≡ s.block.index_table
  pub same_index_writer : t.block.index_writer ≡ s.block.index_writer
  pub same_index_file :
      lookup (index_path s.block) t.disk.files ≡ lookup (index_path s.block) s.disk.files
  pub same_rights : t.disk.writable ≡ s.disk.writable

-- A step that leaves the table alone and only appends to files, whatever becomes of it.
pub record Spares (s t : Store) : Type 0 where
  pub grows : Grows s.disk t.disk
  pub same_dir : t.block.temp_dir ≡ s.block.temp_dir
  pub same_table : t.block.index_table ≡ s.block.index_table

pub Progress-Spares : {s t : Store} → Progress s t → Spares s t
Progress-Spares p = record { grows = p.grows; same_dir = p.same_dir; same_table = p.same_table }

pub Spares-trans : (s t u : Store) → Spares s t → Spares t u → Spares s u
Spares-trans s t u p q = record {
  grows = Grows-trans s.disk t.disk u.disk p.grows q.grows;
  same_dir = q.same_dir ∙ p.same_dir;
  same_table = q.same_table ∙ p.same_table;
}

pub Progress-refl : (s : Store) → IsOpen s → Progress s s
Progress-refl s o = record {
  grows = Grows-refl s.disk;
  open_after = o;
  same_dir = refl;
  same_table = refl;
  same_index_writer = refl;
  same_index_file = refl;
  same_rights = refl;
}

pub Progress-trans : (s t u : Store) → Progress s t → Progress t u → Progress s u
Progress-trans s t u p q = record {
  grows = Grows-trans s.disk t.disk u.disk p.grows q.grows;
  open_after = q.open_after;
  same_dir = q.same_dir ∙ p.same_dir;
  same_table = q.same_table ∙ p.same_table;
  same_index_writer = q.same_index_writer ∙ p.same_index_writer;
  same_index_file = (rw p.same_dir at q.same_index_file) ∙ p.same_index_file;
  same_rights = q.same_rights ∙ p.same_rights;
}

-- A switch of the content writer that succeeds or fails spares what is stored.
module _ (stamp : Bytes) (s : Store) where
  switch-Spares : Spares s (switch_content_writer stamp s).1
  unfolding switch_content_writer new_content_writer open_append
  switch-Spares = elim (Bool-cases (s.disk.writable (join s.block.temp_dir stamp))) [
    | inl can ↦
        rw (can, switch_content_writer, new_content_writer, open_append)
          (record {
            grows =
                rw (← append-nil (contents s.disk (join s.block.temp_dir stamp)))
                  (Grows-put (join s.block.temp_dir stamp) [] s.disk);
            same_dir = refl;
            same_table = refl;
          })
    | inr cannot ↦
        rw (cannot, switch_content_writer, new_content_writer, open_append)
          (record { grows = Grows-refl s.disk; same_dir = refl; same_table = refl })
  ]

  update_content_writer_cases :
      (update_content_writer stamp s ≡ switch_content_writer stamp s)
      ⊎ ((update_content_writer stamp s ≡ (ok tt, s))
          × (w : ContentWriter) × (s.block.content_writer ≡ some w))
  unfolding update_content_writer
  update_content_writer_cases = elim (Option-cases s.block.content_writer) [
    | inl e ↦ inl (simp (e, update_content_writer))
    | inr (w, e) ↦ elim (Bool-cases (ltb 0 s.block.max_size && leb s.block.max_size w.written)) [
      | inl full ↦ inl (simp (e, update_content_writer, full))
      | inr room ↦ inr (simp (e, update_content_writer, room), w, e)
    ]
  ]

  pub update_content_writer-Spares : Spares s (update_content_writer stamp s).1
  update_content_writer-Spares = elim update_content_writer_cases [
    | inl e ↦ rw e switch-Spares
    | inr (e, _, _) ↦
        rw e (record { grows = Grows-refl s.disk; same_dir = refl; same_table = refl })
  ]

module _ (stamp : Bytes) (s : Store) (o : IsOpen s)
    (good : IsContentPath s.block.temp_dir (join s.block.temp_dir stamp)) where
  abbrev fresh : Bytes
  fresh = join s.block.temp_dir stamp

  abbrev switched : Store
  switched =
      let disk = put fresh (contents s.disk fresh) s.disk in
      record {
        block = record (s.block) {
          content_writer = some (record { path = fresh; written = length (contents disk fresh) });
        };
        disk = disk;
      }

  abbrev without_writer : Store
  without_writer = record s { block = record (s.block) { content_writer = none } }

  switch_ok : s.disk.writable fresh ≡ true → switch_content_writer stamp s ≡ (ok tt, switched)
  unfolding switch_content_writer new_content_writer open_append
  switch_ok h = ground arith

  switch_fail :
      s.disk.writable fresh ≡ false
      → switch_content_writer stamp s ≡ (fail io_error, without_writer)
  unfolding switch_content_writer new_content_writer open_append
  switch_fail h = ground arith

  switched-Progress : Progress s switched
  switched-Progress = record {
    grows = rw (← append-nil (contents s.disk fresh)) (Grows-put fresh [] s.disk);
    open_after = record {
      writer = λ w e.
          subst (IsWriterOpen switched.disk s.block.temp_dir) (some_eq e)
            (record { name = stamp; placed = refl; good = good; tracked = refl });
      index_file = o.index_file;
    };
    same_dir = refl;
    same_table = refl;
    same_index_writer = refl;
    same_index_file =
        lookup-put_ne fresh s.disk (contents s.disk fresh) (index_path s.block) good.apart;
    same_rights = refl;
  }

  without_writer-Progress : Progress s without_writer
  without_writer-Progress = record {
    grows = Grows-refl s.disk;
    open_after = record { writer = λ w e. cc; index_file = o.index_file };
    same_dir = refl;
    same_table = refl;
    same_index_writer = refl;
    same_index_file = refl;
    same_rights = refl;
  }

  -- Whatever the open of the new file does, a step that only switches the writer is safe.
  switch-Progress : Progress s (switch_content_writer stamp s).1
  switch-Progress = elim (Bool-cases (s.disk.writable fresh)) [
    | inl w ↦ rw (switch_ok w) switched-Progress
    | inr w ↦ rw (switch_fail w) without_writer-Progress
  ]

  pub update_content_writer-Progress : Progress s (update_content_writer stamp s).1
  update_content_writer-Progress = elim (update_content_writer_cases stamp s) [
    | inl e ↦ rw e switch-Progress
    | inr (e, _, _) ↦ rw e (Progress-refl s o)
  ]

  -- An update that succeeds leaves an open writer.
  pub update_content_writer-writer :
      (update_content_writer stamp s).0 ≡ ok tt
      → (w : ContentWriter) × ((update_content_writer stamp s).1.block.content_writer ≡ some w)
  update_content_writer-writer h = elim (update_content_writer_cases stamp s) [
    | inr (e, w, opened) ↦ (w, rw e opened)
    | inl e ↦ elim (Bool-cases (s.disk.writable fresh)) [
      | inl can ↦ (
        record { path = fresh; written = length (contents switched.disk fresh) },
        rw (e, switch_ok can),
      )
      | inr cannot ↦ absurd (ground (arith, e, switch_fail cannot))
    ]
  ]
