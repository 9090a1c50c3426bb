-- ===== src/Filesystem/Block/Dump/Contract.antt =====
-- filesystem/block/block.go: what a dump of the index promises, with writes between its parts.
use tick_framework.Base.{
  ◌≡◌, refl, sym, ◌∙◌, ap, true, false, [], ◌∷◌, ◌++◌, some, arith, Bytes, All, All-append, lookup,
  bytes_eq, ok,
}
use tick_framework.Filesystem.Block.Disk.{Disk, rename}
use tick_framework.Filesystem.Block.IndexFile.{IndexWriter, buffer_write_to}
use tick_framework.Filesystem.Block.IndexFile.Replay.{Entries, IsWritable, log, replay}
use tick_framework.Filesystem.Block.Engine.{Store, index_path, temp_path}
use tick_framework.Filesystem.Block.Engine.Indexing.{IsLogged, log-append}
use tick_framework.Filesystem.Block.Dump.{end_dump}
use tick_framework.Filesystem.Block.Dump.Replays.{
  IsOrderOf, replay-IsWritable, replay-compacted, order-IsWritable, nothing_Holds,
}
use tick_framework.Filesystem.Block.Dump.Files.{
  plain_writer, Differs, buffer_write_to_lem, rename_lem,
}

-- The history in the index file is `pre`, `mid` and `post`; the table that was loaded had `pre` and
-- `mid`, the buffer has `mid` and `post`, and the new file has the loaded table in some order.
pub record IsDumping (s : Store) (pre mid post order : Entries) : Type 0 where
  pub in_file : lookup (index_path s.block) s.disk.files ≡ some (log (pre ++ (mid ++ post)))
  pub all_writable : All IsWritable (pre ++ (mid ++ post))
  pub agrees :
      (key : Bytes) → lookup key (replay (pre ++ (mid ++ post)) []) ≡ lookup key s.block.index_table
  pub in_buffer : s.block.index_writer.buffer ≡ log (mid ++ post)
  pub in_temp : lookup (temp_path s.block) s.disk.files ≡ some (log order)
  pub ordered : IsOrderOf order (replay (pre ++ mid) [])
  pub can_write : s.disk.writable (temp_path s.block) ≡ true

All-front : (xs ys : Entries) → All IsWritable (xs ++ ys) → All IsWritable xs
All-front [] ys h = tt
All-front (x ∷ xs) ys (h, hs) = (h, All-front xs ys hs)

All-back : (xs ys : Entries) → All IsWritable (xs ++ ys) → All IsWritable ys
All-back [] ys h = h
All-back (x ∷ xs) ys (h, hs) = All-back xs ys hs

-- The index a dump leaves behind.
pub record IsDumped (s t : Store) : Type 0 where
  pub logged : IsLogged t.disk (index_path s.block) s.block.index_table
  pub same_table : t.block.index_table ≡ s.block.index_table
  pub same_dir : t.block.temp_dir ≡ s.block.temp_dir
  pub same_writer : t.block.content_writer ≡ s.block.content_writer
  pub open_file : t.block.index_writer ≡ plain_writer (index_path s.block)
  pub others :
      (path : Bytes)
      → bytes_eq (temp_path s.block) path ≡ false
      → bytes_eq (index_path s.block) path ≡ false
      → lookup path t.disk.files ≡ lookup path s.disk.files

dumped : Store → Disk → Store
dumped s after = record {
  block = record (s.block) { index_writer = plain_writer (index_path s.block) };
  disk = rename (temp_path s.block) (index_path s.block) after;
}

end_dump-step :
    (s : Store) (old : IndexWriter) (after : Disk)
    → buffer_write_to s.block.index_writer (plain_writer (temp_path s.block)) s.disk
      ≡ (ok tt, (old, plain_writer (temp_path s.block), after))
    → end_dump (plain_writer (temp_path s.block)) s ≡ (ok tt, dumped s after)
unfolding end_dump dumped
end_dump-step s old after e = ground (arith, e)

module _ (s : Store) (pre mid post order : Entries) (d : IsDumping s pre mid post order) where
  kept : Entries
  kept = order ++ (mid ++ post)

  kept-log : log order ++ s.block.index_writer.buffer ≡ log kept
  unfolding kept
  kept-log = ap (λ b. log order ++ b) d.in_buffer ∙ sym (log-append order (mid ++ post))

  loaded-IsWritable : All IsWritable (pre ++ mid)
  loaded-IsWritable =
      All-append IsWritable pre mid (All-front pre (mid ++ post) d.all_writable)
        (All-front mid post (All-back pre (mid ++ post) d.all_writable))

  kept-IsWritable : All IsWritable kept
  unfolding kept
  kept-IsWritable =
      All-append IsWritable order (mid ++ post)
        (order-IsWritable order (replay (pre ++ mid) [])
          (replay-IsWritable (pre ++ mid) [] loaded-IsWritable nothing_Holds) d.ordered.all_there)
        (All-back pre (mid ++ post) d.all_writable)

  dumped-IsDumped :
      (after : Disk)
      → Differs (temp_path s.block) (log order ++ s.block.index_writer.buffer) s.disk after
      → IsDumped s (dumped s after)
  unfolding dumped kept
  dumped-IsDumped after differs =
      let (held, others) =
        rename_lem (temp_path s.block) (index_path s.block) _ after differs.holds in
      record {
        logged = record {
          entries = kept;
          present = held ∙ ap some kept-log;
          all_writable = kept-IsWritable;
          agrees = λ key.
              replay-compacted pre mid post order loaded-IsWritable d.ordered key ∙ d.agrees key;
        };
        same_table = refl;
        same_dir = refl;
        same_writer = refl;
        open_file = refl;
        others = λ path h k. others path h k ∙ differs.others path h;
      }

  -- The end of a dump succeeds while the temporary file can be written, whatever Set and Del have
  -- logged since it began: the new index file rebuilds the table in memory, which is as before, as
  -- are all files but the index file and the temporary one.
  pub end_dump-IsDumped :
      (t : Store) × (end_dump (plain_writer (temp_path s.block)) s ≡ (ok tt, t)) × IsDumped s t
  end_dump-IsDumped =
      let w = s.block.index_writer in
      let (old, (after, e, differs)) =
        buffer_write_to_lem w.path w.buffer w.buffering (temp_path s.block) (log order) s.disk
          d.in_temp d.can_write in
      (dumped s after, end_dump-step s old after e, dumped-IsDumped after differs)
