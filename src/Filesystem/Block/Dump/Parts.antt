-- ===== src/Filesystem/Block/Dump/Parts.antt =====
-- filesystem/block/block.go: the parts of a dump, what may come between them, and the whole.
use tick_framework.Base.{
  Res, ◌≡◌, ◌<◌, refl, sym, ◌∙◌, ap, subst, true, false, [], ◌∷◌, ◌++◌, append-nil, append_assoc,
  some, Bytes, All, All-append, GoMap, length, lookup, bytes_eq_comm, if◌then◌else◌, bytes_eq, ok,
  arith,
}
use tick_framework.Utility.Kvstore.RoundTrip.{encode}
use tick_framework.Filesystem.Block.Index.{is_del, Index, marshal_binary}
use tick_framework.Filesystem.Block.Disk.{
  Disk, join, strip, put, contents, lookup-put_self, lookup-put_ne,
}
use tick_framework.Filesystem.Block.IndexFile.{apply_entry, write_and_buffered}
use tick_framework.Filesystem.Block.IndexFile.Replay.{
  Entries, IsWritable, log, replay, load_index_from_file-log,
}
use tick_framework.Utility.Kvstore.{Error}
use tick_framework.Filesystem.Block.Engine.View.{apply_entry_kept}
use tick_framework.Filesystem.Block.Engine.Contract.{write_index_ok}
use tick_framework.Filesystem.Block.Engine.{write_index, Store, index_path, temp_path}
use tick_framework.Filesystem.Block.Engine.Indexing.{
  log-append, indexed, replay-append, apply_entry-agrees,
}
use tick_framework.Filesystem.Block.Dump.{
  begin_dump, write_entries, write_temp, end_dump, dump_index,
}
use tick_framework.Filesystem.Block.Dump.Replays.{
  IsOrderOf, replay-IsWritable, order-IsWritable, nothing_Holds,
}
use tick_framework.Filesystem.Block.Dump.Files.{
  plain_writer, found_contents, Differs, Differs-put, Differs-trans, write_entries-log,
  new_index_writer_lem,
}
use tick_framework.Filesystem.Block.Dump.Contract.{IsDumping, IsDumped, end_dump-IsDumped}

bytes_eq-append : (dir a b : Bytes) → bytes_eq (dir ++ a) (dir ++ b) ≡ bytes_eq a b
unfolding bytes_eq
bytes_eq-append [] a b = refl
bytes_eq-append (c ∷ dir) a b = let h = bytes_eq-append dir a b in ground (arith, h)

apart : (s : Store) → bytes_eq (temp_path s.block) (index_path s.block) ≡ false
unfolding join strip bytes_eq
apart s = bytes_eq-append s.block.temp_dir _ _

-- The index file as a dump finds it: its history is `pre` and then what the buffer has.
pub record IsBegun (s : Store) (pre mid : Entries) : Type 0 where
  pub in_file : lookup (index_path s.block) s.disk.files ≡ some (log (pre ++ mid))
  pub all_writable : All IsWritable (pre ++ mid)
  pub agrees : (key : Bytes) → lookup key (replay (pre ++ mid) []) ≡ lookup key s.block.index_table
  pub in_buffer : s.block.index_writer.buffer ≡ log mid
  pub small : length (log (pre ++ mid)) < 9223372036854775808
  pub can_write : s.disk.writable (temp_path s.block) ≡ true

module _ (range : GoMap Index → Entries) (s : Store) (pre mid : Entries) (b : IsBegun s pre mid)
    (ordered : IsOrderOf (range (replay (pre ++ mid) [])) (replay (pre ++ mid) [])) where
  abbrev order : Entries
  order = range (replay (pre ++ mid) [])

  abbrev emptied : Disk
  emptied = put (temp_path s.block) [] s.disk

  write_temp-step :
      (after : Disk)
      → write_entries order (plain_writer (temp_path s.block)) emptied
        ≡ (ok (plain_writer (temp_path s.block)), after)
      → write_temp range s ≡ some (ok (plain_writer (temp_path s.block)), after)
  unfolding write_temp
  write_temp-step after e = rw (
    load_index_from_file-log (pre ++ mid) (index_path s.block) s.disk b.in_file b.all_writable
        b.small,
    write_temp,
    new_index_writer_lem (temp_path s.block) s.disk b.can_write,
    e,
  )

  pub write_temp-IsDumping :
      (after : Disk) × (write_temp range s ≡ some (ok (plain_writer (temp_path s.block)), after))
      × Differs (temp_path s.block) (log order) s.disk after
      × IsDumping (record s { disk = after }) pre mid [] order
  write_temp-IsDumping =
      let start = Differs-put (temp_path s.block) [] s.disk in
      let ws =
        order-IsWritable order (replay (pre ++ mid) [])
          (replay-IsWritable (pre ++ mid) [] b.all_writable nothing_Holds) ordered.all_there in
      let (after, e, more) =
        write_entries-log order (temp_path s.block) [] emptied start.holds b.can_write ws in
      let differs =
        Differs-trans (temp_path s.block) [] (log order) s.disk emptied after start more in
      let none_more = sym (append-nil mid) in
      (
        after,
        write_temp-step after e,
        differs,
        record {
          in_file =
              differs.others (index_path s.block) (apart s)
              ∙ subst (λ m. lookup (index_path s.block) s.disk.files ≡ some (log (pre ++ m)))
                  none_more b.in_file;
          all_writable = subst (λ m. All IsWritable (pre ++ m)) none_more b.all_writable;
          agrees = λ key.
              subst (λ m. lookup key (replay (pre ++ m) []) ≡ lookup key s.block.index_table)
                none_more (b.agrees key);
          in_buffer = b.in_buffer ∙ ap log none_more;
          in_temp = differs.holds;
          ordered = ordered;
          can_write = ap (λ f. f (temp_path s.block)) differs.same_rights ∙ b.can_write;
        },
      )

log-snoc :
    (es : Entries) (key : Bytes) (index : Index)
    → log (es ++ (key, index) ∷ []) ≡ log es ++ encode key (marshal_binary index)
log-snoc es key index =
    log-append es ((key, index) ∷ [])
    ∙ ap (λ t. log es ++ t) (append-nil (encode key (marshal_binary index)))

-- an entry that is logged in the index file and in the buffer between the parts of a dump
IsDumping-indexed :
    (s : Store) (pre mid post order : Entries) (key : Bytes) (index : Index)
    → IsDumping s pre mid post order
    → s.block.index_writer.buffering ≡ true
    → s.block.index_writer.path ≡ index_path s.block
    → IsWritable (key, index)
    → IsDumping
        (indexed s key index (apply_entry key index s.block.index_table))
        pre
        mid
        (post ++ (key, index) ∷ [])
        order
IsDumping-indexed s pre mid post order key index d buffers path w =
    let entry = encode key (marshal_binary index) in
    let e = (key, index) ∷ [] in
    let regrouped : (pre ++ (mid ++ post)) ++ e ≡ pre ++ (mid ++ (post ++ e)) =
      append_assoc pre (mid ++ post) e ∙ ap (λ l. pre ++ l) (append_assoc mid post e) in
    record {
      in_file =
          subst
            (λ p.
              lookup (index_path s.block) (put p (contents s.disk p ++ entry) s.disk).files
              ≡ some (log (pre ++ (mid ++ (post ++ e)))))
            (sym path)
            (lookup-put_self (index_path s.block) s.disk _
              ∙ ap some (
                  ap (λ c. c ++ entry) (found_contents (index_path s.block) _ s.disk d.in_file)
                  ∙ sym (log-snoc (pre ++ (mid ++ post)) key index)
                  ∙ ap log regrouped));
      all_writable =
          subst (All IsWritable) regrouped
            (All-append IsWritable (pre ++ (mid ++ post)) e d.all_writable (w, tt));
      agrees = λ j.
          ap (λ l. lookup j (replay l [])) (sym regrouped)
          ∙ ap (lookup j) (replay-append (pre ++ (mid ++ post)) e [])
          ∙ apply_entry-agrees key index (replay (pre ++ (mid ++ post)) []) s.block.index_table j
              (d.agrees j);
      in_buffer =
          ap (λ f. if f then s.block.index_writer.buffer ++ entry else s.block.index_writer.buffer)
            buffers
          ∙ ap (λ b. b ++ entry) d.in_buffer
          ∙ sym (log-snoc (mid ++ post) key index)
          ∙ ap log (append_assoc mid post e);
      in_temp =
          subst
            (λ p.
              lookup (temp_path s.block) (put p (contents s.disk p ++ entry) s.disk).files
              ≡ some (log order))
            (sym path)
            (lookup-put_ne (index_path s.block) s.disk _ (temp_path s.block)
                (bytes_eq_comm (index_path s.block) (temp_path s.block) ∙ apart s)
              ∙ d.in_temp);
      ordered = d.ordered;
      can_write = d.can_write;
    }

-- SetIndex between the parts of a dump, of an entry that fits its fields and marks no deletion and
-- while the index file can be written, succeeds, and its entry joins what the dump has to keep.
pub write_index-IsDumping :
    (s : Store) (pre mid post order : Entries) (key : Bytes) (index : Index)
    → IsDumping s pre mid post order
    → s.block.index_writer.buffering ≡ true
    → s.block.index_writer.path ≡ index_path s.block
    → s.disk.writable s.block.index_writer.path ≡ true
    → IsWritable (key, index)
    → is_del index ≡ false
    → ((write_index key index s).0 ≡ ok tt)
      × IsDumping (write_index key index s).1 pre mid (post ++ (key, index) ∷ []) order
write_index-IsDumping s pre mid post order key index d buffers path can w kept =
    let e = write_index_ok key index s w.fits can in
    let table = apply_entry_kept key index s.block.index_table kept in
    (
      ap (λ (x : Res Error (Unit {0}) × Store). x.0) e,
      subst
          (λ (x : Res Error (Unit {0}) × Store).
            IsDumping x.1 pre mid (post ++ (key, index) ∷ []) order)
          (sym e)
          (subst (λ t. IsDumping (indexed s key index t) pre mid (post ++ (key, index) ∷ []) order)
            table (IsDumping-indexed s pre mid post order key index d buffers path w)),
    )

begin_dump-IsBegun :
    (s : Store) (pre mid : Entries) → IsBegun s pre mid → IsBegun (begin_dump s) pre mid
unfolding begin_dump write_and_buffered
begin_dump-IsBegun s pre mid b = record {
  in_file = b.in_file;
  all_writable = b.all_writable;
  agrees = b.agrees;
  in_buffer = b.in_buffer;
  small = b.small;
  can_write = b.can_write;
}

module _ (range : GoMap Index → Entries) (s : Store) (pre mid : Entries) (b : IsBegun s pre mid)
    (ordered : IsOrderOf (range (replay (pre ++ mid) [])) (replay (pre ++ mid) [])) where
  dump_index-step :
      (after : Disk)
      → write_temp range (begin_dump s) ≡ some (ok (plain_writer (temp_path s.block)), after)
      → dump_index range s
        ≡ some
            (end_dump (plain_writer (temp_path s.block)) (record (begin_dump s) { disk = after }))
  unfolding dump_index
  dump_index-step after e = rw (e, dump_index)

  -- A dump with nothing between its parts, from an index file that logs the table in memory and ends
  -- with what the buffer has, ends, succeeds while the temporary file can be written, and leaves an
  -- index file that rebuilds the table in memory, which is as before, as are all files but the index
  -- file and the temporary one.
  pub dump_index-IsDumped : (t : Store) × (dump_index range s ≡ some (ok tt, t)) × IsDumped s t
  unfolding begin_dump
  dump_index-IsDumped =
      let (after, e, differs, d) =
        write_temp-IsDumping range (begin_dump s) pre mid (begin_dump-IsBegun s pre mid b)
          ordered in
      let (t, done, dumped) =
        end_dump-IsDumped (record (begin_dump s) { disk = after }) pre mid []
          (range (replay (pre ++ mid) [])) d in
      (
        t,
        dump_index-step after e ∙ ap some done,
        record {
          logged = dumped.logged;
          same_table = dumped.same_table;
          same_dir = dumped.same_dir;
          same_writer = dumped.same_writer;
          open_file = dumped.open_file;
          others = λ path h k. dumped.others path h k ∙ differs.others path h;
        },
      )
