-- ===== src/Filesystem/Block/Dump/Files.antt =====
-- filesystem/block/block.go: the files of a dump.
use tick_framework.Base.{
  ◌≡◌, refl, sym, ◌∙◌, ap, subst, true, false, [], ◌∷◌, ◌++◌, append_assoc, append-nil, some, Bytes,
  Bool, All, lookup, delete, lookup-assign_eq, lookup-assign_ne, lookup-delete_ne, bytes_eq,
  bytes_eq_refl, ok, arith,
}
use tick_framework.Utility.Kvstore.RoundTrip.{encode}
use tick_framework.Filesystem.Block.Index.{Index, marshal_binary}
use tick_framework.Filesystem.Block.Disk.{
  Disk, contents, put, rename, open_append, lookup-put_self, lookup-put_ne,
}
use tick_framework.Filesystem.Block.IndexFile
use tick_framework.Filesystem.Block.IndexFile.{IndexWriter, new_index_writer, buffer_write_to}
use tick_framework.Filesystem.Block.IndexFile.Replay.{Entries, IsWritable, log}
use tick_framework.Filesystem.Block.Engine.Indexing.{write_ok}
use tick_framework.Filesystem.Block.Dump.{write_entries}

-- A writer that buffers nothing.
abbrev pub plain_writer : Bytes → IndexWriter
plain_writer path = record { path = path; buffer = []; buffering = false }

-- The second disk has this content in the file, and is the first one otherwise.
pub record Differs (path content : Bytes) (from to : Disk) : Type 0 where
  pub holds : lookup path to.files ≡ some content
  pub others :
      (other : Bytes)
      → bytes_eq path other ≡ false
      → lookup other to.files ≡ lookup other from.files
  pub same_rights : to.writable ≡ from.writable

pub Differs-put :
    (path content : Bytes) (disk : Disk) → Differs path content disk (put path content disk)
Differs-put path content disk = record {
  holds = lookup-put_self path disk content;
  others = λ other h. lookup-put_ne path disk content other h;
  same_rights = refl;
}

pub Differs-trans :
    (path a b : Bytes) (d e f : Disk) → Differs path a d e → Differs path b e f → Differs path b d f
Differs-trans path a b d e f p q = record {
  holds = q.holds;
  others = λ other h. q.others other h ∙ p.others other h;
  same_rights = q.same_rights ∙ p.same_rights;
}

pub found_contents :
    (path content : Bytes) (disk : Disk)
    → lookup path disk.files ≡ some content
    → contents disk path ≡ content
unfolding contents
found_contents path content disk found = rw found

write_entries-step :
    (key : Bytes) (index : Index) (es : Entries) (w w' : IndexWriter) (disk disk' : Disk)
    → IndexFile.write w key index disk ≡ (ok w', disk')
    → write_entries ((key, index) ∷ es) w disk ≡ write_entries es w' disk'
unfolding write_entries
write_entries-step key index es w w' disk disk' e = simp (e, write_entries)

-- the writes of the entries, when the file can be written
pub write_entries-log :
    (es : Entries) (path before : Bytes) (disk : Disk)
    → lookup path disk.files ≡ some before
    → disk.writable path ≡ true
    → All IsWritable es
    → (after : Disk) × (write_entries es (plain_writer path) disk ≡ (ok (plain_writer path), after))
      × Differs path (before ++ log es) disk after
unfolding write_entries
write_entries-log [] path before disk found can ws = (
  disk,
  refl,
  record {
    holds = found ∙ ap some (sym (append-nil before));
    others = λ other h. refl;
    same_rights = refl;
  },
)
write_entries-log ((key, index) ∷ es) path before disk found can (w, ws) =
    let entry = encode key (marshal_binary index) in
    let disk' = put path (before ++ entry) disk in
    let step = Differs-put path (before ++ entry) disk in
    let e =
      write_ok (plain_writer path) key index disk w.fits can
      ∙ ap (λ c. (ok (plain_writer path), put path (c ++ entry) disk))
          (found_contents path before disk found) in
    let (after, done, differs) =
      write_entries-log es path (before ++ entry) disk' step.holds can ws in
    (
      after,
      write_entries-step key index es (plain_writer path) (plain_writer path) disk disk' e ∙ done,
      subst (λ c. Differs path c disk after) (append_assoc before entry (log es))
          (Differs-trans path _ _ disk disk' after step differs),
    )

pub new_index_writer_lem :
    (path : Bytes) (disk : Disk)
    → disk.writable path ≡ true
    → new_index_writer path true disk ≡ ok (plain_writer path, put path [] disk)
unfolding new_index_writer open_append
new_index_writer_lem path disk can = ground (arith, can)

-- the buffer behind what the new file has
pub buffer_write_to_lem :
    (own buffer : Bytes) (buffering : Bool) (path before : Bytes) (disk : Disk)
    → lookup path disk.files ≡ some before
    → disk.writable path ≡ true
    → (old : IndexWriter) × ((after : Disk) × (buffer_write_to
            (record { path = own; buffer = buffer; buffering = buffering })
            (plain_writer path)
            disk
          ≡ (ok tt, (old, plain_writer path, after)))
        × Differs path (before ++ buffer) disk after)
unfolding buffer_write_to
buffer_write_to_lem own [] buffering path before disk found can = (
  record { path = own; buffer = []; buffering = buffering },
  (
    disk,
    refl,
    record {
      holds = found ∙ ap some (sym (append-nil before));
      others = λ other h. refl;
      same_rights = refl;
    },
  ),
)
buffer_write_to_lem own (c ∷ s) buffering path before disk found can = (
  record { path = own; buffer = []; buffering = buffering },
  (
    put path (before ++ c ∷ s) disk,
    rw (can, found_contents path before disk found),
    Differs-put path (before ++ c ∷ s) disk,
  ),
)

pub rename_lem :
    (from to content : Bytes) (disk : Disk)
    → lookup from disk.files ≡ some content
    → (lookup to (rename from to disk).files ≡ some content)
      × ((other : Bytes)
          → bytes_eq from other ≡ false
          → bytes_eq to other ≡ false
          → lookup other (rename from to disk).files ≡ lookup other disk.files)
unfolding rename
rename_lem from to content disk found = (
  lookup-assign_eq to to (contents disk from) (delete from disk.files) (bytes_eq_refl to)
      ∙ ap some (found_contents from content disk found),
  λ other h k.
      lookup-assign_ne to other (contents disk from) (delete from disk.files) k
      ∙ lookup-delete_ne from other disk.files h,
)
