-- ===== src/Filesystem/Block/Engine/Failures.antt =====
-- filesystem/block/block.go: what a `Set` or `Del` that fails leaves, with a part of a record behind
-- the last whole one of a file.
use tick_framework.Base.{
  ◌≡◌, ◌≢◌, refl, ap, sym, ◌∙◌, subst, inl, inr, Bytes, GoMap, lookup, Res, ok, Res-cases,
  Option-cases, arith,
}
use tick_framework.Utility.Kvstore
use tick_framework.Utility.Kvstore.{Error, KvstoreData, new_kvstore_data}
use tick_framework.Filesystem.Block.Index.{Index, marshal_binary}
use tick_framework.Filesystem.Block.Disk.{Disk, contents, put, refusal}
use tick_framework.Filesystem.Block.ContentFile
use tick_framework.Filesystem.Block.IndexFile
use tick_framework.Filesystem.Block.Engine.{
  Store, set, get, write_content, write_index, write_open_content, update_content_writer,
}
use tick_framework.Filesystem.Block.Engine.Binds.{>>=_cases}
use tick_framework.Filesystem.Block.Engine.Growth.{Grows-refl, Grows-set}
use tick_framework.Filesystem.Block.Engine.Steps.{
  Spares, Spares-trans, update_content_writer-Spares,
}
use tick_framework.Filesystem.Block.Engine.View.{Represents, Keeps-Spares, get-Keeps, answer}

Spares-refl : (s : Store) → Spares s s
Spares-refl s = record { grows = Grows-refl s.disk; same_dir = refl; same_table = refl }

-- The file with what a write of a record leaves there, in whichever way the write ends.
abbrev appended : Bytes → KvstoreData → Disk → Disk
appended path d disk = put path (Kvstore.set (refusal disk path) (contents disk path) d).1 disk

Spares-appended :
    (s t : Store) (path : Bytes) (d : KvstoreData)
    → (t.disk ≡ appended path d s.disk)
      × (t.block.temp_dir ≡ s.block.temp_dir)
      × (t.block.index_table ≡ s.block.index_table)
    → Spares s t
Spares-appended s t path d (e, dir, table) = record {
  grows = rw e (Grows-set path s.disk d);
  same_dir = dir;
  same_table = table;
}

write_open_content-Spares :
    (key value : Bytes) (s : Store) → Spares s (write_open_content key value s).1
unfolding write_open_content ContentFile.write
write_open_content-Spares key value s = elim (Option-cases s.block.content_writer) [
  | inl e ↦
      let same : (write_open_content key value s).1 ≡ s = ground (arith, e) in
      subst (Spares s) (sym same) (Spares-refl s)
  | inr (w, e) ↦
      let d = new_kvstore_data key value in
      Spares-appended s _ w.path d
        (elim (Res-cases (Kvstore.set (refusal s.disk w.path) (contents s.disk w.path) d).0) [
          | inl (u, done) ↦ ground (arith, e, done)
          | inr (inl (x, failed)) ↦ ground (arith, e, failed)
          | inr (inr crashed) ↦ ground (arith, e, crashed)
        ])
]

write_content-Spares :
    (stamp key value : Bytes) (s : Store) → Spares s (write_content stamp key value s).1
unfolding write_content
write_content-Spares stamp key value s =
    let up = update_content_writer-Spares stamp s in
    elim (>>=_cases (update_content_writer stamp) (λ _. write_open_content key value) s) [
      | inl (_, _, e) ↦
          subst (λ (x : Res Error Index × Store). Spares s x.1) (sym e)
            (Spares-trans s _ _ up (write_open_content-Spares key value _))
      | inr (e, _) ↦ subst (Spares s) (sym e) up
    ]

write_index_failed-Spares :
    (key : Bytes) (index : Index) (s : Store)
    → (write_index key index s).0 ≢ ok tt
    → Spares s (write_index key index s).1
unfolding write_index IndexFile.write
write_index_failed-Spares key index s failed =
    let w = s.block.index_writer in
    let d = new_kvstore_data key (marshal_binary index) in
    elim (Res-cases (Kvstore.set (refusal s.disk w.path) (contents s.disk w.path) d).0) [
      | inl (u, done) ↦ absurd (ground (arith, done))
      | inr (inl (x, e)) ↦ Spares-appended s _ w.path d (ground (arith, e))
      | inr (inr e) ↦ Spares-appended s _ w.path d (ground (arith, e))
    ]

-- The store answers `Get` by this map.
abbrev pub Answers : Store → GoMap Bytes → Type 0
Answers s m = (key : Bytes) → get s key ≡ answer (lookup key m)

pub Spares-Answers : (s t : Store) (m : GoMap Bytes) → Represents s m → Spares s t → Answers t m
Spares-Answers s t m r p key =
    get-Keeps t key (lookup key m) (Keeps-Spares s t key (lookup key m) p (r.keeps key))

-- A Set that fails on a store that represents a map, at the open or the write of the content file or
-- at the write of the index file, and leaves any part of a record there, changes no answer of Get.
pub set_failed-Answers :
    (stamp key value : Bytes) (s : Store) (m : GoMap Bytes)
    → Represents s m
    → (set stamp key value s).0 ≢ ok tt
    → Answers (set stamp key value s).1 m
unfolding set
set_failed-Answers stamp key value s m r failed =
    let content = write_content-Spares stamp key value s in
    elim (>>=_cases (write_content stamp key value) (write_index key) s) [
      | inr (e, _) ↦ Spares-Answers s _ m r (subst (Spares s) (sym e) content)
      | inl (index, _, e) ↦
          let stays =
            write_index_failed-Spares key index (write_content stamp key value s).1
              (λ h. failed (ap (λ (x : Res Error (Unit {0}) × Store). x.0) e ∙ h)) in
          Spares-Answers s _ m r (
            subst (λ (x : Res Error (Unit {0}) × Store). Spares s x.1) (sym e)
              (Spares-trans s _ _ content stays))
    ]
