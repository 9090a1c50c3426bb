-- ===== src/Filesystem/Block/Engine/Writes.antt =====
-- The write of a record to the open content file, and `writeContent` as a whole.
use tick_framework.Base.{
  ℕ, none, take, ◌+◌, ◌<◌, ◌≡◌, refl, ap, sym, ◌∙◌, ◌⊎◌, inl, inr, true, false, [], ◌++◌,
  append-nil, arith, Bytes, length, some, some_eq, subst, Bool-cases, lookup, Res, ok, fail,
  length-append, u32_small, ◌≢◌,
}
use tick_framework.Utility.Kvstore
use tick_framework.Utility.Kvstore.{Error, io_error, new_kvstore_data, size}
use tick_framework.Utility.Kvstore.RoundTrip.{
  encode, Fits, marshal_binary-new, length-encode, size-new,
}
use tick_framework.Filesystem.Block.Index.{Index, new_index}
use tick_framework.Filesystem.Block.Disk.{
  Disk, join, contents, put, trim_prefix, join-trim_prefix_of, length-trim_prefix, lookup-put_self,
  contents-put_self, lookup-put_ne,
}
use tick_framework.Filesystem.Block.ContentFile
use tick_framework.Filesystem.Block.ContentFile.{ContentWriter, new_content_writer}
use tick_framework.Filesystem.Block.Engine.{
  Store, index_path, update_content_writer, write_open_content, write_content,
}
use tick_framework.Filesystem.Block.Engine.Binds.{>>=_cases}
use tick_framework.Filesystem.Block.Engine.Growth.{Grows-put, IsPlaced}
use tick_framework.Filesystem.Block.Engine.Steps.{
  IsContentPath, IsWriterOpen, IsOpen, Progress, Progress-trans, update_content_writer-Progress,
  update_content_writer-writer,
}

pub set_ok :
    (content key value : Bytes)
    → Fits key value
    → Kvstore.set none content (new_kvstore_data key value) ≡ (ok tt, content ++ encode key value)
unfolding Kvstore.set
set_ok content key value h = simp (marshal_binary-new key value h, Kvstore.set)

pub set_fail :
    (n : ℕ) (content key value : Bytes)
    → Fits key value
    → Kvstore.set (some n) content (new_kvstore_data key value)
      ≡ (fail io_error, content ++ take n (encode key value))
unfolding Kvstore.set
set_fail n content key value h = simp (marshal_binary-new key value h, Kvstore.set)

-- No file reaches the length at which an offset is negative as an int64.
abbrev pub HasSmallFiles : Disk → Type 0
HasSmallFiles disk = (path : Bytes) → length (contents disk path) < 9223372036854775808

module _ (key value : Bytes) (fits : Fits key value) (s : Store) (w : ContentWriter)
    (e : s.block.content_writer ≡ some w) where
  abbrev pub entry : Index
  entry = new_index (trim_prefix w.path s.block.temp_dir) w.written (10 + length key + length value)

  abbrev pub grown : Store
  grown = record {
    block = record (s.block) {
      content_writer = some (record w { written = w.written + (10 + length key + length value) });
    };
    disk = put w.path (contents s.disk w.path ++ encode key value) s.disk;
  }

  write_ok : s.disk.writable w.path ≡ true → write_open_content key value s ≡ (ok entry, grown)
  unfolding write_open_content ContentFile.write
  write_ok can =
      ground
        (arith, e, can, set_ok (contents s.disk w.path) key value fits, size-new key value fits)

  write_fail : s.disk.writable w.path ≡ false → (write_open_content key value s).0 ≡ fail io_error
  unfolding write_open_content ContentFile.write
  write_fail cannot = ground (
    arith,
    e,
    cannot,
    set_fail (s.disk.torn_after w.path) (contents s.disk w.path) key value fits,
  )

  module _ (o : IsOpen s) where
    grown-Progress : Progress s grown
    grown-Progress =
        let u = o.writer w e in
        record {
          grows = Grows-put w.path (encode key value) s.disk;
          open_after = record {
            writer = λ w' e'.
                subst (IsWriterOpen grown.disk s.block.temp_dir) (some_eq e') (record {
                  name = u.name;
                  placed = u.placed;
                  good = u.good;
                  tracked = omega (
                    arith,
                    u.tracked,
                    ap length (
                        contents-put_self w.path s.disk
                          (contents s.disk w.path ++ encode key value)),
                    length-append (contents s.disk w.path) (encode key value),
                    length-encode key value,
                  );
                });
            index_file = o.index_file;
          };
          same_dir = refl;
          same_table = refl;
          same_index_writer = refl;
          same_index_file =
              lookup-put_ne w.path s.disk (contents s.disk w.path ++ encode key value)
                (index_path s.block) u.good.apart;
          same_rights = refl;
        }

    grown-IsPlaced :
        w.written < 9223372036854775808 → IsPlaced grown.disk s.block.temp_dir entry key value
    grown-IsPlaced small =
        let u = o.writer w e in
        record {
          stored = record {
            before = contents s.disk w.path;
            rest = [];
            found =
                ap (λ p. lookup p grown.disk.files)
                  (join-trim_prefix_of s.block.temp_dir u.name w.path u.placed)
                ∙ lookup-put_self w.path s.disk (contents s.disk w.path ++ encode key value)
                ∙ ap (λ t. some (contents s.disk w.path ++ t))
                    (sym (append-nil (encode key value)));
            starts = u.tracked;
            measures = refl;
            fits = fits;
            small = rw (← u.tracked) small;
          };
          sized = record {
            stated =
                u32_small (length (trim_prefix w.path s.block.temp_dir))
                  (omega (arith, u.good.short));
            small_name = omega (arith, u.good.short);
            small_offset = omega arith;
            small_length = fits;
          };
          short = u.good.short;
          kept =
              ground
                (arith, length-trim_prefix s.block.temp_dir u.name w.path u.placed, u.good.short);
        }

    pub write_open_content-Progress :
        (index : Index)
        → (write_open_content key value s).0 ≡ ok index
        → Progress s (write_open_content key value s).1
    write_open_content-Progress index h = elim (Bool-cases (s.disk.writable w.path)) [
      | inl can ↦ rw (write_ok can) grown-Progress
      | inr cannot ↦ absurd (ground (arith, write_fail cannot))
    ]

    pub write_open_content-IsPlaced :
        (index : Index)
        → (write_open_content key value s).0 ≡ ok index
        → HasSmallFiles (write_open_content key value s).1.disk
        → IsPlaced (write_open_content key value s).1.disk s.block.temp_dir index key value
    write_open_content-IsPlaced index h small = elim (Bool-cases (s.disk.writable w.path)) [
      | inr cannot ↦ absurd (ground (arith, write_fail cannot))
      | inl can ↦
          let u = o.writer w e in
          let files : HasSmallFiles grown.disk =
            subst (λ (r : Res Error Index × Store). HasSmallFiles r.1.disk) (write_ok can) small in
          let same : entry ≡ index = ground (arith, write_ok can) in
          let bound : w.written < 9223372036854775808 = omega (
            arith,
            u.tracked,
            files w.path,
            ap length
                (contents-put_self w.path s.disk (contents s.disk w.path ++ encode key value)),
            length-append (contents s.disk w.path) (encode key value),
          ) in
          subst
            (λ (r : Res Error Index × Store). IsPlaced r.1.disk s.block.temp_dir index key value)
            (sym (write_ok can))
            (subst (λ i. IsPlaced grown.disk s.block.temp_dir i key value) same
              (grown-IsPlaced bound))
    ]

-- `writeContent` that succeeds leaves the index and every stored record alone.
module _ (stamp key value : Bytes) (s : Store) (o : IsOpen s)
    (good : IsContentPath s.block.temp_dir (join s.block.temp_dir stamp))
    (fits : Fits key value) where
  abbrev updated : Store
  updated = (update_content_writer stamp s).1

  abbrev after : Store
  after = (write_content stamp key value s).1

  write_content_cases :
      (((update_content_writer stamp s).0 ≡ ok tt)
        × (write_content stamp key value s ≡ write_open_content key value updated))
      ⊎ ((after ≡ updated) × ((index : Index) → (write_content stamp key value s).0 ≢ ok index))
  unfolding write_content
  write_content_cases =
      elim (>>=_cases (update_content_writer stamp) (λ _. write_open_content key value) s) [
        | inl (done, e, bound) ↦ inl (e, bound)
        | inr stopped ↦ inr stopped
      ]

  pub write_content-Progress :
      (index : Index) → (write_content stamp key value s).0 ≡ ok index → Progress s after
  write_content-Progress index h = elim write_content_cases [
    | inl (done, e) ↦
        let up = update_content_writer-Progress stamp s o good in
        let (w, opened) = update_content_writer-writer stamp s o good done in
        subst (λ (r : Res Error Index × Store). Progress s r.1) (sym e)
          (Progress-trans s updated _ up (
            write_open_content-Progress key value fits updated w opened up.open_after index
              (ap (λ (r : Res Error Index × Store). r.0) (sym e) ∙ h)))
    | inr (_, stopped) ↦ absurd (stopped index h)
  ]

  pub write_content-IsPlaced :
      (index : Index)
      → (write_content stamp key value s).0 ≡ ok index
      → HasSmallFiles after.disk
      → IsPlaced after.disk s.block.temp_dir index key value
  write_content-IsPlaced index h small = elim write_content_cases [
    | inr (_, stopped) ↦ absurd (stopped index h)
    | inl (done, e) ↦
        let up = update_content_writer-Progress stamp s o good in
        let (w, opened) = update_content_writer-writer stamp s o good done in
        let stored =
          write_open_content-IsPlaced key value fits updated w opened up.open_after index
            (ap (λ (r : Res Error Index × Store). r.0) (sym e) ∙ h)
            (subst (λ (r : Res Error Index × Store). HasSmallFiles r.1.disk) e small) in
        subst (λ (r : Res Error Index × Store). IsPlaced r.1.disk s.block.temp_dir index key value)
          (sym e)
          (subst (λ d. IsPlaced (write_open_content key value updated).1.disk d index key value)
            up.same_dir stored)
  ]
