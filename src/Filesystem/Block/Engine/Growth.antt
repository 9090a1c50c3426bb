-- ===== src/Filesystem/Block/Engine/Growth.antt =====
-- The block store only appends to files, so what an index entry points at stays readable.
use tick_framework.Base.{
  ℕ, Option, take, subst, Res-cases, Option-cases, ◌+◌, ◌<◌, ◌≡◌, refl, ap, sym, ◌∙◌, inl, inr,
  false, [], ◌++◌, append_assoc, append-nil, arith, Bytes, length, some, Bool-cases, lookup,
  lookup-assign, bytes_eq, bytes_eq_iff, ok, copy_into_exact, u32_small,
}
use tick_framework.Utility.Kvstore
use tick_framework.Utility.Kvstore.{Error, KvstoreData, new_kvstore_data, size}
use tick_framework.Utility.Kvstore.RoundTrip.{
  encode, Fits, get_data-encode, unmarshal_binary-encode, size-new,
}
use tick_framework.Filesystem.Block.Index.{Index, is_del}
use tick_framework.Filesystem.Block.Index.Codec.{IsWellSized}
use tick_framework.Filesystem.Block.Disk.{Disk, join, contents, put, refusal}
use tick_framework.Filesystem.Block.ContentFile

-- Every file is still there, and begins with what it held.
abbrev pub Grows : Disk → Disk → Type 0
Grows disk disk' =
    (path content : Bytes)
    → lookup path disk.files ≡ some content
    → (more : Bytes) × (lookup path disk'.files ≡ some (content ++ more))

pub Grows-refl : (disk : Disk) → Grows disk disk
Grows-refl disk path content h = ([], h ∙ ap some (sym (append-nil content)))

pub Grows-trans : (a b c : Disk) → Grows a b → Grows b c → Grows a c
Grows-trans a b c f g path content h =
    let (more, h') = f path content h in
    let (most, h'') = g path (content ++ more) h' in
    (more ++ most, h'' ∙ ap some (append_assoc content more most))

pub Grows-put :
    (path more : Bytes) (disk : Disk) → Grows disk (put path (contents disk path ++ more) disk)
unfolding contents
Grows-put path more disk other content h = elim (Bool-cases (bytes_eq path other)) [
  | inl equal ↦
      let same : path ≡ other = (bytes_eq_iff path other).0 equal in
      (more, rw (lookup-assign, equal, same, h))
  | inr distinct ↦ ([], rw (lookup-assign, distinct, append-nil, h))
]

-- Whatever becomes of a `Set`, the file begins with what it held.
pub set-more :
    (refused : Option ℕ) (content : Bytes) (d : KvstoreData)
    → (more : Bytes) × ((Kvstore.set refused content d).1 ≡ content ++ more)
unfolding Kvstore.set
set-more refused content d = elim (Res-cases (Kvstore.marshal_binary d)) [
  | inl (data', e) ↦ elim (Option-cases refused) [
    | inl whole ↦ (data', simp (e, whole, Kvstore.set))
    | inr (n, torn) ↦ (take n data', simp (e, torn, Kvstore.set))
  ]
  | inr (inl (x, e)) ↦ ([], simp (e, Kvstore.set, append-nil))
  | inr (inr e) ↦ ([], simp (e, Kvstore.set, append-nil))
]

pub Grows-set :
    (path : Bytes) (disk : Disk) (d : KvstoreData)
    → Grows disk (put path (Kvstore.set (refusal disk path) (contents disk path) d).1 disk)
Grows-set path disk d =
    let (more, e) = set-more (refusal disk path) (contents disk path) d in
    subst (λ c. Grows disk (put path c disk)) (sym e) (Grows-put path more disk)

-- The entry points at a record of the key with this value.
pub record IsStored (disk : Disk) (dir : Bytes) (index : Index) (key value : Bytes) : Type 0 where
  pub before : Bytes
  pub rest : Bytes
  pub found :
      lookup (join dir index.filename_content) disk.files
      ≡ some (before ++ (encode key value ++ rest))
  pub starts : index.offset ≡ length before
  pub measures : index.content_length ≡ 10 + length key + length value
  pub fits : Fits key value
  pub small : length before < 9223372036854775808

-- The entry points at such a record, and can itself be written to the index file.
pub record IsPlaced (disk : Disk) (dir : Bytes) (index : Index) (key value : Bytes) : Type 0 where
  pub stored : IsStored disk dir index key value
  pub sized : IsWellSized index
  pub short : 16 + length index.filename_content < 2147483648
  pub kept : is_del index ≡ false

pub Grows-IsStored :
    {disk disk' : Disk} {dir : Bytes} {index : Index} {key value : Bytes}
    → Grows disk disk'
    → IsStored disk dir index key value
    → IsStored disk' dir index key value
Grows-IsStored {disk} {disk'} {dir} {index} {key} {value} g h =
    let (more, found) = g _ _ h.found in
    record {
      before = h.before;
      rest = h.rest ++ more;
      found =
          found
          ∙ ap some (
              append_assoc h.before (encode key value ++ h.rest) more
              ∙ ap (λ t. h.before ++ t) (append_assoc (encode key value) h.rest more));
      starts = h.starts;
      measures = h.measures;
      fits = h.fits;
      small = h.small;
    }

-- The reader returns the value of a stored record.
pub read-stored :
    (before key value rest : Bytes)
    → Fits key value
    → length before < 9223372036854775808
    → ContentFile.read
        (before ++ (encode key value ++ rest))
        (length before)
        (10 + length key + length value)
      ≡ ok value
unfolding ContentFile.read Kvstore.get
read-stored before key value rest h small =
    rw
      (
        get_data-encode before key value rest h small,
        unmarshal_binary-encode key value h,
        size-new key value h,
        u32_small (length value) (omega arith),
        copy_into_exact (length value) value refl,
      )
      (ground arith)
