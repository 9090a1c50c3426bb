-- ===== src/Filesystem/Block/Dump/Replays.antt =====
-- filesystem/block/block.go: the entries of a table, with those of a buffer behind them, leave what
-- the whole history leaves.
use tick_framework.Base.{
  subst, some_eq, lookup-assign_eq, lookup-delete_eq, ◌≡◌, refl, sym, ◌∙◌, ap, ◌⊎◌, inl, inr, true,
  false, [], ◌∷◌, ◌++◌, none, some, Option, Bytes, All, GoMap, lookup, lookup-assign, lookup-delete,
  bytes_eq, bytes_eq_iff, Bool-cases, arith,
}
use tick_framework.Filesystem.Block.Index.{Index, is_del}
use tick_framework.Filesystem.Block.IndexFile.{apply_entry}
use tick_framework.Filesystem.Block.IndexFile.Replay.{Entries, IsWritable, replay}
use tick_framework.Filesystem.Block.Engine.Indexing.{replay-append, apply_entry-agrees}

is_absent : {index : Index} → none ≡ some index → ⊥
is_absent h = cc

-- Each key stands once.
abbrev pub Once : Entries → Type 0
Once [] = Unit
Once ((key, index) ∷ es) = (lookup key es ≡ none) × Once es

-- The entries are those of the table, each once, in some order.
pub record IsOrderOf (order : Entries) (table : GoMap Index) : Type 0 where
  pub all_there : All (λ e. lookup e.0 table ≡ some e.1) order
  pub once : Once order
  pub same : (key : Bytes) → lookup key order ≡ lookup key table

apply_entry_same :
    (k : Bytes) (index : Index) (key : Bytes) (a b : GoMap Index)
    → bytes_eq k key ≡ true
    → lookup key (apply_entry k index a) ≡ lookup key (apply_entry k index b)
unfolding apply_entry
apply_entry_same k index key a b equal = ground (
  arith,
  lookup-assign k key index a,
  lookup-assign k key index b,
  lookup-delete k key a,
  lookup-delete k key b,
)

apply_entry_other :
    (k : Bytes) (index : Index) (key : Bytes) (a : GoMap Index)
    → bytes_eq k key ≡ false
    → lookup key (apply_entry k index a) ≡ lookup key a
unfolding apply_entry
apply_entry_other k index key a distinct =
    ground (arith, lookup-assign k key index a, lookup-delete k key a)

-- A key's answer after some entries is fixed by them, or they leave it alone.
replay-cases :
    (es : Entries) (key : Bytes)
    → ((a b : GoMap Index) → lookup key (replay es a) ≡ lookup key (replay es b))
      ⊎ ((a : GoMap Index) → lookup key (replay es a) ≡ lookup key a)
replay-cases [] key = inr (λ a. refl)
replay-cases ((k, index) ∷ es) key = elim (replay-cases es key) [
  | inl fixed ↦ inl (λ a b. fixed (apply_entry k index a) (apply_entry k index b))
  | inr alone ↦ elim (Bool-cases (bytes_eq k key)) [
    | inl equal ↦ inl (λ a b.
        alone (apply_entry k index a)
        ∙ apply_entry_same k index key a b equal
        ∙ sym (alone (apply_entry k index b)))
    | inr distinct ↦
        inr (λ a. alone (apply_entry k index a) ∙ apply_entry_other k index key a distinct)
  ]
]

replay-agrees :
    (es : Entries) (a b : GoMap Index) (key : Bytes)
    → lookup key a ≡ lookup key b
    → lookup key (replay es a) ≡ lookup key (replay es b)
replay-agrees [] a b key h = h
replay-agrees ((k, index) ∷ es) a b key h =
    replay-agrees es (apply_entry k index a) (apply_entry k index b) key
      (apply_entry-agrees k index a b key h)

-- Entries that are replayed once more change no answer.
pub replay-replay :
    (es : Entries) (a : GoMap Index) (key : Bytes)
    → lookup key (replay es (replay es a)) ≡ lookup key (replay es a)
replay-replay es a key = elim (replay-cases es key) [
  | inl fixed ↦ fixed (replay es a) a
  | inr alone ↦ alone (replay es a)
]

abbrev or_lookup : Option Index → Option Index → Option Index
or_lookup none later = later
or_lookup (some index) later = some index

replay-Once :
    (order : Entries) (table : GoMap Index) (key : Bytes)
    → Once order
    → All (λ e. is_del e.1 ≡ false) order
    → lookup key (replay order table) ≡ or_lookup (lookup key order) (lookup key table)
unfolding lookup apply_entry
replay-Once [] table key once kept = refl
replay-Once ((k, index) ∷ es) table key (absent, once) (kept, all_kept) =
    let h = replay-Once es (apply_entry k index table) key once all_kept in
    elim (Bool-cases (bytes_eq k key)) [
      | inl equal ↦
          let here : lookup key es ≡ none =
            subst (λ j. lookup j es ≡ none) ((bytes_eq_iff k key).0 equal) absent in
          let put = lookup-assign k key index table in h ∙ rw (here, kept, put, equal)
      | inr distinct ↦ h ∙ rw (distinct, apply_entry_other k index key table distinct)
    ]

-- Every entry of the table can be written and marks no deletion.
abbrev pub Holds : GoMap Index → Type 0
Holds table =
    (key : Bytes) (index : Index)
    → lookup key table ≡ some index
    → IsWritable (key, index) × (is_del index ≡ false)

apply_entry-IsWritable :
    (k : Bytes) (i : Index) (table : GoMap Index)
    → IsWritable (k, i)
    → Holds table
    → Holds (apply_entry k i table)
unfolding apply_entry
apply_entry-IsWritable k i table w before key index e = elim (Bool-cases (bytes_eq k key)) [
  | inr distinct ↦ before key index (sym (apply_entry_other k i key table distinct) ∙ e)
  | inl equal ↦ elim (Bool-cases (is_del i)) [
    | inl gone ↦
        absurd (
          is_absent
            (sym (lookup-delete_eq k key table equal) ∙ ap (lookup key) (sym (rw gone)) ∙ e))
    | inr kept ↦
        let same : i ≡ index =
          some_eq
            (sym (lookup-assign_eq k key i table equal) ∙ ap (lookup key) (sym (rw kept)) ∙ e) in
        let here : k ≡ key = (bytes_eq_iff k key).0 equal in
        (
          subst (λ j. IsWritable (j, index)) here (subst (λ v. IsWritable (k, v)) same w),
          subst (λ v. is_del v ≡ false) same kept,
        )
  ]
]

-- Every entry that is in the table, after such entries, can be written and marks no deletion.
pub replay-IsWritable :
    (es : Entries) (table : GoMap Index) → All IsWritable es → Holds table → Holds (replay es table)
replay-IsWritable [] table ws before key index h = before key index h
replay-IsWritable ((k, i) ∷ es) table (w, ws) before key index h =
    replay-IsWritable es (apply_entry k i table) ws (apply_entry-IsWritable k i table w before) key
      index h

pub nothing_Holds : Holds []
unfolding lookup
nothing_Holds key index h = absurd (is_absent h)

order-kept :
    (order : Entries) (table : GoMap Index)
    → Holds table
    → All (λ e. lookup e.0 table ≡ some e.1) order
    → All (λ e. is_del e.1 ≡ false) order
order-kept [] table h all = tt
order-kept ((k, i) ∷ es) table h (e, all) = ((h k i e).1, order-kept es table h all)

pub order-IsWritable :
    (order : Entries) (table : GoMap Index)
    → Holds table
    → All (λ e. lookup e.0 table ≡ some e.1) order
    → All IsWritable order
order-IsWritable [] table h all = tt
order-IsWritable ((k, i) ∷ es) table h (e, all) = ((h k i e).0, order-IsWritable es table h all)

or_none : (o : Option Index) → or_lookup o none ≡ o
or_none none = refl
or_none (some index) = refl

-- What a dump leaves in the index file, the entries of the loaded table and then those of the
-- buffer, answers as the whole history; `mid` is in the file that was loaded, and in the buffer.
pub replay-compacted :
    (pre mid post order : Entries)
    → All IsWritable (pre ++ mid)
    → IsOrderOf order (replay (pre ++ mid) [])
    → (key : Bytes)
    → lookup key (replay (order ++ (mid ++ post)) [])
      ≡ lookup key (replay (pre ++ (mid ++ post)) [])
unfolding lookup
replay-compacted pre mid post order ws o key =
    let table = replay (pre ++ mid) [] in
    let kept =
      order-kept order table (replay-IsWritable (pre ++ mid) [] ws nothing_Holds) o.all_there in
    let start : lookup key (replay order []) ≡ lookup key table =
      replay-Once order [] key o.once kept ∙ or_none (lookup key order) ∙ o.same key in
    ap (lookup key) (replay-append order (mid ++ post) [])
    ∙ replay-agrees (mid ++ post) (replay order []) table key start
    ∙ ap (lookup key) (replay-append mid post table)
    ∙ replay-agrees post (replay mid table) table key (
        ap (λ t. lookup key (replay mid t)) (replay-append pre mid [])
        ∙ replay-replay mid (replay pre []) key
        ∙ ap (lookup key) (sym (replay-append pre mid [])))
    ∙ ap (lookup key) (
        ap (replay post) (replay-append pre mid [])
        ∙ sym (replay-append mid post (replay pre []))
        ∙ sym (replay-append pre (mid ++ post) []))
