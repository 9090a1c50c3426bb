-- ===== src/Convert/RoundTrip.antt =====
-- Values survive the way to pointers and back, and slices share their cells with their source.
use tick_framework.Base.{
  ℕ, zero, suc, ◌+◌, ◌≤◌, ◌<◌, ◌≡◌, refl, sym, ap, ◌∙◌, List, [], ◌∷◌, ◌++◌, map, none, some, Bytes,
  GoMap, lookup, assign, bytes_eq, ◌==◌, if◌then◌else◌, length, length-append, take, drop, All,
  arith, false, append_assoc, append-nil,
}
use tick_framework.Convert.{
  Heap, Pointer, Slice, read, write, value, addresses, slice, value_slice, map_from, pointer_map,
  value_map_from, value_map,
}

module _ {V : Type 0} (zero_value : V) where
  read-append :
      (cells more : Heap V) (a : ℕ)
      → a < length cells
      → read zero_value (cells ++ more) a ≡ read zero_value cells a
  unfolding read
  read-append [] more a h = absurd (omega arith)
  read-append (v ∷ cells) more zero h = refl
  read-append (v ∷ cells) more (suc a) h = read-append cells more a (omega arith)

  read-snoc :
      (cells : Heap V) (v : V) (more : Heap V)
      → read zero_value (cells ++ v ∷ more) (length cells) ≡ v
  unfolding read
  read-snoc [] v more = refl
  read-snoc (w ∷ cells) v more = read-snoc cells v more

  -- The cells of a slice.
  abbrev pub window : Heap V → Slice → List V
  window cells s = take s.count (drop s.base cells)

  drop-read :
      (cells : Heap V) (base : ℕ)
      → base < length cells
      → drop base cells ≡ read zero_value cells base ∷ drop (suc base) cells
  unfolding read
  drop-read [] base h = absurd (omega arith)
  drop-read (v ∷ cells) zero h = refl
  drop-read (v ∷ cells) (suc base) h = drop-read cells base (omega arith)

  value_slice-addresses :
      (cells : Heap V) (base count : ℕ)
      → base + count ≤ length cells
      → value_slice zero_value cells (addresses base count) ≡ take count (drop base cells)
  unfolding value_slice addresses value
  value_slice-addresses cells base zero h = refl
  value_slice-addresses cells base (suc count) h =
      ap (λ vs. read zero_value cells base ∷ vs)
        (value_slice-addresses cells (suc base) count (omega arith))
      ∙ sym (ap (take (suc count)) (drop-read cells base (omega arith)))

  -- The values behind the pointers to a slice are the values of the slice.
  pub value_slice-slice :
      (cells : Heap V) (s : Slice)
      → s.base + s.count ≤ length cells
      → value_slice zero_value cells (slice s) ≡ window cells s
  unfolding slice
  value_slice-slice cells s h = value_slice-addresses cells s.base s.count h

  read-write :
      (cells : Heap V) (a b : ℕ) (v : V)
      → a < length cells
      → read zero_value (write cells a v) b ≡ (if a == b then v else read zero_value cells b)
  unfolding read write
  read-write [] a b v h = absurd (omega arith)
  read-write (w ∷ cells) zero zero v h = refl
  read-write (w ∷ cells) zero (suc b) v h = ground arith
  read-write (w ∷ cells) (suc a) zero v h = ground arith
  read-write (w ∷ cells) (suc a) (suc b) v h = ground (arith, read-write cells a b v)

-- No key stands twice.
abbrev pub KeysOnce : {V : Type 0} → GoMap V → Type 0
KeysOnce [] = Unit
KeysOnce ((k, v) ∷ m) = All (λ f. bytes_eq k f.0 ≡ false) m × KeysOnce m

-- The keys of the first map are not in the second one.
abbrev Apart : {V W : Type 0} → GoMap V → GoMap W → Type 0
Apart m dst = All (λ e. lookup e.0 dst ≡ none) m

assign-fresh :
    {W : Type 0} (k : Bytes) (w : W) (dst : GoMap W)
    → lookup k dst ≡ none
    → assign k w dst ≡ dst ++ (k, w) ∷ []
unfolding lookup assign
assign-fresh k w [] h = refl
assign-fresh k w ((j, x) ∷ dst) h = ground (arith, assign-fresh k w dst)

lookup-snoc :
    {W : Type 0} (k j : Bytes) (w : W) (dst : GoMap W)
    → lookup j dst ≡ none
    → bytes_eq k j ≡ false
    → lookup j (dst ++ (k, w) ∷ []) ≡ none
unfolding lookup
lookup-snoc k j w [] h n = rw n
lookup-snoc k j w ((i, x) ∷ dst) h n = ground (arith, lookup-snoc k j w dst)

Apart-snoc :
    {V W : Type 0} (k : Bytes) (w : W) (m : GoMap V) (dst : GoMap W)
    → All (λ f. bytes_eq k f.0 ≡ false) m
    → Apart m dst
    → Apart m (dst ++ (k, w) ∷ [])
Apart-snoc k w [] dst n a = tt
Apart-snoc k w ((j, v) ∷ m) dst (n, ns) (h, a) =
    (lookup-snoc k j w dst h n, Apart-snoc k w m dst ns a)

-- The pointers to the new cells of a map's values, from an address on.
pointed : {V : Type 0} → GoMap V → ℕ → GoMap Pointer
pointed [] a = []
pointed ((k, v) ∷ m) a = (k, some a) ∷ pointed m (suc a)

abbrev pub values : {V : Type 0} → GoMap V → List V
values = map (λ e. e.1)

map_from_lem :
    {V : Type 0} (src : GoMap V) (dst : GoMap Pointer) (cells : Heap V)
    → KeysOnce src
    → Apart src dst
    → map_from src dst cells ≡ (dst ++ pointed src (length cells), cells ++ values src)
unfolding map_from pointed
map_from_lem [] dst cells o a = rw (append-nil dst, append-nil cells) refl
map_from_lem ((k, v) ∷ src) dst cells (n, o) (h, a) =
    let more : length (cells ++ v ∷ []) ≡ suc (length cells) =
      omega (arith, length-append cells (v ∷ [])) in
    rw (assign-fresh k (some (length cells)) dst h) (
      map_from_lem src (dst ++ (k, some (length cells)) ∷ []) (cells ++ v ∷ []) o
        (Apart-snoc k _ src dst n a)
      ∙ rw
          (
            more,
            append_assoc dst ((k, some (length cells)) ∷ []) (pointed src (suc (length cells))),
            append_assoc cells (v ∷ []) (values src),
          )
          refl)

value_map_from_lem :
    {V : Type 0} (zero_value : V) (src dst : GoMap V) (before : Heap V)
    → KeysOnce src
    → Apart src dst
    → value_map_from zero_value (before ++ values src) (pointed src (length before)) dst
      ≡ dst ++ src
unfolding value_map_from pointed
value_map_from_lem z [] dst before o a = sym (append-nil dst)
value_map_from_lem z ((k, v) ∷ src) dst before (n, o) (h, a) =
    let more : length (before ++ v ∷ []) ≡ suc (length before) =
      omega (arith, length-append before (v ∷ [])) in
    let there = before ++ v ∷ values src in
    let longer = dst ++ (k, v) ∷ [] in
    let next = suc (length before) in
    ap (λ x. value_map_from z there (pointed src next) (assign k x dst))
      (read-snoc z before v (values src))
    ∙ ap (value_map_from z there (pointed src next)) (assign-fresh k v dst h)
    ∙ ap (λ c. value_map_from z c (pointed src next) longer)
        (sym (append_assoc before (v ∷ []) (values src)))
    ∙ ap (λ n. value_map_from z ((before ++ v ∷ []) ++ values src) (pointed src n) longer)
        (sym more)
    ∙ value_map_from_lem z src longer (before ++ v ∷ []) o (Apart-snoc k v src dst n a)
    ∙ append_assoc dst ((k, v) ∷ []) src

Apart-nil : {V : Type 0} (W : Type 0) (m : GoMap V) → Apart {W = W} m []
unfolding lookup
Apart-nil W [] = tt
Apart-nil W ((k, v) ∷ m) = (refl, Apart-nil W m)

-- A map whose values are put in new cells, and read again behind the pointers, is the map; the cells
-- that were there are untouched.
pub value_map-pointer_map :
    {V : Type 0} (zero_value : V) (src : GoMap V) (cells : Heap V)
    → KeysOnce src
    → (value_map zero_value (pointer_map src cells).1 (pointer_map src cells).0 ≡ src)
      × ((pointer_map src cells).1 ≡ cells ++ values src)
unfolding value_map pointer_map
value_map-pointer_map z src cells o =
    let e = map_from_lem src [] cells o (Apart-nil _ src) in
    (
      rw e (value_map_from_lem z src [] cells o (Apart-nil _ src)),
      ap (λ (r : GoMap Pointer × Heap _). r.1) e,
    )
