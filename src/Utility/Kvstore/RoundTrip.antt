-- ===== src/Utility/Kvstore/RoundTrip.antt =====
-- Reading back the records that utility/kvstore.go writes.
use tick_framework.Base.{
  window_within, take-append-drop, slice_lem, copy_into-take, u32_small, ℕ, zero, suc, ◌+◌, ◌-◌,
  ◌≤◌, ◌<◌, ◌≡◌, refl, ap, false, [], ◌++◌, append_assoc, arith, Bytes, length, take, drop,
  length-append, none, length-take, length-drop, take-append, drop-append, take_of_length-le,
  append-nil, le→ltb, leb, ok, u32, uint32, put_uint16, put_uint32, uint32-put, copy_into_exact,
}
use native.Mathlib.Nat.{le_refl}
use tick_framework.Utility.Kvstore.{
  KvstoreData, new_kvstore_data, kvstore_magic_num, marshal_binary, size, unmarshal_contents,
  unmarshal_binary, read_at, fill, get_data, get, set,
}

-- The record that a header with these lengths announces.
abbrev pub parsed : ℕ → ℕ → Bytes → KvstoreData
parsed kl vl data' = record {
  magic_number = kvstore_magic_num;
  key_length = kl;
  value_length = vl;
  key_content = take kl (drop 10 data');
  value_content = take vl (drop (10 + kl) data');
}

pub unmarshal_contents_fits :
    (kl vl : ℕ) (data' : Bytes)
    → 10 + kl + vl ≤ length data'
    → length data' < 4294967296
    → unmarshal_contents kl vl data' ≡ ok (parsed kl vl data')
unfolding unmarshal_contents
unmarshal_contents_fits kl vl data' h small = rw (
  u32_small (length data') small,
  u32_small (10 + kl + vl) (omega arith),
  u32_small (10 + kl) (omega arith),
  le→ltb (length data') (10 + kl + vl) h,
  slice_lem data' 10 kl (10 + kl) refl (omega arith),
  slice_lem data' (10 + kl) vl (10 + kl + vl) refl h,
  copy_into-take data' 10 kl (omega arith),
  copy_into-take data' (10 + kl) vl h,
)

-- The bytes of a record.
abbrev pub encode : Bytes → Bytes → Bytes
encode key value =
    put_uint16 kvstore_magic_num
    ++ (put_uint32 (length key) ++ (put_uint32 (length value) ++ (key ++ value)))

-- A record whose size fits uint32, as every record of less than 4 GiB does.
abbrev pub Fits : Bytes → Bytes → Type 0
Fits key value = 10 + length key + length value < 4294967296

pub marshal_binary-new :
    (key value : Bytes)
    → Fits key value
    → marshal_binary (new_kvstore_data key value) ≡ ok (encode key value)
unfolding marshal_binary
marshal_binary-new key value h =
    rw (u32_small (length key) (omega arith), u32_small (length value) (omega arith))

pub length-encode : (key value : Bytes) → length (encode key value) ≡ 10 + length key + length value
length-encode key value = omega (arith, length-append key value)

drop-encode : (key value : Bytes) → drop (10 + length key) (encode key value) ≡ value
drop-encode key value =
    let ten_on : 10 + length key
        ≡ suc (suc (suc (suc (suc (suc (suc (suc (suc (suc (length key)))))))))) =
      omega arith in
    rw ten_on (drop-append key value (length key) refl)

parsed-encode :
    (key value : Bytes)
    → Fits key value
    → parsed (length key) (length value) (encode key value) ≡ new_kvstore_data key value
parsed-encode key value h = rw (
  u32_small (length key) (omega arith),
  u32_small (length value) (omega arith),
  take-append key value (length key) refl,
  drop-encode key value,
  take_of_length-le (length value) value (le_refl _),
)

pub unmarshal_binary-encode :
    (key value : Bytes)
    → Fits key value
    → unmarshal_binary (encode key value) ≡ ok (new_kvstore_data key value)
unfolding unmarshal_binary
unmarshal_binary-encode key value h =
    let kl = uint32-put (length key) [] (omega arith) in
    let vl = uint32-put (length value) [] (omega arith) in
    let whole = length-encode key value in
    rw
      (
        le→ltb (length (encode key value)) 10 (omega arith),
        kl,
        vl,
        unmarshal_contents_fits (length key) (length value) (encode key value) (omega arith)
            (omega arith),
      )
      (ap ok (parsed-encode key value h))

fill_done : (fuel : ℕ) (content : Bytes) (pos : ℕ) → 0 < fuel → fill fuel content pos 0 ≡ ok []
unfolding fill
fill_done zero content pos h = absurd (omega arith)
fill_done (suc fuel) content pos h = refl

-- The bytes that are there, as one piece.
length-window :
    (content : Bytes) (pos n : ℕ)
    → pos + n ≤ length content
    → length (take n (drop pos content)) ≡ n
length-window content pos n h =
    omega (arith, length-take n (drop pos content), length-drop pos content)

read_at_lem :
    (content : Bytes) (pos n : ℕ)
    → pos < length content
    → read_at content pos n ≡ ok (take n (drop pos content))
unfolding read_at
read_at_lem content pos n h = ground arith

fill_lem :
    (fuel : ℕ) (content : Bytes) (pos need : ℕ)
    → need < fuel
    → pos + need ≤ length content
    → fill fuel content pos need ≡ ok (take need (drop pos content))
unfolding fill
fill_lem zero content pos need h k = absurd (omega arith)
fill_lem (suc fuel) content pos zero h k = refl
fill_lem (suc fuel) content pos (suc need) h k =
    let none_left : suc need - suc need ≡ 0 = omega arith in
    rw (
      read_at_lem content pos (suc need) (omega arith),
      length-window content pos (suc need) k,
      none_left,
      fill_done fuel content (pos + suc need) (omega arith),
      append-nil,
    )

leb-false : (a b : ℕ) → b < a → leb a b ≡ false
leb-false a b h = ground arith

-- The bytes that `get` returns for a record `r` in a file, if the header of `r` announces its
-- length.
get_data_record :
    (before r rest : Bytes)
    → 10 ≤ length r
    → u32 (10 + uint32 (drop 2 (take 10 r)) + uint32 (drop 6 (take 10 r))) ≡ length r
    → length before < 9223372036854775808
    → get_data (before ++ (r ++ rest)) (length before) ≡ ok r
unfolding get_data
get_data_record before r rest ten announced small =
    let content = before ++ (r ++ rest) in
    let long : length content ≡ length before + (length r + length rest) =
      omega (arith, length-append before (r ++ rest), length-append r rest) in
    let start : length before ≡ length before + 0 = omega arith in
    let header : take 10 (drop (length before) content) ≡ take 10 r =
      rw start (window_within before r rest 0 10 ten) in
    let ten_long : length (take 10 r) ≡ 10 = omega (arith, length-take 10 r) in
    let body : take (length r - 10) (drop 10 r) ≡ drop 10 r =
      take_of_length-le _ _ (omega (arith, length-drop 10 r)) in
    rw (
      leb-false 9223372036854775808 (length before) small,
      read_at_lem content (length before) 10 (omega arith),
      header,
      copy_into_exact 10 (take 10 r) ten_long,
      announced,
      le→ltb (length r) 10 ten,
      ten_long,
      fill_lem (suc (length r)) content (length before + 10) (length r - 10) (omega arith)
          (omega arith),
      window_within before r rest 10 (length r - 10) (omega arith),
      body,
      take-append-drop 10 r,
    )

pub size-new :
    (key value : Bytes)
    → Fits key value
    → size (new_kvstore_data key value) ≡ 10 + length key + length value
size-new key value h = omega arith

-- `get` on a record that stands somewhere in a file returns its bytes.
pub get_data-encode :
    (before key value rest : Bytes)
    → Fits key value
    → length before < 9223372036854775808
    → get_data (before ++ (encode key value ++ rest)) (length before) ≡ ok (encode key value)
get_data-encode before key value rest h small =
    let whole = length-encode key value in
    get_data_record before (encode key value) rest (omega arith) (omega arith) small

-- What `Set` appends to a file, `Get` at its offset returns, whatever is appended later.
pub get-set :
    (content key value rest : Bytes) {content' : Bytes}
    → Fits key value
    → length content < 9223372036854775808
    → set none content (new_kvstore_data key value) ≡ (ok tt, content')
    → get (content' ++ rest) (length content) ≡ ok (new_kvstore_data key value)
unfolding get set
get-set content key value rest {content'} h small e =
    let stored : content ++ encode key value ≡ content' =
      ground (arith, marshal_binary-new key value h) in
    rw (
      ← stored,
      append_assoc,
      get_data-encode content key value rest h small,
      unmarshal_binary-encode key value h,
    )
