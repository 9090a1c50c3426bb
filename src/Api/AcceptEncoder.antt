-- ===== src/Api/AcceptEncoder.antt =====
-- api/acceptencoder/acceptencoder.go: the choice of an encoding, and the pools of compressors.
pub mod Methods
pub mod Offers
pub mod Pools
mod Tests
use tick_framework.Base.{
  ℕ, zero, suc, Bool, true, false, not, ◌&&◌, ◌||◌, List, [], ◌∷◌, ◌++◌, Option, none, some, Bytes,
  GoMap, codes, lookup, assign, length, bytes_eq, ltb, leb, ◌==◌, if◌then◌else◌, ℤ, pos, negsuc,
  to_upper, split, trim_space,
}

-- `flate.BestSpeed`, `flate.BestCompression`
abbrev pub best_speed : ℕ
best_speed = 1

abbrev pub best_compression : ℕ
best_compression = 9

-- The package's variables that `InitGzip` sets.
pub record Settings : Type 0 where
  pub gzip_min_length : ℕ
  pub gzip_compress_level : ℕ
  pub included_methods : GoMap Bool
  pub get_method_only : Bool

abbrev pub default_settings : Settings
default_settings = record {
  gzip_min_length = 20;
  gzip_compress_level = 0;
  included_methods = [];
  get_method_only = false;
}

-- The level that is kept: one out of the range is replaced.
unfoldable pub kept_level : ℤ → ℕ
kept_level (pos n) = if ltb best_compression n then best_speed else n
kept_level (negsuc n) = best_speed

unfoldable pub only_get : List Bytes → Bool
only_get [] = true
only_get (m ∷ []) = bytes_eq (to_upper m) (codes "GET")
only_get (m ∷ n ∷ methods) = false

-- The loop over the methods.
unfoldable pub include_methods : List Bytes → GoMap Bool → GoMap Bool
include_methods [] included = included
include_methods (m ∷ methods) included = include_methods methods (assign (to_upper m) true included)

abbrev kept_length : ℤ → ℕ → ℕ
kept_length (pos n) old = n
kept_length (negsuc n) old = old

unfoldable pub init_gzip : ℤ → ℤ → List Bytes → Settings → Settings
init_gzip min_length compress_level methods settings = record {
  gzip_min_length = kept_length min_length settings.gzip_min_length;
  gzip_compress_level = kept_level compress_level;
  included_methods = include_methods methods [];
  get_method_only = only_get methods;
}

-- `noneCompressEncoder`, `gzipCompressEncoder`, `deflateCompressEncoder`
pub data Encoder : Type 0 where
  none_encoder gzip_encoder deflate_encoder : Encoder

unfoldable pub encoder_name : Encoder → Bytes
encoder_name none_encoder = []
encoder_name gzip_encoder = codes "gzip"
encoder_name deflate_encoder = codes "deflate"

abbrev pub encoder_map : GoMap Encoder
encoder_map =
    (codes "gzip", gzip_encoder)
    ∷ (codes "deflate", deflate_encoder)
    ∷ (codes "*", gzip_encoder)
    ∷ (codes "identity", none_encoder)
    ∷ []

-- What of a request the code reads; a header that is absent is the empty text.
pub record Request : Type 0 where
  pub request_method : Bytes
  pub accept_encoding : Bytes

-- The entry of a map of Booleans; a missing one reads as false.
abbrev pub found : Option Bool → Bool
found none = false
found (some b) = b

unfoldable pub accepts_method : Settings → Bytes → Bool
accepts_method settings method =
    (settings.get_method_only && bytes_eq method (codes "GET"))
    || found (lookup method settings.included_methods)

-- `strings.Replace(s, "q=", "", -1)`
unfoldable pub remove_q : Bytes → Bytes
remove_q [] = []
remove_q (c ∷ []) = c ∷ []
remove_q (c ∷ d ∷ s) =
    let rest = remove_q s in
    let later = remove_q (d ∷ s) in if c == b'q' && d == b'=' then rest else c ∷ later

-- What the code uses of float64: the value that `strconv.ParseFloat` returns, with or without an
-- error, the tests `f == 0` and `f > g`.
pub record Floats (F : Type 0) : Type 0 where
  pub parse_float : Bytes → F
  pub zero_float : F
  pub is_zero : F → Bool
  pub greater : F → F → Bool

-- One entry of the header: left out at once, without a parameter, or with one.
pub data Offer (F : Type 0) : Type 0 where
  skipped : Offer F
  plain : Encoder → Offer F
  weighted : Encoder → F → Offer F

-- `q`
pub record Q (F : Type 0) : Type 0 where
  pub name : Bytes
  pub value : F

module _ {F : Type 0} (floats : Floats F) where
  unfoldable pub offer_parts : List Bytes → Offer F
  offer_parts [] = skipped
  offer_parts (v ∷ vs) = elim (lookup v encoder_map) [
    | none ↦ skipped
    | some e ↦ elim vs [
      | [] ↦ plain e
      | w ∷ ws ↦ elim ws [ [] ↦ weighted e (floats.parse_float (remove_q w)) | _ ↦ skipped ]
    ]
  ]

  unfoldable pub offer : Bytes → Offer F
  offer v = elim (trim_space v) [ [] ↦ skipped | c ∷ t ↦ offer_parts (split b';' (c ∷ t)) ]

  unfoldable pub better : Encoder → F → Q F → Q F
  better e f last =
      if floats.is_zero f
      then last
      else if floats.greater f last.value
      then record { name = encoder_name e; value = f }
      else last

  -- the loop of `parseEncoding`
  unfoldable pub choose : List Bytes → Q F → Bytes
  choose [] last = last.name
  choose (v ∷ vs) last = elim (offer v) [
    | skipped ↦ choose vs last
    | plain e ↦ encoder_name e
    | weighted e f ↦ choose vs (better e f last)
  ]

  unfoldable pub parse_accepted : Request → Bytes
  parse_accepted r = elim r.accept_encoding [
    | [] ↦ []
    | c ∷ t ↦ choose (split b',' (c ∷ t)) (record { name = []; value = floats.zero_float })
  ]

  -- `ParseEncoding`; a nil request is `none`.
  unfoldable pub parse_encoding : Settings → Option Request → Bytes
  parse_encoding settings none = []
  parse_encoding settings (some r) =
      if accepts_method settings r.request_method then parse_accepted r else []
