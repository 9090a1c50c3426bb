-- ===== src/Base/Endian.antt =====
-- Go's `encoding/binary` in big-endian order, slices and `copy`, on the machine's word sizes.
use Prim.Native.Nat.{ℕ, ◌+◌, ◌-◌, ◌*◌, ◌/◌, ◌%◌, ◌≤◌, ◌<◌}
use mathlib.Core.Path.{◌≡◌, ap, ◌∙◌}
use mathlib.Core.Bool.{◌&&◌}
use mathlib.Core.List.{[], ◌∷◌, ◌++◌, append-nil}
use native.Mathlib.Omega.{arith}
use tick_framework.Base.Tests.{leb, if◌then◌else◌}
use tick_framework.Base.Lists.{
  length, take, drop, length-take, length-drop, replicate, take_of_length-le,
}
use tick_framework.Base.Text.{Bytes, IsBytes}
use tick_framework.Base.Result.{Res, ok, panic}

-- `uint32(n)`
abbrev pub u32 : ℕ → ℕ
u32 n = n % 4294967296

-- `binary.BigEndian.Uint16`, `Uint32` and `Uint64`. Every caller checks the length first, so the
-- panic on a shorter slice is not written out.
abbrev pub uint16 : Bytes → ℕ
uint16 (a ∷ b ∷ r) = a * 256 + b
uint16 r = 0

abbrev pub uint32 : Bytes → ℕ
uint32 (a ∷ b ∷ c ∷ d ∷ r) = a * 16777216 + b * 65536 + c * 256 + d
uint32 r = 0

abbrev pub uint64 : Bytes → ℕ
uint64 (a ∷ b ∷ c ∷ d ∷ r) = uint32 (a ∷ b ∷ c ∷ d ∷ []) * 4294967296 + uint32 r
uint64 r = 0

-- `binary.Write` of a value of each size
abbrev pub put_uint16 : ℕ → Bytes
put_uint16 n = (n / 256 % 256) ∷ (n % 256) ∷ []

abbrev pub put_uint32 : ℕ → Bytes
put_uint32 n = (n / 16777216 % 256) ∷ (n / 65536 % 256) ∷ (n / 256 % 256) ∷ (n % 256) ∷ []

abbrev pub put_uint64 : ℕ → Bytes
put_uint64 n = put_uint32 (n / 4294967296) ++ put_uint32 n

-- `data[lo:hi]`, of a slice whose capacity is its length
unfoldable pub slice : Bytes → ℕ → ℕ → {E : Type 0} → Res E Bytes
slice data' lo hi =
    if leb lo hi && leb hi (length data') then ok (take (hi - lo) (drop lo data')) else panic

-- `make([]byte, n)` and a `copy` of `src` into it
unfoldable pub copy_into : ℕ → Bytes → Bytes
copy_into n src = take n src ++ replicate (n - length src) 0

pub copy_into_exact : (n : ℕ) (src : Bytes) → length src ≡ n → copy_into n src ≡ src
unfolding copy_into
copy_into_exact n src h =
    let none_left : n - length src ≡ 0 = omega arith in
    ap (λ (k : ℕ). take n src ++ replicate k 0) none_left
    ∙ append-nil (take n src)
    ∙ take_of_length-le n src (omega arith)

pub uint16-put : (n : ℕ) (r : Bytes) → n < 65536 → uint16 (put_uint16 n ++ r) ≡ n
uint16-put n r h = omega arith

pub uint32-put : (n : ℕ) (r : Bytes) → n < 4294967296 → uint32 (put_uint32 n ++ r) ≡ n
uint32-put n r h = omega arith

pub uint64-put : (n : ℕ) (r : Bytes) → n < 18446744073709551616 → uint64 (put_uint64 n ++ r) ≡ n
uint64-put n r h = omega arith

pub uint32-lt : (r : Bytes) → IsBytes r → uint32 r < 4294967296
uint32-lt (a ∷ b ∷ c ∷ d ∷ r) h = omega arith
uint32-lt [] h = omega arith
uint32-lt (a ∷ []) h = omega arith
uint32-lt (a ∷ b ∷ []) h = omega arith
uint32-lt (a ∷ b ∷ c ∷ []) h = omega arith

pub slice_lem :
    (data' : Bytes) (lo n hi : ℕ) {E : Type 0}
    → hi ≡ lo + n
    → lo + n ≤ length data'
    → slice data' lo hi {E = E} ≡ ok (take n (drop lo data'))
unfolding slice
slice_lem data' lo n hi p q = let same : hi - lo ≡ n = omega arith in rw same (ground arith)

pub copy_into-take :
    (data' : Bytes) (lo n : ℕ)
    → lo + n ≤ length data'
    → copy_into n (take n (drop lo data')) ≡ take n (drop lo data')
copy_into-take data' lo n h =
    copy_into_exact n _ (omega (arith, length-take n (drop lo data'), length-drop lo data'))

pub u32_small : (n : ℕ) → n < 4294967296 → u32 n ≡ n
u32_small n h = omega arith
