-- ===== src/Convert/Time.antt =====
-- The conversions of convert_types.go between numbers and times. An instant is the number of its
-- nanoseconds since the epoch.
use tick_framework.Base.{
  ℕ, zero, suc, ◌+◌, ◌-◌, ◌*◌, ◌/◌, ◌%◌, ◌≤◌, ◌<◌, ◌≡◌, refl, ap, ◌∙◌, some, none, ltb, leb,
  if◌then◌else◌, ℤ, pos, negsuc, arith,
}
use tick_framework.Convert.{Heap, Pointer, read}

-- -n
abbrev pub negative : ℕ → ℤ
negative zero = pos 0
negative (suc n) = negsuc n

-- The quotient of Go, which is cut towards zero.
unfoldable pub quotient : ℤ → ℕ → ℤ
quotient (pos n) k = pos (n / k)
quotient (negsuc n) k = negative (suc n / k)

abbrev pub times : ℤ → ℕ → ℤ
times (pos n) k = pos (n * k)
times (negsuc n) k = negative (suc n * k)

-- The value that an `int64` has for a number.
unfoldable pub wrap64 : ℤ → ℤ
wrap64 (pos n) =
    let m = n % 18446744073709551616 in
    if ltb m 9223372036854775808 then pos m else negative (18446744073709551616 - m)
wrap64 (negsuc n) =
    let m = suc n % 18446744073709551616 in
    if leb m 9223372036854775808 then negative m else pos (18446744073709551616 - m)

-- The number of milliseconds, as nanoseconds, is an `int64`.
abbrev pub FitsMilliseconds : ℤ → Type 0
FitsMilliseconds (pos n) = n * 1000000 < 9223372036854775808
FitsMilliseconds (negsuc n) = suc n * 1000000 ≤ 9223372036854775808

module _ (zero_time : ℤ) where
  -- `time.Unix(*v / 1000, 0)`
  unfoldable pub seconds_time_value : Heap ℤ → Pointer → ℤ
  seconds_time_value cells none = zero_time
  seconds_time_value cells (some a) = times (quotient (read (pos 0) cells a) 1000) 1000000000

  -- `time.Unix(0, *v * 1000000)`
  unfoldable pub milliseconds_time_value : Heap ℤ → Pointer → ℤ
  milliseconds_time_value cells none = zero_time
  milliseconds_time_value cells (some a) = wrap64 (times (read (pos 0) cells a) 1000000)

-- `t.UnixNano() / int64(time.Millisecond/time.Nanosecond)`
unfoldable pub time_unix_milli : ℤ → ℤ
time_unix_milli t = quotient (wrap64 t) 1000000

negative_fits : (m : ℕ) → suc m ≤ 9223372036854775808 → wrap64 (negsuc m) ≡ negsuc m
unfolding wrap64
negative_fits m h =
    let small : suc m % 18446744073709551616 ≡ suc m = omega arith in rw small (ground arith)

wrap64_fits : (v : ℤ) → FitsMilliseconds v → wrap64 (times v 1000000) ≡ times v 1000000
unfolding wrap64
wrap64_fits (pos n) h = ground arith
wrap64_fits (negsuc n) h =
    let m = n * 1000000 + 999999 in
    let e : suc n * 1000000 ≡ suc m = omega arith in rw e (negative_fits m (omega arith))

quotient-times : (v : ℤ) → quotient (times v 1000000) 1000000 ≡ v
unfolding quotient
quotient-times (pos n) = ground arith
quotient-times (negsuc n) =
    let m = n * 1000000 + 999999 in
    let e : suc n * 1000000 ≡ suc m = omega arith in
    let d : suc m / 1000000 ≡ suc n = omega arith in rw (e, d) refl

-- A number of milliseconds turned into a time is the number of milliseconds of that time, if it fits
-- into an `int64` as nanoseconds.
pub time_unix_milli-milliseconds_time_value :
    (zero_time : ℤ) (cells : Heap ℤ) (a : ℕ)
    → FitsMilliseconds (read (pos 0) cells a)
    → time_unix_milli (milliseconds_time_value zero_time cells (some a)) ≡ read (pos 0) cells a
unfolding time_unix_milli milliseconds_time_value
time_unix_milli-milliseconds_time_value zero_time cells a h =
    let v = read (pos 0) cells a in
    ap (λ t. quotient (wrap64 t) 1000000) (wrap64_fits v h)
    ∙ ap (λ t. quotient t 1000000) (wrap64_fits v h)
    ∙ quotient-times v

-- `SecondsTimeValue` takes its number for milliseconds, as `MillisecondsTimeValue` does: it gives the
-- beginning of the second in which the time lies that the other one gives.
pub seconds_time_value_lem :
    (zero_time : ℤ) (cells : Heap ℤ) (a n : ℕ)
    → read (pos 0) cells a ≡ pos n
    → FitsMilliseconds (pos n)
    → (seconds r : ℕ) × (seconds_time_value zero_time cells (some a) ≡ pos (seconds * 1000000000))
      × (milliseconds_time_value zero_time cells (some a) ≡ pos (seconds * 1000000000 + r))
      × (r < 1000000000)
unfolding seconds_time_value milliseconds_time_value quotient
seconds_time_value_lem zero_time cells a n e h = (
  n / 1000,
  n % 1000 * 1000000,
  rw e refl,
  rw e (wrap64_fits (pos n) h ∙ ap pos (omega arith)),
  omega arith,
)
