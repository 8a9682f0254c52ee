-- ===== src/Base/Time.antt =====
-- Go's package `time`. An instant is the number of nanoseconds since the least second that a
-- `time.Time` holds, 2^63 seconds before the zero time (January 1, year 1, UTC), so the order of
-- instants is that of the numbers. A duration is a number of nanoseconds.
use Prim.Native.Nat.{ℕ, suc, ◌+◌, ◌-◌, ◌*◌, ◌/◌, ◌%◌, ◌<◌}
use mathlib.Core.Bool.{Bool}
use mathlib.Core.Path.{◌≡◌}
use native.Mathlib.Omega.{arith}
use zackup.Base.Decimal.{two_63, two_64, IsInt64}
use zackup.Base.Int.{ℤ, pos, negsuc, neg, pos_part, neg_part, sub_ℕ}
use zackup.Base.Tests.{◌==◌, ltb, leb, if◌then◌else◌}

abbrev pub Time : Type 0
Time = ℕ

abbrev pub Duration : Type 0
Duration = ℤ

-- `time.Second` and `time.Millisecond`
abbrev pub second : ℕ
second = 1_000_000_000

abbrev pub millisecond : ℕ
millisecond = 1_000_000

-- `time.Time{}`
abbrev pub zero_time : Time
zero_time = 9_223_372_036_854_775_808_000_000_000

abbrev pub is_zero : Time → Bool
is_zero t = t == zero_time

-- `t.After(u)` and `t.Before(u)`
abbrev pub after : Time → Time → Bool
after t u = ltb u t

abbrev pub before : Time → Time → Bool
before t u = ltb t u

-- `unixToInternal`: the seconds from the zero time to January 1, 1970
abbrev pub unix_offset : ℕ
unix_offset = 62_135_596_800

-- `t.Unix()`, in 64-bit arithmetic
unfoldable pub unix : Time → ℤ
unix t = sub_ℕ ((t / second + two_64 - unix_offset) % two_64) two_63

-- `time.Unix(i, 0)`, in 64-bit arithmetic
unfoldable pub from_unix : ℤ → Time
from_unix i = (two_63 + unix_offset + pos_part i + two_64 - neg_part i) % two_64 * second

-- `t.Sub(u)`, which saturates at the ends of the 64-bit integers
unfoldable pub sub_time : Time → Time → Duration
sub_time t u =
    if leb (u + two_63) t
    then pos (two_63 - 1)
    else if ltb (t + two_63) u
    then negsuc (two_63 - 1)
    else sub_ℕ t u

-- `d.Truncate(m)`, for a positive `m`: a multiple of `m`, rounded towards 0
unfoldable pub truncate : Duration → ℕ → Duration
truncate (pos n) m = pos (n / m * m)
truncate (negsuc n) m = neg (suc n / m * m)

-- `int64(x)` of an integer that may be too large
unfoldable pub wrap_int64 : ℤ → ℤ
wrap_int64 i =
    let u = (pos_part i + (two_64 - neg_part i % two_64)) % two_64 in
    if ltb u two_63 then pos u else neg (two_64 - u)

-- Every 64-bit number of seconds is read back from its instant.
pub unix-from_unix : (i : ℤ) → IsInt64 i → unix (from_unix i) ≡ i
unfolding unix from_unix
unix-from_unix (pos n) h = ground arith
unix-from_unix (negsuc n) h = ground arith

-- An instant that goes through seconds loses its fraction.
pub from_unix-unix : (t : Time) → t < two_64 * second → from_unix (unix t) ≡ t / second * second
unfolding unix from_unix
from_unix-unix t h = ground arith
