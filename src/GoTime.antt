-- ===== src/GoTime.antt =====
-- What the program uses of package time. An instant is the number of nanoseconds since the zero
-- Time, 1 January of year 1 UTC, which is how Go counts; locations and monotonic readings are not
-- kept, so `UTC()` is the identity. An int64 is its bit pattern, below 2 ^ 64.
use gigaquizz.Common.{
  ℕ, ◌+◌, ◌-◌, ◌*◌, ◌/◌, ◌%◌, ◌^◌, ◌≤◌, ◌<◌, ◌≡◌, Bool, ltb, ◌==◌, if◌then◌else◌, arith,
}

abbrev pub second : ℕ
second = 1_000_000_000

abbrev pub millisecond : ℕ
millisecond = 1_000_000

abbrev pub minute : ℕ
minute = 60 * second

abbrev pub day : ℕ
day = 86_400 * second

-- The first instant of year `y` in UTC.
abbrev pub year_start : ℕ → ℕ
year_start y = ((y - 1) * 365 + (y - 1) / 4 - (y - 1) / 100 + (y - 1) / 400) * day

-- The Unix epoch as an instant.
abbrev pub epoch : ℕ
epoch = 62_135_596_800 * second

abbrev pub is_zero : ℕ → Bool
is_zero t = t == 0

-- `t.Before(u)`
abbrev pub before : ℕ → ℕ → Bool
before t u = ltb t u

-- `e.Sub(s) == d` for a positive duration `d`, which is far from the bounds of a Duration.
abbrev pub apart : ℕ → ℕ → ℕ → Bool
apart s e d = e == s + d

-- `t.UnixNano()`, which wraps outside the years 1678 to 2262; 4 * 2 ^ 64 is above `epoch`.
unfoldable pub unix_nano : ℕ → ℕ
unix_nano t = (t + 4 * 2 ^ 64 - epoch) % 2 ^ 64

-- `time.Unix(0, int64(u))`
unfoldable pub from_unix_nano : ℕ → ℕ
from_unix_nano u = if ltb u (2 ^ 63) then epoch + u else epoch + u - 2 ^ 64

-- `<` on int64
unfoldable pub int64_lt : ℕ → ℕ → Bool
int64_lt a b = ltb ((a + 2 ^ 63) % 2 ^ 64) ((b + 2 ^ 63) % 2 ^ 64)

-- The instants whose nanoseconds since the epoch fit int64.
pub record InNanoRange (t : ℕ) : Type 0 where
  pub lower : epoch ≤ t + 2 ^ 63
  pub upper : t < epoch + 2 ^ 63

pub unix_nano-lt : (t : ℕ) → unix_nano t < 2 ^ 64
unfolding unix_nano
unix_nano-lt t = omega arith

pub from_unix_nano-unix_nano : (t : ℕ) → InNanoRange t → from_unix_nano (unix_nano t) ≡ t
unfolding unix_nano from_unix_nano
from_unix_nano-unix_nano t h = ground arith

pub int64_lt-unix_nano :
    (t u : ℕ) → InNanoRange t → InNanoRange u → int64_lt (unix_nano t) (unix_nano u) ≡ before t u
unfolding unix_nano int64_lt
int64_lt-unix_nano t u h k = ground arith

-- From 1678 to 2261 the nanoseconds since the epoch fit int64.
pub years-InNanoRange : (t : ℕ) → year_start 1678 ≤ t → t < year_start 2262 → InNanoRange t
years-InNanoRange t h k = record { lower = omega arith; upper = omega arith }
