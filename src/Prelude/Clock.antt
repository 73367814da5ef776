-- ===== src/Prelude/Clock.antt =====
-- Go's `time` and `int64`, as far as the caches use them.
--
-- An `int64` x is kept in excess form, as the natural number x + 2^63 below 2^64: its order is then
-- the order of ℕ, and its wrap-around is a remainder by 2^64.
--
-- A `time.Time` is the number of nanoseconds since Go's zero time (January 1 of year 1), so
-- `IsZero` is the test for 0 and `After` is the order. A `time.Duration` is an `int64`.
use Prim.Native.Nat.{ℕ, ◌+◌, ◌-◌, ◌*◌, ◌%◌, ◌^◌}
use mathlib.Core.Bool.{Bool, not, ◌&&◌}
use distributed_caching.Prelude.Tests.{ltb, ◌==◌}

abbrev pub Time : Type 0
Time = ℕ

abbrev pub Int64 : Type 0
Int64 = ℕ

abbrev pub Duration : Type 0
Duration = Int64

-- The integer n, for n below 2^63.
abbrev pub int64 : ℕ → Int64
int64 n = n + 2 ^ 63

-- The least value above every `int64` in excess form.
abbrev pub int64_end : ℕ
int64_end = 2 ^ 64

-- `x++`
abbrev pub inc64 : Int64 → Int64
inc64 x = (x + 1) % 2 ^ 64

-- `x * n` for a positive constant n, with the wrap-around: (x - 2^63) * n + 2^63 modulo 2^64, kept
-- free of subtraction by adding n times 2^64.
abbrev pub scale64 : Int64 → ℕ → Int64
scale64 x n = (x * n + n * 2 ^ 63 + 2 ^ 63) % 2 ^ 64

-- `time.Second`, in nanoseconds
abbrev pub second : ℕ
second = 1_000_000_000

-- `n * time.Second`, a constant
abbrev pub seconds : ℕ → Duration
seconds n = int64 (n * second)

-- `t.IsZero()`
abbrev pub is_zero : Time → Bool
is_zero t = t == 0

-- `now.After(t)`
abbrev pub after : Time → Time → Bool
after now t = ltb t now

-- `now.Add(d)`, for a duration that is not negative
abbrev pub add_duration : Time → Duration → Time
add_duration now d = now + (d - 2 ^ 63)

-- The test that a cached item makes of its `ExpiresAt`: a zero time never expires.
abbrev pub past : Time → Time → Bool
past expires_at now = not (is_zero expires_at) && after now expires_at
