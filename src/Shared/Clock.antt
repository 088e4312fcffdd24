-- ===== src/Shared/Clock.antt =====
-- Go's `time.Time` and `time.Duration`, in nanoseconds. A time is the distance from the zero
-- `time.Time`, which is 0, and `IsZero` is the test against 0. `t.Sub(u)` is a signed number that
-- saturates at the largest `int64`; where the code compares it with a bound that is not negative,
-- its positive part decides, and `elapsed` is that part.
use Prim.Native.Nat.{ℕ, ◌+◌, ◌-◌, ◌*◌, ◌%◌, ◌<◌, min}
use mathlib.Core.Path.{◌≡◌}
use mathlib.Core.Bool.{Bool, true}
use native.Mathlib.Omega.{arith}
use pxgo.Shared.Tests.{ltb, ◌==◌}

abbrev pub max_duration : ℕ
max_duration = 9223372036854775807

abbrev pub elapsed : ℕ → ℕ → ℕ
elapsed now since = min (now - since) max_duration

abbrev pub is_zero : ℕ → Bool
is_zero t = t == 0

abbrev pub seconds : ℕ → ℕ
seconds n = n * 1000000000

-- `n++` on a `uint64`.
abbrev pub incr_u64 : ℕ → ℕ
incr_u64 n = (n + 1) % 18446744073709551616

pub elapsed-lt_window :
    (window now since : ℕ)
    → window < max_duration
    → ltb window (elapsed now since) ≡ true
    → since + window < now
elapsed-lt_window window now since h t = ground arith
