-- ===== src/Prelude/Int.antt =====
-- Signed integers, as Go's int64 and `time.Duration` (nanoseconds) hold them, and instants.
use Prim.Native.Nat.{ℕ, zero, suc, ◌+◌, ◌-◌, ◌*◌, ◌/◌, ◌%◌, ◌^◌}
use mathlib.Core.Bool.{Bool, true, false}
use notevault.Prelude.Tests.{ltb, leb, if◌then◌else◌}

-- `negsuc n` is -(n + 1).
pub data ℤ : Type 0 where
  pos : ℕ → ℤ
  negsuc : ℕ → ℤ

-- `d > 0`.
abbrev pub is_positive : ℤ → Bool
is_positive (pos zero) = false
is_positive (pos (suc n)) = true
is_positive (negsuc n) = false

-- `max(d, 0)`, as a number.
abbrev pub pos_part : ℤ → ℕ
pos_part (pos n) = n
pos_part (negsuc n) = 0

-- The bit pattern of an int64 read as a signed number.
abbrev pub from_bits : ℕ → ℤ
from_bits n = if ltb n (2 ^ 63) then pos n else negsuc (2 ^ 64 - n - 1)

-- The product of two int64 numbers, which wraps around; the second is not negative.
abbrev pub mul_int64 : ℤ → ℕ → ℤ
mul_int64 (pos a) b = from_bits (a * b % 2 ^ 64)
mul_int64 (negsuc a) b = from_bits ((2 ^ 64 - suc a * b % 2 ^ 64) % 2 ^ 64)

-- `t.Add(d)`. Instants are nanoseconds since the zero `time.Time`; none before it is reached.
abbrev pub time_add : ℕ → ℤ → ℕ
time_add t (pos n) = t + n
time_add t (negsuc n) = t - suc n

-- `a - b`, of numbers that are not negative.
abbrev pub sub_int : ℕ → ℕ → ℤ
sub_int a b = if leb b a then pos (a - b) else negsuc (b - a - 1)

-- `t.Sub(u)`; `time.Until(t)` is `time_sub t now`.
abbrev pub time_sub : ℕ → ℕ → ℤ
time_sub t u = sub_int t u

-- `a <= b`.
abbrev pub leb_int : ℤ → ℤ → Bool
leb_int (pos a) (pos b) = leb a b
leb_int (pos a) (negsuc b) = false
leb_int (negsuc a) (pos b) = true
leb_int (negsuc a) (negsuc b) = leb b a

-- The seconds from the zero `time.Time` to the Unix epoch.
abbrev pub epoch : ℕ
epoch = 62135596800

abbrev pub nanoseconds : ℕ
nanoseconds = 1000000000

-- `t.Unix()`.
abbrev pub unix : ℕ → ℤ
unix t = sub_int (t / nanoseconds) epoch

-- A number as an int64 holds it.
abbrev pub wrap_int64 : ℤ → ℤ
wrap_int64 (pos n) = from_bits (n % 2 ^ 64)
wrap_int64 (negsuc n) = from_bits ((2 ^ 64 - suc n % 2 ^ 64) % 2 ^ 64)

-- `t.UnixNano()`
abbrev pub unix_nano : ℕ → ℤ
unix_nano t = wrap_int64 (sub_int t (epoch * nanoseconds))
