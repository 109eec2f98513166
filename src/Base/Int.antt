-- ===== src/Base/Int.antt =====
-- Signed integers over the native numbers, and Go's `int64` reading of a 64-bit pattern.
use Prim.Native.Nat.{ℕ, zero, suc, ◌+◌, ◌-◌, ◌*◌, ◌/◌, ◌%◌}
use mathlib.Core.Bool.{Bool, true}
use mtproxy_orchestrator.Base.Tests.{ltb, leb, if◌then◌else◌}

-- `negsuc n` is -(n + 1).
pub data ℤ : Type 0 where
  pos : ℕ → ℤ
  negsuc : ℕ → ℤ

abbrev pub two63 : ℕ
two63 = 9223372036854775808

abbrev pub two64 : ℕ
two64 = 18446744073709551616

-- The value of a 64-bit pattern as an `int64`.
abbrev pub signed64 : ℕ → ℤ
signed64 n = if ltb n two63 then pos n else negsuc (two64 - n - 1)

-- Go's `a * b` on two `int64` that are not negative.
abbrev pub mul64 : ℕ → ℕ → ℤ
mul64 a b = signed64 (a * b % two64)

-- Go's `a / k` truncates towards zero: `-7 / 100` is 0, which is `pos 0` here.
abbrev neg_quot : ℕ → ℤ
neg_quot zero = pos 0
neg_quot (suc q) = negsuc q

abbrev pub quot : ℤ → ℕ → ℤ
quot (pos n) k = pos (n / k)
quot (negsuc n) k = neg_quot ((n + 1) / k)

-- `n >= z` for a number that is not negative.
abbrev pub geb : ℕ → ℤ → Bool
geb n (pos m) = leb m n
geb n (negsuc m) = true
