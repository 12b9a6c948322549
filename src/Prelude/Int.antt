-- ===== src/Prelude/Int.antt =====
-- Signed integers over the native numbers, and Go's 64-bit arithmetic on them.
use Prim.Native.Nat.{ℕ, zero, ◌+◌, ◌-◌, ◌*◌, ◌%◌, ◌^◌, ◌<◌, ◌≤◌}
use mathlib.Core.Path.{◌≡◌}
use native.Mathlib.Omega.{arith}
use mathlib.Core.Bool.{Bool, true, false}
use consent_owner_resolver.Prelude.Tests.{ltb, if◌then◌else◌}

-- `negsuc n` is -(n + 1).
pub data ℤ : Type 0 where
  pos : ℕ → ℤ
  negsuc : ℕ → ℤ

abbrev pub is_positive : ℤ → Bool
is_positive (pos n) = ltb 0 n
is_positive (negsuc n) = false

abbrev pub is_zero : ℤ → Bool
is_zero (pos zero) = true
is_zero _ = false

-- The bit pattern of an integer in 64 bits, and the integer that a bit pattern stands for.
bits : ℤ → ℕ
bits (pos n) = n % 2 ^ 64
bits (negsuc n) = (2 ^ 64 - 1) - n % 2 ^ 64

from_bits : ℕ → ℤ
from_bits b = if ltb b (2 ^ 63) then pos b else negsuc ((2 ^ 64 - 1) - b)

-- `time.Duration(ms) * time.Millisecond`, in nanoseconds, which wraps around.
unfoldable pub milliseconds : ℤ → ℤ
unfolding bits from_bits
milliseconds ms = from_bits ((bits ms * 1000000) % 2 ^ 64)

-- Below 2 ^ 63 nanoseconds nothing wraps around.
pub milliseconds-pos : (n : ℕ) → n * 1000000 < 2 ^ 63 → milliseconds (pos n) ≡ pos (n * 1000000)
unfolding milliseconds bits from_bits
milliseconds-pos n h = ground arith

pub milliseconds-negsuc :
    (n : ℕ) → (n + 1) * 1000000 ≤ 2 ^ 63 → milliseconds (negsuc n) ≡ negsuc ((n + 1) * 1000000 - 1)
unfolding milliseconds bits from_bits
milliseconds-negsuc n h = ground arith

-- 1000000 is 2 ^ 6 * 15625: the product takes 58 bits of its factor.
pub milliseconds-period :
    (n k : ℕ) → n * 1000000 < 2 ^ 63 → milliseconds (pos (n + k * 2 ^ 58)) ≡ pos (n * 1000000)
unfolding milliseconds bits from_bits
milliseconds-period n k h = ground arith

pub milliseconds-below :
    (n : ℕ)
    → 0 < n
    → n * 1000000 < 2 ^ 63
    → milliseconds (negsuc (2 ^ 58 - n - 1)) ≡ pos (n * 1000000)
unfolding milliseconds bits from_bits
milliseconds-below n some_time h = ground arith
