-- ===== src/Base/Bits.antt =====
-- Flag words: the bits of a C flag field, written as the source's masks.
use Prim.Native.Nat.{ℕ, ◌+◌, ◌-◌, ◌/◌, ◌%◌, ◌^◌}
use mathlib.Core.Bool.{Bool}
use bano.Base.Tests.{◌==◌, if◌then◌else◌}

-- `x & (1 << k)`, as a test.
abbrev pub has_bit : ℕ → ℕ → Bool
has_bit k x = (x / 2 ^ k) % 2 == 1

-- `x |= 1 << k`.
abbrev pub set_bit : ℕ → ℕ → ℕ
set_bit k x = if has_bit k x then x else x + 2 ^ k

-- `x &= ~(1 << k)`.
abbrev pub clear_bit : ℕ → ℕ → ℕ
clear_bit k x = if has_bit k x then x - 2 ^ k else x
