-- ===== src/Base/Words.antt =====
-- 32-bit words: arithmetic modulo 2 ^ 32, and words in memory as four bytes, the lowest first.
use Prim.Native.Nat.{ℕ, ◌+◌, ◌-◌, ◌*◌, ◌/◌, ◌%◌, ◌^◌, ◌<◌}
use mathlib.Core.Path.{◌≡◌}
use mathlib.Core.List.{[], ◌∷◌}
use native.Mathlib.Omega.{arith}
use bano.Base.Lists.{Bytes, get_or, set}

unfoldable pub add32 : ℕ → ℕ → ℕ
add32 a b = (a + b) % 2 ^ 32

unfoldable pub sub32 : ℕ → ℕ → ℕ
sub32 a b = (a + 2 ^ 32 - b % 2 ^ 32) % 2 ^ 32

pub add32-lt : (a b : ℕ) → add32 a b < 2 ^ 32
unfolding add32
add32-lt a b = omega arith

pub sub32-lt : (a b : ℕ) → sub32 a b < 2 ^ 32
unfolding sub32
sub32-lt a b = omega arith

pub sub32-add32 : (a b : ℕ) → a < 2 ^ 32 → sub32 (add32 a b) b ≡ a
unfolding add32 sub32
sub32-add32 a b h = omega arith

pub add32-sub32 : (a b : ℕ) → a < 2 ^ 32 → add32 (sub32 a b) b ≡ a
unfolding add32 sub32
add32-sub32 a b h = omega arith

-- `((uint32_t*)p)[i]`, at the byte offset `off`
unfoldable pub load32 : Bytes → ℕ → ℕ
load32 p off =
    get_or p off 0
    + get_or p (off + 1) 0 * 2 ^ 8
    + get_or p (off + 2) 0 * 2 ^ 16
    + get_or p (off + 3) 0 * 2 ^ 24

unfoldable pub store32 : Bytes → ℕ → ℕ → Bytes
store32 p off w =
    set
      (set (set (set p off (w % 2 ^ 8)) (off + 1) (w / 2 ^ 8 % 2 ^ 8)) (off + 2)
        (w / 2 ^ 16 % 2 ^ 8))
      (off + 3) (w / 2 ^ 24 % 2 ^ 8)

-- Every element fits a byte.
abbrev pub AreBytes : Bytes → Type 0
AreBytes [] = Unit {0}
AreBytes (b ∷ a) = (b < 256) × AreBytes a
