-- ===== src/Dict/Hash.antt =====
-- Where the hash of src/base/bano_dict.c points to.
use bano.Base.{ℕ, zero, suc, ◌+◌, ◌-◌, ◌*◌, ◌/◌, ◌^◌, ◌<◌, ◌≤◌, ◌≡◌, refl, arith, add32-lt}
use native.Mathlib.Nat.{div-lt_iff_lt-mul, pow-suc, zero-add, suc-add}
use bano.Dict.{hash_32_to_n}

pow_pos : (n : ℕ) → 0 < 2 ^ n
pow_pos zero = omega arith
pow_pos (suc n) = rw (pow-suc 2 n) (omega (arith, pow_pos n))

pow_split : (n m : ℕ) → 2 ^ n * 2 ^ m ≡ 2 ^ (n + m)
pow_split zero m = rw (zero-add m) (omega arith)
pow_split (suc n) m =
    rw (suc-add n m, pow-suc 2 n, pow-suc 2 (n + m)) (omega (arith, pow_split n m))

-- For up to 32 bits, the hash of any key is the index of one of the 2 ^ n lists.
pub hash_32_to_n-lt : (k n : ℕ) → n ≤ 32 → hash_32_to_n k n < 2 ^ n
unfolding hash_32_to_n
hash_32_to_n-lt k n h = over _ (add32-lt _ _)
  where
    whole : 2 ^ n * 2 ^ (32 - n) ≡ 2 ^ 32
    whole = let e : n + (32 - n) ≡ 32 = omega arith in rw (pow_split n (32 - n), e) refl

    over : (x : ℕ) → x < 2 ^ 32 → x / 2 ^ (32 - n) < 2 ^ n
    over x lt = (div-lt_iff_lt-mul (pow_pos (32 - n))).1 (rw whole lt)
