-- ===== src/Cipher/Xtea.antt =====
-- `xtea_enc` and `xtea_dec` of src/base/bano_cipher.c.
pub mod Rounds
use bano.Base.{
  ℕ, zero, suc, ◌+◌, ◌*◌, ◌/◌, ◌%◌, ◌^◌, ◌<◌, ◌≡◌, refl, bit_xor, Bytes, add32, sub32, load32,
  store32, arith,
}

-- The locals of the loops.
pub record State : Type 0 where
  pub v0 : ℕ
  pub v1 : ℕ
  pub sum : ℕ

abbrev pub delta : ℕ
delta = 0x9E3779B9

-- `((v << 4 ^ v >> 5) + v) ^ (sum + k[i])`
pub mix : ℕ → ℕ → ℕ → ℕ
mix v sum k = bit_xor (add32 (bit_xor (v * 2 ^ 4 % 2 ^ 32) (v / 2 ^ 5)) v) (add32 sum k)

-- `((uint32_t*)k)[sum & 3]`, and with `sum>>11 & 3`
pub low_key : Bytes → ℕ → ℕ
low_key k sum = load32 k (sum % 4 * 4)

pub high_key : Bytes → ℕ → ℕ
high_key k sum = load32 k (sum / 2 ^ 11 % 4 * 4)

-- One round of each loop.
pub enc_round : Bytes → State → State
enc_round k s =
    let a = add32 s.v0 (mix s.v1 s.sum (low_key k s.sum)) in
    let t = add32 s.sum delta in
    record { v0 = a; v1 = add32 s.v1 (mix a t (high_key k t)); sum = t }

pub dec_round : Bytes → State → State
dec_round k s =
    let b = sub32 s.v1 (mix s.v0 s.sum (high_key k s.sum)) in
    let t = sub32 s.sum delta in record { v0 = sub32 s.v0 (mix b t (low_key k t)); v1 = b; sum = t }

pub enc_rounds : Bytes → ℕ → State → State
enc_rounds k zero s = s
enc_rounds k (suc n) s = enc_rounds k n (enc_round k s)

pub dec_rounds : Bytes → ℕ → State → State
dec_rounds k zero s = s
dec_rounds k (suc n) s = dec_rounds k n (dec_round k s)

-- The two words at `off` are replaced; `dest` and `v` are the same address in every call.
unfoldable pub xtea_enc : Bytes → ℕ → Bytes → Bytes
unfolding load32 store32 add32 mix low_key high_key enc_round enc_rounds
xtea_enc k off p =
    let s = enc_rounds k 32 (record { v0 = load32 p off; v1 = load32 p (off + 4); sum = 0 }) in
    store32 (store32 p off s.v0) (off + 4) s.v1

unfoldable pub xtea_dec : Bytes → ℕ → Bytes → Bytes
unfolding load32 store32 add32 sub32 mix low_key high_key dec_round dec_rounds
xtea_dec k off p =
    let s =
      dec_rounds k 32 (record { v0 = load32 p off; v1 = load32 p (off + 4); sum = 0xC6EF3720 }) in
    store32 (store32 p off s.v0) (off + 4) s.v1
