-- ===== src/Cipher.antt =====
-- src/base/bano_cipher.c: XTEA on the two halves of a 16 byte block, in place. The machine is
-- little endian, as the base's conversion routines assume.
pub mod Xtea
pub mod RoundTrip
use bano.Base.{ℕ, zero, suc, ◌+◌, Bytes, Bool, true, false, Option, none, some, if◌then◌else◌}
use Xtea.{xtea_enc, xtea_dec}

-- `enum bano_cipher_alg`
pub data Alg : Type 0 where
  alg_none alg_xtea alg_aes : Alg

-- `bano_cipher_t`
pub record Cipher : Type 0 where
  pub alg : Alg
  pub key : Bytes

enc_with : Alg → Bytes → Bytes → Option Bytes
enc_with alg_none key p = some p
enc_with alg_xtea key p = some (xtea_enc key 8 (xtea_enc key 0 p))
enc_with alg_aes key p = none

-- `bano_cipher_enc`; `none` is the result -1, which leaves the bytes as they are.
unfoldable pub cipher_enc : Cipher → Bytes → Option Bytes
unfolding enc_with
cipher_enc c p = enc_with c.alg c.key p

dec_with : Alg → Bytes → Bytes → Option Bytes
dec_with alg_none key p = some p
dec_with alg_xtea key p = some (xtea_dec key 8 (xtea_dec key 0 p))
dec_with alg_aes key p = none

-- `bano_cipher_dec`
unfoldable pub cipher_dec : Cipher → Bytes → Option Bytes
unfolding dec_with
cipher_dec c p = dec_with c.alg c.key p
