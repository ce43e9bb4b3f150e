-- ===== src/Tests/Cipher.antt =====
-- src/base/bano_cipher.c on one block.
use bano.Base.{◌≡◌, ◌≢◌, some, [], ◌∷◌, Bytes, AreBytes, arith}
use bano.Cipher.{alg_xtea, alg_aes, Cipher, cipher_enc, cipher_dec}
use bano.Cipher.Xtea.{State}
use bano.Cipher.Xtea.Rounds.{IsWords}
use bano.Cipher.RoundTrip.{cipher_dec-cipher_enc}

abbrev block : Bytes
block = 1 ∷ 2 ∷ 3 ∷ 4 ∷ 5 ∷ 6 ∷ 7 ∷ 8 ∷ 9 ∷ 10 ∷ 11 ∷ 12 ∷ 13 ∷ 14 ∷ 15 ∷ 255 ∷ []

abbrev xtea : Cipher
xtea = record { alg = alg_xtea; key = block }

block-AreBytes : AreBytes block
block-AreBytes = ground arith

xtea-not_aes : xtea.alg ≢ alg_aes
xtea-not_aes e = cc

cipher_dec-cipher_enc_example :
    (q : Bytes) × (cipher_enc xtea block ≡ some q) × (cipher_dec xtea q ≡ some block)
cipher_dec-cipher_enc_example =
    cipher_dec-cipher_enc xtea block block-AreBytes (omega arith) xtea-not_aes

abbrev words : State
words = record { v0 = 0x01020304; v1 = 0xffffffff; sum = 0 }

words-IsWords : IsWords words
words-IsWords = record { v0_fits = omega arith; v1_fits = omega arith; sum_fits = omega arith }
