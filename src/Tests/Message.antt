-- ===== src/Tests/Message.antt =====
-- A message of src/common/bano_common.h through the cipher.
use bano.Base.{◌≡◌, ◌≢◌, [], ◌∷◌, arith}
use bano.Cipher.{Cipher, alg_xtea, alg_aes}
use bano.Message.{Msg, msg_bytes, bytes_msg, seal, unseal}
use bano.Message.Wire.{IsMsg, with_enc, unseal-seal}

abbrev xtea : Cipher
xtea = record {
  alg = alg_xtea;
  key = 0 ∷ 1 ∷ 2 ∷ 3 ∷ 4 ∷ 5 ∷ 6 ∷ 7 ∷ 8 ∷ 9 ∷ 10 ∷ 11 ∷ 12 ∷ 13 ∷ 14 ∷ 15 ∷ [];
}

abbrev reply : Msg
reply = record {
  op = 0;
  flags = 1;
  saddr = 0xa5a5a5a5;
  csum = 7;
  token = 0;
  key = 0x8002;
  val = 42;
}

reply-IsMsg : IsMsg reply
reply-IsMsg = record {
  op_fits = omega arith;
  flags_fits = omega arith;
  saddr_fits = omega arith;
  csum_fits = omega arith;
  token_fits = omega arith;
  key_fits = omega arith;
  val_fits = omega arith;
}

xtea-not_aes : xtea.alg ≢ alg_aes
xtea-not_aes e = cc

unseal-seal_example : bytes_msg (unseal xtea (seal xtea (msg_bytes reply))) ≡ with_enc reply
unseal-seal_example = unseal-seal xtea reply reply-IsMsg xtea-not_aes
