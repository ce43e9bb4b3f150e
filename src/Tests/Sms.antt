-- ===== src/Tests/Sms.antt =====
-- An account with blocks that are left as they are.
use bano.Base.{returns, true, ℕ, ◌≡◌, refl, Option, some, [], ◌++◌, Bytes, codes, arith}
use bano.Config.Nodls.{hex_digits}
use bano.Setup.Pairs.{SmsInfo}
use bano.Sms.{
  SmsHandle, repeat_key, encrypt_creds, decrypt_creds, sms_open, request_path, sms_path, sms_uint32,
}
use bano.Sms.Creds.{decrypt_creds-encrypt_creds}
use bano.Sms.Account.{sms_path-fits}

abbrev same_block : Bytes → Bytes → Bytes
same_block k x = x

decrypt_creds-encrypt_creds_example :
    decrypt_creds same_block same_block []
      (encrypt_creds same_block same_block [] (codes "12345678") (codes "abcdefghijklmn"))
    ≡ (codes "12345678", codes "abcdefghijklmn")
decrypt_creds-encrypt_creds_example =
    decrypt_creds-encrypt_creds same_block same_block (λ k x e. e) (λ k x e. refl) []
      (codes "12345678") (codes "abcdefghijklmn") refl refl

abbrev info : SmsInfo
info = record {
  addr = some (codes "10.0.0.1");
  port = some (codes "443");
  creds = codes "12345678abcdefghijklmn0123456789";
  mem = 0;
}

abbrev whole_key : Bytes → Option Bytes
whole_key k = some k

abbrev atoi : Bytes → ℕ
atoi s = 443

abbrev opened : SmsHandle Bytes
opened = record {
  aes_key = codes "keykeykeykeykeykeykeykeykeykeyke";
  login = codes "12345678";
  pass = codes "abcdefghijklmn";
  addr = some (codes "10.0.0.1", 443);
}

info-opened :
    sms_open same_block same_block true (some (codes "key")) whole_key atoi info
    ≡ returns (some opened)
unfolding sms_open repeat_key decrypt_creds
info-opened = refl

sms_path-fits_example :
    (sms_path opened (codes "hello") ≡ returns (request_path opened (codes "hello")))
    × (sms_uint32 opened 42 ≡ returns (request_path opened (codes "0x" ++ hex_digits 8 42)))
sms_path-fits_example =
    sms_path-fits same_block same_block true (some (codes "key")) whole_key atoi info opened
      (codes "hello") 42 info-opened (omega arith)
