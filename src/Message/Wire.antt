-- ===== src/Message/Wire.antt =====
-- The way of a message through memory and cipher.
use bano.Base.{
  ℕ, ◌+◌, ◌*◌, ◌/◌, ◌%◌, ◌^◌, ◌<◌, ◌≤◌, ◌≡◌, ◌≢◌, refl, true, [], ◌∷◌, Bytes, AreBytes, length,
  load32, has_bit, set_bit, arith,
}
use bano.Cipher.{Cipher, alg_aes}
use bano.Cipher.RoundTrip.{cipher_dec-cipher_enc}
use bano.Message.{Msg, msg_bytes, bytes_msg, set_enc, seal, unseal, flag_enc, word16, word32}

-- Each field fits its width.
pub record IsMsg (m : Msg) : Type 0 where
  pub op_fits : m.op < 4
  pub flags_fits : m.flags < 64
  pub saddr_fits : m.saddr < 2 ^ 32
  pub csum_fits : m.csum < 2 ^ 16
  pub token_fits : m.token < 2 ^ 32
  pub key_fits : m.key < 2 ^ 16
  pub val_fits : m.val < 2 ^ 32

split_word32 :
    (w : ℕ)
    → w < 2 ^ 32
    → w % 2 ^ 8
        + w / 2 ^ 8 % 2 ^ 8 * 2 ^ 8
        + w / 2 ^ 16 % 2 ^ 8 * 2 ^ 16
        + w / 2 ^ 24 % 2 ^ 8 * 2 ^ 24
      ≡ w
split_word32 w h = omega arith

split_word16 : (w : ℕ) → w < 2 ^ 16 → w % 2 ^ 8 + w / 2 ^ 8 % 2 ^ 8 * 2 ^ 8 ≡ w
split_word16 w h = omega arith

pub split_byte : (a b : ℕ) → a < 4 → ((a + b * 4) % 4 ≡ a) × ((a + b * 4) / 4 ≡ b)
split_byte a b h = (omega arith, omega arith)

-- A message whose fields fit their widths is read back from its memory.
pub bytes_msg-msg_bytes : (m : Msg) → IsMsg m → bytes_msg (msg_bytes m) ≡ m
unfolding bytes_msg msg_bytes load32
bytes_msg-msg_bytes m h =
    let (low, high) = split_byte m.op m.flags h.op_fits in
    rw
      (
        split_word32 m.saddr h.saddr_fits,
        split_word16 m.csum h.csum_fits,
        split_word32 m.token h.token_fits,
        split_word16 m.key h.key_fits,
        split_word32 m.val h.val_fits,
        low,
        high,
      )
      refl

-- The message with the flag for encryption.
abbrev pub with_enc : Msg → Msg
with_enc m = record m { flags = set_bit flag_enc m.flags }

with_enc-IsMsg : (m : Msg) → IsMsg m → IsMsg (with_enc m)
with_enc-IsMsg m h = record {
  op_fits = h.op_fits;
  flags_fits = ground (arith, h.flags_fits);
  saddr_fits = h.saddr_fits;
  csum_fits = h.csum_fits;
  token_fits = h.token_fits;
  key_fits = h.key_fits;
  val_fits = h.val_fits;
}

set_enc-msg_bytes : (m : Msg) → IsMsg m → set_enc (msg_bytes m) ≡ msg_bytes (with_enc m)
unfolding msg_bytes
set_enc-msg_bytes m h = let (low, high) = split_byte m.op m.flags h.op_fits in rw (low, high) refl

-- The bytes that the cipher covers.
abbrev pub body : Msg → Bytes
body m = word32 m.saddr (word16 m.csum (word32 m.token (word16 m.key (word32 m.val []))))

word32-AreBytes : (w : ℕ) (rest : Bytes) → AreBytes rest → AreBytes (word32 w rest)
word32-AreBytes w rest h = (omega arith, (omega arith, (omega arith, (omega arith, h))))

word16-AreBytes : (w : ℕ) (rest : Bytes) → AreBytes rest → AreBytes (word16 w rest)
word16-AreBytes w rest h = (omega arith, (omega arith, h))

body-AreBytes : (m : Msg) → AreBytes (body m)
body-AreBytes m =
    let e = word32-AreBytes m.val [] tt in
    let d = word16-AreBytes m.key (word32 m.val []) e in
    let c = word32-AreBytes m.token (word16 m.key (word32 m.val [])) d in
    let b = word16-AreBytes m.csum (word32 m.token (word16 m.key (word32 m.val []))) c in
    word32-AreBytes m.saddr (word16 m.csum (word32 m.token (word16 m.key (word32 m.val [])))) b

pub set_bit-has_bit : (x : ℕ) → has_bit flag_enc (set_bit flag_enc x) ≡ true
set_bit-has_bit x = ground arith

unseal-seal_bytes :
    (c : Cipher) (b : ℕ) (p : Bytes)
    → AreBytes p
    → 16 ≤ length p
    → c.alg ≢ alg_aes
    → unseal c (seal c (b ∷ p)) ≡ set_enc (b ∷ p)
unfolding unseal seal
unseal-seal_bytes c b p h n ne =
    let (q, enc, dec) = cipher_dec-cipher_enc c p h n ne in
    let (low, high) = split_byte (b % 4) (set_bit flag_enc (b / 4)) (omega arith) in
    rw (enc, high, set_bit-has_bit (b / 4), dec) refl

-- A message whose fields fit, sealed by one side with a cipher that is handled, is read by the
-- other with the same cipher as the same message with the flag for encryption.
pub unseal-seal :
    (c : Cipher) (m : Msg)
    → IsMsg m
    → c.alg ≢ alg_aes
    → bytes_msg (unseal c (seal c (msg_bytes m))) ≡ with_enc m
unfolding msg_bytes
unseal-seal c m h ne =
    rw
      (
        unseal-seal_bytes c (m.op + m.flags * 4) (body m) (body-AreBytes m) (omega arith) ne,
        set_enc-msg_bytes m h,
      )
      (bytes_msg-msg_bytes (with_enc m) (with_enc-IsMsg m h))
