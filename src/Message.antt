-- ===== src/Message.antt =====
-- The messages of src/common/bano_common.h: a packed structure of 17 bytes in memory, whose first
-- byte holds two bit fields, the lowest bits first. The bytes behind it are what the cipher
-- covers.
pub mod Wire
use bano.Base.{
  ℕ, zero, suc, ◌+◌, ◌-◌, ◌*◌, ◌/◌, ◌%◌, ◌^◌, Bool, true, false, Option, none, some, List, [], ◌∷◌,
  ◌==◌, if◌then◌else◌, Bytes, get_or, load32, has_bit, set_bit,
}
use bano.Cipher.{Cipher, cipher_enc, cipher_dec}

-- `bano_msg_t`: the header, and `set` of the union, whose key is also that of `get`.
pub record Msg : Type 0 where
  pub op : ℕ
  pub flags : ℕ
  pub saddr : ℕ
  pub csum : ℕ
  pub token : ℕ
  pub key : ℕ
  pub val : ℕ

abbrev pub op_set : ℕ
op_set = 0

abbrev pub op_get : ℕ
op_get = 1

-- Flags, as the numbers of their bits.
abbrev pub flag_reply : ℕ
flag_reply = 0

abbrev pub flag_err : ℕ
flag_err = 1

abbrev pub flag_enc : ℕ
flag_enc = 2

-- `load16` and `load32` read what these lay out.
abbrev pub word16 : ℕ → Bytes → Bytes
word16 w rest = (w % 2 ^ 8) ∷ (w / 2 ^ 8 % 2 ^ 8) ∷ rest

abbrev pub word32 : ℕ → Bytes → Bytes
word32 w rest =
    (w % 2 ^ 8) ∷ (w / 2 ^ 8 % 2 ^ 8) ∷ (w / 2 ^ 16 % 2 ^ 8) ∷ (w / 2 ^ 24 % 2 ^ 8) ∷ rest

abbrev pub load16 : Bytes → ℕ → ℕ
load16 p off = get_or p off 0 + get_or p (off + 1) 0 * 2 ^ 8

-- The memory of a message.
unfoldable pub msg_bytes : Msg → Bytes
msg_bytes m =
    (m.op + m.flags * 4)
    ∷ word32 m.saddr (word16 m.csum (word32 m.token (word16 m.key (word32 m.val []))))

-- The message in a memory of 17 bytes.
unfoldable pub bytes_msg : Bytes → Msg
bytes_msg p = record {
  op = get_or p 0 0 % 4;
  flags = get_or p 0 0 / 4;
  saddr = load32 p 1;
  csum = load16 p 5;
  token = load32 p 7;
  key = load16 p 11;
  val = load32 p 13;
}

-- A change of the bytes from `BANO_MSG_ENC_OFF` on; where it fails, they stay.
abbrev pub at_enc_off : (Bytes → Option Bytes) → Bytes → Bytes
at_enc_off f [] = []
at_enc_off f (c ∷ p) = c ∷ elim (f p) [ none ↦ p | some q ↦ q ]

-- `hdr.flags |= BANO_MSG_FLAG_ENC`
abbrev pub set_enc : Bytes → Bytes
set_enc [] = []
set_enc (c ∷ p) = (c % 4 + set_bit flag_enc (c / 4) * 4) ∷ p

-- The encryption in `post_io`
unfoldable pub seal : Cipher → Bytes → Bytes
seal c p = set_enc (at_enc_off (cipher_enc c) p)

-- The decryption in `handle_bano_msg`
unfoldable pub unseal : Cipher → Bytes → Bytes
unseal c p = if has_bit flag_enc (get_or p 0 0 / 4) then at_enc_off (cipher_dec c) p else p
