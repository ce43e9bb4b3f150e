-- ===== src/Sms/Account.antt =====
-- What an account that `bano_sms_open` of src/base/bano_sms.c has opened can send.
use bano.Base.{
  returns, ℕ, zero, suc, ◌+◌, ◌≡◌, ◌≤◌, refl, Bool, true, false, Option, none, some, [], ◌∷◌, ◌++◌,
  ◌==◌, ltb, Bytes, codes, length, length-append, length-take, take, drop, arith, Bool-cases,
  Option-cases, inl, inr,
}
use bano.Parser.Files.{until_nul}
use bano.Config.Nodls.{hex_digits}
use bano.Setup.Pairs.{SmsInfo}
use bano.Sms.{SmsHandle, repeat_key, decrypt_creds, sms_open, request_path, sms_path, sms_uint32}

length-until_nul : (s : Bytes) → length (until_nul s) ≤ length s
length-until_nul [] = omega arith
length-until_nul (c ∷ s) = elim (Bool-cases (c == 0)) [
  | inl e ↦ rw e (omega arith)
  | inr e ↦ rw e (omega (arith, length-until_nul s))
]

length-hex_digits : (n x : ℕ) → length (hex_digits n x) ≡ n
length-hex_digits zero x = refl
length-hex_digits (suc n) x = omega (arith, length-hex_digits n x)

-- The sizes of what credentials hold
pub record IsAccount {K : Type 0} (sms : SmsHandle K) : Type 0 where
  pub login_fits : length sms.login ≤ 8
  pub pass_fits : length sms.pass ≤ 14

module _ {K : Type 0} (encrypt_block decrypt_block : K → Bytes → Bytes) where
  -- What an account holds
  abbrev account : K → Bytes → Option (Bytes × ℕ) → SmsHandle K
  account aes x addr =
      let creds = decrypt_creds encrypt_block decrypt_block aes x in
      record { aes_key = aes; login = creds.0; pass = creds.1; addr = addr }

  creds_fit :
      (k : K) (x : Bytes)
      → (length (decrypt_creds encrypt_block decrypt_block k x).0 ≤ 8)
        × (length (decrypt_creds encrypt_block decrypt_block k x).1 ≤ 14)
  unfolding decrypt_creds
  creds_fit k x =
      let xx : Bytes = decrypt_block k (take 16 x) ++ decrypt_block k (take 16 (drop 16 x)) in
      (omega (arith, length-take 8 xx), omega (arith, length-take 14 (drop 8 xx)))

  pub sms_open-IsAccount :
      (opened : Bool) (key : Option Bytes) (init_key : Bytes → Option K) (atoi : Bytes → ℕ)
      (info : SmsInfo) (sms : SmsHandle K)
      → sms_open encrypt_block decrypt_block opened key init_key atoi info ≡ returns (some sms)
      → IsAccount sms
  unfolding sms_open
  sms_open-IsAccount false key init_key atoi info sms e = cc e
  sms_open-IsAccount true none init_key atoi info sms e = cc e
  sms_open-IsAccount true (some []) init_key atoi info sms e = cc e
  sms_open-IsAccount true (some (c ∷ k)) init_key atoi info sms e =
      elim (Option-cases (init_key (repeat_key (c ∷ k) 0 32))) [
        | inl no_key ↦ cc (rw (sms_open, no_key) at e)
        | inr (aes, made) ↦
            let (l, p) = creds_fit aes info.creds in
            elim (Option-cases info.addr) [
              | inl plain ↦
                  let same : account aes info.creds none ≡ sms =
                    cc (rw (sms_open, made, plain) at e) in
                  rw (← same) (record { login_fits = l; pass_fits = p })
              | inr (text, given) ↦ elim (Option-cases info.port) [
                | inl no_port ↦ cc (rw (sms_open, made, given, no_port) at e)
                | inr (port, known) ↦ elim (Bool-cases (ltb (length text) 16)) [
                  | inr long ↦ cc (rw (sms_open, made, given, known, long) at e)
                  | inl short ↦
                      let same : account aes info.creds (some (text, atoi port)) ≡ sms =
                        cc (rw (sms_open, made, given, known, short) at e) in
                      rw (← same) (record { login_fits = l; pass_fits = p })
                ]
              ]
            ]
      ]

-- How long each part of the path is
length-request_path :
    {K : Type 0} (sms : SmsHandle K) (s : Bytes)
    → IsAccount sms
    → length (request_path sms s) ≤ 69 + length s
unfolding request_path
length-request_path sms s h =
    let login : Bytes = until_nul sms.login in
    let pass : Bytes = until_nul sms.pass in
    let d : Bytes = codes "&msg=" ++ s in
    let c : Bytes = codes "&api_id=" ++ (pass ++ d) in
    let b : Bytes = codes "&pass=" ++ (pass ++ c) in
    let a : Bytes = codes "user=" ++ (login ++ b) in
    let la = h.login_fits in
    let lp = h.pass_fits in
    omega (
      arith,
      la,
      lp,
      length-until_nul sms.login,
      length-until_nul sms.pass,
      length-append (codes "/sendmsg?") a,
      length-append (codes "user=") (login ++ b),
      length-append login b,
      length-append (codes "&pass=") (pass ++ c),
      length-append pass c,
      length-append (codes "&api_id=") (pass ++ d),
      length-append pass d,
      length-append (codes "&msg=") s,
    )

module _ {K : Type 0} (encrypt_block decrypt_block : K → Bytes → Bytes) where
  -- For an account that `bano_sms_open` has opened, the path of a request with a text of at most
  -- 186 bytes, or with a number, is printed within the 256 bytes for it.
  pub sms_path-fits :
      (opened : Bool) (key : Option Bytes) (init_key : Bytes → Option K) (atoi : Bytes → ℕ)
      (info : SmsInfo) (sms : SmsHandle K) (s : Bytes) (x : ℕ)
      → sms_open encrypt_block decrypt_block opened key init_key atoi info ≡ returns (some sms)
      → length s ≤ 186
      → (sms_path sms s ≡ returns (request_path sms s))
        × (sms_uint32 sms x ≡ returns (request_path sms (codes "0x" ++ hex_digits 8 x)))
  unfolding sms_path sms_uint32
  sms_path-fits opened key init_key atoi info sms s x e short =
      let account =
        sms_open-IsAccount encrypt_block decrypt_block opened key init_key atoi info sms e in
      let number : Bytes = codes "0x" ++ hex_digits 8 x in
      let text = length-request_path sms s account in
      let text' = length-request_path sms number account in
      let digits = length-append (codes "0x") (hex_digits 8 x) in
      let n = length-hex_digits 8 x in
      let fits : ltb (length (request_path sms s)) 256 ≡ true = ground (arith, text, short) in
      let fits' : ltb (length (request_path sms number)) 256 ≡ true =
        ground (arith, text', digits, n) in
      (rw (sms_path, fits) refl, rw (sms_uint32, sms_path, fits') refl)
