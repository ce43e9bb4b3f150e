-- ===== src/Sms.antt =====
-- The account for text messages of src/base/bano_sms.c: its credentials and what it asks the server
-- for. The ciphers of the matrixssl library are parameters, and the connection is left out.
pub mod Creds
pub mod Account
use bano.Base.{
  Step, returns, undefined, ℕ, zero, suc, ◌+◌, ◌-◌, ◌%◌, Bool, true, false, Option, none, some,
  List, [], ◌∷◌, ◌++◌, ◌==◌, if◌then◌else◌, ltb, Bytes, codes, get_or, length, take, drop,
}
use bano.Parser.Files.{until_nul}
use bano.Config.Nodls.{hex_digits}
use bano.Setup.Pairs.{SmsInfo}

-- `bano_sms_handle_t`, with the address as text and the port as the number that `atoi` reads
pub record SmsHandle (K : Type 0) : Type 0 where
  pub aes_key : K
  pub login : Bytes
  pub pass : Bytes
  pub addr : Option (Bytes × ℕ)

-- `n` bytes from `i` on of a key that is repeated
unfoldable pub repeat_key : Bytes → ℕ → ℕ → Bytes
repeat_key k i zero = []
repeat_key k i (suc n) = get_or k (i % length k) 0 ∷ repeat_key k (suc i) n

module _ {K : Type 0} (encrypt_block decrypt_block : K → Bytes → Bytes) where
  -- `bano_sms_encrypt_creds`: 8 bytes of login and 14 of password in 32
  unfoldable pub encrypt_creds : K → (l p : Bytes) → Bytes
  encrypt_creds k l p =
      let x : Bytes = take 8 l ++ (take 14 p ++ (0 ∷ 0 ∷ 0 ∷ 0 ∷ 0 ∷ 0 ∷ 0 ∷ 0 ∷ 0 ∷ 0 ∷ [])) in
      encrypt_block k (take 16 x) ++ encrypt_block k (drop 16 x)

  -- `bano_sms_decrypt_creds`
  unfoldable pub decrypt_creds : K → Bytes → Bytes × Bytes
  decrypt_creds k x =
      let xx : Bytes = decrypt_block k (take 16 x) ++ decrypt_block k (take 16 (drop 16 x)) in
      (take 8 xx, take 14 (drop 8 xx))

  -- `bano_sms_open`, with what the library and the environment give; `none` for an error. The length
  -- of an empty key is divided by, `atoi` reads no NULL, and `addr_string` has 16 bytes.
  unfoldable pub sms_open :
      (opened : Bool)
      → (key : Option Bytes) → (init_key : Bytes → Option K) → (atoi : Bytes → ℕ) → SmsInfo
      → Step (Option (SmsHandle K))
  sms_open opened key init_key atoi info =
      let wrong : Step (Option (SmsHandle K)) = returns none in
      let with_key : Step (Option (SmsHandle K)) = elim key as (λ _. Step (Option (SmsHandle K))) [
        | none ↦ wrong
        | some [] ↦ undefined
        | some (c ∷ k) ↦
            elim (init_key (repeat_key (c ∷ k) 0 32)) as (λ _. Step (Option (SmsHandle K))) [
              | none ↦ wrong
              | some aes ↦
                  let creds = decrypt_creds aes info.creds in
                  let plain : SmsHandle K = record {
                    aes_key = aes;
                    login = creds.0;
                    pass = creds.1;
                    addr = none;
                  } in
                  elim info.addr as (λ _. Step (Option (SmsHandle K))) [
                    | none ↦ returns (some plain)
                    | some text ↦ elim info.port as (λ _. Step (Option (SmsHandle K))) [
                      | none ↦ undefined
                      | some port ↦
                          let known : Step (Option (SmsHandle K)) =
                            returns (some (record plain { addr = some (text, atoi port) })) in
                          let outside : Step (Option (SmsHandle K)) = undefined in
                          if ltb (length text) 16 then known else outside
                    ]
                  ]
            ]
      ] in
      if opened then with_key else wrong

-- The text that `bano_sms_send` prints to `g_path`, which has 256 bytes
unfoldable pub request_path : {K : Type 0} → SmsHandle K → Bytes → Bytes
request_path sms s =
    codes "/sendmsg?"
    ++ (codes "user="
        ++ (until_nul sms.login
            ++ (codes "&pass="
                ++ (until_nul sms.pass
                    ++ (codes "&api_id=" ++ (until_nul sms.pass ++ (codes "&msg=" ++ s)))))))

unfoldable pub sms_path : {K : Type 0} → SmsHandle K → Bytes → Step Bytes
sms_path sms s =
    let text : Bytes = request_path sms s in
    let printed : Step Bytes = returns text in
    let outside : Step Bytes = undefined in if ltb (length text) 256 then printed else outside

-- `bano_sms_send_uint32`
unfoldable pub sms_uint32 : {K : Type 0} → SmsHandle K → ℕ → Step Bytes
sms_uint32 sms x = sms_path sms (codes "0x" ++ hex_digits 8 x)

-- What the library and the environment give `bano_sms_open`
pub record SmsLib (K : Type 0) : Type 0 where
  pub encrypt_block : K → Bytes → Bytes
  pub decrypt_block : K → Bytes → Bytes
  pub opened : Bool
  pub key : Option Bytes
  pub init_key : Bytes → Option K
  pub atoi : Bytes → ℕ

abbrev pub open_with_lib : {K : Type 0} → SmsLib K → SmsInfo → Step (Option (SmsHandle K))
open_with_lib l info =
    sms_open l.encrypt_block l.decrypt_block l.opened l.key l.init_key l.atoi info
