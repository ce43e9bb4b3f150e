-- ===== src/Sms/Creds.antt =====
-- The credentials of src/base/bano_sms.c, encrypted and decrypted.
use bano.Base.{
  ℕ, ◌≡◌, refl, sym, ap, [], ◌∷◌, ◌++◌, Bytes, length, take, drop, take-append, drop-append,
  take-append-drop, length-append, length-take, length-drop, append-nil, ◌∙◌, arith,
}
use bano.Sms.{encrypt_creds, decrypt_creds}

take-all : (xs : Bytes) (n : ℕ) → length xs ≡ n → take n xs ≡ xs
take-all xs n e = ap (λ (ys : Bytes). take n ys) (sym (append-nil xs)) ∙ take-append xs [] n (sym e)

module _ {K : Type 0} (encrypt_block decrypt_block : K → Bytes → Bytes)
    (size : (k : K) (x : Bytes) → length x ≡ 16 → length (encrypt_block k x) ≡ 16)
    (inverse : (k : K) (x : Bytes) → length x ≡ 16 → decrypt_block k (encrypt_block k x) ≡ x) where
  -- With a block cipher on 16 bytes whose decryption undoes its encryption,
  -- `bano_sms_decrypt_creds` gives back the login of 8 bytes and the password of 14 bytes that
  -- `bano_sms_encrypt_creds` was given.
  pub decrypt_creds-encrypt_creds :
      (k : K) (l p : Bytes)
      → length l ≡ 8
      → length p ≡ 14
      → decrypt_creds encrypt_block decrypt_block k
          (encrypt_creds encrypt_block decrypt_block k l p)
        ≡ (l, p)
  unfolding encrypt_creds decrypt_creds
  decrypt_creds-encrypt_creds k l p hl hp =
      let pad : Bytes = 0 ∷ 0 ∷ 0 ∷ 0 ∷ 0 ∷ 0 ∷ 0 ∷ 0 ∷ 0 ∷ 0 ∷ [] in
      let x : Bytes = l ++ (p ++ pad) in
      let tl : take 8 l ≡ l = take-all l 8 hl in
      let tp : take 14 p ≡ p = take-all p 14 hp in
      let long : length x ≡ 32 =
        omega (arith, hl, hp, length-append l (p ++ pad), length-append p pad) in
      let first : length (take 16 x) ≡ 16 = omega (arith, long, length-take 16 x) in
      let second : length (drop 16 x) ≡ 16 = omega (arith, long, length-drop 16 x) in
      let a : Bytes = encrypt_block k (take 16 x) in
      let b : Bytes = encrypt_block k (drop 16 x) in
      let la : length a ≡ 16 = size k (take 16 x) first in
      let lb : length b ≡ 16 = size k (drop 16 x) second in
      let ra : take 16 (a ++ b) ≡ a = take-append a b 16 (sym la) in
      let rb : take 16 (drop 16 (a ++ b)) ≡ b =
        rw (drop-append a b 16 (sym la)) (take-all b 16 lb) in
      let da : decrypt_block k a ≡ take 16 x = inverse k (take 16 x) first in
      let db : decrypt_block k b ≡ drop 16 x = inverse k (drop 16 x) second in
      let whole : take 16 x ++ drop 16 x ≡ x = take-append-drop 16 x in
      let login : take 8 x ≡ l = take-append l (p ++ pad) 8 (sym hl) in
      let rest : drop 8 x ≡ p ++ pad = drop-append l (p ++ pad) 8 (sym hl) in
      let pass : take 14 (drop 8 x) ≡ p = rw rest (take-append p pad 14 (sym hp)) in
      rw (tl, tp, ra, rb, da, db, whole, login, pass) refl
