-- ===== src/Cipher/Xtea/Rounds.antt =====
-- The rounds of XTEA forwards and backwards.
use bano.Base.{ℕ, zero, suc, ◌+◌, ◌%◌, ◌^◌, ◌<◌, ◌≡◌, refl, Bytes, add32, add32-lt, sub32-add32}
use bano.Cipher.Xtea.{
  State, delta, mix, low_key, high_key, enc_round, dec_round, enc_rounds, dec_rounds,
}

-- Each of the three words fits 32 bits.
pub record IsWords (s : State) : Type 0 where
  pub v0_fits : s.v0 < 2 ^ 32
  pub v1_fits : s.v1 < 2 ^ 32
  pub sum_fits : s.sum < 2 ^ 32

enc_round-IsWords : (k : Bytes) (s : State) → IsWords (enc_round k s)
unfolding enc_round
enc_round-IsWords k s = record {
  v0_fits = add32-lt _ _;
  v1_fits = add32-lt _ _;
  sum_fits = add32-lt _ _;
}

dec_round-enc_round : (k : Bytes) (s : State) → IsWords s → dec_round k (enc_round k s) ≡ s
unfolding enc_round dec_round
dec_round-enc_round k s h =
    let a = add32 s.v0 (mix s.v1 s.sum (low_key k s.sum)) in
    let t = add32 s.sum delta in
    rw (sub32-add32 s.v1 (mix a t (high_key k t)) h.v1_fits, sub32-add32 s.sum delta h.sum_fits)
      (rw (sub32-add32 s.v0 (mix s.v1 s.sum (low_key k s.sum)) h.v0_fits))

enc_rounds-enc_round :
    (k : Bytes) (n : ℕ) (s : State)
    → enc_rounds k n (enc_round k s) ≡ enc_round k (enc_rounds k n s)
unfolding enc_rounds
enc_rounds-enc_round k zero s = refl
enc_rounds-enc_round k (suc n) s = enc_rounds-enc_round k n (enc_round k s)

enc_rounds-IsWords : (k : Bytes) (n : ℕ) (s : State) → IsWords s → IsWords (enc_rounds k n s)
unfolding enc_rounds
enc_rounds-IsWords k zero s h = h
enc_rounds-IsWords k (suc n) s h = enc_rounds-IsWords k n (enc_round k s) (enc_round-IsWords k s)

-- Any number of rounds of encryption on three 32 bit words is undone by as many rounds of
-- decryption.
pub dec_rounds-enc_rounds :
    (k : Bytes) (n : ℕ) (s : State) → IsWords s → dec_rounds k n (enc_rounds k n s) ≡ s
unfolding enc_rounds dec_rounds
dec_rounds-enc_rounds k zero s h = refl
dec_rounds-enc_rounds k (suc n) s h =
    rw
      (
        enc_rounds-enc_round k n s,
        dec_round-enc_round k (enc_rounds k n s) (enc_rounds-IsWords k n s h),
      )
      (dec_rounds-enc_rounds k n s h)

-- The words fit after the rounds too.
pub enc_rounds-fit : (k : Bytes) (n : ℕ) (s : State) → IsWords s → IsWords (enc_rounds k n s)
enc_rounds-fit = enc_rounds-IsWords

-- The running sum depends on neither the data nor the key.
abbrev sum_after : ℕ → ℕ → ℕ
sum_after zero t = t
sum_after (suc n) t = sum_after n ((t + delta) % 2 ^ 32)

enc_rounds-sum : (k : Bytes) (n : ℕ) (s : State) → (enc_rounds k n s).sum ≡ sum_after n s.sum
unfolding enc_rounds enc_round add32
enc_rounds-sum k zero s = refl
enc_rounds-sum k (suc n) s = enc_rounds-sum k n (enc_round k s)

-- The 32 rounds of encryption end with the sum from which decryption starts, whatever the key and
-- the data.
pub enc_rounds-last_sum :
    (k : Bytes) (a b : ℕ) → (enc_rounds k 32 (record { v0 = a; v1 = b; sum = 0 })).sum ≡ 0xC6EF3720
enc_rounds-last_sum k a b = enc_rounds-sum k 32 (record { v0 = a; v1 = b; sum = 0 })
