-- ===== src/Cipher/RoundTrip.antt =====
-- Encryption and then decryption of the bytes of a message.
use bano.Base.{
  ℕ, ◌+◌, ◌*◌, ◌/◌, ◌%◌, ◌^◌, ◌<◌, ◌≤◌, ◌≡◌, refl, ap, Bytes, AreBytes, length, ◌∷◌, arith, load32,
  some, ◌≢◌,
}
use bano.Cipher.{Cipher, Alg, alg_none, alg_xtea, alg_aes, cipher_enc, cipher_dec}
use bano.Cipher.Xtea.{State, enc_rounds, dec_rounds, xtea_enc, xtea_dec}
use bano.Cipher.Xtea.Rounds.{dec_rounds-enc_rounds, enc_rounds-fit, enc_rounds-last_sum}

-- A word in memory, before `r`.
abbrev word : ℕ → Bytes → Bytes
word w r = (w % 2 ^ 8) ∷ (w / 2 ^ 8 % 2 ^ 8) ∷ (w / 2 ^ 16 % 2 ^ 8) ∷ (w / 2 ^ 24 % 2 ^ 8) ∷ r

abbrev words : ℕ → ℕ → ℕ → ℕ → Bytes → Bytes
words a b c d r = word a (word b (word c (word d r)))

-- Four bytes are those of a word.
word-bytes :
    (x y z t : ℕ) (r : Bytes)
    → x < 256
    → y < 256
    → z < 256
    → t < 256
    → x ∷ y ∷ z ∷ t ∷ r ≡ word (x + y * 2 ^ 8 + z * 2 ^ 16 + t * 2 ^ 24) r
word-bytes x y z t r hx hy hz ht = ground arith

abbrev start : ℕ → ℕ → State
start a b = record { v0 = a; v1 = b; sum = 0 }

module _ (k : Bytes) where
  abbrev enced : ℕ → ℕ → State
  enced a b = enc_rounds k 32 (start a b)

  abbrev deced : ℕ → ℕ → State
  deced a b = dec_rounds k 32 (record { v0 = a; v1 = b; sum = 0xC6EF3720 })

  deced-enced :
      (a b : ℕ) → a < 2 ^ 32 → b < 2 ^ 32 → deced (enced a b).v0 (enced a b).v1 ≡ start a b
  deced-enced a b ha hb = rw (← enc_rounds-last_sum k a b) (
      dec_rounds-enc_rounds k 32 (start a b)
        (record { v0_fits = ha; v1_fits = hb; sum_fits = omega arith }))

load-word :
    (w : ℕ)
    → w < 2 ^ 32
    → w % 2 ^ 8
        + w / 2 ^ 8 % 2 ^ 8 * 2 ^ 8
        + w / 2 ^ 16 % 2 ^ 8 * 2 ^ 16
        + w / 2 ^ 24 % 2 ^ 8 * 2 ^ 24
      ≡ w
load-word w h = omega arith

load-0 : (a b c d : ℕ) (r : Bytes) → a < 2 ^ 32 → load32 (words a b c d r) 0 ≡ a
unfolding load32
load-0 a b c d r h = load-word a h

load-4 : (a b c d : ℕ) (r : Bytes) → b < 2 ^ 32 → load32 (words a b c d r) 4 ≡ b
unfolding load32
load-4 a b c d r h = load-word b h

load-8 : (a b c d : ℕ) (r : Bytes) → c < 2 ^ 32 → load32 (words a b c d r) 8 ≡ c
unfolding load32
load-8 a b c d r h = load-word c h

load-12 : (a b c d : ℕ) (r : Bytes) → d < 2 ^ 32 → load32 (words a b c d r) 12 ≡ d
unfolding load32
load-12 a b c d r h = load-word d h

module _ (k : Bytes) (a b c d : ℕ) (r : Bytes) where
  enc-0 :
      a < 2 ^ 32
      → b < 2 ^ 32
      → xtea_enc k 0 (words a b c d r) ≡ words (enced k a b).v0 (enced k a b).v1 c d r
  enc-0 ha hb = unfold xtea_enc in rw (load-0 a b c d r ha, load-4 a b c d r hb)

  enc-8 :
      c < 2 ^ 32
      → d < 2 ^ 32
      → xtea_enc k 8 (words a b c d r) ≡ words a b (enced k c d).v0 (enced k c d).v1 r
  enc-8 hc hd = unfold xtea_enc in rw (load-8 a b c d r hc, load-12 a b c d r hd)

  dec-0 :
      a < 2 ^ 32
      → b < 2 ^ 32
      → xtea_dec k 0 (words a b c d r) ≡ words (deced k a b).v0 (deced k a b).v1 c d r
  dec-0 ha hb = unfold xtea_dec in rw (load-0 a b c d r ha, load-4 a b c d r hb)

  dec-8 :
      c < 2 ^ 32
      → d < 2 ^ 32
      → xtea_dec k 8 (words a b c d r) ≡ words a b (deced k c d).v0 (deced k c d).v1 r
  dec-8 hc hd = unfold xtea_dec in rw (load-8 a b c d r hc, load-12 a b c d r hd)

words-round_trip :
    (k : Bytes) (a b c d : ℕ) (r : Bytes)
    → a < 2 ^ 32
    → b < 2 ^ 32
    → c < 2 ^ 32
    → d < 2 ^ 32
    → xtea_dec k 8 (xtea_dec k 0 (xtea_enc k 8 (xtea_enc k 0 (words a b c d r)))) ≡ words a b c d r
words-round_trip k a b c d r ha hb hc hd =
    let s : State = enced k a b in
    let t : State = enced k c d in
    let hs =
      enc_rounds-fit k 32 (start a b)
        (record { v0_fits = ha; v1_fits = hb; sum_fits = omega arith }) in
    let ht =
      enc_rounds-fit k 32 (start c d)
        (record { v0_fits = hc; v1_fits = hd; sum_fits = omega arith }) in
    rw (
      enc-0 k a b c d r ha hb,
      enc-8 k s.v0 s.v1 c d r hc hd,
      dec-0 k s.v0 s.v1 t.v0 t.v1 r hs.v0_fits hs.v1_fits,
      deced-enced k a b ha hb,
      dec-8 k a b t.v0 t.v1 r ht.v0_fits ht.v1_fits,
      deced-enced k c d hc hd,
    )

-- The first word of some bytes.
record Cut (p : Bytes) : Type 0 where
  first : ℕ
  rest : Bytes
  fits : first < 2 ^ 32
  splits : p ≡ word first rest
  rest_bytes : AreBytes rest
  count : length p ≡ length rest + 4

cut : (p : Bytes) → AreBytes p → 4 ≤ length p → Cut p
cut (x ∷ y ∷ z ∷ t ∷ r) h n = record {
  first = x + y * 2 ^ 8 + z * 2 ^ 16 + t * 2 ^ 24;
  rest = r;
  fits = omega arith;
  splits = word-bytes x y z t r h.0 h.1.0 h.1.1.0 h.1.1.1.0;
  rest_bytes = h.1.1.1.1;
  count = omega arith;
}
cut _ h n = absurd (omega arith)

-- Decrypting the two halves after encrypting them gives back the bytes.
xtea-round_trip :
    (k p : Bytes)
    → AreBytes p
    → 16 ≤ length p
    → xtea_dec k 8 (xtea_dec k 0 (xtea_enc k 8 (xtea_enc k 0 p))) ≡ p
xtea-round_trip k p h n =
    let a = cut p h (omega arith) in
    let b = cut a.rest a.rest_bytes (omega (arith, a.count)) in
    let c = cut b.rest b.rest_bytes (omega (arith, a.count, b.count)) in
    let d = cut c.rest c.rest_bytes (omega (arith, a.count, b.count, c.count)) in
    rw (a.splits, b.splits, c.splits, d.splits)
      (words-round_trip k a.first b.first c.first d.first d.rest a.fits b.fits c.fits d.fits)

-- For a cipher whose algorithm is handled, and at least 16 bytes, `bano_cipher_enc` returns 0, and
-- `bano_cipher_dec` with the same cipher gives back the bytes from what it made of them.
pub cipher_dec-cipher_enc :
    (c : Cipher) (p : Bytes)
    → AreBytes p
    → 16 ≤ length p
    → c.alg ≢ alg_aes
    → (q : Bytes) × (cipher_enc c p ≡ some q) × (cipher_dec c q ≡ some p)
unfolding cipher_enc cipher_dec
cipher_dec-cipher_enc c p h n ne = with_alg c.alg ne
  where
    with_alg :
        (a : Alg)
        → a ≢ alg_aes
        → (q : Bytes) × (cipher_enc (record { alg = a; key = c.key }) p ≡ some q)
          × (cipher_dec (record { alg = a; key = c.key }) q ≡ some p)
    with_alg alg_none ne = (p, refl, refl)
    with_alg alg_xtea ne = (_, refl, ap some (xtea-round_trip c.key p h n))
    with_alg alg_aes ne = absurd (ne refl)
