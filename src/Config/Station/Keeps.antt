-- ===== src/Config/Station/Keeps.antt =====
-- The cipher and the address that the settings of the base leave.
use bano.Base.{
  ℕ, ◌<◌, ◌^◌, ◌≡◌, ◌≢◌, Bool, Option, some, List, [], ◌∷◌, Bytes, codes, arith, ltb, Bool-cases,
  Option-cases, inl, inr,
}
use bano.Strings.{BanoString, cmp_cstr, to_uint32, to_cipher_key}
use bano.Parser.Outcome.{Outcome, done, failed, no_fuel, ◌>>=◌, >>=-eq-done}
use bano.Parser.Structs.{Pair}
use bano.Cipher.{alg_aes}
use bano.Config.Bounds.{both}
use bano.Config.Nodls.{load_nodl_dir}
use bano.Config.Station.{
  Station, cipher_alg_pair, addr_pair, cipher_key_pair, nodl_dir_pair, apply_base_pair,
  apply_base_pairs,
}

-- The cipher is one that `bano_cipher_enc` and `bano_cipher_dec` handle.
pub record IsStation (b : Station) : Type 0 where
  pub handled : b.cipher.alg ≢ alg_aes
  pub addr_fits : b.addr < 2 ^ 32

cipher_alg_pair-IsStation :
    (b : Station) (s : BanoString) → IsStation b → IsStation (cipher_alg_pair b s).0
unfolding cipher_alg_pair
cipher_alg_pair-IsStation b s h = elim (Bool-cases (cmp_cstr s (codes "none"))) [
  | inl m ↦ rw m (record { handled = λ e. cc; addr_fits = h.addr_fits })
  | inr m ↦ elim (Bool-cases (cmp_cstr s (codes "xtea"))) [
    | inl n ↦ rw (m, n) (record { handled = λ e. cc; addr_fits = h.addr_fits })
    | inr n ↦ rw (m, n) h
  ]
]

-- What a callback may leave.
abbrev Leaves : Outcome (Station × Bool) → Type 0
Leaves (done r) = IsStation r.0
Leaves failed = Unit {0}
Leaves no_fuel = Unit {0}

Leaves->>= :
    {A : Type 0} (o : Outcome A) (k : A → Outcome (Station × Bool))
    → ((a : A) → Leaves (k a))
    → Leaves (o >>= k)
Leaves->>= (done a) k h = h a
Leaves->>= failed k h = tt
Leaves->>= no_fuel k h = tt

-- A number that was read fits 32 bits.
pub to_uint32-lt :
    (strtoul : Bytes → ℕ → ℕ) (s : BanoString) (x : ℕ) → to_uint32 strtoul s ≡ some x → x < 2 ^ 32
unfolding to_uint32
to_uint32-lt strtoul s x e = elim (Bool-cases (ltb s.size 32)) [
  | inl m ↦ let v = rw m at e in ground (arith, v)
  | inr m ↦ let v = rw m at e in cc v
]

module _ (strtoul : Bytes → ℕ → ℕ) (mapped : Bytes → Option Bytes)
    (listing : Bytes → Option (List Bytes)) (fuel parser_mem : ℕ) where
  addr_pair-IsStation :
      (b : Station) (s : BanoString)
      → IsStation b
      → IsStation (addr_pair strtoul mapped listing fuel parser_mem b s).0
  unfolding addr_pair
  addr_pair-IsStation b s h = elim (Bool-cases (cmp_cstr s (codes "default"))) [
    | inl m ↦ rw m (record { handled = h.handled; addr_fits = omega arith })
    | inr m ↦ elim (Option-cases (to_uint32 strtoul s)) [
      | inl n ↦ rw (addr_pair, m, n) h
      | inr (x, n) ↦
          rw (addr_pair, m, n)
            (record { handled = h.handled; addr_fits = to_uint32-lt strtoul s x n })
    ]
  ]

  cipher_key_pair-IsStation :
      (b : Station) (s : BanoString)
      → IsStation b
      → IsStation (cipher_key_pair strtoul mapped listing fuel parser_mem b s).0
  unfolding cipher_key_pair
  cipher_key_pair-IsStation b s h = elim (Option-cases (to_cipher_key strtoul s)) [
    | inl n ↦ rw (cipher_key_pair, n) h
    | inr (k, n) ↦ rw (cipher_key_pair, n) (record { handled = h.handled; addr_fits = h.addr_fits })
  ]

  nodl_dir_pair-IsStation :
      (b : Station) (s : BanoString)
      → IsStation b
      → Leaves (nodl_dir_pair strtoul mapped listing fuel parser_mem b s)
  unfolding nodl_dir_pair
  nodl_dir_pair-IsStation b s h =
      Leaves->>= (load_nodl_dir strtoul mapped fuel parser_mem listing b.mem b.nodls s) _
        (λ r. record { handled = h.handled; addr_fits = h.addr_fits })

  apply_base_pair-Leaves :
      (b : Station) (p : Pair)
      → IsStation b
      → Leaves (apply_base_pair strtoul mapped listing fuel parser_mem b p)
  unfolding apply_base_pair
  apply_base_pair-Leaves b p h =
      let is = λ (name : Bytes). cmp_cstr p.key name in
      both Leaves (is (codes "addr")) (addr_pair-IsStation b p.val h) (
        both Leaves (is (codes "nodl_dir")) (nodl_dir_pair-IsStation b p.val h) (
          both Leaves (is (codes "cipher_alg")) (cipher_alg_pair-IsStation b p.val h) (
            both Leaves (is (codes "cipher_key")) (cipher_key_pair-IsStation b p.val h) (
              both Leaves (is (codes "new_nodes"))
                (record { handled = h.handled; addr_fits = h.addr_fits }) h))))

  -- Where the loop over the pairs of a structure for the base ends, with an error or without, the
  -- cipher is one that is handled and the address fits 32 bits, if that was so before.
  pub apply_base_pairs-IsStation :
      (b c : Station) (ps : List Pair) (wrong : Bool)
      → IsStation b
      → apply_base_pairs strtoul mapped listing fuel parser_mem b ps ≡ done (c, wrong)
      → IsStation c
  unfolding apply_base_pairs
  apply_base_pairs-IsStation b c [] wrong h e = let same : b ≡ c = cc e in rw (← same) h
  apply_base_pairs-IsStation b c (p ∷ ps) wrong h e =
      let run = apply_base_pair strtoul mapped listing fuel parser_mem b p in
      let (r, first, last) = >>=-eq-done run _ e in
      let g : IsStation r.0 = rw first at (apply_base_pair-Leaves b p h) in
      elim (Bool-cases r.1) [
        | inl m ↦ let same : r.0 ≡ c = cc (rw m at last) in rw (← same) g
        | inr m ↦ apply_base_pairs-IsStation r.0 c ps wrong g (rw m at last)
      ]
