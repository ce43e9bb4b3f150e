-- ===== src/Pages/Buffers.antt =====
-- The buffers of 32 bytes into which `format_time` and `complete_httpd_msg` print.
use bano.Base.{
  ℕ, suc, zero, ◌+◌, ◌/◌, ◌%◌, ◌≤◌, ◌<◌, ◌≡◌, refl, inl, inr, [], ◌∷◌, ◌++◌, ltb, leb, ◌-◌,
  if◌then◌else◌, Bytes, codes, length, length-append, Bool-cases, arith,
}
use Prim.Native.String.{String}
use bano.Pages.{digit, hex, dec, format_time}

pub length-hex : (w n : ℕ) → length (hex w n) ≡ w
length-hex zero n = refl
length-hex (suc w) n =
    omega (arith, length-hex w (n / 16), length-append (hex w (n / 16)) (digit (n % 16) ∷ []))

pub length-dec : (w n : ℕ) → length (dec w n) ≤ w
length-dec zero n = omega arith
length-dec (suc w) n =
    let last : Bytes = (48 + n % 10) ∷ [] in
    elim (Bool-cases (ltb n 10)) [
      | inl e ↦ rw e (omega (arith, length-append [] last))
      | inr e ↦ rw e (omega (arith, length-append (dec w (n / 10)) last, length-dec w (n / 10)))
    ]

-- A number of 20 digits with a unit behind it.
dec-unit : (n : ℕ) (u : String) → length (codes u) ≡ 2 → length (dec 20 n ++ codes u) < 32
dec-unit n u e = omega (arith, e, length-append (dec 20 n) (codes u), length-dec 20 n)

-- What `format_time` prints fits its buffer of 32 bytes, whatever the times.
pub format_time-fits : (tm_now tm_mod : ℕ) → length (format_time tm_now tm_mod) < 32
unfolding format_time
format_time-fits tm_now tm_mod =
    let d : ℕ = if leb tm_now tm_mod then 0 else tm_now - tm_mod in
    elim (Bool-cases (ltb 86400 d)) [
      | inl e ↦ rw e (dec-unit (d / 86400) " d" refl)
      | inr e ↦ elim (Bool-cases (ltb 3600 d)) [
        | inl e' ↦ rw (e, e') (dec-unit (d / 3600) " h" refl)
        | inr e' ↦ elim (Bool-cases (ltb 60 d)) [
          | inl e'' ↦ rw (e, e', e'') (dec-unit (d / 60) " m" refl)
          | inr e'' ↦ rw (e, e', e'') (dec-unit d " s" refl)
        ]
      ]
    ]
