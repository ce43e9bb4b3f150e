-- ===== src/Camera/Flip.antt =====
-- The sizes that `trans_vflip_rgb24` of src/base/bano_cam.c computes with.
use bano.Base.{ℕ, zero, suc, ◌+◌, ◌-◌, ◌*◌, ◌%◌, ◌^◌, ◌≡◌, ◌≢◌, ◌≤◌, ◌<◌, refl, ◌∙◌, arith, sub32}

pub sub32-small : (a b : ℕ) → b ≤ a → a < 2 ^ 32 → sub32 a b ≡ a - b
unfolding sub32
sub32-small a b h g = omega (arith, h, g)

pub line_fits : (l h : ℕ) → h ≢ 0 → l * h < 2 ^ 32 → l % 2 ^ 32 ≡ l
line_fits l zero nh small = absurd (nh refl)
line_fits l (suc g) nh small =
    let product : l + l * g < 2 ^ 32 = ground (arith, small) in
    let fits : l < 2 ^ 32 = ground (arith, product) in omega (arith, fits)

-- Where the last line begins
pub last_line : (l h : ℕ) → l ≢ 0 → h ≢ 0 → l * h < 2 ^ 32 → sub32 h 1 * l % 2 ^ 32 + l ≡ h * l
last_line zero h ne nh small = absurd (ne refl)
last_line (suc p) zero ne nh small = absurd (nh refl)
last_line (suc p) (suc g) ne nh small =
    let product : suc g + p * suc g < 2 ^ 32 = ground (arith, small) in
    let back : sub32 (suc g) 1 ≡ g =
      sub32-small (suc g) 1 (omega arith) (ground (arith, product)) ∙ omega arith in
    let fits : g * suc p < 2 ^ 32 = ground (arith, product) in rw back (ground (arith, fits))
