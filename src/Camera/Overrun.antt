-- ===== src/Camera/Overrun.antt =====
-- Where `trans_vflip_rgb24` of src/base/bano_cam.c leaves the image.
use bano.Base.{
  undefined, ℕ, zero, suc, ◌+◌, ◌*◌, ◌/◌, ◌%◌, ◌^◌, ◌≡◌, ◌≢◌, ◌<◌, refl, ◌∙◌, true, false, [],
  append-nil, leb, ltb, Bytes, length, length-take, length-drop, take, drop, take-append-drop,
  arith, Bool-cases, inl, inr, sub32,
}
use bano.Camera.{swap_at, swap_rest, swap_lines, flip_loop, trans_vflip_rgb24}
use bano.Camera.Swaps.{row, swap_words-Swaps, length-row}
use bano.Camera.Flip.{last_line, line_fits}

-- Two whole words behind one another, and a byte behind the second that is not there.
swap_lines-outside :
    (l : ℕ) (x m y : Bytes)
    → l % 4 ≡ 0
    → length x ≡ l
    → length y ≡ l
    → swap_lines (row [] x m y []) 0 (l + length m) l ≡ undefined
unfolding swap_lines swap_rest swap_at
swap_lines-outside l x m y even hx hy =
    let words : l / 4 * 4 ≡ l = omega (arith, even) in
    let plain : 0 + l ≡ l = omega arith in
    let swap =
      rw (words, plain) at
        (swap_words-Swaps (l / 4) [] x m y [] (omega (arith, hx, words))
          (omega (arith, hy, words))) in
    let total = length-row [] y m x [] in
    let out : leb (l + length m + l + 1) (length (row [] y m x [])) ≡ false =
      ground (arith, total, hx, hy) in
    elim (Bool-cases (leb (0 + l + 1) (length (row [] y m x [])))) [
      | inl e ↦ rw (swap_lines, swap, even, words, swap_at, e, out) refl
      | inr e ↦ rw (swap_lines, swap, even, words, swap_at, e) refl
    ]

-- For an image of at least two lines, which are not empty and a multiple of 4 bytes, of less than
-- 2 ^ 32 bytes in all, `trans_vflip_rgb24` reaches memory outside the image.
pub trans_vflip_rgb24-outside :
    (w h : ℕ) (d : Bytes)
    → w ≢ 0
    → (w * 3) % 4 ≡ 0
    → 1 < h
    → w * 3 * h < 2 ^ 32
    → length d ≡ w * 3 * h
    → trans_vflip_rgb24 d w h ≡ undefined
unfolding trans_vflip_rgb24 flip_loop
trans_vflip_rgb24-outside w zero d some_bytes even two small n = absurd (omega (arith, two))
trans_vflip_rgb24-outside w (suc zero) d some_bytes even two small n = absurd (omega (arith, two))
trans_vflip_rgb24-outside w (suc (suc g)) d some_bytes even two small n =
    let l : ℕ = w * 3 in
    let k : ℕ = sub32 (suc (suc g)) 1 * l % 2 ^ 32 in
    let at_end : k + l ≡ suc (suc g) * l =
      last_line l (suc (suc g)) (ground (arith, some_bytes)) (ground arith) small in
    let line : l % 2 ^ 32 ≡ l = line_fits l (suc (suc g)) (ground arith) small in
    let x : Bytes = take l d in
    let m : Bytes = take (g * l) (drop l d) in
    let y : Bytes = drop (g * l) (drop l d) in
    let whole : row [] x m y [] ≡ d =
      rw (append-nil y, take-append-drop (g * l) (drop l d)) (take-append-drop l d) in
    let size : length d ≡ l + g * l + l = n ∙ ground arith in
    let hx : length x ≡ l = omega (arith, length-take l d, size) in
    let hm : length m ≡ g * l =
      omega (arith, length-take (g * l) (drop l d), length-drop l d, size) in
    let hy : length y ≡ l = omega (arith, length-drop (g * l) (drop l d), length-drop l d, size) in
    let at_k : k ≡ l + length m = rw hm (ground (arith, at_end)) in
    let go : ltb 0 k ≡ true = ground (arith, at_k, some_bytes) in
    let run : swap_lines d 0 k l ≡ undefined =
      rw (whole, ← at_k) at (swap_lines-outside l x m y even hx hy) in
    rw (trans_vflip_rgb24, line, flip_loop, go, run) refl
