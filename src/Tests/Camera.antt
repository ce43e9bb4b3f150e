-- ===== src/Tests/Camera.antt =====
-- Small images, with a conversion of pixels that only copies.
use bano.Base.{
  returns, undefined, ℕ, zero, suc, ap, ◌*◌, ◌≡◌, refl, [], ◌∷◌, Bytes, codes, length, drop, arith,
}
use bano.Camera.{
  size_160_120, yuyv, frame_width, frame_height, format_to_frame_size, trans_vflip_rgb24,
  trans_yuyv_to_rgb24,
}
use bano.Camera.Overrun.{trans_vflip_rgb24-outside}
use bano.Camera.Frames.{pixels, trans_yuyv_to_rgb24-pixels, trans_yuyv_to_rgb24-whole}

-- Two lines of four pixels each
abbrev two_lines : Bytes
two_lines = codes "abcdefghijklABCDEFGHIJKL"

trans_vflip_rgb24-outside_example : trans_vflip_rgb24 two_lines 4 2 ≡ undefined
trans_vflip_rgb24-outside_example =
    trans_vflip_rgb24-outside 4 2 two_lines (λ e. cc e) refl (omega arith) (omega arith) refl

abbrev copied : (y cr cb : ℕ) → Bytes
copied y cr cb = y ∷ cr ∷ cb ∷ []

-- Two lines of two pixels each
abbrev frame : Bytes
frame = codes "aubvcwdx"

trans_yuyv_to_rgb24-pixels_example :
    trans_yuyv_to_rgb24 copied 9 frame 2 2
    ≡ returns (drop (2 * 2 * 2) frame, pixels copied frame 0 (2 * 2))
trans_yuyv_to_rgb24-pixels_example =
    trans_yuyv_to_rgb24-pixels copied 9 2 2 frame refl (omega arith) (omega arith) (omega arith)

abbrev zeros : ℕ → Bytes
zeros zero = []
zeros (suc n) = 0 ∷ zeros n

length-zeros : (n : ℕ) → length (zeros n) ≡ n
length-zeros zero = refl
length-zeros (suc n) = ap suc (length-zeros n)

abbrev dark : Bytes
dark = zeros (format_to_frame_size yuyv size_160_120)

trans_yuyv_to_rgb24-whole_example :
    (out : Bytes) × (trans_yuyv_to_rgb24 copied 321 dark
        (frame_width size_160_120)
        (frame_height size_160_120)
      ≡ returns ([], out))
    × (length out ≡ 3 * frame_width size_160_120 * frame_height size_160_120)
trans_yuyv_to_rgb24-whole_example =
    trans_yuyv_to_rgb24-whole copied 321 size_160_120 dark (λ y cr cb. refl) (omega arith)
      (length-zeros (format_to_frame_size yuyv size_160_120))
