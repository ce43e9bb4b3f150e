-- ===== src/Camera/Frames.antt =====
-- What `trans_yuyv_to_rgb24` of src/base/bano_cam.c makes of a frame.
use bano.Base.{
  returns, ℕ, zero, suc, ◌+◌, ◌*◌, ◌/◌, ◌%◌, ◌^◌, ◌≡◌, ◌≤◌, ◌<◌, refl, ap, ◌∙◌, false, [], ◌∷◌,
  ◌++◌, append_assoc, ◌==◌, Bytes, length, length-drop, length-append, get_or, drop, drop-add,
  get_or-drop, arith, sub32,
}
use native.Mathlib.Nat.{zero-add, add-zero, suc-add}
use bano.Camera.{
  Frame, size_160_120, size_320_240, size_640_480, yuyv, frame_width, frame_height,
  format_to_frame_size, yuyv_line, trans_yuyv_to_rgb24,
}
use bano.Camera.Flip.{sub32-small}

four :
    (d : Bytes)
    → 4 ≤ length d
    → (y0 : ℕ) × (u : ℕ) × (y1 : ℕ) × (v : ℕ) × (r : Bytes) × (d ≡ y0 ∷ u ∷ y1 ∷ v ∷ r)
four (y0 ∷ u ∷ y1 ∷ v ∷ r) l = (y0, u, y1, v, r, refl)
four [] l = absurd (omega (arith, l))
four (a ∷ []) l = absurd (omega (arith, l))
four (a ∷ b ∷ []) l = absurd (omega (arith, l))
four (a ∷ b ∷ c ∷ []) l = absurd (omega (arith, l))

drop-all : (d : Bytes) (n : ℕ) → length d ≤ n → drop n d ≡ []
drop-all [] zero l = refl
drop-all [] (suc n) l = refl
drop-all (x ∷ d) zero l = absurd (omega (arith, l))
drop-all (x ∷ d) (suc n) l = drop-all d n (omega (arith, l))

module _ (yuv_to_rgb : (y cr cb : ℕ) → Bytes) where
  -- The pixel `i` of a frame: two pixels share a pair of colours.
  abbrev pub pixel : Bytes → ℕ → Bytes
  pixel d i =
      yuv_to_rgb (get_or d (2 * i) 0) (get_or d (i / 2 * 4 + 1) 0) (get_or d (i / 2 * 4 + 3) 0)

  -- `n` pixels from `i` on
  abbrev pub pixels : Bytes → ℕ → ℕ → Bytes
  pixels d i zero = []
  pixels d i (suc n) = pixel d i ++ pixels d (suc i) n

  pixels-add : (d : Bytes) (i n k : ℕ) → pixels d i (n + k) ≡ pixels d i n ++ pixels d (i + n) k
  pixels-add d i zero k = rw (zero-add k, add-zero i) refl
  pixels-add d i (suc n) k =
      let on : i + suc n ≡ suc i + n = omega arith in
      rw
        (suc-add n k, on, pixels-add d (suc i) n k, append_assoc (pixel d i) (pixels d (suc i) n) _)
        refl

  line_end : (fuel : ℕ) (d : Bytes) → yuyv_line yuv_to_rgb (suc fuel) d 0 ≡ returns (d, [])
  unfolding yuyv_line
  line_end fuel [] = refl
  line_end fuel (a ∷ []) = refl
  line_end fuel (a ∷ b ∷ []) = refl
  line_end fuel (a ∷ b ∷ c ∷ []) = refl
  line_end fuel (a ∷ b ∷ c ∷ e ∷ d) = refl

  round :
      (fuel p i : ℕ) (d w out : Bytes)
      → 4 ≤ length (drop (2 * p) d)
      → p % 2 ≡ 0
      → suc (suc i) < 2 ^ 32
      → yuyv_line yuv_to_rgb fuel (drop (2 * suc (suc p)) d) i ≡ returns (w, out)
      → yuyv_line yuv_to_rgb (suc fuel) (drop (2 * p) d) (suc (suc i))
        ≡ returns (w, pixel d p ++ (pixel d (suc p) ++ out))
  unfolding yuyv_line
  round fuel p i d w out there even small run =
      let (y0, u, y1, v, r, e) = four (drop (2 * p) d) there in
      let at = λ (c : ℕ). get_or-drop d (2 * p) c 0 ∙ ap (λ (x : Bytes). get_or x c 0) e in
      let back : sub32 (suc (suc i)) 2 ≡ i =
        sub32-small (suc (suc i)) 2 (omega arith) small ∙ omega arith in
      let double : 2 * suc (suc p) ≡ 2 * p + 4 = omega arith in
      let behind : drop (2 * suc (suc p)) d ≡ r =
        ap (λ (k : ℕ). drop k d) double ∙ drop-add (2 * p) 4 d ∙ ap (λ (x : Bytes). drop 4 x) e in
      let run' = rw behind at run in
      let first : 2 * p + 0 ≡ 2 * p = omega arith in
      let second : 2 * p + 2 ≡ 2 * suc p = omega arith in
      let colour : p / 2 * 4 ≡ 2 * p = omega (arith, even) in
      let colour' : suc p / 2 * 4 ≡ 2 * p = omega (arith, even) in
      let a0 = rw first at (at 0) in
      let a2 = rw second at (at 2) in
      let more : (suc (suc i) == 0) ≡ false = ground arith in
      rw (e, more, back, run', colour, colour', a0, at 1, a2, at 3) refl

  line :
      (fuel p i : ℕ) (d : Bytes)
      → i < 2 * fuel
      → i % 2 ≡ 0
      → p % 2 ≡ 0
      → i < 2 ^ 32
      → 2 * p + 2 * i ≤ length d
      → yuyv_line yuv_to_rgb fuel (drop (2 * p) d) i ≡ returns (drop (2 * (p + i)) d, pixels d p i)
  unfolding yuyv_line
  line zero p i d enough even even' small there = absurd (omega (arith, enough))
  line (suc fuel) p zero d enough even even' small there =
      let on : p + 0 ≡ p = omega arith in rw on (line_end fuel (drop (2 * p) d))
  line (suc fuel) p (suc zero) d enough even even' small there = absurd (omega (arith, even))
  line (suc fuel) p (suc (suc i)) d enough even even' small there =
      let rest =
        line fuel (suc (suc p)) i d (omega (arith, enough)) (omega (arith, even))
          (omega (arith, even')) (omega (arith, small)) (omega (arith, there)) in
      let on : p + suc (suc i) ≡ suc (suc p) + i = omega arith in
      rw on (
        round fuel p i d (drop (2 * (suc (suc p) + i)) d) (pixels d (suc (suc p)) i)
          (omega (arith, there, length-drop (2 * p) d)) even' small rest)

  lines :
      (fuel w h p : ℕ) (d : Bytes)
      → w < 2 * fuel
      → w % 2 ≡ 0
      → p % 2 ≡ 0
      → w < 2 ^ 32
      → 2 * p + 2 * (w * h) ≤ length d
      → trans_yuyv_to_rgb24 yuv_to_rgb fuel (drop (2 * p) d) w h
        ≡ returns (drop (2 * (p + w * h)) d, pixels d p (w * h))
  unfolding trans_yuyv_to_rgb24
  lines fuel w zero p d enough even even' small there =
      let none_left : w * 0 ≡ 0 = ground arith in rw (none_left, add-zero p) refl
  lines fuel w (suc h) p d enough even even' small there =
      let wide : w * suc h ≡ w + w * h = ground arith in
      let first = line fuel p w d enough even even' small (omega (arith, there, wide)) in
      let rest =
        lines fuel w h (p + w) d enough even (omega (arith, even, even')) small
          (omega (arith, there, wide)) in
      let on : p + w + w * h ≡ p + (w + w * h) = omega arith in
      let all = pixels-add d p w (w * h) in rw (wide, first, rest, on, all) refl

  -- For an even width of less than 2 ^ 32 and a frame of at least two bytes for each pixel,
  -- `trans_yuyv_to_rgb24` ends, reads two bytes for each pixel, and writes the pixels in order,
  -- each from its own brightness and from the colours of its pair; fuel for a line of more than
  -- half its width is enough.
  pub trans_yuyv_to_rgb24-pixels :
      (fuel w h : ℕ) (d : Bytes)
      → w % 2 ≡ 0
      → w < 2 ^ 32
      → w < 2 * fuel
      → w * h * 2 ≤ length d
      → trans_yuyv_to_rgb24 yuv_to_rgb fuel d w h ≡ returns (drop (w * h * 2) d, pixels d 0 (w * h))
  trans_yuyv_to_rgb24-pixels fuel w h d even small enough there =
      let size : 2 * (0 + w * h) ≡ w * h * 2 = omega arith in
      rw size at (lines fuel w h 0 d enough even refl small (omega (arith, there)))

  length-pixels :
      ((y cr cb : ℕ) → length (yuv_to_rgb y cr cb) ≡ 3)
      → (d : Bytes) (i n : ℕ) → length (pixels d i n) ≡ 3 * n
  length-pixels three d i zero = omega arith
  length-pixels three d i (suc n) = omega (
    arith,
    length-append (pixel d i) (pixels d (suc i) n),
    three _ _ _,
    length-pixels three d (suc i) n,
  )

  -- The sizes that a camera may be set to
  fits : (f : Frame) → (frame_width f % 2 ≡ 0) × (frame_width f ≤ 640)
  unfolding frame_width
  fits size_160_120 = (refl, omega arith)
  fits size_320_240 = (refl, omega arith)
  fits size_640_480 = (refl, omega arith)

  -- For each size of a frame, and a conversion to three bytes for each pixel,
  -- `trans_yuyv_to_rgb24` reads exactly the `format_to_frame_size` bytes of a YUYV frame and
  -- writes exactly the bytes of the image; fuel of more than 320 for a line is enough.
  pub trans_yuyv_to_rgb24-whole :
      (fuel : ℕ) (f : Frame) (d : Bytes)
      → ((y cr cb : ℕ) → length (yuv_to_rgb y cr cb) ≡ 3)
      → 320 < fuel
      → length d ≡ format_to_frame_size yuyv f
      → let w = frame_width f in
        let h = frame_height f in
        (out : Bytes) × (trans_yuyv_to_rgb24 yuv_to_rgb fuel d w h ≡ returns ([], out))
        × (length out ≡ 3 * w * h)
  unfolding format_to_frame_size
  trans_yuyv_to_rgb24-whole fuel f d three enough size =
      let w : ℕ = frame_width f in
      let h : ℕ = frame_height f in
      let (even, wide) = fits f in
      let run =
        trans_yuyv_to_rgb24-pixels fuel w h d even (omega (arith, wide))
          (omega (arith, wide, enough)) (omega (arith, size)) in
      let last : drop (w * h * 2) d ≡ [] = drop-all d (w * h * 2) (omega (arith, size)) in
      let n : 3 * w * h ≡ 3 * (w * h) = ground arith in
      (pixels d 0 (w * h), rw last at run, rw n (length-pixels three d 0 (w * h)))
