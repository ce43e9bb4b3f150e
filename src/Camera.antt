-- ===== src/Camera.antt =====
-- The images of src/base/bano_cam.c and the files around them of src/base/bano_bmp.c: sizes,
-- pixels and the vertical flip that is made where BANO_CONFIG_PNG is not set. The conversion of one
-- pixel, `yuv_to_rgb`, computes with floating point numbers and is a parameter. The device is left out.
pub mod Header
pub mod Swaps
pub mod Flip
pub mod Overrun
pub mod Frames
use bano.Base.{
  Step, returns, out_of_fuel, undefined, ◌>>=◌, ℕ, zero, suc, ◌+◌, ◌-◌, ◌*◌, ◌/◌, ◌%◌, ◌^◌, Bool,
  true, false, ◌&&◌, Option, none, some, List, [], ◌∷◌, ◌++◌, ◌==◌, if◌then◌else◌, ltb, leb, Bytes,
  length, take, drop, add32, sub32,
}
use bano.Message.{word16, word32}

-- `bano_bmp_info_t`
pub record BmpInfo : Type 0 where
  pub bpp : ℕ
  pub width : ℕ
  pub height : ℕ

-- `sizeof(struct file_header)`, which is packed
abbrev pub header_size : ℕ
header_size = 54

-- The header that `bano_bmp_open` writes
unfoldable pub header : BmpInfo → Bytes
header info =
    let data_size : ℕ = info.bpp * info.width * info.height in
    word16 0x4d42 (
      word32 (header_size + data_size) (
        word16 0 (
          word16 0 (
            word32 header_size (
              word32 0x28 (
                word32 info.width (
                  word32 info.height (
                    word16 1 (
                      word16 (info.bpp * 8) (
                        word32 0 (
                          word32 data_size (word32 0 (word32 0 (word32 0 (word32 0 [])))))))))))))))

-- The pixel formats of a `bano_cam_fmt_t`
pub data Pixels : Type 0 where
  yuv420 yuyv : Pixels

-- The sizes of a `bano_cam_fmt_t`
pub data Frame : Type 0 where
  size_160_120 size_320_240 size_640_480 : Frame

-- `expand_format` on the formats that it knows
unfoldable pub frame_width : Frame → ℕ
frame_width size_160_120 = 160
frame_width size_320_240 = 320
frame_width size_640_480 = 640

unfoldable pub frame_height : Frame → ℕ
frame_height size_160_120 = 120
frame_height size_320_240 = 240
frame_height size_640_480 = 480

-- `format_to_frame_size` on the same formats
unfoldable pub format_to_frame_size : Pixels → Frame → ℕ
format_to_frame_size yuv420 f = frame_width f * frame_height f + frame_width f * frame_height f / 2
format_to_frame_size yuyv f = frame_width f * frame_height f * 2

-- `memcpy`, or a store, of bytes within a memory
abbrev pub put : ℕ → Bytes → Bytes → Bytes
put i xs d = take i d ++ (xs ++ drop (i + length xs) d)

-- A swap of `n` bytes at `a` and at `b`, with the first ones in `tmp`. The lines that the program flips
-- are multiples of 4 bytes, so that its words are aligned.
unfoldable pub swap_at : ℕ → Bytes → ℕ → ℕ → Step Bytes
swap_at n d a b =
    let tmp : Bytes = take n (drop a d) in
    let there : Bytes = take n (drop b d) in
    let swapped : Step Bytes = returns (put b tmp (put a there d)) in
    let outside : Step Bytes = undefined in
    if leb (a + n) (length d) && leb (b + n) (length d) then swapped else outside

-- The loop of `swap_lines` over words
unfoldable pub swap_words : ℕ → Bytes → ℕ → ℕ → Step Bytes
swap_words zero d a b = returns d
swap_words (suc w) d a b = swap_at 4 d a b >>= λ e. swap_words w e (a + 4) (b + 4)

-- The `switch` of `swap_lines`
unfoldable pub swap_rest : ℕ → Bytes → ℕ → ℕ → Step Bytes
swap_rest n d a b =
    let three : Step Bytes = swap_at 1 d a b >>= λ e. swap_at 2 e (a + 1) (b + 1) in
    if n == 3 then three else if n == 2 then swap_at 2 d a b else swap_at 1 d a b

-- `swap_lines` on the lines at `a` and at `b`
unfoldable pub swap_lines : Bytes → ℕ → ℕ → ℕ → Step Bytes
swap_lines d a b w =
    swap_words (w / 4) d a b >>= λ e. swap_rest (w % 4) e (a + w / 4 * 4) (b + w / 4 * 4)

-- The loop of `trans_vflip_rgb24`
unfoldable pub flip_loop : (fuel : ℕ) → (l : ℕ) → Bytes → ℕ → ℕ → Step Bytes
flip_loop zero l d j k = out_of_fuel
flip_loop (suc fuel) l d j k =
    let stop : Step Bytes = returns d in
    let round : Step Bytes =
      swap_lines d j k l >>= λ e. flip_loop fuel l e (add32 j l) (sub32 k l) in
    if ltb j k then round else stop

-- `trans_vflip_rgb24`
unfoldable pub trans_vflip_rgb24 : Bytes → (w h : ℕ) → Step Bytes
trans_vflip_rgb24 d w h = let l : ℕ = w * 3 % 2 ^ 32 in flip_loop h l d 0 (sub32 h 1 * l % 2 ^ 32)

module _ (yuv_to_rgb : (y cr cb : ℕ) → Bytes) where
  -- A line of `trans_yuyv_to_rgb24`: the bytes that are left, and those written.
  unfoldable pub yuyv_line : (fuel : ℕ) → Bytes → ℕ → Step (Bytes × Bytes)
  yuyv_line zero d i = out_of_fuel
  yuyv_line (suc fuel) (y0 ∷ u ∷ y1 ∷ v ∷ d) i =
      let last : Step (Bytes × Bytes) = returns (y0 ∷ u ∷ y1 ∷ v ∷ d, []) in
      let rest : Step (Bytes × Bytes) = yuyv_line fuel d (sub32 i 2) in
      let more : Step (Bytes × Bytes) =
        rest >>= λ (left, out). returns (left, yuv_to_rgb y0 u v ++ (yuv_to_rgb y1 u v ++ out)) in
      if i == 0 then last else more
  yuyv_line (suc fuel) d i =
      let last : Step (Bytes × Bytes) = returns (d, []) in
      let outside : Step (Bytes × Bytes) = undefined in if i == 0 then last else outside

  -- `trans_yuyv_to_rgb24`, the lines one after the other
  unfoldable pub trans_yuyv_to_rgb24 : (fuel : ℕ) → Bytes → (w h : ℕ) → Step (Bytes × Bytes)
  trans_yuyv_to_rgb24 fuel d w zero = returns (d, [])
  trans_yuyv_to_rgb24 fuel d w (suc h) = yuyv_line fuel d w >>= λ (left, out).
      trans_yuyv_to_rgb24 fuel left w h >>= λ (last, rest). returns (last, out ++ rest)
