-- ===== src/Camera/Header.antt =====
-- What a reader finds in the header that `bano_bmp_open` of src/base/bano_bmp.c writes.
use bano.Base.{ℕ, ◌+◌, ◌*◌, ◌^◌, ◌≡◌, ◌<◌, refl, Bytes, length, load32, arith}
use bano.Message.{load16}
use bano.Camera.{BmpInfo, header, header_size}

-- The fields of a file with `n` bytes of pixels
pub record HasFields (info : BmpInfo) (n : ℕ) (p : Bytes) : Type 0 where
  pub size : length p ≡ header_size
  pub magic : load16 p 0 ≡ 0x4d42
  pub file_size : load32 p 2 ≡ length p + n
  pub data_offset : load32 p 10 ≡ length p
  pub width : load32 p 18 ≡ info.width
  pub height : load32 p 22 ≡ info.height
  pub bits : load16 p 28 ≡ info.bpp * 8
  pub data_size : load32 p 34 ≡ n

-- A reader of the header that `bano_bmp_open` writes finds the sizes of the file, the header and
-- the image, and the width, the height and the bits of a pixel, where all of them fit their
-- fields.
pub header-HasFields :
    (info : BmpInfo)
    → header_size + info.bpp * info.width * info.height < 2 ^ 32
    → info.width < 2 ^ 32
    → info.height < 2 ^ 32
    → info.bpp < 2 ^ 13
    → HasFields info (info.bpp * info.width * info.height) (header info)
unfolding header load32
header-HasFields info total wide high deep =
    let n : ℕ = info.bpp * info.width * info.height in
    record {
      size = refl;
      magic = refl;
      file_size = omega (arith, total);
      data_offset = refl;
      width = omega (arith, wide);
      height = omega (arith, high);
      bits = omega (arith, deep);
      data_size = omega (arith, total);
    }
