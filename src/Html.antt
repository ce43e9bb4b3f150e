-- ===== src/Html.antt =====
-- src/base/bano_html.c: a page grows in one block of memory as it is written. The block is the list of
-- its bytes, empty for NULL. `realloc` is a function from the block and the size asked for, which
-- every write is given; a text is what its format and arguments give, or none where `vsnprintf`
-- fails. A write past the end of the block is a fault, which is the outcome `none`.
pub mod Content
use bano.Base.{
  ℕ, ◌+◌, suc, zero, ◌-◌, ◌*◌, ◌/◌, Bool, true, false, Option, none, some, List, [], ◌∷◌, ◌++◌,
  ◌==◌, if◌then◌else◌, ltb, leb, length, take, drop, Bytes,
}

-- `bano_html_t`
pub record Html : Type 0 where
  pub data_block : Bytes
  pub off : ℕ
  pub size : ℕ
  pub is_err : Bool

-- `realloc`: NULL, or the new block.
abbrev pub Realloc : Type 0
Realloc = Bytes → ℕ → Option Bytes

-- The bytes `xs` written from an offset on.
unfoldable pub write_at : Bytes → ℕ → Bytes → Option Bytes
write_at block i xs =
    if leb (i + length xs) (length block)
    then some (take i block ++ xs ++ drop (i + length xs) block)
    else none

-- `vsnprintf` with a buffer of `n` bytes at an offset.
unfoldable pub vsnprintf : Bytes → (off n : ℕ) → Bytes → Option Bytes
vsnprintf block off n text =
    if n == 0 then some block else write_at block off (take (n - 1) text ++ 0 ∷ [])

-- The size is rounded up to a multiple of 0x1000, past the size asked for.
unfoldable pub resize_data : Realloc → Html → ℕ → Html × Bool
resize_data realloc h size =
    let new_size : ℕ = (size + 4096) / 4096 * 4096 in
    elim (realloc h.data_block new_size) [
      | none ↦ (record h { is_err = true }, false)
      | some block ↦ (record h { data_block = block; size = new_size }, true)
    ]

unfoldable pub free_data : Html → Html
free_data h = record h { data_block = []; size = 0; off = 0 }

unfoldable pub html_init : Html
html_init = record { data_block = []; off = 0; size = 0; is_err = false }

-- `on_error`
unfoldable pub on_error : Html → Html
on_error h = record (free_data h) { is_err = true }

-- From `do_vsnprintf` on, with the value of `once`; the Boolean is false for the result -1.
unfoldable pub do_vsnprintf : Realloc → (once : ℕ) → Html → Bytes → Option (Html × Bool)
do_vsnprintf realloc zero h text = elim (vsnprintf h.data_block h.off (h.size - h.off) text) [
  | none ↦ none
  | some block ↦
      let g : Html = record h { data_block = block } in
      let bad : Option (Html × Bool) = some (on_error g, false) in
      if leb (h.size - h.off) (length text)
      then bad
      else some (record g { off = h.off + length text }, true)
]
do_vsnprintf realloc (suc once) h text = elim (vsnprintf h.data_block h.off (h.size - h.off) text) [
  | none ↦ none
  | some block ↦
      let g : Html = record h { data_block = block } in
      let resized : Html × Bool = resize_data realloc g (h.off + length text + 1) in
      let again : Option (Html × Bool) = do_vsnprintf realloc once resized.0 text in
      let bad : Option (Html × Bool) = some (on_error resized.0, false) in
      if leb (h.size - h.off) (length text)
      then (if resized.1 then again else bad)
      else some (record g { off = h.off + length text }, true)
]

unfoldable pub html_printf : Realloc → Html → Option Bytes → Option (Html × Bool)
html_printf realloc h text =
    if h.is_err
    then some (h, false)
    else elim text [ none ↦ some (on_error h, false) | some bytes ↦ do_vsnprintf realloc 1 h bytes ]

-- What the system gives for the path of a file: whether `open` succeeds, the size that `fstat` finds,
-- and the bytes that `read` takes, which are at most as many.
pub record File : Type 0 where
  pub is_open : Bool
  pub st_size : Option ℕ
  pub read : Option Bytes

-- From the call of `read` on.
unfoldable pub read_in : Html → ℕ → Option Bytes → Option (Html × Bool)
read_in h n none = some (on_error h, false)
read_in h n (some bytes) =
    let got : Bytes = take n bytes in
    elim (write_at h.data_block h.off got) [
      | none ↦ none
      | some block ↦
          let g : Html = record h { data_block = block } in
          let bad : Option (Html × Bool) = some (on_error g, false) in
          if length got == n then some (record g { off = h.off + n }, true) else bad
    ]

unfoldable pub html_include : Realloc → Html → File → Option (Html × Bool)
html_include realloc h f =
    let bad : Option (Html × Bool) = some (on_error h, false) in
    if h.is_err
    then some (h, false)
    else if f.is_open
    then elim (f.st_size) [
      | none ↦ bad
      | some n ↦
          let resized : Html × Bool = resize_data realloc h (h.off + n) in
          let failed : Option (Html × Bool) = some (on_error resized.0, false) in
          let grown : Option (Html × Bool) = read_in resized.0 n f.read in
          let fits : Option (Html × Bool) = read_in h n f.read in
          if ltb h.size (h.off + n) then (if resized.1 then grown else failed) else fits
    ]
    else bad

-- `bano_html_get_data` and `bano_html_get_size`: the bytes of the page
unfoldable pub html_data : Html → Bytes
html_data h = take h.off h.data_block
