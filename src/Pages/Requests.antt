-- ===== src/Pages/Requests.antt =====
-- What src/base/bano_httpd.c makes of a request: `on_event` up to the write to the pipe. `mg_get_var` is a
-- parameter, from a name to the bytes that it leaves in `buf` before the NUL, and so is `strtoul`.
use bano.Base.{
  ℕ, ◌<◌, ◌≤◌, ◌%◌, ◌^◌, ◌≡◌, refl, Bool, true, false, not, ◌&&◌, [], ◌∷◌, ◌++◌, ◌==◌,
  if◌then◌else◌, Bytes, codes, get_or, arith,
}
use bano.Network.Web.{HttpdOp, httpd_invalid, httpd_get, httpd_set, httpd_rst, httpd_cam, HttpdMsg}
use bano.Pages.{Fmt, plain_text, html, hex}

-- `strcmp` with the result 0
abbrev pub same : Bytes → Bytes → Bool
same [] [] = true
same [] (y ∷ ys) = false
same (x ∷ xs) [] = false
same (x ∷ xs) (y ∷ ys) = x == y && same xs ys

-- `get_base` of src/base/bano_httpd.c, on a string and its NUL
unfoldable pub httpd_get_base : Bytes → ℕ
httpd_get_base s =
    if not (not (get_or s 0 0 == 0) && not (get_or s 1 0 == 0))
    then 10
    else if not (get_or s 0 0 == 48 && get_or s 1 0 == 120)
    then 10
    else 16

unfoldable pub op_of : Bytes → HttpdOp
op_of buf =
    if same buf (codes "get")
    then httpd_get
    else if same buf (codes "set")
    then httpd_set
    else if same buf (codes "rst")
    then httpd_rst
    else if same buf (codes "cam")
    then httpd_cam
    else httpd_invalid

unfoldable pub fmt_of : Bytes → Fmt
fmt_of buf = if same buf (codes "plain") then plain_text else html

module _ (strtoul : Bytes → ℕ → ℕ) (get_var : Bytes → Bytes) where
  unfoldable pub str_to_uint16 : Bytes → ℕ
  str_to_uint16 s = strtoul (s ++ 0 ∷ []) (httpd_get_base (s ++ 0 ∷ [])) % 2 ^ 16

  unfoldable pub str_to_uint32 : Bytes → ℕ
  str_to_uint32 s = strtoul (s ++ 0 ∷ []) (httpd_get_base (s ++ 0 ∷ [])) % 2 ^ 32

  -- The message of a request that asks for no object, and its format.
  unfoldable pub on_request : HttpdMsg × Fmt
  on_request = (
    record {
      op = op_of (get_var (codes "op"));
      naddr = str_to_uint32 (get_var (codes "naddr"));
      key = str_to_uint16 (get_var (codes "key"));
      val = str_to_uint32 (get_var (codes "val"));
      is_ack = str_to_uint32 (get_var (codes "is_ack"));
    },
    fmt_of (get_var (codes "fmt")),
  )

  -- `strtoul` with the base 16 reads the digits of a number of at most 32 bits behind "0x".
  abbrev pub ReadsHex : Type 0
  ReadsHex = (w n : ℕ) → w ≤ 8 → n < 16 ^ w → strtoul (codes "0x" ++ hex w n ++ 0 ∷ []) 16 ≡ n

  hex_base : (w n : ℕ) → httpd_get_base (codes "0x" ++ hex w n ++ 0 ∷ []) ≡ 16
  unfolding httpd_get_base
  hex_base w n = refl

  -- Where the variables of a request are an address of 32 bits, a key of 16 and a value of 32, in
  -- hexadecimal with 8, 4 and 8 digits behind "0x", and `strtoul` reads numbers of at most 32 bits
  -- in that form, the message has that address, that key and that value.
  pub on_request-form :
      (naddr key val : ℕ)
      → ReadsHex
      → naddr < 2 ^ 32
      → key < 2 ^ 16
      → val < 2 ^ 32
      → get_var (codes "naddr") ≡ codes "0x" ++ hex 8 naddr
      → get_var (codes "key") ≡ codes "0x" ++ hex 4 key
      → get_var (codes "val") ≡ codes "0x" ++ hex 8 val
      → (on_request.0.naddr ≡ naddr) × (on_request.0.key ≡ key) × (on_request.0.val ≡ val)
  unfolding on_request str_to_uint16 str_to_uint32
  on_request-form naddr key val reads n k v at_n at_k at_v = (
    rw (at_n, hex_base 8 naddr, reads 8 naddr (omega arith) n) (omega arith),
    rw (at_k, hex_base 4 key, reads 4 key (omega arith) k) (omega arith),
    rw (at_v, hex_base 8 val, reads 8 val (omega arith) v) (omega arith),
  )
