-- ===== src/Setup/Pairs.antt =====
-- The callbacks of src/base/bano_base.c on the pairs of a socket, a web server, a camera and an
-- account for text messages. A callback gives back the state that it writes to, and `true` where it
-- sets `err`.
use bano.Base.{ℕ, Bool, true, false, Option, none, some, if◌then◌else◌, Bytes, codes, set_bit}
use bano.Strings.{BanoString, cmp_cstr, to_uint32, to_uint16, to_array, to_cstr}
use bano.Parser.Structs.{Pair}
use bano.Parser.Files.{until_nul}
use bano.Dict.{take_mem}
use bano.Config.Pairs.{flag_by}
use bano.Sockets.{SocketType, type_snrf, type_httpd, type_invalid, SocketInfo}

-- `bano_parser_add_cstr`, with the memory left: the C string without its NUL, or `none` for an error.
-- The list keeps the copy until `bano_parser_fini`.
unfoldable pub add_cstr : ℕ → BanoString → ℕ × Option Bytes
add_cstr mem s = elim (take_mem mem) as (λ _. ℕ × Option Bytes) [
  | none ↦ (mem, none)
  | some left ↦ elim (to_cstr true s) as (λ _. ℕ × Option Bytes) [
    | none ↦ (left, none)
    | some text ↦ elim (take_mem left) as (λ _. ℕ × Option Bytes) [
      | none ↦ (left, none)
      | some last ↦ (last, some (until_nul text))
    ]
  ]
]

-- What `apply_socket_pair` writes to, with the memory that is left.
pub record SocketPairs : Type 0 where
  pub info : SocketInfo
  pub mem : ℕ

-- The address of the base is put in where the type is.
abbrev pub snrf_info : (addr : ℕ) → SocketInfo
snrf_info addr = record {
  type_of = type_snrf;
  snrf = record { dev_path = codes "/dev/ttyUSB0"; addr_width = 4; addr_val = addr };
}

abbrev pub is_snrf : SocketType → Bool
is_snrf type_snrf = true
is_snrf type_httpd = false
is_snrf type_invalid = false

-- The branch for "dev_path" of a socket for the radio
unfoldable pub dev_path_pair : SocketPairs → BanoString → SocketPairs × Bool
dev_path_pair st s =
    let (left, r) = add_cstr st.mem s in
    elim r as (λ _. SocketPairs × Bool) [
      | none ↦ (record st { mem = left }, true)
      | some path ↦
          let old : SocketInfo = st.info in
          (
            record { info = record old { snrf = record old.snrf { dev_path = path } }; mem = left },
            false,
          )
    ]

-- `apply_socket_pair`
unfoldable pub apply_socket_pair : (addr : ℕ) → SocketPairs → Pair → SocketPairs × Bool
apply_socket_pair addr st p =
    let same : SocketPairs × Bool = (st, false) in
    let with_snrf : SocketPairs × Bool = (record st { info = snrf_info addr }, false) in
    let unknown : SocketPairs × Bool = (st, true) in
    if cmp_cstr p.key (codes "type")
    then (if cmp_cstr p.val (codes "snrf") then with_snrf else same)
    else if cmp_cstr p.key (codes "dev_path")
    then (if is_snrf st.info.type_of then dev_path_pair st p.val else same)
    else unknown

-- `bano_httpd_info_t`
pub record HttpdInfo : Type 0 where
  pub flags : ℕ
  pub port : ℕ

-- `BANO_HTTPD_FLAG_PORT` and `BANO_HTTPD_FLAG_AUTH`, as the numbers of their bits
abbrev pub httpd_port : ℕ
httpd_port = 0

abbrev pub httpd_auth : ℕ
httpd_auth = 1

-- `bano_cam_fmt_t`, the formats that a file can name and any other
pub data CamFmt : Type 0 where
  yuyv_320_240 yuyv_640_480 other_fmt : CamFmt

-- `bano_cam_info_t`
pub record CamInfo : Type 0 where
  pub flags : ℕ
  pub id : ℕ
  pub fmt : CamFmt

-- `BANO_CAM_FLAG_ID`, `BANO_CAM_FLAG_FMT` and `BANO_CAM_FLAG_DUMMY`, as the numbers of their bits
abbrev pub cam_id : ℕ
cam_id = 0

abbrev pub cam_fmt : ℕ
cam_fmt = 1

abbrev pub cam_dummy : ℕ
cam_dummy = 2

-- `bano_sms_info_t`, with the memory that is left; an address and a port are NULL at first.
pub record SmsInfo : Type 0 where
  pub addr : Option Bytes
  pub port : Option Bytes
  pub creds : Bytes
  pub mem : ℕ

-- The branch for "fmt" of a camera
unfoldable pub cam_fmt_pair : CamInfo → BanoString → CamInfo × Bool
cam_fmt_pair c s =
    let flagged : CamInfo = record c { flags = set_bit cam_fmt c.flags } in
    let small : CamInfo × Bool = (record flagged { fmt = yuyv_320_240 }, false) in
    let large : CamInfo × Bool = (record flagged { fmt = yuyv_640_480 }, false) in
    let unknown : CamInfo × Bool = (flagged, true) in
    if cmp_cstr s (codes "yuyv_320_240")
    then small
    else if cmp_cstr s (codes "yuyv_640_480")
    then large
    else unknown

-- A copy of a value by `bano_string_to_cstr`
unfoldable pub sms_cstr : SmsInfo → BanoString → (Bytes → SmsInfo) → SmsInfo × Bool
sms_cstr c s put = elim (take_mem c.mem) as (λ _. SmsInfo × Bool) [
  | none ↦ (c, true)
  | some left ↦ elim (to_cstr true s) as (λ _. SmsInfo × Bool) [
    | none ↦ (c, true)
    | some text ↦ (record (put (until_nul text)) { mem = left }, false)
  ]
]

module _ (strtoul : Bytes → ℕ → ℕ) where
  -- `apply_httpd_pair`
  unfoldable pub apply_httpd_pair : HttpdInfo → Pair → HttpdInfo × Bool
  apply_httpd_pair h p =
      let flagged : HttpdInfo = record h { flags = set_bit httpd_port h.flags } in
      let ported : HttpdInfo × Bool = elim (to_uint16 strtoul p.val) as (λ _. HttpdInfo × Bool) [
        | none ↦ (flagged, true)
        | some x ↦ (record flagged { port = x }, false)
      ] in
      let auth : HttpdInfo × Bool =
        let r = flag_by httpd_auth p.val h.flags in (record h { flags = r.0 }, r.1) in
      let unknown : HttpdInfo × Bool = (h, true) in
      if cmp_cstr p.key (codes "port")
      then ported
      else if cmp_cstr p.key (codes "auth")
      then auth
      else unknown

  -- `apply_cam_pair`
  unfoldable pub apply_cam_pair : CamInfo → Pair → CamInfo × Bool
  apply_cam_pair c p =
      let flagged : CamInfo = record c { flags = set_bit cam_id c.flags } in
      let with_id : CamInfo × Bool = elim (to_uint32 strtoul p.val) as (λ _. CamInfo × Bool) [
        | none ↦ (flagged, true)
        | some x ↦ (record flagged { id = x }, false)
      ] in
      let dummy : CamInfo × Bool =
        let r = flag_by cam_dummy p.val c.flags in (record c { flags = r.0 }, r.1) in
      let unknown : CamInfo × Bool = (c, true) in
      if cmp_cstr p.key (codes "id")
      then with_id
      else if cmp_cstr p.key (codes "fmt")
      then cam_fmt_pair c p.val
      else if cmp_cstr p.key (codes "dummy")
      then dummy
      else unknown

  -- `apply_sms_pair`; `BANO_SMS_CREDS_SIZE` is 32.
  unfoldable pub apply_sms_pair : SmsInfo → Pair → SmsInfo × Bool
  apply_sms_pair c p =
      let with_creds : SmsInfo × Bool = elim (to_array strtoul p.val 32) as (λ _. SmsInfo × Bool) [
        | none ↦ (c, true)
        | some bytes ↦ (record c { creds = bytes }, false)
      ] in
      let unknown : SmsInfo × Bool = (c, true) in
      if cmp_cstr p.key (codes "https_addr")
      then sms_cstr c p.val (λ t. record c { addr = some t })
      else if cmp_cstr p.key (codes "https_port")
      then sms_cstr c p.val (λ t. record c { port = some t })
      else if cmp_cstr p.key (codes "https_creds")
      then with_creds
      else unknown
