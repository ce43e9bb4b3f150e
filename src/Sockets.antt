-- ===== src/Sockets.antt =====
-- The sockets of the base: src/base/bano_socket.c, bano_socket_snrf.c and bano_socket_httpd.c of
-- the same folder. The library for the radio, snrf, is a parameter: its calls on a handle of type
-- `H`, and the numbers of its keys. A call that returns an error gives the handle back with `false`.
pub mod Radio
pub mod Peek
pub mod Opened
use bano.Base.{
  ℕ, zero, suc, ◌+◌, Bool, true, false, Option, none, some, List, [], ◌∷◌, if◌then◌else◌, Bytes,
  take,
}
use bano.Dict.{take_mem}
use bano.Items.{Ptr}
use bano.Network.Loop.{Incoming, from_node, ReadResult, read_ok, read_partial, read_failed}

-- `snrf_msg_t`: a payload with the bytes of its buffer, or another message.
pub data SnrfMsg : Type 0 where
  payload : Bytes → SnrfMsg
  other : SnrfMsg

-- The result of `snrf_read_msg`: 0 with a message, -1, or another error.
pub data SnrfRead : Type 0 where
  message : SnrfMsg → SnrfRead
  bad : SnrfRead
  partial : SnrfRead

pub record Snrf (H : Type 0) : Type 0 where
  pub open_with_path : Bytes → Option H
  pub set_keyval : H → (key val : ℕ) → H × Bool
  pub write_payload : H → Bytes → H × Bool
  pub read_msg : H → H × SnrfRead
  pub get_pending_msg : H → Option (H × SnrfMsg)
  pub sync : H → H
  pub close : H → H
  pub key_state : ℕ
  pub key_crc : ℕ
  pub key_tx_ack : ℕ
  pub key_addr_width : ℕ
  pub key_rx_addr : ℕ
  pub key_tx_addr : ℕ
  pub key_payload_width : ℕ
  pub state_conf : ℕ
  pub state_txrx : ℕ
  pub crc_disabled : ℕ
  pub tx_ack_disabled : ℕ

-- `BANO_MSG_SIZE`, the size of `bano_msg_t`
abbrev pub msg_size : ℕ
msg_size = 17

-- `bano_snrf_info_t`
pub record SnrfInfo : Type 0 where
  pub dev_path : Bytes
  pub addr_width : ℕ
  pub addr_val : ℕ

-- `bano_socket_type_t`
pub data SocketType : Type 0 where
  type_snrf type_httpd type_invalid : SocketType

-- `bano_socket_info_t`
pub record SocketInfo : Type 0 where
  pub type_of : SocketType
  pub snrf : SnrfInfo

-- How an opening of the radio ends: with a handle, before there is one, or with one that is closed.
pub data Opening (H : Type 0) : Type 0 where
  opened : H → Opening H
  refused : Opening H
  closed : H → Opening H

-- The functions and the data of a `bano_socket_t`: those of the radio, those of the web server, which
-- leave `write_fn` and `ctl_fn` as they were, or those that `init_socket` sets.
pub data Socket (H : Type 0) : Type 0 where
  radio : H → Socket H
  httpd : Socket H
  unimpl : Socket H

module _ {H : Type 0} (s : Snrf H) where
  -- Calls of `snrf_set_keyval` one after the other, up to the first that fails.
  unfoldable pub set_keyvals : H → List (ℕ × ℕ) → H × Bool
  set_keyvals h [] = (h, true)
  set_keyvals h ((k, v) ∷ kvs) =
      let r = s.set_keyval h k v in
      let rest = set_keyvals r.0 kvs in
      let stopped : H × Bool = (r.0, false) in if r.1 then rest else stopped

  -- `do_read`, on the socket at an address
  unfoldable pub do_read : Ptr → H → H × ReadResult
  do_read p h =
      let (g, r) = s.read_msg h in
      elim r as (λ _. H × ReadResult) [
        | message (payload bytes) ↦ (g, read_ok (from_node p (take msg_size bytes)))
        | message other ↦ (s.sync g, read_partial)
        | bad ↦ (g, read_failed)
        | partial ↦ (g, read_partial)
      ]

  -- `do_peek`: the bytes of a message, `none` for the result -1, and `none` around it where the fuel
  -- has run out.
  unfoldable pub do_peek : ℕ → H → Option (H × Option Bytes)
  do_peek zero h = none
  do_peek (suc fuel) h = elim (s.get_pending_msg h) [
    | none ↦ some (h, none)
    | some (g, payload bytes) ↦ some (g, some (take msg_size bytes))
    | some (g, other) ↦ do_peek fuel g
  ]

  -- `do_write`
  unfoldable pub do_write : H → ℕ → Bytes → H × Bool
  do_write h addr m =
      let r =
        set_keyvals h (
          (s.key_state, s.state_conf) ∷ (s.key_tx_addr, addr) ∷ (s.key_state, s.state_txrx) ∷ []) in
      let written = s.write_payload r.0 (take msg_size m) in
      let failed : H × Bool = (r.0, false) in if r.1 then written else failed

  -- `do_ctl`
  unfoldable pub do_ctl : H → (k v : ℕ) → H × Bool
  do_ctl h k v = s.set_keyval h k v

  -- What `bano_socket_snrf_open` sets, in its order
  abbrev pub settings : SnrfInfo → List (ℕ × ℕ)
  settings si =
      (s.key_state, s.state_conf)
      ∷ (s.key_crc, s.crc_disabled)
      ∷ (s.key_tx_ack, s.tx_ack_disabled)
      ∷ (s.key_addr_width, si.addr_width)
      ∷ (s.key_rx_addr, si.addr_val)
      ∷ (s.key_payload_width, msg_size)
      ∷ (s.key_state, s.state_txrx)
      ∷ []

  -- `bano_socket_snrf_open`, with the memory left
  unfoldable pub snrf_open : ℕ → SnrfInfo → ℕ × Opening H
  snrf_open mem si = elim (take_mem mem) as (λ _. ℕ × Opening H) [
    | none ↦ (mem, refused)
    | some left ↦ elim (s.open_with_path si.dev_path) as (λ _. ℕ × Opening H) [
      | none ↦ (left, refused)
      | some h ↦
          let r = set_keyvals h (settings si) in
          (left, (if r.1 then opened r.0 else closed (s.close r.0)))
    ]
  ]

  -- `bano_socket_httpd_open`, with the memory left
  unfoldable pub httpd_open : ℕ → Option ℕ
  httpd_open mem = take_mem mem

  -- `bano_socket_alloc`; `none` with the memory left for an error.
  unfoldable pub socket_alloc : ℕ → SocketInfo → ℕ × Option (Socket H)
  socket_alloc mem info = elim (take_mem mem) as (λ _. ℕ × Option (Socket H)) [
    | none ↦ (mem, none)
    | some left ↦ elim info.type_of as (λ _. ℕ × Option (Socket H)) [
      | type_snrf ↦
          let (last, r) = snrf_open left info.snrf in
          elim r as (λ _. ℕ × Option (Socket H)) [
            | opened h ↦ (last, some (radio h))
            | refused ↦ (last, none)
            | closed h ↦ (last, none)
          ]
      | type_httpd ↦ elim (httpd_open left) as (λ _. ℕ × Option (Socket H)) [
        | none ↦ (left, none)
        | some last ↦ (last, some httpd)
      ]
      | type_invalid ↦ (left, none)
    ]
  ]

  -- `bano_socket_write`
  unfoldable pub socket_write : Socket H → ℕ → Bytes → Socket H × Bool
  socket_write (radio h) addr m = let r = do_write h addr m in (radio r.0, r.1)
  socket_write httpd addr m = (httpd, false)
  socket_write unimpl addr m = (unimpl, false)

  -- `bano_socket_close`
  unfoldable pub socket_close : Socket H → Socket H
  socket_close (radio h) = radio (s.close h)
  socket_close httpd = httpd
  socket_close unimpl = unimpl
