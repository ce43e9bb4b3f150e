-- ===== src/Firmware.antt =====
-- The firmware of a node, src/node/bano_node.c: its messages, its events, and the counts for its timer.
-- The cipher that it is built with, or none, is a parameter, as are its address and the two handlers
-- that its user writes. Registers of the processor and of the radio are left out: a message received
-- and a message sent are their bytes, an interrupt is its flag.
use bano.Base.{
  ℕ, ◌*◌, ◌/◌, ◌%◌, ◌^◌, Bool, true, false, ◌||◌, ◌&&◌, Option, none, some, List, [], ◌∷◌, ◌==◌,
  if◌then◌else◌, Bytes, has_bit, set_bit,
}
use bano.Message.{Msg, op_set, op_get, flag_reply, msg_bytes, at_enc_off, set_enc}

-- `BANO_KEY_NEXT_MSG`
abbrev pub key_next_msg : ℕ
key_next_msg = 0x8003

-- The bits of `wake_mask`
abbrev pub wake_timer : ℕ
wake_timer = 0

abbrev pub wake_msg : ℕ
wake_msg = 1

abbrev pub wake_poll : ℕ
wake_poll = 2

abbrev pub wake_pcint : ℕ
wake_pcint = 3

-- `TIMER_PRESCAL` and `CLK_PRESCAL`
abbrev pub timer_prescal : ℕ
timer_prescal = 1024

abbrev pub clk_prescal : ℕ
clk_prescal = 256

-- The count that `bano_init` computes for a time in units of 100 ms: the product is one of 32 bits,
-- the count one of 16. `F_CPU` is a parameter of the build.
unfoldable pub timer_count : (f_cpu units : ℕ) → ℕ
timer_count f_cpu units = (f_cpu * units % 2 ^ 32) / (timer_prescal * clk_prescal * 10) % 2 ^ 16

-- What `bano_init` captures, and what the interrupts have left: the timer's flag, the bytes that the
-- radio has received, the flag for a pin.
pub record Firmware : Type 0 where
  pub wake_mask : ℕ
  pub timer_irq : Bool
  pub received : Option Bytes
  pub pcint_irq : Bool

-- The bits of an event, `BANO_EV_xxx`; one is set at a time.
pub data Event : Type 0 where
  ev_timer ev_msg ev_pcint : Event

-- What the processor comes to in `bano_wait_event` with the flags as they are: sleep, or an event,
-- with the bytes of its message.
pub data Waited : Type 0 where
  asleep : Waited
  woken : Event → Bytes → Firmware → Waited

-- `make_set_msg` and `make_get_msg` on a message in memory
unfoldable pub make_set_msg : Msg → (key val : ℕ) → Msg
make_set_msg m key val = record m { op = op_set; flags = 0; key = key; val = val }

unfoldable pub make_get_msg : Msg → (key : ℕ) → Msg
make_get_msg m key = record m { op = op_get; flags = 0; key = key }

module _ (node_addr : ℕ) (has_cipher : Bool) (enc dec : Bytes → Bytes) where
  -- `send_msg`: the bytes that are sent
  unfoldable pub send_msg : Msg → Bytes
  send_msg m =
      let p = msg_bytes (record m { saddr = node_addr }) in
      if has_cipher then set_enc (at_enc_off (λ q. some (enc q)) p) else p

  -- `cipher_dec` on what the radio has received
  unfoldable pub receive : Bytes → Bytes
  receive p = if has_cipher then at_enc_off (λ q. some (dec q)) p else p

  -- `bano_send_set`; `raw` is what the memory of the message held.
  unfoldable pub send_set : Msg → (key val : ℕ) → Bytes
  send_set raw key val = send_msg (make_set_msg raw key val)

  -- The loop of `bano_wait_event`, whose first test that holds makes the event
  unfoldable pub wait_event : Firmware → Waited
  wait_event f =
      let timer = has_bit wake_timer f.wake_mask || has_bit wake_poll f.wake_mask in
      let pcint =
        if has_bit wake_pcint f.wake_mask && f.pcint_irq
        then woken ev_pcint [] (record f { pcint_irq = false })
        else asleep in
      let msg : Waited = elim f.received [
        | none ↦ pcint
        | some p ↦ woken ev_msg (receive p) (record f { received = none })
      ] in
      if timer && f.timer_irq
      then woken ev_timer [] (record f { timer_irq = false })
      else if has_bit wake_msg f.wake_mask
      then msg
      else pcint

  -- The end of `bano_wait_event` for an event: what is sent, and whether the event goes to the user.
  -- `wait_msg_or_timer` never gets a message.
  unfoldable pub on_event : Msg → Firmware → Event → List Bytes × Bool
  on_event raw f ev =
      let polls = has_bit wake_poll f.wake_mask in
      let asked : List Bytes × Bool =
        (send_msg (make_get_msg raw key_next_msg) ∷ [], has_bit wake_timer f.wake_mask) in
      let passed : List Bytes × Bool = ([], true) in
      elim ev as (λ _. List Bytes × Bool) [
        | ev_timer ↦ if polls then asked else passed
        | ev_msg ↦ passed
        | ev_pcint ↦ passed
      ]

  module _ (set_handler : ℕ → ℕ → ℕ) (get_handler : ℕ → ℕ × ℕ) where
    -- The branch of `bano_loop` for a message: what is sent. The handlers give flags of 8 bits, of
    -- which the header has room for 6, and a value.
    unfoldable pub on_msg : Msg → List Bytes
    on_msg m =
        let flags = set_handler m.key m.val in
        let answer = send_msg (record m { flags = flags % 64 }) in
        let set_reply = if has_bit flag_reply flags then answer ∷ [] else [] in
        let got = get_handler m.key in
        let value = make_set_msg m m.key got.1 in
        let get_reply = send_msg (record value { flags = set_bit flag_reply got.0 % 64 }) ∷ [] in
        if m.op == op_set then set_reply else if m.op == op_get then get_reply else []
