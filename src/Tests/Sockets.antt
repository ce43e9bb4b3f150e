-- ===== src/Tests/Sockets.antt =====
-- The sockets on a library for the radio that keeps what it is told.
use bano.Base.{
  ℕ, ◌≡◌, ◌≢◌, refl, true, Option, none, some, List, [], ◌∷◌, ◌++◌, ◌==◌, if◌then◌else◌, Bytes,
  codes, arith,
}
use bano.Network.Loop.{read_ok, from_node}
use bano.Sockets.{
  Snrf, SnrfMsg, payload, other, message, SnrfInfo, do_read, do_peek, set_keyvals, do_write,
}
use bano.Sockets.Radio.{IsRadio, now_sent, do_write-sent}
use bano.Sockets.Peek.{NextPending, first_payload, do_peek-first}

-- The values of the keys, what has been sent, and what is held back.
pub record Handle : Type 0 where
  pub values : ℕ → ℕ
  pub out : List (ℕ × Bytes)
  pub held : List SnrfMsg

abbrev pub radio_lib : Snrf Handle
radio_lib = record {
  open_with_path = λ path. some (record { values = λ k. 0; out = []; held = [] });
  set_keyval = λ h k v. (record h { values = λ j. if j == k then v else h.values j }, true);
  write_payload = λ h m. (record h { out = h.out ++ (h.values 5, m) ∷ [] }, true);
  read_msg = λ h. (h, message (payload (codes "read")));
  get_pending_msg = λ h. elim h.held as (λ _. Option (Handle × SnrfMsg)) [
    | [] ↦ none
    | m ∷ ms ↦ some (record h { held = ms }, m)
  ];
  sync = λ h. h;
  close = λ h. h;
  key_state = 0;
  key_crc = 1;
  key_tx_ack = 2;
  key_addr_width = 3;
  key_rx_addr = 4;
  key_tx_addr = 5;
  key_payload_width = 6;
  state_conf = 0;
  state_txrx = 1;
  crc_disabled = 0;
  tx_ack_disabled = 0;
}

radio_lib-IsRadio : IsRadio radio_lib
radio_lib-IsRadio = record {
  value = λ h. h.values;
  sent = λ h. h.out;
  set_value = λ h k v j done. refl;
  set_sent = λ h k v done. refl;
  write_sent = λ h m done. refl;
}

radio_lib-next : (h : Handle) → NextPending (λ g. g.held) radio_lib h
radio_lib-next h = held-next h.values h.out h.held
  where
    held-next :
        (v : ℕ → ℕ) (o : List (ℕ × Bytes)) (ms : List SnrfMsg)
        → NextPending (λ k. k.held) radio_lib (record { values = v; out = o; held = ms })
    held-next v o [] = refl
    held-next v o (m ∷ ms) = (record { values = v; out = o; held = ms }, refl, refl)

abbrev quiet : Handle
quiet = record { values = λ k. 0; out = []; held = [] }

abbrev busy : Handle
busy = record quiet { held = other ∷ payload (codes "first") ∷ payload (codes "second") ∷ [] }

keys_differ : radio_lib.key_tx_addr ≢ radio_lib.key_state
keys_differ e = cc e

read_once : (do_read radio_lib 7 quiet).1 ≡ read_ok (from_node 7 (codes "read"))
unfolding do_read
read_once = refl

on_done : (do_write radio_lib quiet 42 (codes "on")).1 ≡ true
unfolding do_write set_keyvals
on_done = refl

do_write-sent_example :
    radio_lib-IsRadio.sent (do_write radio_lib quiet 42 (codes "on")).0
    ≡ now_sent radio_lib radio_lib-IsRadio quiet 42 (codes "on")
do_write-sent_example =
    do_write-sent radio_lib radio_lib-IsRadio quiet 42 (codes "on") keys_differ on_done

do_peek-first_example :
    (g : Handle) × (do_peek radio_lib 9 busy ≡ some (g, (first_payload busy.held).1))
    × (g.held ≡ (first_payload busy.held).0)
do_peek-first_example = do_peek-first radio_lib (λ h. h.held) radio_lib-next 9 busy (omega arith)

abbrev pub usb : SnrfInfo
usb = record { dev_path = codes "/dev/ttyUSB0"; addr_width = 4; addr_val = 43 }
