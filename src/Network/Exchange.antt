-- ===== src/Network/Exchange.antt =====
-- A request of the base to a node and its answer: src/base/bano_base.c with src/node/bano_node.c.
pub mod Answered
use bano.Base.{
  ℕ, ◌+◌, ◌*◌, ◌/◌, ◌%◌, ◌^◌, ◌≤◌, ◌<◌, ◌≡◌, ◌≢◌, refl, sym, ap, ◌∙◌, Bool, true, false, Option,
  none, some, List, [], ◌∷◌, ◌++◌, ◌==◌, ==_refl, has_bit, set_bit, if◌then◌else◌, Bytes, arith,
  inl, inr, length, get_or, Option-cases, Bool-cases,
}
use bano.Items.{Ptr}
use bano.Cipher.{Cipher, alg_aes, cipher_enc, cipher_dec}
use bano.Dict.{Dict, dict_set_or_add}
use bano.Dict.Wf.{IsDict}
use bano.Dict.Laws.{Wrote, dict_set_or_add-Wrote, dict_set_or_add_fails}
use bano.Nodl.{Nodl, Keyval, nodl_find_key, flag_notif}
use bano.Message.{
  Msg, op_set, op_get, flag_reply, flag_err, flag_enc, msg_bytes, bytes_msg, at_enc_off, set_enc,
  seal, unseal,
}
use bano.Message.Wire.{
  IsMsg, with_enc, bytes_msg-msg_bytes, unseal-seal, split_byte, set_bit-has_bit, body,
}
use bano.Config.Pairs.{node_cipher}
use bano.Timers.{Timer, relink}
use bano.Timers.Dues.{AreLinked, has_at}
use bano.Network.{
  NodeVal, Cell, Node, Io, Event, completed, notified, LoopInfo, BanoBase, put_io, put_node,
  node_at, find_node_by_addr, add_event,
}
use bano.Network.Noted.{noted, note_val-noted}
use bano.Network.Receive.{
  set_keyval, note_val, answer, cmp_pending_io, handle_set_msg, dispatch, handle_bano_msg,
}
use bano.Network.Stored.{Knows, any_key, described}
use bano.Network.Answers.{completion, answer-completes}
use bano.Network.Lookup.{node_at-put_node, put_io-same}
use bano.Network.Steps.{wire}
use bano.Firmware.{receive, send_msg, on_msg}

-- The oldest pending request of the node `n` is that of the item `c`, with its timer in the list.
pub record IsOldest (b : BanoBase) (n : Node) (c : Cell) (io : Io) : Type 0 where
  pub rest : List Cell
  pub is_first : n.pending_ios ≡ c ∷ rest
  pub live : b.ios c.io ≡ some io
  pub timer : Timer
  pub before : List Timer
  pub behind : List Timer
  pub is_timers : b.timers ≡ before ++ timer ∷ behind
  pub linked : AreLinked (before ++ timer ∷ behind)
  pub not_before : has_at timer.at before ≡ false
  pub is_timer : io.timer ≡ timer.at

-- A request completed with success and the value `val`, in the base `d`
pub record IsDone (c : Cell) (f val : ℕ) (d : BanoBase) : Type 0 where
  pub freed : d.ios c.io ≡ none
  pub so_far : List Event
  pub told : d.events ≡ completed f 0 val ∷ so_far

pub handle_set_msg-IsDone :
    (info : LoopInfo) (b : BanoBase) (now : ℕ) (m : Msg) (n : Node) (x : Dict NodeVal) (c : Cell)
    (io : Io) (f : ℕ)
    → node_at b.nodes n.at ≡ some n
    → n.keyval_pairs ≡ some x
    → 2 ≤ b.mem.left
    → Knows b.sms_ready n m.key
    → has_bit flag_err m.flags ≡ false
    → has_bit flag_reply m.flags ≡ true
    → IsOldest b n c io
    → cmp_pending_io n m io ≡ true
    → io.compl_fn ≡ some f
    → (d : BanoBase) × (handle_set_msg info b now m n ≡ some d) × IsDone c f m.val d
unfolding handle_set_msg cmp_pending_io
handle_set_msg-IsDone info b now m n x c io f at_n has two knows good reply o matches fn =
    let (left, e, es, run) = note_val-noted b now m n x has two good knows in
    let k = record n { keyval_pairs = some e } in
    let b2 = noted b n left e es in
    let done =
      answer-completes b2 m k c io [] o.rest o.timer o.before o.behind o.is_first tt o.live matches
        o.is_timers o.linked o.not_before o.is_timer in
    let called : completion m io es ≡ completed f 0 m.val ∷ es = rw (fn, good) refl in
    (
      record b2 {
        nodes = put_node b2.nodes (record k { pending_ios = o.rest });
        timers = o.before ++ relink o.behind;
        ios = put_io b.ios c.io none;
        events = completion m io es;
      },
      rw (run, handle_set_msg, reply, node_at-put_node b.nodes k n at_n) done,
      record { freed = put_io-same b.ios c.io none; so_far = es; told = called },
    )

-- The message `m` with other flags, of which those for a reply and for an error are the same.
pub record IsRead (m r : Msg) : Type 0 where
  pub flags : ℕ
  pub is_m : r ≡ record m { flags = flags }
  pub same_reply : has_bit flag_reply flags ≡ has_bit flag_reply m.flags
  pub same_err : has_bit flag_err flags ≡ has_bit flag_err m.flags

set_bit-flags :
    (x : ℕ)
    → (has_bit flag_reply (set_bit flag_enc x) ≡ has_bit flag_reply x)
      × (has_bit flag_err (set_bit flag_enc x) ≡ has_bit flag_err x)
set_bit-flags x = (ground arith, ground arith)

with_enc-IsRead : (m r : Msg) → r ≡ with_enc m → IsRead m r
with_enc-IsRead m r e = record {
  flags = set_bit flag_enc m.flags;
  is_m = e;
  same_reply = (set_bit-flags m.flags).0;
  same_err = (set_bit-flags m.flags).1;
}

unseal-plain :
    (c : Cipher) (m : Msg)
    → IsMsg m
    → has_bit flag_enc m.flags ≡ false
    → unseal c (msg_bytes m) ≡ msg_bytes m
unfolding unseal msg_bytes
unseal-plain c m h off = let (low, high) = split_byte m.op m.flags h.op_fits in rw (high, off) refl

unseal-flagged :
    (c : Cipher) (dec : Bytes → Bytes) (s r : Bytes) (y : ℕ)
    → s ≡ y ∷ r
    → has_bit flag_enc (y / 4) ≡ true
    → cipher_dec c r ≡ some (dec r)
    → at_enc_off (λ z. some (dec z)) s ≡ unseal c s
unfolding unseal
unseal-flagged c dec s r y is_s bit same = rw is_s (rw (bit, same) refl)

module _ (node_addr : ℕ) (has_cipher : Bool) (enc dec : Bytes → Bytes) where
  -- The firmware and the base have no cipher for the node, or the same on 16 bytes.
  pub data SameCipher (c : Cipher) (node_flags : ℕ) : Type 0 where
    plain : has_cipher ≡ false → has_bit node_cipher node_flags ≡ false → SameCipher c node_flags
    ciphered :
        has_cipher ≡ true
        → has_bit node_cipher node_flags ≡ true
        → c.alg ≢ alg_aes
        → ((q : Bytes) → length q ≡ 16 → length (enc q) ≡ 16)
        → ((q : Bytes) → length q ≡ 16 → cipher_enc c q ≡ some (enc q))
        → ((q : Bytes) → length q ≡ 16 → cipher_dec c q ≡ some (dec q))
        → SameCipher c node_flags

  -- The base reads what the firmware sends.
  pub send_msg-IsRead :
      (c : Cipher) (node_flags : ℕ) (m : Msg)
      → SameCipher c node_flags
      → IsMsg (record m { saddr = node_addr })
      → has_bit flag_enc m.flags ≡ false
      → IsRead
          (record m { saddr = node_addr })
          (bytes_msg (unseal c (send_msg node_addr has_cipher enc dec m)))
  unfolding send_msg seal msg_bytes
  send_msg-IsRead c nf m (plain bare no_flag) h off =
      let k = record m { saddr = node_addr } in
      rw (bare, unseal-plain c k h off, bytes_msg-msg_bytes k h)
        (record { flags = m.flags; is_m = refl; same_reply = refl; same_err = refl })
  send_msg-IsRead c nf m (ciphered keyed flag ne sized same_enc same_dec) h off =
      let k = record m { saddr = node_addr } in
      let sealed : set_enc (at_enc_off (λ q. some (enc q)) (msg_bytes k)) ≡ seal c (msg_bytes k) =
        rw (same_enc (body k) refl) refl in
      rw (keyed, sealed) (with_enc-IsRead k _ (unseal-seal c k h ne))

  -- The firmware reads what the base sends.
  pub receive-IsRead :
      (b : BanoBase) (n : Node) (io : Io)
      → SameCipher b.cipher n.flags
      → IsMsg io.msg
      → IsRead io.msg (bytes_msg (receive node_addr has_cipher enc dec (wire b n io)))
  unfolding receive seal unseal msg_bytes
  receive-IsRead b n io (plain bare no_flag) h =
      rw (bare, no_flag, bytes_msg-msg_bytes io.msg h)
        (record { flags = io.msg.flags; is_m = refl; same_reply = refl; same_err = refl })
  receive-IsRead b n io (ciphered keyed flag ne sized same_enc same_dec) h =
      let p = msg_bytes io.msg in
      let q = body io.msg in
      let x = io.msg.op + io.msg.flags * 4 in
      let y = x % 4 + set_bit flag_enc (x / 4) * 4 in
      let (low, high) = split_byte (x % 4) (set_bit flag_enc (x / 4)) (omega arith) in
      let sealed : seal b.cipher p ≡ y ∷ enc q = rw (seal, same_enc q refl) refl in
      let bit : has_bit flag_enc (y / 4) ≡ true = rw high (set_bit-has_bit (x / 4)) in
      let opened =
        unseal-flagged b.cipher dec (seal b.cipher p) (enc q) y sealed bit
          (same_dec (enc q) (sized q refl)) in
      rw (keyed, flag, opened) (with_enc-IsRead io.msg _ (unseal-seal b.cipher io.msg h ne))
