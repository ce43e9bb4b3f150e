-- ===== src/Network/Stored.antt =====
-- What a message with a value leaves in the pairs of its node.
use bano.Base.{
  ℕ, Bool, true, ◌≤◌, ◌≡◌, refl, false, none, some, has_bit, Bool-cases, Option-cases, inl, inr,
  arith,
}
use bano.Dict.{Dict, dict_set_or_add}
use bano.Dict.Wf.{IsDict}
use bano.Dict.Laws.{Wrote, dict_set_or_add-Wrote, dict_set_or_add_fails}
use bano.Nodl.{Nodl, Keyval, flag_notif, nodl_find_key}
use bano.Message.{Msg, flag_reply, flag_err}
use bano.Network.{
  NodeVal, Node, Event, notified, set_called, LoopInfo, BanoBase, add_event, put_node, node_at,
}
use bano.Network.Receive.{set_keyval, note_val, handle_set_msg}
use bano.Network.Lookup.{notify-runs, node_at-put_node}

-- The node has no description, or one with the key, which asks for a text message only where one
-- can be sent.
pub data Knows (sms_ready : Bool) (n : Node) (key : ℕ) : Type 0 where
  any_key : n.nodl ≡ none → Knows sms_ready n key
  described :
      (d : Nodl) (kv : Keyval)
      → n.nodl ≡ some d
      → nodl_find_key d key ≡ some kv
      → (has_bit flag_notif kv.flags ≡ true → sms_ready ≡ true)
      → Knows sms_ready n key

-- In the base `c`, the dictionary of the node that had `d` holds `v` for the key as well.
pub record Stored (n : Node) (d : Dict NodeVal) (key : ℕ) (v : NodeVal) (c : BanoBase)
    : Type 0 where
  pub node : Node
  pub pairs : Dict NodeVal
  pub found : node_at c.nodes n.at ≡ some node
  pub has_pairs : node.keyval_pairs ≡ some pairs
  pub wrote : Wrote d key (some v) pairs

set_keyval-Stored :
    (b : BanoBase) (n : Node) (d : Dict NodeVal) (key : ℕ) (v : NodeVal)
    → node_at b.nodes n.at ≡ some n
    → n.keyval_pairs ≡ some d
    → IsDict d
    → 2 ≤ b.mem.left
    → (c : BanoBase) × (set_keyval b n key v ≡ some c) × Stored n d key v c
unfolding set_keyval
set_keyval-Stored b n d key v at_n has w two =
    elim (Option-cases (dict_set_or_add b.mem.left d key v)) [
      | inl e ↦ absurd (ground (arith, (dict_set_or_add_fails b.mem.left d key v).0 e))
      | inr ((left, e), r) ↦ (
        record b {
          mem = record b.mem { left = left };
          nodes = put_node b.nodes (record n { keyval_pairs = some e });
        },
        rw (has, set_keyval, r) refl,
        record {
          node = record n { keyval_pairs = some e };
          pairs = e;
          found = node_at-put_node b.nodes (record n { keyval_pairs = some e }) n at_n;
          has_pairs = refl;
          wrote = dict_set_or_add-Wrote b.mem.left left d e key v w r;
        },
      )
    ]

note_val-Stored :
    (b : BanoBase) (now : ℕ) (m : Msg) (n : Node) (d : Dict NodeVal)
    → node_at b.nodes n.at ≡ some n
    → n.keyval_pairs ≡ some d
    → IsDict d
    → 2 ≤ b.mem.left
    → has_bit flag_err m.flags ≡ false
    → Knows b.sms_ready n m.key
    → (c : BanoBase) × (note_val b now m n ≡ some c)
      × Stored n d m.key (record { val = m.val; mtime = now }) c
unfolding note_val
note_val-Stored b now m n d at_n has w two good (any_key e) =
    let (c, r, s) =
      set_keyval-Stored b n d m.key (record { val = m.val; mtime = now }) at_n has w two in
    (c, rw (good, e) r, s)
note_val-Stored b now m n d at_n has w two good (described e kv has_nodl found can) =
    let v : NodeVal = record { val = m.val; mtime = now } in
    elim (Bool-cases (has_bit flag_notif kv.flags)) [
      | inl notif ↦
          let (c, r, s) =
            set_keyval-Stored (add_event (notified m.val) b) n d m.key v at_n has w two in
          (c, rw (note_val, good, has_nodl, found, notif, notify-runs b m.val (can notif)) r, s)
      | inr silent ↦
          let (c, r, s) = set_keyval-Stored b n d m.key v at_n has w two in
          (c, rw (note_val, good, has_nodl, found, silent) r, s)
    ]

Stored-add_event :
    (n : Node) (d : Dict NodeVal) (key : ℕ) (v : NodeVal) (c : BanoBase) (x : Event)
    → Stored n d key v c
    → Stored n d key v (add_event x c)
Stored-add_event n d key v c x s = record {
  node = s.node;
  pairs = s.pairs;
  found = s.found;
  has_pairs = s.has_pairs;
  wrote = s.wrote;
}

-- A message that sets a value, is no answer and reports no error, to a node that is in the list of
-- the base, whose dictionary is well formed and that knows the key, and asks for no text message
-- for it unless the handle for them has been opened with an address, is handled, with memory for
-- two requests: the dictionary of the node is well formed again, holds the value with the time for
-- the key, and for all other keys what it held.
pub handle_set_msg-Stored :
    (info : LoopInfo) (b : BanoBase) (now : ℕ) (m : Msg) (n : Node) (d : Dict NodeVal)
    → node_at b.nodes n.at ≡ some n
    → n.keyval_pairs ≡ some d
    → IsDict d
    → 2 ≤ b.mem.left
    → has_bit flag_err m.flags ≡ false
    → has_bit flag_reply m.flags ≡ false
    → Knows b.sms_ready n m.key
    → (c : BanoBase) × (handle_set_msg info b now m n ≡ some c)
      × Stored n d m.key (record { val = m.val; mtime = now }) c
unfolding handle_set_msg
handle_set_msg-Stored info b now m n d at_n has w two good plain k =
    let (c, r, s) = note_val-Stored b now m n d at_n has w two good k in
    elim (Bool-cases info.set_fn) [
      | inl called ↦ (
        add_event (set_called n.at m.key m.val) c,
        rw (r, handle_set_msg, plain, called) refl,
        Stored-add_event n d m.key _ c _ s,
      )
      | inr silent ↦ (c, rw (r, handle_set_msg, plain, silent) refl, s)
    ]
