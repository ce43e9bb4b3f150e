-- ===== src/Network/Noted.antt =====
-- What `note_val` of the handler of messages in src/base/bano_base.c leaves of a base.
use bano.Base.{
  ℕ, ◌≤◌, ◌≡◌, refl, ◌∙◌, true, Option, false, some, List, ◌∷◌, has_bit, arith, inl, inr,
  Option-cases, Bool-cases,
}
use bano.Dict.{Dict, dict_set_or_add}
use bano.Dict.Laws.{dict_set_or_add_fails}
use bano.Nodl.{Nodl, Keyval, flag_notif, nodl_find_key}
use bano.Message.{Msg, flag_err}
use bano.Network.{NodeVal, Node, Event, notified, BanoBase, put_node, add_event}
use bano.Network.Receive.{set_keyval, notify, note_val}
use bano.Network.Lookup.{notify-runs}
use bano.Network.Stored.{Knows, any_key, described}

-- The base behind `note_val`: the dictionary of the node is `e`.
abbrev pub noted : BanoBase → Node → ℕ → Dict NodeVal → List Event → BanoBase
noted b n left e es = record b {
  mem = record b.mem { left = left };
  nodes = put_node b.nodes (record n { keyval_pairs = some e });
  events = es;
}

set_keyval-noted :
    (b : BanoBase) (n : Node) (d : Dict NodeVal) (key : ℕ) (v : NodeVal)
    → n.keyval_pairs ≡ some d
    → 2 ≤ b.mem.left
    → (left : ℕ) × (e : Dict NodeVal) × (set_keyval b n key v ≡ some (noted b n left e b.events))
unfolding set_keyval
set_keyval-noted b n d key v has two = elim (Option-cases (dict_set_or_add b.mem.left d key v)) [
  | inl e ↦ absurd (ground (arith, (dict_set_or_add_fails b.mem.left d key v).0 e))
  | inr ((left, e), r) ↦ (left, e, rw (has, set_keyval, r) refl)
]

note_val-notifies :
    (b c : BanoBase) (now : ℕ) (m : Msg) (n : Node) (x : Nodl) (kv : Keyval) (o : Option BanoBase)
    → has_bit flag_err m.flags ≡ false
    → n.nodl ≡ some x
    → nodl_find_key x m.key ≡ some kv
    → has_bit flag_notif kv.flags ≡ true
    → notify b m.val ≡ some c
    → set_keyval c n m.key (record { val = m.val; mtime = now }) ≡ o
    → note_val b now m n ≡ o
unfolding note_val
note_val-notifies b c now m n x kv o good is_x known notif sent stores =
    rw (note_val, good, is_x, known, notif, sent) stores

note_val-silent :
    (b : BanoBase) (now : ℕ) (m : Msg) (n : Node) (x : Nodl) (kv : Keyval) (o : Option BanoBase)
    → has_bit flag_err m.flags ≡ false
    → n.nodl ≡ some x
    → nodl_find_key x m.key ≡ some kv
    → has_bit flag_notif kv.flags ≡ false
    → set_keyval b n m.key (record { val = m.val; mtime = now }) ≡ o
    → note_val b now m n ≡ o
unfolding note_val
note_val-silent b now m n x kv o good is_x known silent stores =
    rw (note_val, good, is_x, known, silent) stores

pub note_val-noted :
    (b : BanoBase) (now : ℕ) (m : Msg) (n : Node) (d : Dict NodeVal)
    → n.keyval_pairs ≡ some d
    → 2 ≤ b.mem.left
    → has_bit flag_err m.flags ≡ false
    → Knows b.sms_ready n m.key
    → (left : ℕ) × (e : Dict NodeVal) × (es : List Event) × (note_val b now m n
        ≡ some (noted b n left e es))
unfolding note_val
note_val-noted b now m n d has two good (any_key any) =
    let v : NodeVal = record { val = m.val; mtime = now } in
    let (left, e, r) = set_keyval-noted b n d m.key v has two in
    let step : note_val b now m n ≡ set_keyval b n m.key v = simp (note_val, good, any) refl in
    (left, e, b.events, step ∙ r)
note_val-noted b now m n d has two good (described x kv is_x known can) =
    let v : NodeVal = record { val = m.val; mtime = now } in
    elim (Bool-cases (has_bit flag_notif kv.flags)) [
      | inl notif ↦
          let (left, e, r) = set_keyval-noted (add_event (notified m.val) b) n d m.key v has two in
          (
            left,
            e,
            notified m.val ∷ b.events,
            note_val-notifies b _ now m n x kv _ good is_x known notif
                (notify-runs b m.val (can notif)) r,
          )
      | inr silent ↦
          let (left, e, r) = set_keyval-noted b n d m.key v has two in
          (left, e, b.events, note_val-silent b now m n x kv _ good is_x known silent r)
    ]
