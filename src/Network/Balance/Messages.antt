-- ===== src/Network/Balance/Messages.antt =====
-- `handle_set_msg` of src/base/bano_base.c, counted.
use bano.Base.{ℕ, ◌≡◌, refl, some, ◌∷◌, has_bit, arith, Bool-cases, Option-cases, inl, inr}
use bano.Dict.{dict_set_or_add}
use bano.Nodl.{flag_notif, nodl_find_key}
use bano.Message.{Msg, flag_err, flag_reply}
use bano.Network.{
  NodeVal, Node, Event, notified, set_called, LoopInfo, BanoBase, add_event, put_node, node_at,
}
use bano.Network.Receive.{set_keyval, note_val, handle_set_msg}
use bano.Network.Lookup.{notify-runs, notify-unset, node_at-node_at}
use bano.Network.Balance.{told, outstanding-put_node, AllHaveFn, IsBalanced}
use bano.Network.Balance.Answers.{answer-IsBalanced}

-- The base is as balanced after a step that comes first and changes neither sum nor functions.
after_first : (b c d : BanoBase) → IsBalanced 0 b c → IsBalanced 0 c d → IsBalanced 0 b d
after_first b c d p q = record { sum = omega (arith, p.sum, q.sum); have_fn = q.have_fn }

-- An event that is no call of the function of a request
quiet :
    (b : BanoBase) (e : Event)
    → told (e ∷ b.events) ≡ told b.events
    → AllHaveFn b.ios
    → IsBalanced 0 b (add_event e b)
quiet b e same have = record { sum = omega (arith, same); have_fn = have }

set_keyval-IsBalanced :
    (b d : BanoBase) (n : Node) (key : ℕ) (v : NodeVal)
    → node_at b.nodes n.at ≡ some n
    → AllHaveFn b.ios
    → set_keyval b n key v ≡ some d
    → IsBalanced 0 b d
unfolding set_keyval
set_keyval-IsBalanced b d n key v at_n have e = elim (Option-cases n.keyval_pairs) [
  | inl unset ↦ cc (rw (set_keyval, unset) at e)
  | inr (x, is_x) ↦ elim (Option-cases (dict_set_or_add b.mem.left x key v)) [
    | inl full ↦
        let same : b ≡ d = cc (rw (set_keyval, is_x, full) at e) in
        rw (← same) (record { sum = omega arith; have_fn = have })
    | inr ((left, y), wrote) ↦
        let k = record n { keyval_pairs = some y } in
        let done : record b { mem = record b.mem { left = left }; nodes = put_node b.nodes k } ≡ d =
          cc (rw (set_keyval, is_x, wrote) at e) in
        rw (← done)
          (record { sum = omega (arith, outstanding-put_node b.nodes k n at_n); have_fn = have })
  ]
]

note_val-IsBalanced :
    (b d : BanoBase) (n : Node) (now : ℕ) (m : Msg)
    → node_at b.nodes n.at ≡ some n
    → AllHaveFn b.ios
    → note_val b now m n ≡ some d
    → IsBalanced 0 b d
unfolding note_val
note_val-IsBalanced b d n now m at_n have e = elim (Bool-cases (has_bit flag_err m.flags)) [
  | inl bad ↦
      let same : b ≡ d = cc (rw (note_val, bad) at e) in
      rw (← same) (record { sum = omega arith; have_fn = have })
  | inr good ↦ elim (Option-cases n.nodl) [
    | inl any ↦
        set_keyval-IsBalanced b d n m.key (record { val = m.val; mtime = now }) at_n have
          (rw (note_val, good, any) at e)
    | inr (x, is_x) ↦ elim (Option-cases (nodl_find_key x m.key)) [
      | inl unknown ↦
          let same : b ≡ d = cc (rw (note_val, good, is_x, unknown) at e) in
          rw (← same) (record { sum = omega arith; have_fn = have })
      | inr (kv, known) ↦ elim (Bool-cases (has_bit flag_notif kv.flags)) [
        | inl notif ↦ elim (Bool-cases b.sms_ready) [
          | inr unset ↦
              cc (rw (note_val, good, is_x, known, notif, notify-unset b m.val unset) at e)
          | inl ready ↦
              let c = add_event (notified m.val) b in
              after_first b c d (quiet b (notified m.val) refl have) (
                set_keyval-IsBalanced c d n m.key (record { val = m.val; mtime = now }) at_n have
                  (rw (note_val, good, is_x, known, notif, notify-runs b m.val ready) at e))
        ]
        | inr silent ↦
            set_keyval-IsBalanced b d n m.key (record { val = m.val; mtime = now }) at_n have
              (rw (note_val, good, is_x, known, silent) at e)
      ]
    ]
  ]
]

-- `handle_set_msg`
pub handle_set_msg-IsBalanced :
    (info : LoopInfo) (b d : BanoBase) (n : Node) (now : ℕ) (m : Msg)
    → node_at b.nodes n.at ≡ some n
    → AllHaveFn b.ios
    → handle_set_msg info b now m n ≡ some d
    → IsBalanced 0 b d
unfolding handle_set_msg
handle_set_msg-IsBalanced info b d n now m at_n have e = elim (Option-cases (note_val b now m n)) [
  | inl stuck ↦ cc (rw (handle_set_msg, stuck) at e)
  | inr (c, noted) ↦
      let p = note_val-IsBalanced b c n now m at_n have noted in
      elim (Bool-cases (has_bit flag_reply m.flags)) [
        | inl reply ↦ elim (Option-cases (node_at c.nodes n.at)) [
          | inl gone ↦ cc (rw (handle_set_msg, noted, reply, gone) at e)
          | inr (k, at_k) ↦ after_first b c d p (
              answer-IsBalanced c d m k (node_at-node_at c.nodes n.at k at_k) p.have_fn
                (rw (handle_set_msg, noted, reply, at_k) at e))
        ]
        | inr plain ↦ elim (Bool-cases info.set_fn) [
          | inl called ↦
              let ev = set_called n.at m.key m.val in
              let same : add_event ev c ≡ d = cc (rw (handle_set_msg, noted, plain, called) at e) in
              after_first b c d p (rw (← same) (quiet c ev refl p.have_fn))
          | inr silent ↦
              let same : c ≡ d = cc (rw (handle_set_msg, noted, plain, silent) at e) in
              rw (← same) p
        ]
      ]
]
