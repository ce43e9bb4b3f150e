-- ===== src/Network/Receive.antt =====
-- The handlers of src/base/bano_base.c for messages from nodes.
use bano.Base.{
  ℕ, Bool, false, not, Option, none, some, List, [], ◌∷◌, ◌==◌, if◌then◌else◌, Bytes, has_bit,
}
use bano.Items.{Ptr}
use bano.Dict.{dict_set_or_add}
use bano.Nodl.{flag_notif, nodl_find_key}
use bano.Message.{Msg, op_set, op_get, flag_reply, flag_err, bytes_msg, unseal}
use bano.Config.Station.{flag_new_nodes}
use bano.Timers.{timer_del}
use bano.Network.{
  NodeVal, Cell, Node, Io, err_failure, completed, set_called, get_called, node_called, notified,
  LoopInfo, BanoBase, add_event, put_io, put_node, node_alloc, add_tail_node, find_node_by_addr,
  node_at,
}

-- `cmp_pending_io`: whether the request is what the message answers.
unfoldable pub cmp_pending_io : Node → Msg → Io → Bool
cmp_pending_io n m io =
    let same_key = io.msg.key == m.key in
    if not (n.addr == m.saddr)
    then false
    else if io.msg.op == op_set
    then if not (io.msg.val == m.val) then false else same_key
    else same_key

-- `bano_list_foreach` with it, and `bano_list_del` of the item found: the items that are left, and
-- the request with its address.
unfoldable pub find_pending :
    (Ptr → Option Io) → Node → Msg → List Cell → Option (List Cell × Option (Ptr × Io))
find_pending ios n m [] = some ([], none)
find_pending ios n m (c ∷ cs) =
    let rest = find_pending ios n m cs in
    elim (ios c.io) [
      | none ↦ none
      | some io ↦
          let here : Option (List Cell × Option (Ptr × Io)) = some (cs, some (c.io, io)) in
          let behind : Option (List Cell × Option (Ptr × Io)) = elim rest [
            | none ↦ none
            | some (left, found) ↦ some (c ∷ left, found)
          ] in
          if cmp_pending_io n m io then here else behind
    ]

-- `find_pending_io`, with the node in its new state
unfoldable pub find_pending_io : BanoBase → Node → Msg → Option (Node × Option (Ptr × Io))
find_pending_io b n m = elim (find_pending b.ios n m n.pending_ios) [
  | none ↦ none
  | some (left, found) ↦ some (record n { pending_ios = left }, found)
]

-- The value of a message that is no error goes to the pairs of the node.
unfoldable pub set_keyval : BanoBase → Node → ℕ → NodeVal → Option BanoBase
set_keyval b n key v = elim n.keyval_pairs [
  | none ↦ none
  | some d ↦ elim (dict_set_or_add b.mem.left d key v) [
    | none ↦ some b
    | some (left, e) ↦ some (record b {
      mem = record b.mem { left = left };
      nodes = put_node b.nodes (record n { keyval_pairs = some e });
    })
  ]
]

-- The text message for a key with the flag, sent with `sms`, whether that has been opened or not.
unfoldable pub notify : BanoBase → ℕ → Option BanoBase
notify b v =
    let told : Option BanoBase = some (add_event (notified v) b) in
    let unset : Option BanoBase = none in if b.sms_ready then told else unset

-- The first part of `handle_set_msg`, up to `on_invalid_key`, at the time `now`.
unfoldable pub note_val : BanoBase → ℕ → Msg → Node → Option BanoBase
note_val b now m n =
    let v : NodeVal = record { val = m.val; mtime = now } in
    let stored : Option BanoBase = elim n.nodl [
      | none ↦ set_keyval b n m.key v
      | some d ↦ elim (nodl_find_key d m.key) [
        | none ↦ some b
        | some kv ↦
            let silent = set_keyval b n m.key v in
            let told : Option BanoBase = elim (notify b m.val) [
              | none ↦ none
              | some c ↦ set_keyval c n m.key v
            ] in
            if has_bit flag_notif kv.flags then told else silent
      ]
    ] in
    let same : Option BanoBase = some b in if has_bit flag_err m.flags then same else stored

-- The completion of a pending request by the answer `m`.
unfoldable pub complete_pending : BanoBase → Msg → Ptr × Io → Option BanoBase
complete_pending b m (p, io) =
    let told = elim io.compl_fn as (λ _. BanoBase) [
      | none ↦ b
      | some data_of ↦
          if has_bit flag_err m.flags
          then add_event (completed data_of err_failure io.compl_val) b
          else add_event (completed data_of 0 m.val) b
    ] in
    elim (timer_del told.timers io.timer) [
      | none ↦ none
      | some ts ↦ some (record told { timers = ts; ios = put_io told.ios p none })
    ]

-- The part of `handle_set_msg` behind `on_invalid_key` for an answer.
unfoldable pub answer : BanoBase → Msg → Node → Option BanoBase
answer b m n = elim (find_pending_io b n m) [
  | none ↦ none
  | some (k, found) ↦
      let c = record b { nodes = put_node b.nodes k } in
      elim found [ none ↦ some c | some r ↦ complete_pending c m r ]
]

-- `handle_set_msg` for the node `n`, at the time `now`
unfoldable pub handle_set_msg : LoopInfo → BanoBase → ℕ → Msg → Node → Option BanoBase
handle_set_msg info b now m n = elim (note_val b now m n) [
  | none ↦ none
  | some c ↦
      let told : Option BanoBase =
        some (if info.set_fn then add_event (set_called n.at m.key m.val) c else c) in
      let answered : Option BanoBase = elim (node_at c.nodes n.at) [
        | none ↦ none
        | some k ↦ answer c m k
      ] in
      if has_bit flag_reply m.flags then answered else told
]

-- `handle_get_msg`
unfoldable pub handle_get_msg : LoopInfo → BanoBase → Msg → Node → BanoBase
handle_get_msg info b m n = if info.get_fn then add_event (get_called n.at m.key) b else b

-- The last part of `handle_bano_msg`
unfoldable pub dispatch : LoopInfo → BanoBase → ℕ → Msg → Node → Option BanoBase
dispatch info b now m n =
    let got : Option BanoBase = some (handle_get_msg info b m n) in
    let unknown : Option BanoBase = some b in
    if m.op == op_set
    then handle_set_msg info b now m n
    else if m.op == op_get
    then got
    else unknown

-- A sender that is not a node yet, behind the test of `BANO_BASE_FLAG_NEW_NODES`; `none` in the
-- result for an error.
unfoldable pub add_sender : LoopInfo → BanoBase → ℕ → Ptr → BanoBase × Option Node
add_sender info b saddr socket = elim (node_alloc b.mem saddr socket) [
  | none ↦ (b, none)
  | some (m, n) ↦ elim (add_tail_node (record b { mem = m }) n) as (λ _. BanoBase × Option Node) [
    | none ↦ (record b { mem = m }, none)
    | some c ↦ ((if info.node_fn then add_event (node_called n.at) c else c), some n)
  ]
]

-- `handle_bano_msg` on the 17 bytes of a message; its result, which no caller reads, is left out.
unfoldable pub handle_bano_msg : LoopInfo → BanoBase → ℕ → Ptr → Bytes → Option BanoBase
handle_bano_msg info b now socket bytes =
    let m = bytes_msg (unseal b.cipher bytes) in
    let ignored : Option BanoBase = some b in
    let r = add_sender info b m.saddr socket in
    let added : Option BanoBase = elim r.1 [
      | none ↦ some r.0
      | some n ↦ dispatch info r.0 now m n
    ] in
    elim (find_node_by_addr b.nodes m.saddr) [
      | none ↦ if has_bit flag_new_nodes b.flags then added else ignored
      | some n ↦ dispatch info b now m n
    ]
