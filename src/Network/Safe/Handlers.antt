-- ===== src/Network/Safe/Handlers.antt =====
-- The handlers of src/base/bano_base.c for messages from nodes, on a base whose requests are in
-- order.
use bano.Base.{
  ℕ, suc, ◌+◌, ◌-◌, ◌≡◌, refl, none, some, [], ◌∷◌, ◌++◌, ◌==◌, has_bit, if◌then◌else◌, Bytes,
  arith, Bool-cases, Option-cases, inl, inr,
}
use bano.Items.{Ptr}
use bano.Dict.{Dict, dict_init, init_with_nlist, take_mem, init_lists}
use bano.Message.{Msg, op_set, op_get, flag_reply, bytes_msg, unseal}
use bano.Config.Station.{flag_new_nodes}
use bano.Timers.{malloc}
use bano.Network.{
  NodeVal, Node, set_called, node_called, get_called, LoopInfo, BanoBase, add_event, node_alloc,
  add_tail_node, find_node_by_addr, node_at,
}
use bano.Network.Receive.{handle_set_msg, handle_get_msg, dispatch, add_sender, handle_bano_msg}
use bano.Network.Safe.{IsSafe, posted_total, IsSafeFor}
use bano.Network.Safe.Nodes.{append-AreNodes, find_node_by_addr-node_at}
use bano.Network.Safe.Kept.{append-Notifies, cell_at-append, AreHeld-kept, posted_total-append}
use bano.Network.Safe.Answered.{answer-IsSafeFor}
use bano.Network.Safe.Messages.{note_val-Noted}

abbrev new_pairs : Dict NodeVal
new_pairs = record { lists = init_lists 8; log2_nlist = 3 }

-- The node that `add_sender` makes, and the base with it, where `left` requests of memory are left
abbrev new_node : BanoBase → ℕ → Ptr → Node
new_node b saddr socket = record {
  at = b.mem.fresh;
  flags = 0;
  addr = saddr;
  name = [];
  socket = socket;
  nodl = none;
  posted_ios = [];
  pending_ios = [];
  keyval_pairs = some new_pairs;
}

abbrev sender_base : BanoBase → ℕ → Ptr → ℕ → BanoBase
sender_base b saddr socket left = record b {
  mem = record { left = left; fresh = b.mem.fresh + 1 + 1 };
  nodes = b.nodes ++ new_node b saddr socket ∷ [];
}

abbrev with_sender : LoopInfo → BanoBase → ℕ → Ptr → ℕ → BanoBase
with_sender info b saddr socket left =
    let c = sender_base b saddr socket left in
    if info.node_fn then add_event (node_called b.mem.fresh) c else c

add_sender-runs :
    (info : LoopInfo) (b : BanoBase) (saddr : ℕ) (socket : Ptr) (left : ℕ)
    → b.mem.left ≡ suc (suc (suc left))
    → add_sender info b saddr socket
      ≡ (with_sender info b saddr socket left, some (new_node b saddr socket))
unfolding add_sender node_alloc dict_init init_with_nlist take_mem add_tail_node malloc
add_sender-runs info b saddr socket left e = rw e refl

module _ (ms k : ℕ) where
  set_msg-IsSafeFor :
      (info : LoopInfo) (b : BanoBase) (now : ℕ) (m : Msg) (n : Node)
      → IsSafeFor ms (k + 2) b
      → node_at b.nodes n.at ≡ some n
      → (d : BanoBase) × (handle_set_msg info b now m n ≡ some d) × IsSafeFor ms k d
  unfolding handle_set_msg
  set_msg-IsSafeFor info b now m n h at_n =
      let noted = note_val-Noted ms k b now m n h at_n in
      elim (Bool-cases (has_bit flag_reply m.flags)) [
        | inl reply ↦
            let (d, run, ready) =
              answer-IsSafeFor ms k noted.base m n.at noted.node noted.ready noted.there in
            (d, rw (handle_set_msg, noted.runs, reply, noted.there) run, ready)
        | inr plain ↦ elim (Bool-cases info.set_fn) [
          | inl told ↦ (
            add_event (set_called n.at m.key m.val) noted.base,
            rw (handle_set_msg, noted.runs, plain, told) refl,
            noted.ready,
          )
          | inr silent ↦
              (noted.base, rw (handle_set_msg, noted.runs, plain, silent) refl, noted.ready)
        ]
      ]

  dispatch-IsSafeFor :
      (info : LoopInfo) (b : BanoBase) (now : ℕ) (m : Msg) (n : Node)
      → IsSafeFor ms (k + 2) b
      → node_at b.nodes n.at ≡ some n
      → (d : BanoBase) × (dispatch info b now m n ≡ some d) × IsSafeFor ms k d
  unfolding dispatch handle_get_msg
  dispatch-IsSafeFor info b now m n h at_n =
      let less : IsSafeFor ms k b = (h.0, omega (arith, h.1), h.2) in
      elim (Bool-cases (m.op == op_set)) [
        | inl set ↦
            let (d, run, ready) = set_msg-IsSafeFor info b now m n h at_n in
            (d, rw (dispatch, set) run, ready)
        | inr no_set ↦ elim (Bool-cases (m.op == op_get)) [
          | inr unknown ↦ (b, rw (dispatch, no_set, unknown) refl, less)
          | inl get ↦ elim (Bool-cases info.get_fn) [
            | inl told ↦ (
              add_event (get_called n.at m.key) b,
              rw (dispatch, handle_get_msg, no_set, get, told) refl,
              less,
            )
            | inr silent ↦ (b, rw (dispatch, handle_get_msg, no_set, get, silent) refl, less)
          ]
        ]
      ]

  -- A new node, with memory for it
  add_sender-IsSafeFor :
      (info : LoopInfo) (b : BanoBase) (saddr : ℕ) (socket : Ptr)
      → IsSafeFor ms (k + 5) b
      → (c : BanoBase) × (n : Node) × (add_sender info b saddr socket ≡ (c, some n))
        × IsSafeFor ms (k + 2) c
        × (node_at c.nodes n.at ≡ some n)
  add_sender-IsSafeFor info b saddr socket h =
      let n = new_node b saddr socket in
      let fresh = b.mem.fresh + 1 + 1 in
      let s = h.0 in
      let (nodes, there, new) =
        append-AreNodes b.mem.fresh fresh b.nodes n s.are_nodes (omega arith) (omega arith)
          (record {
            old = omega arith;
            pairs = (new_pairs, refl);
            posted_apart = tt;
            pending_apart = tt;
          }) in
      let held =
        AreHeld-kept ms b.mem.fresh fresh b.nodes (b.nodes ++ n ∷ []) b.timers b.ios s.are_held
          (omega arith) (λ x. cell_at-append b.nodes n x refl refl) in
      let total = posted_total-append b.nodes n in
      (
        with_sender info b saddr socket (b.mem.left - 3),
        n,
        add_sender-runs info b saddr socket (b.mem.left - 3) (omega (arith, h.1)),
        ready (record { are_nodes = nodes; are_timers = s.are_timers; are_held = held }) total,
        at_n there,
      )
    where
      ready :
          IsSafe ms (sender_base b saddr socket (b.mem.left - 3))
          → posted_total (b.nodes ++ new_node b saddr socket ∷ []) ≡ posted_total b.nodes + 0
          → IsSafeFor ms (k + 2) (with_sender info b saddr socket (b.mem.left - 3))
      ready s total =
          let quiet =
            append-Notifies b.sms_ready b.nodes (new_node b saddr socket) h.2
              (λ d key kv is_d. cc is_d) in
          elim (Bool-cases info.node_fn) [
            | inl e ↦ rw e (s, omega (arith, h.1, total), quiet)
            | inr e ↦ rw e (s, omega (arith, h.1, total), quiet)
          ]

      at_n :
          node_at (b.nodes ++ new_node b saddr socket ∷ []) b.mem.fresh
            ≡ some (new_node b saddr socket)
          → node_at (with_sender info b saddr socket (b.mem.left - 3)).nodes b.mem.fresh
            ≡ some (new_node b saddr socket)
      at_n there = elim (Bool-cases info.node_fn) [ inl e ↦ rw e there | inr e ↦ rw e there ]

  -- On a base that is safe, as in `loop_rounds-IsSafeFor`, for any time that a request waits for,
  -- with memory for its posted requests, for a new node and for its value, `handle_bano_msg` on a
  -- message of any bytes takes no step that the C language leaves undefined: it returns, and
  -- leaves the base safe, with memory for its posted requests.
  pub handle_bano_msg-IsSafeFor :
      (info : LoopInfo) (b : BanoBase) (now : ℕ) (socket : Ptr) (bytes : Bytes)
      → IsSafeFor ms (k + 5) b
      → (d : BanoBase) × (handle_bano_msg info b now socket bytes ≡ some d) × IsSafeFor ms k d
  unfolding handle_bano_msg
  handle_bano_msg-IsSafeFor info b now socket bytes h =
      let m = bytes_msg (unseal b.cipher bytes) in
      let less : IsSafeFor ms (k + 2) b = (h.0, omega (arith, h.1), h.2) in
      elim (Option-cases (find_node_by_addr b.nodes m.saddr)) [
        | inr (n, known) ↦
            let at_n = find_node_by_addr-node_at b.nodes m.saddr n h.0.are_nodes.apart known in
            let (d, run, ready) = dispatch-IsSafeFor info b now m n less at_n in
            (d, rw (handle_bano_msg, known) run, ready)
        | inl unknown ↦ elim (Bool-cases (has_bit flag_new_nodes b.flags)) [
          | inr off ↦ (b, rw (handle_bano_msg, unknown, off) refl, (h.0, omega (arith, h.1), h.2))
          | inl on ↦
              let (c, n, added, still, at_n) = add_sender-IsSafeFor info b m.saddr socket h in
              let (d, run, ready) = dispatch-IsSafeFor info c now m n still at_n in
              (d, rw (handle_bano_msg, unknown, on, added) (rw added run), ready)
        ]
      ]
