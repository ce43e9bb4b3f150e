-- ===== src/Network/Safe/Messages.antt =====
-- What a message from a node leaves in its pairs, in src/base/bano_base.c, on a base whose requests
-- are in order.
use bano.Base.{
  ℕ, ◌+◌, ◌≤◌, ◌≡◌, refl, ap, Option, some, has_bit, length, arith, Bool-cases, Option-cases, inl,
  inr,
}
use bano.Items.{Ptr}
use bano.Dict.{Dict, dict_set_or_add, dict_add, take_mem}
use bano.Nodl.{flag_notif, nodl_find_key}
use bano.Message.{Msg, flag_err}
use bano.Network.{NodeVal, Node, notified, BanoBase, add_event, put_node, node_at}
use bano.Network.Receive.{set_keyval, note_val}
use bano.Network.Lookup.{notify-runs, node_at-at, node_at-put_node}
use bano.Network.Safe.{IsSafeFor}
use bano.Network.Safe.Nodes.{put_node-AreNodes}
use bano.Network.Safe.Kept.{
  put_node-Notifies, cell_at-put_kept, AreHeld-kept, posted_total-put_node,
}

-- A write to a node that leaves its requests
pub put_kept-IsSafeFor :
    (ms j k : ℕ) (b c : BanoBase) (n m : Node)
    → IsSafeFor ms j b
    → node_at b.nodes m.at ≡ some n
    → m.posted_ios ≡ n.posted_ios
    → m.pending_ios ≡ n.pending_ios
    → m.nodl ≡ n.nodl
    → c.sms_ready ≡ b.sms_ready
    → (d : Dict NodeVal) × (m.keyval_pairs ≡ some d)
    → c.nodes ≡ put_node b.nodes m
    → c.timers ≡ b.timers
    → c.ios ≡ b.ios
    → c.mem.fresh ≡ b.mem.fresh
    → k + b.mem.left ≤ j + c.mem.left
    → IsSafeFor ms k c
put_kept-IsSafeFor ms j k b c n m h at_n same_posted same_pending same_nodl same_sms pairs is_ns
      is_ts is_ios is_fresh le =
    let s = h.0 in
    let old = s.are_nodes.each m.at n at_n in
    let total = posted_total-put_node b.nodes m n at_n in
    let lengths = ap length same_posted in
    rw (is_ns, is_ts, is_ios, is_fresh, same_sms)
      (
        record {
          are_nodes = put_node-AreNodes b.mem.fresh b.nodes m n s.are_nodes at_n (record {
            old = rw (← (node_at-at b.nodes m.at n at_n)) old.old;
            pairs = pairs;
            posted_apart = rw same_posted old.posted_apart;
            pending_apart = rw same_pending old.pending_apart;
          });
          are_timers = s.are_timers;
          are_held =
              AreHeld-kept ms b.mem.fresh b.mem.fresh b.nodes (put_node b.nodes m) b.timers b.ios
                s.are_held (omega arith)
                (λ x. cell_at-put_kept b.nodes m n x at_n same_posted same_pending);
        },
        omega (arith, h.1, total, lengths, le),
        put_node-Notifies b.sms_ready b.nodes m n h.2 at_n same_nodl,
      )

pub dict_set_or_add-left :
    (mem left : ℕ) (d e : Dict NodeVal) (k : ℕ) (v : NodeVal)
    → dict_set_or_add mem d k v ≡ some (left, e)
    → mem ≤ left + 2
unfolding dict_set_or_add dict_add take_mem
dict_set_or_add-left mem left d e k v run = ground (arith, run)

-- What a handler gives: a base in which the node at `q` is still there.
pub record Noted (ms k : ℕ) (q : Ptr) (o : Option BanoBase) : Type 0 where
  pub base : BanoBase
  pub runs : o ≡ some base
  pub ready : IsSafeFor ms k base
  pub node : Node
  pub there : node_at base.nodes q ≡ some node

module _ (ms k : ℕ) where
  set_keyval-Noted :
      (b : BanoBase) (n : Node) (key : ℕ) (v : NodeVal)
      → IsSafeFor ms (k + 2) b
      → node_at b.nodes n.at ≡ some n
      → Noted ms k n.at (set_keyval b n key v)
  unfolding set_keyval
  set_keyval-Noted b n key v h at_n =
      let (d, has) = (h.0.are_nodes.each n.at n at_n).pairs in
      elim (Option-cases (dict_set_or_add b.mem.left d key v)) [
        | inl full ↦ record {
          base = b;
          runs = rw (set_keyval, has, full) refl;
          ready = (h.0, omega (arith, h.1), h.2);
          node = n;
          there = at_n;
        }
        | inr ((left, e), set) ↦
            let m = record n { keyval_pairs = some e } in
            let c = record b { mem = record b.mem { left = left }; nodes = put_node b.nodes m } in
            let le = dict_set_or_add-left b.mem.left left d e key v set in
            record {
              base = c;
              runs = rw (set_keyval, has, set) refl;
              ready =
                  put_kept-IsSafeFor ms (k + 2) k b c n m h at_n refl refl refl refl (e, refl) refl
                    refl refl refl (omega (arith, le));
              node = m;
              there = node_at-put_node b.nodes m n at_n;
            }
      ]

  pub note_val-Noted :
      (b : BanoBase) (now : ℕ) (m : Msg) (n : Node)
      → IsSafeFor ms (k + 2) b
      → node_at b.nodes n.at ≡ some n
      → Noted ms k n.at (note_val b now m n)
  unfolding note_val
  note_val-Noted b now m n h at_n =
      let v : NodeVal = record { val = m.val; mtime = now } in
      let same : IsSafeFor ms k b = (h.0, omega (arith, h.1), h.2) in
      elim (Bool-cases (has_bit flag_err m.flags)) [
        | inl err ↦ record {
          base = b;
          runs = rw (note_val, err) refl;
          ready = same;
          node = n;
          there = at_n;
        }
        | inr good ↦ elim (Option-cases n.nodl) [
          | inl any ↦ rw (note_val, good, any) (set_keyval-Noted b n m.key v h at_n)
          | inr (d, has) ↦ elim (Option-cases (nodl_find_key d m.key)) [
            | inl unknown ↦ record {
              base = b;
              runs = rw (note_val, good, has, unknown) refl;
              ready = same;
              node = n;
              there = at_n;
            }
            | inr (kv, found) ↦ elim (Bool-cases (has_bit flag_notif kv.flags)) [
              | inl told ↦
                  let ready = h.2 n.at n at_n d m.key kv has found told in
                  rw (note_val, good, has, found, told, notify-runs b m.val ready)
                    (set_keyval-Noted (add_event (notified m.val) b) n m.key v h at_n)
              | inr silent ↦
                  rw (note_val, good, has, found, silent) (set_keyval-Noted b n m.key v h at_n)
            ]
          ]
        ]
      ]
