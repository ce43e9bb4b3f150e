-- ===== src/Network/Safe/Writes.antt =====
-- `post_io` of src/base/bano_base.c, on a base whose requests are in order.
use bano.Base.{
  ℕ, ◌+◌, ◌*◌, ◌≤◌, ◌≡◌, refl, ap, sym, ◌∙◌, Bool, true, false, Option, none, some, List, ◌==◌,
  ==_iff, has_bit, Bytes, arith, Bool-cases, inl, inr,
}
use bano.Items.{Ptr}
use bano.Timers.{set_target}
use bano.Timers.Dues.{granted}
use bano.Network.{Cell, Node, Io, io_reply, BanoBase, put_io, put_node, node_at}
use bano.Network.Send.{del_cell, post_io}
use bano.Network.Expire.{find_cell}
use bano.Network.Lookup.{node_at-put_node, node_at-put_other}
use bano.Network.Steps.{wire, waiting, put_node-twice, post_io-completes, post_io-waits}
use bano.Network.Balance.{length-del_cell}
use bano.Network.Safe.{Place, cell_at, posted_total, IsSafeFor}
use bano.Network.Safe.Clock.{timer_add-Appended}
use bano.Network.Safe.Kept.{put_node-Notifies, posted_total-put_node}
use bano.Network.Safe.Places.{posted_freed, no_timer, pending_added}

-- The nodes of `ns` are all in `us`.
abbrev pub Kept : List Node → List Node → Type 0
Kept ns us = (p : Ptr) (m : Node) → node_at ns p ≡ some m → (k : Node) × (node_at us p ≡ some k)

pub put_node-Kept :
    (ns : List Node) (n k : Node) → node_at ns n.at ≡ some k → Kept ns (put_node ns n)
put_node-Kept ns n k at_k p m e = elim (Bool-cases (n.at == p)) [
  | inl same ↦
      let is_p : n.at ≡ p = (==_iff n.at p).0 same in
      (n, ap (node_at (put_node ns n)) (sym is_p) ∙ node_at-put_node ns n k at_k)
  | inr other ↦ (m, node_at-put_other ns n p other ∙ e)
]

pub put_io-twice :
    (ios : Ptr → Option Io) (p : Ptr) (o v : Option Io)
    → put_io (put_io ios p o) p v ≡ put_io ios p v
unfolding put_io
put_io-twice ios p o v = λ i a. at_a a i
  where
    at_a : (a : Ptr) → put_io (put_io ios p o) p v a ≡ put_io ios p v a
    at_a a = elim (Bool-cases (a == p)) [ inl e ↦ rw e refl | inr e ↦ rw e refl ]

-- What a write of the request in the item `c` of the node `n` leaves.
pub record Written (ms k : ℕ) (b : BanoBase) (n : Node) (c : Cell) (d : BanoBase) : Type 0 where
  pub ready : IsSafeFor ms k d
  pub node : Node
  pub there : node_at d.nodes n.at ≡ some node
  pub fewer : node.posted_ios ≡ del_cell n.posted_ios c.at
  pub kept : Kept b.nodes d.nodes

module _ (write : Ptr → ℕ → Bytes → Bool)
    (writes : (p : Ptr) (addr : ℕ) (bytes : Bytes) → write p addr bytes ≡ true) (ms k : ℕ) where
  module _ (b : BanoBase) (n : Node) (c : Cell) (h : IsSafeFor ms k b)
      (at_n : node_at b.nodes n.at ≡ some n) (in_n : find_cell n.posted_ios c.at ≡ some c) where
    three :
        k
          + 3
            * posted_total (put_node b.nodes (record n { posted_ios = del_cell n.posted_ios c.at }))
          + 3
        ≤ b.mem.left
    three = omega (
      arith,
      h.1,
      posted_total-put_node b.nodes (record n { posted_ios = del_cell n.posted_ios c.at }) n at_n,
      length-del_cell n.posted_ios c.at c in_n,
    )

    completes-Written :
        (io : Io)
        → b.ios c.io ≡ some io
        → has_bit io_reply io.flags ≡ false
        → (d : BanoBase) × (post_io write b n.at c ≡ some d) × Written ms k b n c d
    completes-Written io live plain =
        let less = record n { posted_ios = del_cell n.posted_ios c.at } in
        let (safe, free) =
          posted_freed ms b.mem.fresh b.nodes b.timers b.ios n h.0 at_n c io live in_n in
        (
          _,
          post_io-completes write b n c io at_n live (writes n.socket n.addr (wire b n io)) plain,
          record {
            ready = (
              safe none,
              omega (arith, three),
              put_node-Notifies b.sms_ready b.nodes less n h.2 at_n refl,
            );
            node = less;
            there = node_at-put_node b.nodes less n at_n;
            fewer = refl;
            kept = put_node-Kept b.nodes less n at_n;
          },
        )

    waits-Written :
        (io : Io)
        → b.ios c.io ≡ some io
        → has_bit io_reply io.flags ≡ true
        → io.node ≡ n.at
        → io.retry_ms ≡ ms
        → c.io + 1 ≤ b.mem.fresh
        → (d : BanoBase) × (post_io write b n.at c ≡ some d) × Written ms k b n c d
    waits-Written io live reply mine time old =
        let t = b.mem.fresh + 1 in
        let jo = record io { timer = t } in
        let less = record n { posted_ios = del_cell n.posted_ios c.at } in
        let moved = waiting n c b.mem.fresh in
        let ns = put_node b.nodes less in
        let (safe, free) =
          posted_freed ms b.mem.fresh b.nodes b.timers b.ios n h.0 at_n c io live in_n in
        let (us, added, appended) =
          timer_add-Appended (granted b.mem) b.timers ms (omega (arith, three)) h.0.are_timers
            (no_timer ms b.mem.fresh b.nodes b.timers b.ios n h.0 at_n t (omega arith)) in
        let after =
          pending_added ms b.mem.fresh ns b.timers (put_io b.ios c.io (some jo)) less
            (safe (some jo)) (node_at-put_node b.nodes less n at_n) b.mem.fresh c.io
            (b.mem.fresh + 1 + 1 + 1) jo (omega arith) (omega arith) (omega arith) free mine
            (λ r. time) t (set_target us t (record { node = n.at; cell = some b.mem.fresh }))
            (omega arith) (omega arith) refl
            (appended (record { node = n.at; cell = some b.mem.fresh })) in
        let total = posted_total-put_node b.nodes moved n at_n in
        let total2 = posted_total-put_node b.nodes less n at_n in
        (
          _,
          post_io-waits write b n c io at_n live (writes n.socket n.addr (wire b n io))
              (granted (granted (granted b.mem))) us t (omega (arith, three)) reply (rw time added),
          record {
            ready = (
              rw
                  (
                    put_node-twice b.nodes less moved refl,
                    put_io-twice b.ios c.io (some jo) (some jo),
                  )
                  at after,
              omega (arith, three, total, total2),
              put_node-Notifies b.sms_ready b.nodes moved n h.2 at_n refl,
            );
            node = moved;
            there = node_at-put_node b.nodes moved n at_n;
            fewer = refl;
            kept = put_node-Kept b.nodes moved n at_n;
          },
        )

    pub post_io-Written : (d : BanoBase) × (post_io write b n.at c ≡ some d) × Written ms k b n c d
    post_io-Written =
        let x : Place = record { waits = false; node = n.at; cell = c.at } in
        let here = h.0.are_held.held x c (rw (cell_at, at_n) in_n) in
        elim (Bool-cases (has_bit io_reply here.io.flags)) [
          | inl reply ↦
              waits-Written here.io here.live reply here.mine (here.time reply)
                (omega (arith, here.old_io))
          | inr plain ↦ completes-Written here.io here.live plain
        ]
