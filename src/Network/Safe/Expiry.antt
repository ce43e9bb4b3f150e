-- ===== src/Network/Safe/Expiry.antt =====
-- The branch of `bano_start_loop` of src/base/bano_base.c for the timer that is due next, on a base
-- whose requests are in order.
use bano.Base.{
  ℕ, ◌+◌, ◌-◌, ◌≤◌, ◌≡◌, refl, ap, sym, ◌∙◌, true, none, some, List, [], ◌∷◌, ◌==◌, ==_refl,
  has_bit, length-append, arith, Bool-cases, Option-cases, inl, inr,
}
use bano.Timers.{Timer, Target, timer_del}
use bano.Timers.Dues.{granted}
use bano.Network.{Cell, Node, Io, io_reply, BanoBase, put_io, put_node, node_at}
use bano.Network.Send.{del_cell}
use bano.Network.Expire.{find_cell, expire_io, del_timer, expire}
use bano.Network.Lookup.{node_at-at, node_at-node_at, node_at-put_node}
use bano.Network.Steps.{reposted, put_node-twice, expire_io-over, expire_io-again, called_with}
use bano.Network.Balance.Steps.{find_cell-at}
use bano.Network.Safe.{Place, cell_at, target_at, IsHeld, Leads, IsSafeFor}
use bano.Network.Safe.Kept.{put_node-Notifies, posted_total-put_node}
use bano.Network.Safe.Places.{pending_freed, posted_added}
use bano.Network.Safe.Writes.{put_io-twice}

expire-runs :
    (b d : BanoBase) (t : Timer) (g : Target) (vs : List Timer)
    → t.target ≡ some g
    → expire_io b g ≡ some d
    → timer_del d.timers t.at ≡ some vs
    → expire b none t ≡ some (record d { timers = vs }, none)
unfolding expire del_timer
expire-runs b d t g vs target run deleted = rw (expire, target, run) (rw (del_timer, deleted) refl)

module _ (ms k : ℕ) (b : BanoBase) (n : Node) (c : Cell) (io : Io) (h : IsSafeFor ms (k + 4) b)
    (at_n : node_at b.nodes n.at ≡ some n) (in_n : find_cell n.pending_ios c.at ≡ some c)
    (live : b.ios c.io ≡ some io) (mine : io.node ≡ n.at)
    (time : has_bit io_reply io.flags ≡ true → io.retry_ms ≡ ms)
    (old : c.io + 1 ≤ b.mem.fresh) where
  -- What `expire_io` leaves, with the timers that `timer_del` leaves after it
  record TimedOut : Type 0 where
    base : BanoBase
    left : List Timer
    runs : expire_io b (record { node = n.at; cell = some c.at }) ≡ some base
    timers : base.timers ≡ b.timers
    deleted : timer_del b.timers io.timer ≡ some left
    ready : IsSafeFor ms k (record base { timers = left })

  over-TimedOut : io.retry_count ≡ 0 → TimedOut
  over-TimedOut last =
      let (vs, deleted, safe, free) =
        pending_freed ms b.mem.fresh b.nodes b.timers b.ios n h.0 at_n c io live in_n in
      let less = record n { pending_ios = del_cell n.pending_ios c.at } in
      let total = posted_total-put_node b.nodes less n at_n in
      record {
        base = record b {
          nodes = put_node b.nodes less;
          ios = put_io b.ios c.io none;
          events = called_with 2 io b.events;
        };
        left = vs;
        runs = expire_io-over b n c io at_n in_n live last;
        timers = refl;
        deleted = deleted;
        ready = (
          safe none,
          omega (arith, h.1, total),
          put_node-Notifies b.sms_ready b.nodes less n h.2 at_n refl,
        );
      }

  again-TimedOut : (r : ℕ) → io.retry_count ≡ r + 1 → TimedOut
  again-TimedOut r more =
      let (vs, deleted, safe, free) =
        pending_freed ms b.mem.fresh b.nodes b.timers b.ios n h.0 at_n c io live in_n in
      let less = record n { pending_ios = del_cell n.pending_ios c.at } in
      let jo = record io { retry_count = r } in
      let moved = reposted n c b.mem.fresh in
      let after =
        posted_added ms b.mem.fresh (put_node b.nodes less) vs (put_io b.ios c.io (some jo)) less
          (safe (some jo)) (node_at-put_node b.nodes less n at_n) b.mem.fresh c.io (b.mem.fresh + 1)
          jo (omega arith) (omega arith) (omega (arith, old)) free mine time in
      let total = posted_total-put_node b.nodes moved n at_n in
      let one_more = length-append n.posted_ios (record { at = b.mem.fresh; io = c.io } ∷ []) in
      record {
        base = record b {
          mem = granted b.mem;
          nodes = put_node b.nodes moved;
          ios = put_io b.ios c.io (some jo);
        };
        left = vs;
        runs = expire_io-again b n c io at_n in_n live r more mine (omega (arith, h.1));
        timers = refl;
        deleted = deleted;
        ready = (
          rw (put_node-twice b.nodes less moved refl, put_io-twice b.ios c.io (some jo) (some jo))
              at after,
          omega (arith, h.1, total, one_more),
          put_node-Notifies b.sms_ready b.nodes moved n h.2 at_n refl,
        );
      }

  timed_out : TimedOut
  timed_out = elim (Bool-cases (io.retry_count == 0)) [
    | inl last ↦ over-TimedOut (ground (arith, last))
    | inr more ↦ again-TimedOut (io.retry_count - 1) (ground (arith, more))
  ]

  out-IsSafeFor :
      (t : Timer)
      → TimedOut
      → t.target ≡ some (record { node = n.at; cell = some c.at })
      → io.timer ≡ t.at
      → (d : BanoBase) × (expire b none t ≡ some (d, none)) × IsSafeFor ms k d
  out-IsSafeFor t out target has_it =
      let deleted : timer_del out.base.timers t.at ≡ some out.left =
        ap (λ us. timer_del us t.at) out.timers
        ∙ ap (timer_del b.timers) (sym has_it)
        ∙ out.deleted in
      (
        record out.base { timers = out.left },
        expire-runs b out.base t _ out.left target out.runs deleted,
        out.ready,
      )

led-IsSafeFor :
    (ms k : ℕ) (b : BanoBase) (t : Timer) (n : Node)
    → IsSafeFor ms (k + 4) b
    → (l : Leads b.nodes b.ios b.mem.fresh t.at t.target) → node_at b.nodes l.q ≡ some n
    → find_cell n.pending_ios l.a ≡ some l.c
    → (d : BanoBase) × (expire b none t ≡ some (d, none)) × IsSafeFor ms k d
led-IsSafeFor ms k b t n h l at_q in_n =
    let x : Place = record { waits = true; node = l.q; cell = l.a } in
    let is_q = node_at-at b.nodes l.q n at_q in
    let is_a = find_cell-at n.pending_ios l.a l.c in_n in
    held (h.0.are_held.held x l.c l.there) is_q is_a
  where
    held :
        IsHeld ms b.timers b.ios b.mem.fresh (record { waits = true; node = l.q; cell = l.a }) l.c
        → n.at ≡ l.q
        → l.c.at ≡ l.a
        → (d : BanoBase) × (expire b none t ≡ some (d, none)) × IsSafeFor ms k d
    held p is_q is_a =
        let is_io : p.io ≡ l.io = cc (p.live, l.live) in
        let at_n = node_at-node_at b.nodes l.q n at_q in
        let in_c = ap (find_cell n.pending_ios) is_a ∙ in_n in
        let mine : l.io.node ≡ n.at = cc (is_io, p.mine, is_q) in
        let time = rw is_io at p.time in
        let old : l.c.io + 1 ≤ b.mem.fresh = omega (arith, p.old_io) in
        let target : t.target ≡ some (record { node = n.at; cell = some l.c.at }) =
          cc (l.is_g, is_q, is_a) in
        out-IsSafeFor ms k b n l.c l.io h at_n in_c l.live mine time old t
          (timed_out ms k b n l.c l.io h at_n in_c l.live mine time old) target l.has_it

-- The first timer of the base runs out.
pub expire-IsSafeFor :
    (ms k : ℕ) (b : BanoBase) (t : Timer) (ts : List Timer)
    → IsSafeFor ms (k + 4) b
    → b.timers ≡ t ∷ ts
    → (d : BanoBase) × (expire b none t ≡ some (d, none)) × IsSafeFor ms k d
expire-IsSafeFor ms k b t ts h is_ts =
    let first : target_at b.timers t.at ≡ some t.target = rw (is_ts, ==_refl t.at) refl in
    led (h.0.are_held.leads t.at t.target first)
  where
    led :
        Leads b.nodes b.ios b.mem.fresh t.at t.target
        → (d : BanoBase) × (expire b none t ≡ some (d, none)) × IsSafeFor ms k d
    led l = elim (Option-cases (node_at b.nodes l.q)) [
      | inl gone ↦ cc (rw (cell_at, gone) at l.there)
      | inr (n, at_q) ↦ led-IsSafeFor ms k b t n h l at_q (rw (cell_at, at_q) at l.there)
    ]
