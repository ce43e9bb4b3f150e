-- ===== src/Network/Safe/Places.antt =====
-- The lists, the timers and the requests of src/base/bano_base.c together: a request that leaves the
-- list of a node, or comes to one.
use bano.Base.{
  ℕ, ◌≤◌, ◌<◌, ◌≡◌, refl, ap, sym, ◌∙◌, Bool, true, false, Option, none, some, List, [], ◌∷◌, ◌++◌,
  ◌==◌, ==_iff, has_bit, arith, Bool-cases, Option-cases, inl, inr,
}
use bano.Items.{Ptr}
use bano.Timers.{Timer, timer_del}
use bano.Network.{Cell, Node, Io, io_reply, put_io, put_node, node_at}
use bano.Network.Send.{del_cell}
use bano.Network.Expire.{find_cell}
use bano.Network.Lookup.{put_io-same}
use bano.Network.Safe.{
  Place, cell_at, target_at, IsNode, AreNodes, AreTimers, Leads, AreHeld, AreSafe,
}
use bano.Network.Safe.Clock.{delete_at-Deleted, Appended}
use bano.Network.Safe.Cells.{del_cell-Removed, append-Added}
use bano.Network.Safe.Items.{del_cell-CellsApart, append-CellsApart}
use bano.Network.Safe.Moves.{Unheld, Removed-Unheld, posted_removed, pending_removed, added-AreHeld}
use bano.Network.Safe.Nodes.{put_node-AreNodes, AreNodes-le}
use bano.Network.Safe.Kept.{AreHeld-kept}

module _ (ms f : ℕ) (ns : List Node) (ts : List Timer) (ios : Ptr → Option Io) (n : Node)
    (s : AreSafe ms ns ts ios f) (at_n : node_at ns n.at ≡ some n) where
  is_node : IsNode f n
  is_node = s.are_nodes.each n.at n at_n

  module _ (c : Cell) (io : Io) (live : ios c.io ≡ some io) where
    -- A pending request leaves, and its timer with it.
    pub pending_freed :
        find_cell n.pending_ios c.at ≡ some c
        → let us = put_node ns (record n { pending_ios = del_cell n.pending_ios c.at }) in
          (vs : List Timer) × (timer_del ts io.timer ≡ some vs)
          × ((o : Option Io) → AreSafe ms us vs (put_io ios c.io o) f)
          × Unheld us c.io
    unfolding timer_del
    pending_freed in_n =
        let x : Place = record { waits = true; node = n.at; cell = c.at } in
        let in_x : cell_at ns x ≡ some c = rw (cell_at, at_n) in_n in
        let h = s.are_held in
        let k = h.held x c in_x in
        let is_io : k.io ≡ io = cc (k.live, live) in
        let (vs, run, d) =
          delete_at-Deleted true 0 ts io.timer (some (record { node = n.at; cell = some c.at }))
            s.are_timers.linked s.are_timers.apart (rw is_io at (k.timed refl)) in
        let r = del_cell-Removed ns n true at_n is_node.pending_apart c.at in
        let us = put_node ns (record n { pending_ios = del_cell n.pending_ios c.at }) in
        let nodes : AreNodes f us =
          put_node-AreNodes f ns (record n { pending_ios = del_cell n.pending_ios c.at }) n
            s.are_nodes at_n
            (record {
              old = is_node.old;
              pairs = is_node.pairs;
              posted_apart = is_node.posted_apart;
              pending_apart = del_cell-CellsApart n.pending_ios c.at is_node.pending_apart;
            }) in
        let timers : AreTimers ms vs = record {
          linked = d.linked;
          apart = d.apart;
          soon = omega (arith, d.soon, s.are_timers.soon);
          fits = s.are_timers.fits;
        } in
        (
          vs,
          run,
          λ o. record {
            are_nodes = nodes;
            are_timers = timers;
            are_held = pending_removed ms f ns us ts ios x c h in_x r o io live refl 0 vs d;
          },
          Removed-Unheld ms f ns us ts ios x c h in_x r,
        )

    -- A posted request leaves.
    pub posted_freed :
        find_cell n.posted_ios c.at ≡ some c
        → let us = put_node ns (record n { posted_ios = del_cell n.posted_ios c.at }) in
          ((o : Option Io) → AreSafe ms us ts (put_io ios c.io o) f) × Unheld us c.io
    posted_freed in_n =
        let x : Place = record { waits = false; node = n.at; cell = c.at } in
        let in_x : cell_at ns x ≡ some c = rw (cell_at, at_n) in_n in
        let h = s.are_held in
        let r = del_cell-Removed ns n false at_n is_node.posted_apart c.at in
        let us = put_node ns (record n { posted_ios = del_cell n.posted_ios c.at }) in
        let nodes : AreNodes f us =
          put_node-AreNodes f ns (record n { posted_ios = del_cell n.posted_ios c.at }) n
            s.are_nodes at_n
            (record {
              old = is_node.old;
              pairs = is_node.pairs;
              posted_apart = del_cell-CellsApart n.posted_ios c.at is_node.posted_apart;
              pending_apart = is_node.pending_apart;
            }) in
        (
          λ o. record {
            are_nodes = nodes;
            are_timers = s.are_timers;
            are_held = posted_removed ms f ns us ts ios x c h in_x r o refl;
          },
          Removed-Unheld ms f ns us ts ios x c h in_x r,
        )

  -- A new address is that of no item, and of no timer.
  no_cell :
      (w : Bool) (a : Ptr) → f ≤ a → cell_at ns (record { waits = w; node = n.at; cell = a }) ≡ none
  no_cell w a new =
      let x : Place = record { waits = w; node = n.at; cell = a } in
      elim (Option-cases (cell_at ns x)) [
        | inl e ↦ e
        | inr (c, e) ↦ absurd (omega (arith, (s.are_held.held x c e).old_cell))
      ]

  pub no_timer : (t : Ptr) → f ≤ t → target_at ts t ≡ none
  no_timer t new = elim (Option-cases (target_at ts t)) [
    | inl e ↦ e
    | inr (g, e) ↦ absurd (omega (arith, (s.are_held.leads t g e).old))
  ]

  module _ (a p g : ℕ) (io : Io) (new : f ≤ a) (a_lt : a < g) (p_lt : p < g) (free : Unheld ns p)
      (mine : io.node ≡ n.at) (time : has_bit io_reply io.flags ≡ true → io.retry_ms ≡ ms) where
    later : AreHeld ms ns ts ios g
    later = AreHeld-kept ms f g ns ns ts ios s.are_held (omega arith) (λ x. refl)

    -- A request is posted.
    pub posted_added :
        AreSafe ms
          (put_node ns (record n { posted_ios = n.posted_ios ++ record { at = a; io = p } ∷ [] }))
          ts
          (put_io ios p (some io))
          g
    posted_added =
        let c : Cell = record { at = a; io = p } in
        let x : Place = record { waits = false; node = n.at; cell = a } in
        let out : find_cell n.posted_ios a ≡ none = rw (cell_at, at_n) at (no_cell false a new) in
        let k = record n { posted_ios = n.posted_ios ++ c ∷ [] } in
        let r = append-Added ns n false at_n is_node.posted_apart c out in
        record {
          are_nodes =
              put_node-AreNodes g ns k n (AreNodes-le f g ns (omega arith) s.are_nodes) at_n
                (record {
                  old = omega (arith, is_node.old);
                  pairs = is_node.pairs;
                  posted_apart = append-CellsApart n.posted_ios c is_node.posted_apart out;
                  pending_apart = is_node.pending_apart;
                });
          are_timers = s.are_timers;
          are_held =
              added-AreHeld ms g ns (put_node ns k) ts ts ios x c io later r free mine time a_lt
                p_lt (λ t i e. e) (λ w. cc w) (λ t i e. inr e);
        }

    -- A request is pending, with a timer that is new.
    pub pending_added :
        (t : Ptr) (vs : List Timer)
        → f ≤ t
        → t < g
        → io.timer ≡ t
        → Appended 0 ms ts vs t (some (record { node = n.at; cell = some a }))
        → AreSafe ms
            (put_node ns
              (record n { pending_ios = n.pending_ios ++ record { at = a; io = p } ∷ [] }))
            vs
            (put_io ios p (some io))
            g
    pending_added t vs new_t t_lt its d =
        let c : Cell = record { at = a; io = p } in
        let x : Place = record { waits = true; node = n.at; cell = a } in
        let out : find_cell n.pending_ios a ≡ none = rw (cell_at, at_n) at (no_cell true a new) in
        let k = record n { pending_ios = n.pending_ios ++ c ∷ [] } in
        let us = put_node ns k in
        let r = append-Added ns n true at_n is_node.pending_apart c out in
        let none_t = no_timer t new_t in
        let leads : Leads us (put_io ios p (some io)) g t
            (some (record { node = n.at; cell = some a })) =
          record {
            q = n.at;
            a = a;
            c = c;
            io = io;
            there = r.there;
            is_g = refl;
            live = put_io-same ios p (some io);
            has_it = its;
            old = t_lt;
          } in
        record {
          are_nodes =
              put_node-AreNodes g ns k n (AreNodes-le f g ns (omega arith) s.are_nodes) at_n
                (record {
                  old = omega (arith, is_node.old);
                  pairs = is_node.pairs;
                  posted_apart = is_node.posted_apart;
                  pending_apart = append-CellsApart n.pending_ios c is_node.pending_apart out;
                });
          are_timers = record {
            linked = d.linked;
            apart = d.apart;
            soon = omega (arith, d.soon);
            fits = s.are_timers.fits;
          };
          are_held =
              added-AreHeld ms g ns us ts vs ios x c io later r free mine time a_lt p_lt
                (λ q i e. elim (Bool-cases (q == t)) [
                  | inl same ↦
                      let is_t = ap (target_at ts) ((==_iff q t).0 same) in cc (is_t, none_t, e)
                  | inr other ↦ d.same q other ∙ e
                ])
                (λ w. rw its d.new)
                (λ q i e. elim (Bool-cases (q == t)) [
                  | inl same ↦
                      let is_t : q ≡ t = (==_iff q t).0 same in
                      let is_i : i ≡ some (record { node = n.at; cell = some a }) =
                        cc (ap (target_at vs) is_t, d.new, e) in
                      inl (rw (is_t, is_i) leads)
                  | inr other ↦ inr (sym (d.same q other) ∙ e)
                ]);
        }
