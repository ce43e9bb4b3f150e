-- ===== src/Network/Safe/Answered.antt =====
-- What an answer from a node leaves in src/base/bano_base.c, on a base whose requests are in order.
use bano.Base.{
  ℕ, ◌≡◌, refl, ap, sym, ◌∙◌, true, Option, none, some, List, [], ◌∷◌, ◌==◌, ==_refl, arith,
  Bool-cases, inl, inr,
}
use bano.Items.{Ptr}
use bano.Message.{Msg}
use bano.Network.{Cell, Node, Io, BanoBase, put_io, put_node, node_at}
use bano.Network.Send.{del_cell}
use bano.Network.Expire.{find_cell}
use bano.Network.Receive.{cmp_pending_io, find_pending, find_pending_io, answer}
use bano.Network.Lookup.{node_at-node_at}
use bano.Network.Answers.{completion, complete_pending-runs}
use bano.Network.Safe.{Place, cell_at, CellsApart, IsSafeFor}
use bano.Network.Safe.Kept.{put_node-Notifies, posted_total-put_node}
use bano.Network.Safe.Places.{pending_freed}
use bano.Network.Safe.Messages.{put_kept-IsSafeFor}

-- What `find_pending_io` gives for the list `cs`: nothing, or an item of it with its request.
data Found (ios : Ptr → Option Io) (cs : List Cell)
    : Option (List Cell × Option (Ptr × Io)) → Type 0 where
  nothing : Found ios cs (some (cs, none))
  found :
      (c : Cell) (io : Io)
      → find_cell cs c.at ≡ some c
      → ios c.io ≡ some io
      → Found ios cs (some (del_cell cs c.at, some (c.io, io)))

find_pending-Found :
    (ios : Ptr → Option Io) (n : Node) (m : Msg) (cs : List Cell)
    → CellsApart cs
    → ((p : Ptr) (c : Cell) → find_cell cs p ≡ some c → (io : Io) × (ios c.io ≡ some io))
    → Found ios cs (find_pending ios n m cs)
unfolding find_pending find_cell del_cell
find_pending-Found ios n m [] a live = nothing
find_pending-Found ios n m (c ∷ cs) a live =
    let (io, there) = live c.at c (rw (==_refl c.at) refl) in
    elim (Bool-cases (cmp_pending_io n m io)) [
      | inl this ↦
          let f : Found ios (c ∷ cs) (some (del_cell (c ∷ cs) c.at, some (c.io, io))) =
            found c io (rw (==_refl c.at) refl) there in
          rw (find_pending, there, this) (rw (==_refl c.at) at f)
      | inr other ↦
          rw (find_pending, there, other)
            (behind (
              find_pending-Found ios n m cs a.1 (λ p d e. elim (Bool-cases (c.at == p)) [
                | inl same ↦
                    let is_p : c.at ≡ p = ground (arith, same) in
                    let gone : find_cell cs p ≡ none = ap (find_cell cs) (sym is_p) ∙ a.0 in
                    cc (gone, e)
                | inr ne ↦ live p d (rw ne e)
              ])))
    ]
  where
    behind :
        {o : Option (List Cell × Option (Ptr × Io))}
        → Found ios cs o
        → Found ios
            (c ∷ cs)
            (elim o [ none ↦ none | some (left, found_io) ↦ some (c ∷ left, found_io) ])
    behind nothing = nothing
    behind (found d io in_cs at_d) = elim (Bool-cases (c.at == d.at)) [
      | inl same ↦
          let is_d : c.at ≡ d.at = ground (arith, same) in
          let gone : find_cell cs d.at ≡ none = ap (find_cell cs) (sym is_d) ∙ a.0 in
          cc (gone, in_cs)
      | inr ne ↦
          let f : Found ios (c ∷ cs) (some (del_cell (c ∷ cs) d.at, some (d.io, io))) =
            found d io (rw ne in_cs) at_d in
          rw ne at f
    ]

module _ (ms k : ℕ) where
  pub answer-IsSafeFor :
      (b : BanoBase) (m : Msg) (q : Ptr) (n : Node)
      → IsSafeFor ms k b
      → node_at b.nodes q ≡ some n
      → (d : BanoBase) × (answer b m n ≡ some d) × IsSafeFor ms k d
  unfolding answer find_pending_io
  answer-IsSafeFor b m q n h at_q =
      let at_n = node_at-node_at b.nodes q n at_q in
      let is_node = h.0.are_nodes.each n.at n at_n in
      split (find_pending b.ios n m n.pending_ios) refl (
        find_pending-Found b.ios n m n.pending_ios is_node.pending_apart (λ p c e.
          let x : Place = record { waits = true; node = n.at; cell = p } in
          let here = h.0.are_held.held x c (rw (cell_at, at_n) e) in (here.io, here.live)))
    where
      split :
          (o : Option (List Cell × Option (Ptr × Io)))
          → find_pending b.ios n m n.pending_ios ≡ o
          → Found b.ios n.pending_ios o
          → (d : BanoBase) × (answer b m n ≡ some d) × IsSafeFor ms k d
      split o run nothing =
          let at_n = node_at-node_at b.nodes q n at_q in
          let c = record b { nodes = put_node b.nodes n } in
          (
            c,
            rw (answer, run) refl,
            put_kept-IsSafeFor ms k k b c n n h at_n refl refl refl refl
                (h.0.are_nodes.each n.at n at_n).pairs refl refl refl refl (omega arith),
          )
      split o run (found c io in_n live) =
          let at_n = node_at-node_at b.nodes q n at_q in
          let less = record n { pending_ios = del_cell n.pending_ios c.at } in
          let (vs, deleted, safe, free) =
            pending_freed ms b.mem.fresh b.nodes b.timers b.ios n h.0 at_n c io live in_n in
          let e = record b { nodes = put_node b.nodes less } in
          let total = posted_total-put_node b.nodes less n at_n in
          (
            record e {
              timers = vs;
              ios = put_io b.ios c.io none;
              events = completion m io b.events;
            },
            rw (answer, run) (complete_pending-runs e m c.io io vs deleted),
            (
              safe none,
              omega (arith, h.1, total),
              put_node-Notifies b.sms_ready b.nodes less n h.2 at_n refl,
            ),
          )
