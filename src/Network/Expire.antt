-- ===== src/Network/Expire.antt =====
-- The part of `bano_start_loop` of src/base/bano_base.c that acts on a timer that has run out.
use bano.Base.{◌-◌, Bool, false, Option, none, some, List, [], ◌∷◌, ◌++◌, ◌==◌, if◌then◌else◌}
use bano.Items.{Ptr}
use bano.Timers.{malloc, Target, Timer, timer_del}
use bano.Network.{
  Cell, Io, err_timeout, timer_called, BanoBase, add_event, put_io, put_node, node_at,
}
use bano.Network.Send.{del_cell, complete}

-- The item at an address of a list.
unfoldable pub find_cell : List Cell → Ptr → Option Cell
find_cell [] p = none
find_cell (c ∷ cs) p = let rest = find_cell cs p in if c.at == p then some c else rest

-- What follows where a request gets no more tries, or no memory for the next one: `do_complete_io`
-- calls `compl_fn` in any case, the test of `retry_count` only where there is one.
unfoldable pub retry : BanoBase → Ptr → Io → Option BanoBase
retry b p io =
    let over : Option BanoBase = some (complete b p io err_timeout) in
    let again : Option BanoBase = elim (node_at b.nodes io.node) [
      | none ↦ none
      | some n ↦
          let less = record io { retry_count = io.retry_count - 1 } in
          elim (malloc b.mem) [
            | none ↦ elim io.compl_fn [ none ↦ none | some f ↦ over ]
            | some (c, m) ↦
                let posted = n.posted_ios ++ record { at = c; io = p } ∷ [] in
                some (record b {
                  mem = m;
                  nodes = put_node b.nodes (record n { posted_ios = posted });
                  ios = put_io b.ios p (some less);
                })
          ]
    ] in
    if io.retry_count == 0 then over else again

-- `bano_list_del` of the item from the pending requests of the node at `q`
unfoldable pub del_pending : BanoBase → Ptr → Ptr → Option BanoBase
del_pending b q c = elim (node_at b.nodes q) [
  | none ↦ none
  | some n ↦
      some (record b {
        nodes = put_node b.nodes (record n { pending_ios = del_cell n.pending_ios c });
      })
]

-- The branch for the timer of a pending request, up to the end of the timer.
unfoldable pub expire_io : BanoBase → Target → Option BanoBase
expire_io b target = elim target.cell [
  | none ↦ none
  | some c ↦ elim (node_at b.nodes target.node) [
    | none ↦ none
    | some n ↦ elim (find_cell n.pending_ios c) [
      | none ↦ none
      | some x ↦ elim (b.ios x.io) [
        | none ↦ none
        | some io ↦ elim (retry b x.io io) [ none ↦ none | some d ↦ del_pending d target.node c ]
      ]
    ]
  ]
]

-- `bano_timer_del` in the base
unfoldable pub del_timer : BanoBase → Ptr → Option BanoBase
del_timer b p = elim (timer_del b.timers p) [
  | none ↦ none
  | some ts ↦ some (record b { timers = ts })
]

-- The branch of the loop for a timer that has run out, with `loop_timer`, or `none` for NULL.
unfoldable pub expire : BanoBase → Option Ptr → Timer → Option (BanoBase × Option Ptr)
expire b loop_timer t =
    let is_loop_timer : Bool = elim loop_timer [ none ↦ false | some p ↦ p == t.at ] in
    let of_loop : Option (BanoBase × Option Ptr) =
      elim (del_timer (add_event timer_called b) t.at) [ none ↦ none | some d ↦ some (d, none) ] in
    let of_io : Option (BanoBase × Option Ptr) = elim t.target [
      | none ↦ none
      | some target ↦ elim (expire_io b target) [
        | none ↦ none
        | some d ↦ elim (del_timer d t.at) [ none ↦ none | some e ↦ some (e, loop_timer) ]
      ]
    ] in
    if is_loop_timer then of_loop else of_io
