-- ===== src/Network/Answers.antt =====
-- Which pending request an answer completes.
use bano.Base.{
  ℕ, Bytes, ◌≡◌, refl, true, false, Option, none, some, List, [], ◌∷◌, ◌++◌, has_bit, if◌then◌else◌,
  arith,
}
use bano.Items.{Ptr}
use bano.Message.{Msg, flag_err, bytes_msg, unseal}
use bano.Config.Station.{flag_new_nodes}
use bano.Timers.{Timer, relink, timer_del}
use bano.Timers.Dues.{AreLinked, has_at, delete_at-runs}
use bano.Network.{
  Cell, Node, Io, Event, completed, err_failure, BanoBase, put_io, put_node, LoopInfo,
  find_node_by_addr,
}
use bano.Network.Receive.{
  cmp_pending_io, find_pending, find_pending_io, complete_pending, answer, handle_bano_msg,
}

-- The requests are there, and the message answers none of them.
abbrev pub Unanswered : (Ptr → Option Io) → Node → Msg → List Cell → Type 0
Unanswered ios n m [] = Unit {0}
Unanswered ios n m (c ∷ cs) =
    ((io : Io) × (ios c.io ≡ some io) × (cmp_pending_io n m io ≡ false)) × Unanswered ios n m cs

-- The call of the function of a request, with its error and its value.
abbrev pub completion : Msg → Io → List Event → List Event
completion m io es = elim io.compl_fn [
  | none ↦ es
  | some data_of ↦
      if has_bit flag_err m.flags
      then completed data_of err_failure io.compl_val ∷ es
      else completed data_of 0 m.val ∷ es
]

find_pending-none :
    (ios : Ptr → Option Io) (n : Node) (m : Msg) (cs : List Cell)
    → Unanswered ios n m cs
    → find_pending ios n m cs ≡ some (cs, none)
unfolding find_pending
find_pending-none ios n m [] u = refl
find_pending-none ios n m (c ∷ cs) ((io, live, ne), u) =
    rw (find_pending, live, ne, find_pending-none ios n m cs u) refl

find_pending-first :
    (ios : Ptr → Option Io) (n : Node) (m : Msg) (c : Cell) (io : Io) (cs ds : List Cell)
    → Unanswered ios n m cs
    → ios c.io ≡ some io
    → cmp_pending_io n m io ≡ true
    → find_pending ios n m (cs ++ c ∷ ds) ≡ some (cs ++ ds, some (c.io, io))
unfolding find_pending
find_pending-first ios n m c io [] ds u live eq = rw (live, eq) refl
find_pending-first ios n m c io (d ∷ cs) ds ((jo, there, ne), u) live eq =
    rw (there, ne, find_pending-first ios n m c io cs ds u live eq) refl

pub complete_pending-runs :
    (b : BanoBase) (m : Msg) (p : Ptr) (io : Io) (ts : List Timer)
    → timer_del b.timers io.timer ≡ some ts
    → complete_pending b m (p, io)
      ≡ some
          (record b { timers = ts; ios = put_io b.ios p none; events = completion m io b.events })
unfolding complete_pending
complete_pending-runs b m p io ts e = ground (arith, e)

pub complete_pending-lost :
    (b : BanoBase) (m : Msg) (p : Ptr) (io : Io)
    → timer_del b.timers io.timer ≡ none
    → complete_pending b m (p, io) ≡ none
unfolding complete_pending
complete_pending-lost b m p io e = ground (arith, e)

-- A message of which the first pending request of a node that it answers is in the item `c`, whose
-- timer is in the list of the base, all links set, completes that request and no other: the item,
-- the timer and the memory of the request are gone, the function of the request is called once,
-- with the value or with a failure, and nothing else changes but the time of the timers behind.
pub answer-completes :
    (b : BanoBase) (m : Msg) (n : Node) (c : Cell) (io : Io) (cs ds : List Cell) (t : Timer)
    (xs ys : List Timer)
    → n.pending_ios ≡ cs ++ c ∷ ds
    → Unanswered b.ios n m cs
    → b.ios c.io ≡ some io
    → cmp_pending_io n m io ≡ true
    → b.timers ≡ xs ++ t ∷ ys
    → AreLinked (xs ++ t ∷ ys)
    → has_at t.at xs ≡ false
    → io.timer ≡ t.at
    → answer b m n
      ≡ some (record b {
        nodes = put_node b.nodes (record n { pending_ios = cs ++ ds });
        timers = xs ++ relink ys;
        ios = put_io b.ios c.io none;
        events = completion m io b.events;
      })
unfolding answer find_pending_io timer_del
answer-completes b m n c io cs ds t xs ys is_n u live eq is_ts l out is_t =
    let found = rw (← is_n) at (find_pending-first b.ios n m c io cs ds u live eq) in
    let k = record n { pending_ios = cs ++ ds } in
    let e = record b { nodes = put_node b.nodes k } in
    let deleted : timer_del e.timers io.timer ≡ some (xs ++ relink ys) =
      rw (is_ts, is_t) (delete_at-runs true xs ys t l out) in
    let done = complete_pending-runs e m c.io io (xs ++ relink ys) deleted in
    let step : find_pending_io b n m ≡ some (k, some (c.io, io)) =
      rw (find_pending_io, found) refl in
    rw (answer, step) done

-- An answer that no pending request waits for changes nothing in the base but the node in its list,
-- which stays the same.
pub answer-none :
    (b : BanoBase) (m : Msg) (n : Node)
    → Unanswered b.ios n m n.pending_ios
    → answer b m n ≡ some (record b { nodes = put_node b.nodes n })
unfolding answer find_pending_io
answer-none b m n u = rw (answer, find_pending_io, find_pending-none b.ios n m n.pending_ios u) refl

-- A message from an address of which there is no node changes nothing, if new nodes are not asked
-- for.
pub handle_bano_msg-unknown :
    (info : LoopInfo) (b : BanoBase) (now : ℕ) (socket : Ptr) (bytes : Bytes)
    → has_bit flag_new_nodes b.flags ≡ false
    → find_node_by_addr b.nodes (bytes_msg (unseal b.cipher bytes)).saddr ≡ none
    → handle_bano_msg info b now socket bytes ≡ some b
unfolding handle_bano_msg
handle_bano_msg-unknown info b now socket bytes off e = rw (handle_bano_msg, e, off) refl
