-- ===== src/Network/Steps.antt =====
-- The steps of the loop on a request, as equations between the base before and after.
use bano.Base.{
  ℕ, ◌+◌, ◌-◌, ◌≤◌, ◌≡◌, refl, Bool, true, false, none, some, List, [], ◌∷◌, ◌++◌, ◌==◌, has_bit,
  if◌then◌else◌, Bytes, arith,
}
use bano.Items.{Ptr}
use bano.Message.{msg_bytes, seal}
use bano.Config.Pairs.{node_cipher}
use bano.Timers.{Mem, Timer, timer_add, set_target}
use bano.Timers.Dues.{granted, malloc-runs}
use bano.Network.{
  Cell, Node, Io, Event, completed, sent, io_reply, err_success, err_timeout, BanoBase, add_event,
  put_io, put_node, node_at,
}
use bano.Network.Lookup.{node_at-put_node}
use bano.Network.Send.{del_cell, tail_cell, add_pending, wait_reply, complete, del_posted, post_io}
use bano.Network.Expire.{find_cell, retry, del_pending, expire_io}

-- What is written for a request to a node.
abbrev pub wire : BanoBase → Node → Io → Bytes
wire b n io =
    if has_bit node_cipher n.flags then seal b.cipher (msg_bytes io.msg) else msg_bytes io.msg

abbrev pub sending : BanoBase → Node → Io → Event
sending b n io = sent n.socket n.addr (wire b n io)

-- The node with the request of the item `c` moved to the pending ones, in a new item at `p`.
abbrev pub waiting : Node → Cell → Ptr → Node
waiting n c p = record n {
  posted_ios = del_cell n.posted_ios c.at;
  pending_ios = n.pending_ios ++ record { at = p; io = c.io } ∷ [];
}

pub tail_cell-append : (cs : List Cell) (c : Cell) → tail_cell (cs ++ c ∷ []) ≡ some c.at
unfolding tail_cell
tail_cell-append [] c = refl
tail_cell-append (d ∷ cs) c = rw (tail_cell-append cs c) refl

pub put_node-twice :
    (ns : List Node) (n k : Node) → n.at ≡ k.at → put_node (put_node ns n) k ≡ put_node ns k
unfolding put_node
put_node-twice [] n k e = refl
put_node-twice (x ∷ xs) n k e = ground (arith, put_node-twice xs n k e)

add_pending-runs :
    (b : BanoBase) (n : Node) (p : Ptr)
    → 1 ≤ b.mem.left
    → let k = record n {
      pending_ios = n.pending_ios ++ record { at = b.mem.fresh; io = p } ∷ [];
    } in
      add_pending b n p ≡ (record b { mem = granted b.mem; nodes = put_node b.nodes k }, k)
unfolding add_pending
add_pending-runs b n p one = rw (add_pending, malloc-runs b.mem one) refl

wait_reply-runs :
    (b : BanoBase) (n : Node) (p : Ptr) (io : Io) (m : Mem) (ts : List Timer) (t : Ptr)
    → 1 ≤ b.mem.left
    → timer_add (granted b.mem) b.timers io.retry_ms ≡ some (m, ts, some t)
    → let k = record n {
      pending_ios = n.pending_ios ++ record { at = b.mem.fresh; io = p } ∷ [];
    } in
      wait_reply b n p io
      ≡ some (
        record b {
          mem = m;
          nodes = put_node b.nodes k;
          timers = set_target ts t (record { node = n.at; cell = some b.mem.fresh });
          ios = put_io b.ios p (some (record io { timer = t }));
        },
        true,
      )
unfolding wait_reply
wait_reply-runs b n p io m ts t one added =
    let moved = add_pending-runs b n p one in
    let last = tail_cell-append n.pending_ios (record { at = b.mem.fresh; io = p }) in
    rw (wait_reply, moved, added) (rw (moved, last) refl)

del_posted-runs :
    (b : BanoBase) (n : Node) (p : Ptr)
    → node_at b.nodes n.at ≡ some n
    → del_posted b n.at p
      ≡ some (record b {
        nodes = put_node b.nodes (record n { posted_ios = del_cell n.posted_ios p });
      })
unfolding del_posted
del_posted-runs b n p at_n = rw (del_posted, at_n) refl

-- The call of the function of a request, with an error.
abbrev pub called_with : ℕ → Io → List Event → List Event
called_with err io es = elim io.compl_fn [
  | none ↦ es
  | some data_of ↦ completed data_of err io.compl_val ∷ es
]

complete-runs :
    (b : BanoBase) (p : Ptr) (io : Io) (err : ℕ)
    → complete b p io err
      ≡ record b { ios = put_io b.ios p none; events = called_with err io b.events }
unfolding complete
complete-runs b p io err = ground arith

module _ (write : Ptr → ℕ → Bytes → Bool) (b : BanoBase) (n : Node) (c : Cell) (io : Io)
    (at_n : node_at b.nodes n.at ≡ some n) (live : b.ios c.io ≡ some io)
    (writes : write n.socket n.addr (wire b n io) ≡ true) where
  -- A request that waits for no reply
  pub post_io-completes :
      has_bit io_reply io.flags ≡ false
      → post_io write b n.at c
        ≡ some (record b {
          nodes = put_node b.nodes (record n { posted_ios = del_cell n.posted_ios c.at });
          ios = put_io b.ios c.io none;
          events = called_with err_success io (sending b n io ∷ b.events);
        })
  unfolding post_io
  post_io-completes plain =
      let a = add_event (sending b n io) b in
      let d = record a {
        ios = put_io b.ios c.io none;
        events = called_with err_success io (sending b n io ∷ b.events);
      } in
      rw (post_io, at_n, live, writes, plain, complete-runs a c.io io err_success)
        (del_posted-runs d n c.at at_n)

  -- A request that does, where `bano_timer_add` takes a step that is not defined
  pub post_io-faults :
      1 ≤ b.mem.left
      → has_bit io_reply io.flags ≡ true
      → timer_add (granted b.mem) b.timers io.retry_ms ≡ none
      → post_io write b n.at c ≡ none
  unfolding post_io wait_reply
  post_io-faults one reply faults =
      let a = add_event (sending b n io) b in
      let moved = add_pending-runs a n c.io one in
      let waits : wait_reply a n c.io io ≡ none = rw (wait_reply, moved, faults) refl in
      rw (post_io, at_n, live, writes, reply, waits) refl

  -- A request that does
  pub post_io-waits :
      (m : Mem) (ts : List Timer) (t : Ptr)
      → 1 ≤ b.mem.left
      → has_bit io_reply io.flags ≡ true
      → timer_add (granted b.mem) b.timers io.retry_ms ≡ some (m, ts, some t)
      → post_io write b n.at c
        ≡ some (record b {
          mem = m;
          nodes = put_node b.nodes (waiting n c b.mem.fresh);
          timers = set_target ts t (record { node = n.at; cell = some b.mem.fresh });
          ios = put_io b.ios c.io (some (record io { timer = t }));
          events = sending b n io ∷ b.events;
        })
  unfolding post_io
  post_io-waits m ts t one reply added =
      let a = add_event (sending b n io) b in
      let k = record n {
        pending_ios = n.pending_ios ++ record { at = b.mem.fresh; io = c.io } ∷ [];
      } in
      let ns = put_node b.nodes k in
      let d = record a {
        mem = m;
        nodes = ns;
        timers = set_target ts t (record { node = n.at; cell = some b.mem.fresh });
        ios = put_io b.ios c.io (some (record io { timer = t }));
      } in
      let done : del_posted d n.at c.at
          ≡ some (record d { nodes = put_node ns (waiting n c b.mem.fresh) }) =
        del_posted-runs d k c.at (node_at-put_node b.nodes k n at_n) in
      rw (post_io, at_n, live, writes, reply, wait_reply-runs a n c.io io m ts t one added)
        (rw (put_node-twice b.nodes k (waiting n c b.mem.fresh) refl) at done)

del_pending-runs :
    (b : BanoBase) (n : Node) (q p : Ptr)
    → node_at b.nodes q ≡ some n
    → del_pending b q p
      ≡ some (record b {
        nodes = put_node b.nodes (record n { pending_ios = del_cell n.pending_ios p });
      })
unfolding del_pending
del_pending-runs b n q p at_n = rw (del_pending, at_n) refl

-- The node with the request of the item `c` posted once more, in a new item at `p`.
abbrev pub posted_again : Node → Cell → Ptr → Node
posted_again n c p = record n { posted_ios = n.posted_ios ++ record { at = p; io = c.io } ∷ [] }

-- ... and no longer pending
abbrev pub reposted : Node → Cell → Ptr → Node
reposted n c p = record n {
  posted_ios = n.posted_ios ++ record { at = p; io = c.io } ∷ [];
  pending_ios = del_cell n.pending_ios c.at;
}

module _ (b : BanoBase) (n : Node) (c : Cell) (io : Io) (at_n : node_at b.nodes n.at ≡ some n)
    (in_n : find_cell n.pending_ios c.at ≡ some c) (live : b.ios c.io ≡ some io) where
  -- The last try
  pub expire_io-over :
      io.retry_count ≡ 0
      → expire_io b (record { node = n.at; cell = some c.at })
        ≡ some (record b {
          nodes = put_node b.nodes (record n { pending_ios = del_cell n.pending_ios c.at });
          ios = put_io b.ios c.io none;
          events = called_with err_timeout io b.events;
        })
  unfolding expire_io retry
  expire_io-over last =
      let d = complete b c.io io err_timeout in
      let zero_left : (io.retry_count == 0) ≡ true = ground (arith, last) in
      let over : retry b c.io io
          ≡ some (record b {
            ios = put_io b.ios c.io none;
            events = called_with err_timeout io b.events;
          }) =
        rw (retry, zero_left, complete-runs b c.io io err_timeout) refl in
      rw (expire_io, at_n, in_n, live, over) (del_pending-runs _ n n.at c.at at_n)

  -- One more try: the request goes to its node, `k`, which makes `m` of the node of the timer.
  pub expire_io-moved :
      (r : ℕ) (k m : Node)
      → io.retry_count ≡ r + 1
      → node_at b.nodes io.node ≡ some k
      → node_at (put_node b.nodes (posted_again k c b.mem.fresh)) n.at ≡ some m
      → 1 ≤ b.mem.left
      → expire_io b (record { node = n.at; cell = some c.at })
        ≡ some (record b {
          mem = granted b.mem;
          nodes =
              put_node
                (put_node b.nodes (posted_again k c b.mem.fresh))
                (record m { pending_ios = del_cell m.pending_ios c.at });
          ios = put_io b.ios c.io (some (record io { retry_count = r }));
        })
  unfolding expire_io retry
  expire_io-moved r k m more there at_m one =
      let d = record b {
        mem = granted b.mem;
        nodes = put_node b.nodes (posted_again k c b.mem.fresh);
        ios = put_io b.ios c.io (some (record io { retry_count = r }));
      } in
      let nz : (io.retry_count == 0) ≡ false = ground (arith, more) in
      let less : io.retry_count - 1 ≡ r = omega arith in
      let again : retry b c.io io ≡ some d =
        rw (retry, nz, there, malloc-runs b.mem one, less) refl in
      rw (expire_io, at_n, in_n, live, again) (del_pending-runs d m n.at c.at at_m)

  -- ... where that is the same node
  pub expire_io-again :
      (r : ℕ)
      → io.retry_count ≡ r + 1
      → io.node ≡ n.at
      → 1 ≤ b.mem.left
      → expire_io b (record { node = n.at; cell = some c.at })
        ≡ some (record b {
          mem = granted b.mem;
          nodes = put_node b.nodes (reposted n c b.mem.fresh);
          ios = put_io b.ios c.io (some (record io { retry_count = r }));
        })
  expire_io-again r more mine one =
      let k = posted_again n c b.mem.fresh in
      rw (put_node-twice b.nodes k (reposted n c b.mem.fresh) refl) at
        (expire_io-moved r n k more (rw mine at_n) (node_at-put_node b.nodes k n at_n) one)
