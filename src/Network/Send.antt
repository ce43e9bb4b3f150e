-- ===== src/Network/Send.antt =====
-- The parts of the loop of src/base/bano_base.c that write posted requests, and that act on a timer
-- that has run out. `bano_socket_write` is a parameter, from the socket, the address and the bytes
-- to whether it returns 0. Where it does not, `bano_socket_free` frees all nodes of the base, which
-- stay in its list, and the outcome is `none`.
use bano.Base.{
  ℕ, Bool, true, false, not, Option, none, some, List, [], ◌∷◌, ◌++◌, ◌==◌, if◌then◌else◌, Bytes,
  has_bit,
}
use bano.Items.{Ptr}
use bano.Message.{msg_bytes, seal}
use bano.Config.Pairs.{node_cipher}
use bano.Timers.{malloc, Target, timer_add, set_target}
use bano.Network.{
  Cell, Node, Io, io_reply, completed, sent, BanoBase, add_event, put_io, put_node, node_at,
}

-- `bano_list_del` of an item
unfoldable pub del_cell : List Cell → Ptr → List Cell
del_cell [] p = []
del_cell (c ∷ cs) p = let rest = del_cell cs p in if c.at == p then cs else c ∷ rest

-- The item of the tail of a list, or `none` for NULL
unfoldable pub tail_cell : List Cell → Option Ptr
tail_cell [] = none
tail_cell (c ∷ cs) = elim (tail_cell cs) [ none ↦ some c.at | some p ↦ some p ]

-- `bano_list_add_tail`, whose result the caller does not look at
unfoldable pub add_pending : BanoBase → Node → Ptr → BanoBase × Node
add_pending b n p = elim (malloc b.mem) [
  | none ↦ (b, n)
  | some (c, m) ↦
      let k = record n { pending_ios = n.pending_ios ++ record { at = c; io = p } ∷ [] } in
      (record b { mem = m; nodes = put_node b.nodes k }, k)
]

-- The branch of `post_io` for a request that waits for a reply: `true` with the base where it goes
-- on to the end.
unfoldable pub wait_reply : BanoBase → Node → Ptr → Io → Option (BanoBase × Bool)
wait_reply b n p io =
    let (c, k) = add_pending b n p in
    elim (timer_add c.mem c.timers io.retry_ms) [
      | none ↦ none
      | some (m, ts, none) ↦ some (record c { mem = m; timers = ts }, false)
      | some (m, ts, some t) ↦
          let target : Target = record { node = n.at; cell = tail_cell k.pending_ios } in
          some (
            record c {
              mem = m;
              timers = set_target ts t target;
              ios = put_io c.ios p (some (record io { timer = t }));
            },
            true,
          )
    ]

-- A call of `compl_fn`, if there is one, and the request freed.
unfoldable pub complete : BanoBase → Ptr → Io → ℕ → BanoBase
complete b p io err =
    let told = elim io.compl_fn as (λ _. BanoBase) [
      | none ↦ b
      | some data_of ↦ add_event (completed data_of err io.compl_val) b
    ] in
    record told { ios = put_io told.ios p none }

-- The item of a posted request is taken from the list.
unfoldable pub del_posted : BanoBase → Ptr → Ptr → Option BanoBase
del_posted b q c = elim (node_at b.nodes q) [
  | none ↦ none
  | some n ↦
      some
        (record b { nodes = put_node b.nodes (record n { posted_ios = del_cell n.posted_ios c }) })
]

module _ (write : Ptr → ℕ → Bytes → Bool) where
  -- `post_io` for an item of the posted requests of the node at `q`
  unfoldable pub post_io : BanoBase → Ptr → Cell → Option BanoBase
  post_io b q c = elim (node_at b.nodes q) [
    | none ↦ none
    | some n ↦ elim (b.ios c.io) [
      | none ↦ none
      | some io ↦
          let plain = msg_bytes io.msg in
          let bytes = if has_bit node_cipher n.flags then seal b.cipher plain else plain in
          let s = add_event (sent n.socket n.addr bytes) b in
          let failed : Option BanoBase = none in
          let waits : Option BanoBase = elim (wait_reply s n c.io io) [
            | none ↦ none
            | some (d, false) ↦ some d
            | some (d, true) ↦ del_posted d q c.at
          ] in
          let completes = del_posted (complete s c.io io 0) q c.at in
          if not (write n.socket n.addr bytes)
          then failed
          else if has_bit io_reply io.flags
          then waits
          else completes
    ]
  ]

  -- `bano_list_foreach` with it
  unfoldable pub post_all : BanoBase → Ptr → List Cell → Option BanoBase
  post_all b q [] = some b
  post_all b q (c ∷ cs) = elim (post_io b q c) [ none ↦ none | some d ↦ post_all d q cs ]

  -- `write_msg` for a node, where `ready` says which sockets can be written
  unfoldable pub write_msg : (ready : Ptr → Bool) → BanoBase → Ptr → Option BanoBase
  write_msg ready b q = elim (node_at b.nodes q) [
    | none ↦ none
    | some n ↦
        let same : Option BanoBase = some b in
        let all = post_all b q n.posted_ios in if ready n.socket then all else same
  ]

  -- `bano_list_foreach` with it
  unfoldable pub write_all : (ready : Ptr → Bool) → BanoBase → List Node → Option BanoBase
  write_all ready b [] = some b
  write_all ready b (n ∷ ns) = elim (write_msg ready b n.at) [
    | none ↦ none
    | some d ↦ write_all ready d ns
  ]
