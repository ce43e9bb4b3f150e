-- ===== src/Network/Balance/Steps.antt =====
-- Each step of src/base/bano_base.c on the requests, counted.
use bano.Base.{
  ℕ, ◌+◌, ◌-◌, ◌≤◌, ◌≡◌, ◌≢◌, refl, sym, ◌∙◌, Bool, none, some, List, [], ◌∷◌, ◌==◌, ==_iff,
  has_bit, Bytes, arith, length-append, Bool-cases, Option-cases, inl, inr,
}
use bano.Items.{Ptr}
use bano.Timers.{Mem, Timer, timer_add}
use bano.Timers.Dues.{granted, malloc-runs}
use bano.Network.{
  Cell, Node, Io, io_reply, err_success, err_timeout, BanoBase, put_io, put_node, node_at,
}
use bano.Network.Send.{del_cell, post_io}
use bano.Network.Expire.{retry, find_cell, expire_io}
use bano.Network.Lookup.{node_at-node_at, node_at-at, node_at-put_other}
use bano.Network.Steps.{
  posted_again, expire_io-moved, wire, sending, waiting, post_io-completes, post_io-waits,
  called_with, post_io-faults, reposted, expire_io-over, expire_io-again,
}
use bano.Network.Balance.{
  length-del_cell, outstanding-put_node, AllHaveFn, put_io-AllHaveFn, put_io-none-AllHaveFn,
  IsBalanced, of_result,
}

-- `bano_timer_add` with memory for two requests does not fail.
timer_add-granted :
    (m k : Mem) (ts us : List Timer) (ms : ℕ) → 2 ≤ m.left → timer_add m ts ms ≢ some (k, us, none)
unfolding timer_add
timer_add-granted m k ts us ms two e = elim (Option-cases (timer_add m ts ms)) [
  | inl n ↦ cc (n, e)
  | inr (r, n) ↦ ground (arith, malloc-runs m, malloc-runs (granted m), e)
]

module _ (write : Ptr → ℕ → Bytes → Bool) (b d : BanoBase) (n : Node) (c : Cell)
    (at_n : node_at b.nodes n.at ≡ some n) (in_n : find_cell n.posted_ios c.at ≡ some c)
    (three : 3 ≤ b.mem.left) (have : AllHaveFn b.ios) where
  post_waiting :
      (io : Io) (m : Mem) (ts : List Timer) (t : Ptr)
      → b.ios c.io ≡ some io
      → IsBalanced 0 b (record b {
        mem = m;
        nodes = put_node b.nodes (waiting n c b.mem.fresh);
        timers = ts;
        ios = put_io b.ios c.io (some (record io { timer = t }));
        events = sending b n io ∷ b.events;
      })
  post_waiting io m ts t live =
      let (f, has) = have c.io io live in
      record {
        sum = omega (
          arith,
          outstanding-put_node b.nodes (waiting n c b.mem.fresh) n at_n,
          length-del_cell n.posted_ios c.at c in_n,
          length-append n.pending_ios (record { at = b.mem.fresh; io = c.io } ∷ []),
        );
        have_fn = put_io-AllHaveFn b.ios c.io (record io { timer = t }) f have has;
      }

  post_complete :
      (io : Io)
      → b.ios c.io ≡ some io
      → IsBalanced 0 b (record b {
        nodes = put_node b.nodes (record n { posted_ios = del_cell n.posted_ios c.at });
        ios = put_io b.ios c.io none;
        events = called_with err_success io (sending b n io ∷ b.events);
      })
  post_complete io live =
      let (f, has) = have c.io io live in
      record {
        sum = rw has (
            omega (
              arith,
              outstanding-put_node b.nodes (record n { posted_ios = del_cell n.posted_ios c.at }) n
                  at_n,
              length-del_cell n.posted_ios c.at c in_n,
            ));
        have_fn = put_io-none-AllHaveFn b.ios c.io have;
      }

  -- `post_io`
  pub post_io-IsBalanced : post_io write b n.at c ≡ some d → IsBalanced 0 b d
  unfolding post_io
  post_io-IsBalanced e = elim (Option-cases (b.ios c.io)) [
    | inl gone ↦ cc (rw (post_io, at_n, gone) at e)
    | inr (io, live) ↦ elim (Bool-cases (write n.socket n.addr (wire b n io))) [
      | inr fails ↦ cc (rw (post_io, at_n, live, fails) at e)
      | inl writes ↦ elim (Bool-cases (has_bit io_reply io.flags)) [
        | inl reply ↦ elim (Option-cases (timer_add (granted b.mem) b.timers io.retry_ms)) [
          | inl faults ↦
              cc (e, post_io-faults write b n c io at_n live writes (omega arith) reply faults)
          | inr ((m, ts, none), added) ↦
              absurd
                (timer_add-granted (granted b.mem) m b.timers ts io.retry_ms (omega arith) added)
          | inr ((m, ts, some t), added) ↦
              of_result (IsBalanced 0 b)
                (post_io-waits write b n c io at_n live writes m ts t (omega arith) reply added) e
                (post_waiting io m _ t live)
        ]
        | inr plain ↦
            of_result (IsBalanced 0 b) (post_io-completes write b n c io at_n live writes plain) e
              (post_complete io live)
      ]
    ]
  ]

pub find_cell-at : (cs : List Cell) (p : Ptr) (c : Cell) → find_cell cs p ≡ some c → c.at ≡ p
unfolding find_cell
find_cell-at [] p c e = cc
find_cell-at (d ∷ cs) p c e = ground (arith, find_cell-at cs p c)

module _ (b d : BanoBase) (n : Node) (c : Cell) (at_n : node_at b.nodes n.at ≡ some n)
    (in_n : find_cell n.pending_ios c.at ≡ some c) (one : 1 ≤ b.mem.left)
    (have : AllHaveFn b.ios) where
  expire_over :
      (io : Io)
      → b.ios c.io ≡ some io
      → IsBalanced 0 b (record b {
        nodes = put_node b.nodes (record n { pending_ios = del_cell n.pending_ios c.at });
        ios = put_io b.ios c.io none;
        events = called_with err_timeout io b.events;
      })
  expire_over io live =
      let (f, has) = have c.io io live in
      record {
        sum = rw has (
            omega (
              arith,
              outstanding-put_node b.nodes (record n { pending_ios = del_cell n.pending_ios c.at })
                  n at_n,
              length-del_cell n.pending_ios c.at c in_n,
            ));
        have_fn = put_io-none-AllHaveFn b.ios c.io have;
      }

  expire_again :
      (io : Io) (r : ℕ)
      → b.ios c.io ≡ some io
      → IsBalanced 0 b (record b {
        mem = granted b.mem;
        nodes = put_node b.nodes (reposted n c b.mem.fresh);
        ios = put_io b.ios c.io (some (record io { retry_count = r }));
      })
  expire_again io r live =
      let (f, has) = have c.io io live in
      record {
        sum = omega (
          arith,
          outstanding-put_node b.nodes (reposted n c b.mem.fresh) n at_n,
          length-append n.posted_ios (record { at = b.mem.fresh; io = c.io } ∷ []),
          length-del_cell n.pending_ios c.at c in_n,
        );
        have_fn = put_io-AllHaveFn b.ios c.io (record io { retry_count = r }) f have has;
      }

  expire_moved :
      (io : Io) (r : ℕ) (k m : Node)
      → b.ios c.io ≡ some io
      → node_at b.nodes k.at ≡ some k
      → node_at (put_node b.nodes (posted_again k c b.mem.fresh)) m.at ≡ some m
      → find_cell m.pending_ios c.at ≡ some c
      → IsBalanced 0 b (record b {
        mem = granted b.mem;
        nodes =
            put_node
              (put_node b.nodes (posted_again k c b.mem.fresh))
              (record m { pending_ios = del_cell m.pending_ios c.at });
        ios = put_io b.ios c.io (some (record io { retry_count = r }));
      })
  expire_moved io r k m live at_k at_m in_m =
      let (f, has) = have c.io io live in
      let more = posted_again k c b.mem.fresh in
      record {
        sum = omega (
          arith,
          outstanding-put_node b.nodes more k at_k,
          outstanding-put_node (put_node b.nodes more)
              (record m { pending_ios = del_cell m.pending_ios c.at }) m at_m,
          length-append k.posted_ios (record { at = b.mem.fresh; io = c.io } ∷ []),
          length-del_cell m.pending_ios c.at c in_m,
        );
        have_fn = put_io-AllHaveFn b.ios c.io (record io { retry_count = r }) f have has;
      }

  -- `expire_io`
  pub expire_io-IsBalanced :
      expire_io b (record { node = n.at; cell = some c.at }) ≡ some d → IsBalanced 0 b d
  unfolding expire_io retry
  expire_io-IsBalanced e = elim (Option-cases (b.ios c.io)) [
    | inl gone ↦ cc (rw (expire_io, at_n, in_n, gone) at e)
    | inr (io, live) ↦ elim (Bool-cases (io.retry_count == 0)) [
      | inl last ↦
          of_result (IsBalanced 0 b) (expire_io-over b n c io at_n in_n live (ground (arith, last)))
            e (expire_over io live)
      | inr more ↦
          let count : io.retry_count ≡ (io.retry_count - 1) + 1 = ground (arith, more) in
          elim (Option-cases (node_at b.nodes io.node)) [
            | inl nowhere ↦
                let stuck : retry b c.io io ≡ none = rw (retry, more, nowhere) refl in
                cc (rw (expire_io, at_n, in_n, live, stuck) at e)
            | inr (k, there) ↦ elim (Bool-cases (k.at == n.at)) [
              | inl same ↦
                  let mine : io.node ≡ n.at =
                    sym (node_at-at b.nodes io.node k there) ∙ (==_iff k.at n.at).0 same in
                  of_result (IsBalanced 0 b)
                    (expire_io-again b n c io at_n in_n live (io.retry_count - 1) count mine one) e
                    (expire_again io (io.retry_count - 1) live)
              | inr other ↦
                  let stays =
                    node_at-put_other b.nodes (posted_again k c b.mem.fresh) n.at other ∙ at_n in
                  of_result (IsBalanced 0 b)
                    (expire_io-moved b n c io at_n in_n live (io.retry_count - 1) k n count there
                      stays one)
                    e
                    (expire_moved io (io.retry_count - 1) k n live
                      (node_at-node_at b.nodes io.node k there) stays in_n)
            ]
          ]
    ]
  ]
