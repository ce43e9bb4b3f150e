-- ===== src/Network/Balance/Answers.antt =====
-- Answers and new requests of src/base/bano_base.c, counted.
use bano.Base.{
  ℕ, ◌+◌, ◌≡◌, ◌⊎◌, refl, true, Option, none, some, List, [], ◌∷◌, ◌++◌, arith, length,
  length-append, Bool-cases, Option-cases, inl, inr,
}
use bano.Items.{Ptr}
use bano.Message.{Msg}
use bano.Timers.{Timer, timer_del, malloc}
use bano.Network.{Cell, Node, Io, BanoBase, put_io, put_node, node_at, bano_post_io}
use bano.Network.Receive.{find_pending, find_pending_io, answer, cmp_pending_io}
use bano.Network.Answers.{completion, complete_pending-runs, complete_pending-lost}
use bano.Network.Lookup.{put_io-same, node_at-node_at}
use bano.Network.Balance.{
  told, outstanding-put_node, AllHaveFn, put_io-AllHaveFn, put_io-none-AllHaveFn, IsBalanced,
  of_result,
}

-- What `find_pending` leaves of the items `cs`.
abbrev Found : (Ptr → Option Io) → (cs left : List Cell) → Option (Ptr × Io) → Type 0
Found ios cs left none = length left ≡ length cs
Found ios cs left (some (p, io)) = (ios p ≡ some io) × (length left + 1 ≡ length cs)

Found-cons :
    (ios : Ptr → Option Io) (c : Cell) (cs left : List Cell) (found : Option (Ptr × Io))
    → Found ios cs left found
    → Found ios (c ∷ cs) (c ∷ left) found
Found-cons ios c cs left none h = omega arith
Found-cons ios c cs left (some (p, io)) h = (h.0, omega (arith, h.1))

find_pending-Found :
    (ios : Ptr → Option Io) (n : Node) (m : Msg) (cs : List Cell)
    → (find_pending ios n m cs ≡ none)
      ⊎ ((left : List Cell) × (found : Option (Ptr × Io)) × (find_pending ios n m cs
            ≡ some (left, found))
          × Found ios cs left found)
unfolding find_pending
find_pending-Found ios n m [] = inr ([], none, refl, refl)
find_pending-Found ios n m (c ∷ cs) = elim (Option-cases (ios c.io)) [
  | inl gone ↦ inl (rw (find_pending, gone) refl)
  | inr (io, live) ↦ elim (Bool-cases (cmp_pending_io n m io)) [
    | inl here ↦ inr (cs, some (c.io, io), rw (find_pending, live, here) refl, (live, omega arith))
    | inr behind ↦ elim (find_pending-Found ios n m cs) [
      | inl stuck ↦ inl (rw (find_pending, live, behind, stuck) refl)
      | inr (left, found, run, f) ↦ inr (
        c ∷ left,
        found,
        rw (find_pending, live, behind, run) refl,
        Found-cons ios c cs left found f,
      )
    ]
  ]
]

module _ (b d : BanoBase) (m : Msg) (n : Node) (at_n : node_at b.nodes n.at ≡ some n)
    (have : AllHaveFn b.ios) where
  completed_one :
      (left : List Cell) (p : Ptr) (io : Io) (ts : List Timer)
      → b.ios p ≡ some io
      → length left + 1 ≡ length n.pending_ios
      → IsBalanced 0 b (record b {
        nodes = put_node b.nodes (record n { pending_ios = left });
        timers = ts;
        ios = put_io b.ios p none;
        events = completion m io b.events;
      })
  completed_one left p io ts live fewer =
      let (f, has) = have p io live in
      let one : told (completion m io b.events) ≡ 1 + told b.events = rw has (ground arith) in
      record {
        sum = omega (
          arith,
          one,
          outstanding-put_node b.nodes (record n { pending_ios = left }) n at_n,
          fewer,
        );
        have_fn = put_io-none-AllHaveFn b.ios p have;
      }

  -- `answer`
  pub answer-IsBalanced : answer b m n ≡ some d → IsBalanced 0 b d
  unfolding answer find_pending_io
  answer-IsBalanced e = elim (find_pending-Found b.ios n m n.pending_ios) [
    | inl stuck ↦ cc (rw (answer, find_pending_io, stuck) at e)
    | inr (left, none, run, same) ↦
        let is_d : record b { nodes = put_node b.nodes (record n { pending_ios = left }) } ≡ d =
          cc (rw (answer, find_pending_io, run) at e) in
        rw (← is_d) (record {
          sum =
              omega (
                arith,
                outstanding-put_node b.nodes (record n { pending_ios = left }) n at_n,
                same,
              );
          have_fn = have;
        })
    | inr (left, some (p, io), run, (live, fewer)) ↦
        let k = record b { nodes = put_node b.nodes (record n { pending_ios = left }) } in
        let told = rw (answer, find_pending_io, run) at e in
        elim (Option-cases (timer_del b.timers io.timer)) [
          | inl lost ↦ cc (told, complete_pending-lost k m p io lost)
          | inr (ts, deleted) ↦
              of_result (IsBalanced 0 b) (complete_pending-runs k m p io ts deleted) told
                (completed_one left p io ts live fewer)
        ]
  ]

-- `bano_post_io` of a new request
pub bano_post_io-IsBalanced :
    (b d : BanoBase) (q p : Ptr) (io : Io) (f : ℕ)
    → AllHaveFn b.ios
    → io.compl_fn ≡ some f
    → bano_post_io (record b { ios = put_io b.ios p (some io) }) q p ≡ some (d, true)
    → IsBalanced 1 b d
unfolding bano_post_io
bano_post_io-IsBalanced b d q p io f have has e = elim (Option-cases (node_at b.nodes q)) [
  | inl gone ↦ cc (rw (bano_post_io, gone) at e)
  | inr (n, at_n) ↦ elim (Option-cases (malloc b.mem)) [
    | inl full ↦ cc (rw (bano_post_io, at_n, full) at e)
    | inr ((c, m), granted) ↦
        let posted = n.posted_ios ++ record { at = c; io = p } ∷ [] in
        let here = put_io-same b.ios p (some io) in
        let ios = put_io b.ios p (some io) in
        let done : record b {
          mem = m;
          nodes = put_node b.nodes (record n { posted_ios = posted });
          ios = put_io ios p (some (record io { node = q }));
        }
            ≡ d =
          cc (rw (bano_post_io, at_n, granted, here) at e) in
        rw (← done) (record {
          sum = omega (
            arith,
            outstanding-put_node b.nodes (record n { posted_ios = posted }) n
                (node_at-node_at b.nodes q n at_n),
            length-append n.posted_ios (record { at = c; io = p } ∷ []),
          );
          have_fn =
              put_io-AllHaveFn ios p (record io { node = q }) f
                (put_io-AllHaveFn b.ios p io f have has) has;
        })
  ]
]
