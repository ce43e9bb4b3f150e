-- ===== src/Network/Balance/Runs.antt =====
-- What the loop of src/base/bano_base.c does to requests, in any order.
use bano.Base.{ℕ, ◌+◌, ◌≤◌, ◌≡◌, Bool, true, Option, some, Bytes, arith}
use bano.Items.{Ptr}
use bano.Message.{Msg}
use bano.Timers.{Timer}
use bano.Network.{Cell, Node, Io, LoopInfo, BanoBase, put_io, node_at, bano_post_io}
use bano.Network.Receive.{handle_set_msg}
use bano.Network.Send.{post_io}
use bano.Network.Expire.{find_cell, expire}
use bano.Network.Balance.{AllHaveFn, IsBalanced}
use bano.Network.Balance.Steps.{post_io-IsBalanced}
use bano.Network.Balance.Answers.{bano_post_io-IsBalanced}
use bano.Network.Balance.Messages.{handle_set_msg-IsBalanced}
use bano.Network.Balance.Timeouts.{expire-IsBalanced}

module _ (write : Ptr → ℕ → Bytes → Bool) (info : LoopInfo) where
  -- A step on the requests, with the number of those that come in: a new request with a function, a
  -- write of a posted one, a message that sets a value, a timer that runs out; each with the memory
  -- that it may need.
  pub data Step : (k : ℕ) (b d : BanoBase) → Type 0 where
    asks :
        {b d : BanoBase} (q p : Ptr) (io : Io) (f : ℕ)
        → io.compl_fn ≡ some f
        → bano_post_io (record b { ios = put_io b.ios p (some io) }) q p ≡ some (d, true)
        → Step 1 b d
    writes :
        {b d : BanoBase} (n : Node) (c : Cell)
        → node_at b.nodes n.at ≡ some n
        → find_cell n.posted_ios c.at ≡ some c
        → 3 ≤ b.mem.left
        → post_io write b n.at c ≡ some d
        → Step 0 b d
    hears :
        {b d : BanoBase} (now : ℕ) (m : Msg) (n : Node)
        → node_at b.nodes n.at ≡ some n
        → handle_set_msg info b now m n ≡ some d
        → Step 0 b d
    expires :
        {b d : BanoBase} {after : Option Ptr} (before : Option Ptr) (t : Timer)
        → 1 ≤ b.mem.left
        → expire b before t ≡ some (d, after)
        → Step 0 b d

  -- Steps one after the other
  pub data Run : (k : ℕ) (b d : BanoBase) → Type 0 where
    stop : {b : BanoBase} → Run 0 b b
    next : {j k : ℕ} {b c d : BanoBase} → Step j b c → Run k c d → Run (j + k) b d

  Step-IsBalanced : {k : ℕ} {b d : BanoBase} → Step k b d → AllHaveFn b.ios → IsBalanced k b d
  Step-IsBalanced {b = b} {d} (asks q p io f has e) have =
      bano_post_io-IsBalanced b d q p io f have has e
  Step-IsBalanced {b = b} {d} (writes n c at_n in_n three e) have =
      post_io-IsBalanced write b d n c at_n in_n three have e
  Step-IsBalanced {b = b} {d} (hears now m n at_n e) have =
      handle_set_msg-IsBalanced info b d n now m at_n have e
  Step-IsBalanced {b = b} {d} (expires {after = after} before t one e) have =
      expire-IsBalanced b d before after t one have e

  -- Along any steps in any order, each of a new request with a function that `bano_post_io` takes,
  -- a write of a posted request with memory for three requests left, a message that sets a value
  -- to a node of the base, or a timer that runs out with memory for one request left, where every
  -- request has a function: as many requests as came in, and were in the lists of the nodes or had
  -- had their function called before, are in the lists or have had their function called.
  pub Run-IsBalanced : {k : ℕ} {b d : BanoBase} → Run k b d → AllHaveFn b.ios → IsBalanced k b d
  Run-IsBalanced stop have = record { sum = omega arith; have_fn = have }
  Run-IsBalanced (next s r) have =
      let p = Step-IsBalanced s have in
      let q = Run-IsBalanced r p.have_fn in
      record { sum = omega (arith, p.sum, q.sum); have_fn = q.have_fn }
