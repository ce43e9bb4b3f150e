-- ===== src/Network/Retry/GivenUp.antt =====
-- A request of src/base/bano_base.c that gets no reply ends.
use bano.Base.{
  ℕ, zero, suc, ◌+◌, ◌*◌, ◌≤◌, ◌≡◌, refl, ◌∙◌, Bool, true, false, none, some, List, [], ◌∷◌, Bytes,
  arith,
}
use bano.Items.{Ptr}
use bano.Timers.{Timeval}
use bano.Network.{err_timeout, Cell, Node, Io, LoopInfo, BanoBase}
use bano.Network.Lookup.{put_io-same}
use bano.Network.Expire.{expire}
use bano.Network.Loop.{loop_rounds, Round}
use bano.Network.Steps.{wire, sending, called_with}
use bano.Network.Retry.{
  posted, pending, IsAsked, written, going, again, due, tried, unanswered, repeated,
}
use bano.Network.Retry.Rounds.{loop_round-write, expire-again, expire-over, loop_round-timeout}

module _ (write : Ptr → ℕ → Bytes → Bool) (raw : Io) (capture : ℕ) (info : LoopInfo) where
  -- What is left of a request that no reply came for.
  pub record GivenUp (b : BanoBase) (n : Node) (c : Cell) (io : Io) (r : ℕ) : Type 0 where
    pub after : BanoBase
    pub no_timers : after.timers ≡ []
    pub no_requests : after.nodes ≡ record n { posted_ios = []; pending_ios = [] } ∷ []
    pub freed : after.ios c.io ≡ none
    pub told : after.events ≡ called_with err_timeout io (repeated r (sending b n io) b.events)

  one_try :
      (b d : BanoBase) (n : Node) (c : Cell) (io : Io) (now : ℕ) (left : Timeval) (rs : List Round)
      → IsAsked b n c io
      → 3 ≤ b.mem.left
      → write n.socket n.addr (wire b n io) ≡ true
      → info.timer_fn ≡ false
      → let k : Cell = record { at = b.mem.fresh; io = c.io } in
        expire (pending (written b n c io) n k (b.mem.fresh + 1) 0) none (due n k (b.mem.fresh + 1))
          ≡ some (d, none)
        → loop_rounds write raw capture info (posted b n c) none (tried now left rs)
          ≡ loop_rounds write raw capture info d none rs
  unfolding loop_rounds
  one_try b d n c io now left rs a three w no_loop_timer e =
      rw
        (
          loop_rounds,
          loop_round-write write raw capture info b n c io now left a three w no_loop_timer,
          loop_round-timeout write raw capture info (written b n c io) d n _ now (b.mem.fresh + 1)
              io.retry_ms e no_loop_timer,
        )
        refl

  written-IsAsked :
      (b : BanoBase) (n : Node) (c : Cell) (io : Io)
      → IsAsked b n c io
      → IsAsked
          (written b n c io)
          n
          (record { at = b.mem.fresh; io = c.io })
          (record io { timer = b.mem.fresh + 1 })
  written-IsAsked b n c io a = record {
    live = put_io-same b.ios c.io _;
    mine = a.mine;
    reply = a.reply;
    fits = a.fits;
  }

  -- A request for a reply that the only node has posted, in a base without timers, is written once
  -- and then as often as it has tries, where there is no loop timer, every write succeeds, nothing
  -- arrives and the time of each timer runs out; then its function is called with the error for
  -- that, its memory is given back, and no request and no timer is left. Memory for four requests
  -- for each write is enough.
  pub loop_rounds-GivenUp :
      (r : ℕ) (b : BanoBase) (n : Node) (c : Cell) (io : Io) (now : ℕ) (left : Timeval)
      → IsAsked b n c io
      → io.retry_count ≡ r
      → 4 * (r + 1) ≤ b.mem.left
      → write n.socket n.addr (wire b n io) ≡ true
      → info.timer_fn ≡ false
      → (g : GivenUp b n c io r) × (loop_rounds write raw capture info
            (posted b n c)
            none
            (unanswered now left r)
          ≡ some (going g.after))
  unfolding loop_rounds
  loop_rounds-GivenUp zero b n c io now left a last four w no_loop_timer =
      let k : Cell = record { at = b.mem.fresh; io = c.io } in
      let e =
        expire-over write raw capture info (written b n c io) n k _ (b.mem.fresh + 1)
          (written-IsAsked b n c io a) last in
      (
        record {
          after = _;
          no_timers = refl;
          no_requests = refl;
          freed = put_io-same _ c.io none;
          told = refl;
        },
        one_try b _ n c io now left [] a (omega arith) w no_loop_timer e,
      )
  loop_rounds-GivenUp (suc r) b n c io now left a more four w no_loop_timer =
      let k : Cell = record { at = b.mem.fresh; io = c.io } in
      let e =
        expire-again write raw capture info (written b n c io) n k _ (b.mem.fresh + 1) r
          (written-IsAsked b n c io a) (omega arith) (omega arith) in
      let b2 = again (written b n c io) k (record io { timer = b.mem.fresh + 1 }) r in
      let c2 : Cell = record { at = b.mem.fresh + 1 + 1 + 1; io = c.io } in
      let a2 : IsAsked b2 n c2 (record io { timer = b.mem.fresh + 1; retry_count = r }) = record {
        live = put_io-same _ c.io _;
        mine = a.mine;
        reply = a.reply;
        fits = a.fits;
      } in
      let (g, run) =
        loop_rounds-GivenUp r b2 n c2 _ now left a2 refl (omega arith) w no_loop_timer in
      (
        record {
          after = g.after;
          no_timers = g.no_timers;
          no_requests = g.no_requests;
          freed = g.freed;
          told = g.told;
        },
        one_try b _ n c io now left _ a (omega arith) w no_loop_timer e ∙ run,
      )
