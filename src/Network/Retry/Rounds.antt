-- ===== src/Network/Retry/Rounds.antt =====
-- The rounds of src/base/bano_base.c in which a lone request is written, and its time runs out.
use bano.Base.{
  ℕ, ◌+◌, ◌≤◌, ◌<◌, ◌^◌, ◌≡◌, refl, Bool, true, false, none, some, [], ◌∷◌, ==_refl, Bytes, arith,
  sub32, add32,
}
use bano.Items.{Ptr}
use bano.Timers.{Mem, Timeval, timer_add, insert_at, timer_del, delete_at, set_target, timer_update}
use bano.Timers.Dues.{granted, malloc-runs}
use bano.Network.{Cell, Node, Io, LoopInfo, BanoBase, put_node, node_at}
use bano.Network.Send.{post_io, post_all, write_msg, write_all, del_cell}
use bano.Network.Expire.{find_cell, del_timer, expire}
use bano.Network.Loop.{
  fill_wset, has_events, add_loop_timer, update_timer, peek_all, read_all, after_select, loop_round,
}
use bano.Network.Steps.{wire, post_io-waits, expire_io-over, expire_io-again}
use bano.Network.Retry.{
  posted, pending, IsAsked, write_round, timeout_round, written, going, again, over, due,
}

timer_add-nil :
    (m : Mem) (ms : ℕ)
    → 2 ≤ m.left
    → ms < 2 ^ 32
    → timer_add m [] ms
      ≡ some (
        granted (granted m),
        record { at = m.fresh; rel_ms = ms; target = none; linked = true } ∷ [],
        some m.fresh,
      )
unfolding timer_add insert_at sub32
timer_add-nil m ms two lt =
    let same : sub32 ms 0 ≡ ms = omega arith in
    rw (timer_add, malloc-runs m (omega arith), malloc-runs (granted m) (omega arith), same) refl

module _ (write : Ptr → ℕ → Bytes → Bool) (raw : Io) (capture : ℕ) (info : LoopInfo) where
  post_io-written :
      (b : BanoBase) (n : Node) (c : Cell) (io : Io)
      → IsAsked b n c io
      → 3 ≤ b.mem.left
      → write n.socket n.addr (wire b n io) ≡ true
      → post_io write (posted b n c) n.at c
        ≡ some (
            pending
              (written b n c io)
              n
              (record { at = b.mem.fresh; io = c.io })
              (b.mem.fresh + 1)
              io.retry_ms)
  unfolding put_node node_at set_target del_cell
  post_io-written b n c io a three w =
      let k = record n { posted_ios = c ∷ []; pending_ios = [] } in
      let added = timer_add-nil (granted b.mem) io.retry_ms (omega arith) a.fits in
      let e =
        post_io-waits write (posted b n c) k c io (rw (==_refl n.at) refl) a.live w
          (granted (granted (granted b.mem)))
          (record { at = b.mem.fresh + 1; rel_ms = io.retry_ms; target = none; linked = true } ∷ [])
          (b.mem.fresh + 1) (omega arith) a.reply added in
      rw (==_refl n.at, ==_refl c.at, ==_refl (b.mem.fresh + 1)) at e

  posted-has_events : (b : BanoBase) (n : Node) (c : Cell) → has_events (posted b n c) ≡ true
  unfolding has_events fill_wset
  posted-has_events b n c = ground arith

  pending-has_events :
      (b : BanoBase) (n : Node) (c : Cell) (t ms : ℕ) → has_events (pending b n c t ms) ≡ true
  unfolding has_events fill_wset
  pending-has_events b n c t ms = ground arith

  pub loop_round-write :
      (b : BanoBase) (n : Node) (c : Cell) (io : Io) (now : ℕ) (left : Timeval)
      → IsAsked b n c io
      → 3 ≤ b.mem.left
      → write n.socket n.addr (wire b n io) ≡ true
      → info.timer_fn ≡ false
      → loop_round write raw capture info (posted b n c) none (write_round now left)
        ≡ some (
            going (
              pending
                (written b n c io)
                n
                (record { at = b.mem.fresh; io = c.io })
                (b.mem.fresh + 1)
                io.retry_ms))
  unfolding loop_round add_loop_timer peek_all has_events fill_wset after_select update_timer
      read_all write_all write_msg post_all node_at
  loop_round-write b n c io now left a three w no_loop_timer =
      rw
        (
          no_loop_timer,
          ==_refl n.at,
          ==_refl n.socket,
          post_io-written b n c io a three w,
          posted-has_events b n c,
        )
        refl

  pub expire-again :
      (b : BanoBase) (n : Node) (c : Cell) (io : Io) (t r : ℕ)
      → IsAsked b n c io
      → 1 ≤ b.mem.left
      → io.retry_count ≡ r + 1
      → expire (pending b n c t 0) none (due n c t)
        ≡ some (posted (again b c io r) n (record { at = b.mem.fresh; io = c.io }), none)
  unfolding expire node_at put_node find_cell del_cell del_timer timer_del delete_at
  expire-again b n c io t r a one more =
      let k = record n { posted_ios = []; pending_ios = c ∷ [] } in
      let e =
        expire_io-again (pending b n c t 0) k c io (rw (==_refl n.at) refl) (rw (==_refl c.at) refl)
          a.live r more a.mine one in
      rw (rw (==_refl n.at, ==_refl c.at) at e, ==_refl t) refl

  pub expire-over :
      (b : BanoBase) (n : Node) (c : Cell) (io : Io) (t : ℕ)
      → IsAsked b n c io
      → io.retry_count ≡ 0
      → expire (pending b n c t 0) none (due n c t)
        ≡ some (
          record (over b c io) {
            nodes = record n { posted_ios = []; pending_ios = [] } ∷ [];
            timers = [];
          },
          none,
        )
  unfolding expire node_at put_node find_cell del_cell del_timer timer_del delete_at
  expire-over b n c io t a last =
      let k = record n { posted_ios = []; pending_ios = c ∷ [] } in
      let e =
        expire_io-over (pending b n c t 0) k c io (rw (==_refl n.at) refl) (rw (==_refl c.at) refl)
          a.live last in
      rw (rw (==_refl n.at, ==_refl c.at) at e, ==_refl t) refl

  pub loop_round-timeout :
      (b d : BanoBase) (n : Node) (c : Cell) (now t ms : ℕ)
      → expire (pending b n c t 0) none (due n c t) ≡ some (d, none)
      → info.timer_fn ≡ false
      → loop_round write raw capture info (pending b n c t ms) none (timeout_round now)
        ≡ some (going d)
  unfolding loop_round add_loop_timer peek_all after_select update_timer timer_update add32
  loop_round-timeout b d n c now t ms e no_loop_timer =
      let waited : after_select write raw capture info (pending b n c t ms) none (timeout_round now)
            0 (record { tv_sec = 0; tv_usec = 0 })
          ≡ some (going d) =
        rw (after_select, update_timer, e) refl in
      rw (loop_round, no_loop_timer, pending-has_events b n c t ms) waited
