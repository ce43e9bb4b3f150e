-- ===== src/Network/Retry.antt =====
-- A request of src/base/bano_base.c that gets no reply, round by round.
pub mod Rounds
pub mod GivenUp
use bano.Base.{
  ℕ, zero, suc, ◌+◌, ◌-◌, ◌*◌, ◌≤◌, ◌<◌, ◌^◌, ◌≡◌, refl, sym, ◌∙◌, Bool, true, false, Option, none,
  some, List, [], ◌∷◌, ◌++◌, ◌==◌, ==_refl, has_bit, if◌then◌else◌, Bytes, arith, sub32, add32,
}
use bano.Items.{Ptr}
use bano.Timers.{
  Mem, Timer, Target, Timeval, timer_add, insert_at, timer_del, delete_at, set_target, timer_update,
}
use bano.Timers.Dues.{granted, malloc-runs}
use bano.Network.{
  err_timeout, Cell, Node, Io, Event, io_reply, LoopInfo, BanoBase, put_io, put_node, node_at,
}
use bano.Network.Lookup.{put_io-same}
use bano.Network.Send.{post_io, post_all, write_msg, write_all, del_cell}
use bano.Network.Expire.{find_cell, expire_io, del_timer, expire}
use bano.Network.Loop.{
  Round, LoopState, fill_wset, has_events, add_loop_timer, update_timer, peek_all, read_all,
  after_select, loop_round,
}
use bano.Network.Steps.{
  wire, sending, waiting, post_io-waits, called_with, reposted, expire_io-over, expire_io-again,
}

-- The node `n` is the only one and has posted the request of the item `c`; no timer runs.
abbrev pub posted : BanoBase → Node → Cell → BanoBase
posted b n c = record b {
  nodes = record n { posted_ios = c ∷ []; pending_ios = [] } ∷ [];
  timers = [];
}

-- ... or it waits for the reply to the request of the item `c`, until the timer at `t`.
abbrev pub pending : BanoBase → Node → Cell → (t ms : ℕ) → BanoBase
pending b n c t ms = record b {
  nodes = record n { posted_ios = []; pending_ios = c ∷ [] } ∷ [];
  timers =
      record {
        at = t;
        rel_ms = ms;
        target = some (record { node = n.at; cell = some c.at });
        linked = true;
      }
      ∷ [];
}

-- The request waits for a reply, and belongs to the node.
pub record IsAsked (b : BanoBase) (n : Node) (c : Cell) (io : Io) : Type 0 where
  pub live : b.ios c.io ≡ some io
  pub mine : io.node ≡ n.at
  pub reply : has_bit io_reply io.flags ≡ true
  pub fits : io.retry_ms < 2 ^ 32

-- All sockets can be written, and nothing arrives.
abbrev pub write_round : ℕ → Timeval → Round
write_round now left = record {
  now = now;
  peeked = [];
  selected = some (1, left);
  reads = [];
  writable = λ p. true;
}

-- The time of the next timer runs out.
abbrev pub timeout_round : ℕ → Round
timeout_round now = record {
  now = now;
  peeked = [];
  selected = some (0, record { tv_sec = 0; tv_usec = 0 });
  reads = [];
  writable = λ p. true;
}

-- The memory, the requests and the events behind the round in which the request is written.
abbrev pub written : BanoBase → Node → Cell → Io → BanoBase
written b n c io = record b {
  mem = granted (granted (granted b.mem));
  ios = put_io b.ios c.io (some (record io { timer = b.mem.fresh + 1 }));
  events = sending b n io ∷ b.events;
}

abbrev pub going : BanoBase → LoopState
going b = record { base = b; loop_timer = none; goes_on = true }

-- The memory and the requests behind the round in which the time runs out, with tries left.
abbrev pub again : BanoBase → Cell → Io → ℕ → BanoBase
again b c io r = record b {
  mem = granted b.mem;
  ios = put_io b.ios c.io (some (record io { retry_count = r }));
}

abbrev pub over : BanoBase → Cell → Io → BanoBase
over b c io = record b {
  ios = put_io b.ios c.io none;
  events = called_with err_timeout io b.events;
}

-- The timer that has run out
abbrev pub due : Node → Cell → (t : Ptr) → Timer
due n c t = record {
  at = t;
  rel_ms = 0;
  target = some (record { node = n.at; cell = some c.at });
  linked = true;
}

-- A request that has been written and then waits in vain.
abbrev pub tried : ℕ → Timeval → List Round → List Round
tried now left rs = write_round now left ∷ timeout_round now ∷ rs

-- ... for the last time, and `r` times before.
abbrev pub unanswered : ℕ → Timeval → ℕ → List Round
unanswered now left zero = tried now left []
unanswered now left (suc r) = tried now left (unanswered now left r)

-- An event that happens so often, and once more.
abbrev pub repeated : ℕ → Event → List Event → List Event
repeated zero e es = e ∷ es
repeated (suc r) e es = repeated r e (e ∷ es)
