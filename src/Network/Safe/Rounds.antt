-- ===== src/Network/Safe/Rounds.antt =====
-- `bano_start_loop` of src/base/bano_base.c, round after round, on a base whose requests are in
-- order.
use bano.Base.{
  ℕ, ◌+◌, ◌*◌, ◌≡◌, refl, Bool, true, false, Option, none, some, List, [], ◌∷◌, ◌==◌, ◌&&◌, Bytes,
  length, arith, Bool-cases, Option-cases, inl, inr,
}
use bano.Items.{Ptr}
use bano.Timers.{Timeval}
use bano.Network.{Io, default_retry_ms, LoopInfo, BanoBase}
use bano.Network.Loop.{
  Incoming, from_node, from_web, ReadResult, read_ok, read_partial, read_failed, Round, LoopState,
  has_socket, fill_wset, has_events, add_loop_timer, handle_msg, peek_all, read_msg, read_all,
  after_select, loop_round, loop_rounds,
}
use bano.Network.Safe.{IsSafeFor}
use bano.Network.Safe.Handlers.{handle_bano_msg-IsSafeFor}
use bano.Network.Safe.Requests.{handle_httpd_msg-IsSafeFor}
use bano.Network.Safe.Update.{Waited, update_timer-IsSafeFor}
use bano.Network.Safe.Posts.{write_all-IsSafeFor}

-- No read of a socket fails.
abbrev pub NoneFails : List (Ptr × ReadResult) → Type 0
NoneFails [] = Unit {0}
NoneFails ((s, read_ok m) ∷ rs) = NoneFails rs
NoneFails ((s, read_partial) ∷ rs) = NoneFails rs
NoneFails ((s, read_failed) ∷ rs) = ⊥

-- The memory that a round may ask for, without that for the posted requests
abbrev pub round_cost : Round → ℕ
round_cost r = 6 * length r.peeked + 6 * length r.reads + 4

abbrev pub rounds_cost : List Round → ℕ
rounds_cost [] = 0
rounds_cost (r ∷ rs) = round_cost r + rounds_cost rs

-- Where `select` returns, it has waited.
abbrev pub SelectWaits : BanoBase → Option (ℕ × Timeval) → Type 0
SelectWaits b none = Unit {0}
SelectWaits b (some (err, left)) = Waited b.timers err left

module _ (write : Ptr → ℕ → Bytes → Bool) (raw : Io) (capture : ℕ) (info : LoopInfo)
    (writes : (p : Ptr) (addr : ℕ) (bytes : Bytes) → write p addr bytes ≡ true)
    (no_timer : info.timer_fn ≡ false) where
  -- What the world does in the rounds on the base `b`, which the base decides on too
  abbrev pub Behaves : BanoBase → List Round → Type 0
  Behaves b [] = Unit {0}
  Behaves b (r ∷ rs) =
      NoneFails r.reads
      × ((c : BanoBase)
          → peek_all write raw capture info b r.now r.peeked ≡ some c
          → SelectWaits c r.selected)
      × ((s : LoopState) → loop_round write raw capture info b none r ≡ some s → Behaves s.base rs)

  handle_msg-runs :
      (k : ℕ) (b : BanoBase) (now : ℕ) (m : Incoming)
      → IsSafeFor default_retry_ms (k + 6) b
      → (d : BanoBase) × (handle_msg write raw capture info b now m ≡ some d)
        × IsSafeFor default_retry_ms k d
  unfolding handle_msg
  handle_msg-runs k b now (from_node s bytes) h =
      handle_bano_msg-IsSafeFor default_retry_ms k info b now s bytes (h.0, omega (arith, h.1), h.2)
  handle_msg-runs k b now (from_web m) h = handle_httpd_msg-IsSafeFor k raw capture b now m h

  peek_all-runs :
      (k : ℕ) (b : BanoBase) (now : ℕ) (ms : List Incoming)
      → IsSafeFor default_retry_ms (k + 6 * length ms) b
      → (d : BanoBase) × (peek_all write raw capture info b now ms ≡ some d)
        × IsSafeFor default_retry_ms k d
  unfolding peek_all
  peek_all-runs k b now [] h = (b, refl, (h.0, omega (arith, h.1), h.2))
  peek_all-runs k b now (m ∷ ms) h =
      let (c, run, ready) =
        handle_msg-runs (k + 6 * length ms) b now m (h.0, omega (arith, h.1), h.2) in
      let (d, runs, last) = peek_all-runs k c now ms ready in (d, rw (peek_all, run) runs, last)

  read_all-runs :
      (k : ℕ) (b : BanoBase) (now : ℕ) (rs : List (Ptr × ReadResult))
      → NoneFails rs
      → IsSafeFor default_retry_ms (k + 6 * length rs) b
      → (d : BanoBase) × (read_all write raw capture info b now rs ≡ some d)
        × IsSafeFor default_retry_ms k d
  unfolding read_all read_msg
  read_all-runs k b now [] nf h = (b, refl, (h.0, omega (arith, h.1), h.2))
  read_all-runs k b now ((s, read_ok m) ∷ rs) nf h =
      let (c, run, ready) =
        handle_msg-runs (k + 6 * length rs) b now m (h.0, omega (arith, h.1), h.2) in
      let (d, runs, last) = read_all-runs k c now rs nf ready in
      (d, rw (read_all, read_msg, run) runs, last)
  read_all-runs k b now ((s, read_partial) ∷ rs) nf h =
      read_all-runs k b now rs nf (h.0, omega (arith, h.1), h.2)
  read_all-runs k b now ((s, read_failed) ∷ rs) nf h = absurd nf

  -- A state in which the loop can go on, without a timer of its own
  record Goes (k : ℕ) (o : Option LoopState) : Type 0 where
    state : LoopState
    runs : o ≡ some state
    no_loop_timer : state.loop_timer ≡ none
    ready : IsSafeFor default_retry_ms k state.base

  after_select-Goes :
      (k : ℕ) (b : BanoBase) (r : Round) (err : ℕ) (left : Timeval)
      → NoneFails r.reads
      → Waited b.timers err left
      → IsSafeFor default_retry_ms (k + 6 * length r.reads + 4) b
      → Goes k (after_select write raw capture info b none r err left)
  unfolding after_select
  after_select-Goes k b r err left nf waited h =
      let (c, n, run, ready) =
        update_timer-IsSafeFor default_retry_ms (k + 6 * length r.reads) b err left h waited in
      elim (Bool-cases (n == 0)) [
        | inl idle ↦ record {
          state = record { base = c; loop_timer = none; goes_on = true };
          runs = rw (after_select, run, idle) refl;
          no_loop_timer = refl;
          ready = (ready.0, omega (arith, ready.1), ready.2);
        }
        | inr busy ↦
            let (d, reads, still) = read_all-runs k c r.now r.reads nf ready in
            let (e, writing, last) =
              write_all-IsSafeFor write writes default_retry_ms k
                (λ p. has_socket (fill_wset b.nodes) p && r.writable p) d still in
            record {
              state = record { base = e; loop_timer = none; goes_on = true };
              runs = rw (after_select, run, busy, reads, writing) refl;
              no_loop_timer = refl;
              ready = last;
            }
      ]

  goes_on_none :
      (b : BanoBase)
      → add_loop_timer info b none ≡ some (record { base = b; loop_timer = none; goes_on = true })
  unfolding add_loop_timer
  goes_on_none b = rw (add_loop_timer, no_timer) refl

  loop_round-selects :
      (b c : BanoBase) (r : Round) (err : ℕ) (left : Timeval) (o : Option LoopState)
      → peek_all write raw capture info b r.now r.peeked ≡ some c
      → has_events c ≡ true
      → r.selected ≡ some (err, left)
      → after_select write raw capture info c none r err left ≡ o
      → loop_round write raw capture info b none r ≡ o
  unfolding loop_round
  loop_round-selects b c r err left o peeks events returns after =
      rw (loop_round, goes_on_none b, peeks, events, returns) after

  loop_round-Goes :
      (k : ℕ) (b : BanoBase) (r : Round)
      → NoneFails r.reads
      → ((c : BanoBase)
          → peek_all write raw capture info b r.now r.peeked ≡ some c
          → SelectWaits c r.selected)
      → IsSafeFor default_retry_ms (k + round_cost r) b
      → Goes k (loop_round write raw capture info b none r)
  unfolding loop_round
  loop_round-Goes k b r nf waits h =
      let (c, peeks, ready) =
        peek_all-runs (k + 6 * length r.reads + 4) b r.now r.peeked
          (h.0, omega (arith, h.1), h.2) in
      elim (Bool-cases (has_events c)) [
        | inr spins ↦ record {
          state = record { base = c; loop_timer = none; goes_on = true };
          runs = rw (loop_round, goes_on_none b, peeks, spins) refl;
          no_loop_timer = refl;
          ready = (ready.0, omega (arith, ready.1), ready.2);
        }
        | inl events ↦ elim (Option-cases r.selected) [
          | inl fails ↦ record {
            state = record { base = c; loop_timer = none; goes_on = false };
            runs = rw (loop_round, goes_on_none b, peeks, events, fails) refl;
            no_loop_timer = refl;
            ready = (ready.0, omega (arith, ready.1), ready.2);
          }
          | inr ((err, left), returns) ↦
              let after =
                after_select-Goes k c r err left nf (rw returns at (waits c peeks)) ready in
              record {
                state = after.state;
                runs = loop_round-selects b c r err left _ peeks events returns after.runs;
                no_loop_timer = after.no_loop_timer;
                ready = after.ready;
              }
        ]
      ]

  -- On a base that is safe (each node with its dictionary; no address in use that is free, none
  -- twice among the nodes, among the items of a list and among the timers; each request in one
  -- place of one list, in memory, of its node and, if it asks for a reply, with 1700 ms for each
  -- try; each pending request with a timer that leads back to it, and no other timer; all timers
  -- linked and due within 1700 ms; no description of a node that asks for text messages unless the
  -- handle for them has been opened with an address), the loop of `bano_start_loop` returns from
  -- any list of rounds without a step that the C language leaves undefined, whatever messages
  -- come, and leaves the base safe, if there is memory for the rounds and for the posted requests,
  -- every write to a socket succeeds, no read fails, the loop has no timer of its own, and
  -- `select` leaves no more time than it was given and returns 0 only where it was given one.
  pub loop_rounds-IsSafeFor :
      (k : ℕ) (b : BanoBase) (rs : List Round)
      → Behaves b rs
      → IsSafeFor default_retry_ms (k + rounds_cost rs) b
      → (s : LoopState) × (loop_rounds write raw capture info b none rs ≡ some s)
        × IsSafeFor default_retry_ms k s.base
  unfolding loop_rounds
  loop_rounds-IsSafeFor k b [] kind h =
      (record { base = b; loop_timer = none; goes_on = true }, refl, (h.0, omega (arith, h.1), h.2))
  loop_rounds-IsSafeFor k b (r ∷ rs) (nf, waits, kind) h =
      let one = loop_round-Goes (k + rounds_cost rs) b r nf waits (h.0, omega (arith, h.1), h.2) in
      elim (Bool-cases one.state.goes_on) [
        | inr ends ↦ (
          one.state,
          rw (loop_rounds, one.runs, ends) refl,
          (one.ready.0, omega (arith, one.ready.1), one.ready.2),
        )
        | inl goes ↦
            let (s, runs, last) =
              loop_rounds-IsSafeFor k one.state.base rs (kind one.state one.runs) one.ready in
            (s, rw (loop_rounds, one.runs, goes, one.no_loop_timer) runs, last)
      ]
