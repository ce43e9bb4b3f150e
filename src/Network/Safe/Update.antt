-- ===== src/Network/Safe/Update.antt =====
-- The time that `select` leaves in `bano_start_loop` of src/base/bano_base.c, and the timer that it is
-- for.
use bano.Base.{
  ℕ, ◌+◌, ◌≤◌, ◌≡◌, ◌≢◌, refl, ap, sym, ◌∙◌, false, Option, none, some, List, [], ◌∷◌, ◌==◌, ◌||◌,
  arith, Bool-cases, inl, inr,
}
use bano.Items.{Ptr}
use bano.Timers.{Timer, Timeval, timer_update}
use bano.Network.{Node, Io, BanoBase}
use bano.Network.Loop.{update_timer}
use bano.Network.Safe.{target_at, AreSafe, IsSafe, IsSafeFor}
use bano.Network.Safe.Clock.{last_due_mono}
use bano.Network.Safe.Expiry.{expire-IsSafeFor}

-- What `select` leaves for `bano_timer_update` after the result `err`: no more than the time that it
-- was given, and the result 0 only where it was given one.
abbrev pub Waited : List Timer → ℕ → Timeval → Type 0
Waited [] err left = err ≢ 0
Waited (t ∷ ts) err left = (timer_update t left).rel_ms ≤ t.rel_ms

-- Timers with other times
retimed :
    (ms f : ℕ) (ns : List Node) (t u : Timer) (ts : List Timer) (ios : Ptr → Option Io)
    → AreSafe ms ns (t ∷ ts) ios f
    → u.at ≡ t.at
    → u.target ≡ t.target
    → u.linked ≡ t.linked
    → u.rel_ms ≤ t.rel_ms
    → AreSafe ms ns (u ∷ ts) ios f
retimed ms f ns t u ts ios s same_at same_target same_link le =
    let same : (p : Ptr) → target_at (u ∷ ts) p ≡ target_at (t ∷ ts) p =
      λ p. rw (same_at, same_target) refl in
    record {
      are_nodes = s.are_nodes;
      are_timers = record {
        linked = (same_link ∙ s.are_timers.linked.0, s.are_timers.linked.1);
        apart = (ap (target_at ts) same_at ∙ s.are_timers.apart.0, s.are_timers.apart.1);
        soon = omega (arith, last_due_mono (0 + u.rel_ms) (0 + t.rel_ms) ts, s.are_timers.soon, le);
        fits = s.are_timers.fits;
      };
      are_held = record {
        held = λ x c e.
            let k = s.are_held.held x c e in
            record {
              io = k.io;
              live = k.live;
              mine = k.mine;
              time = k.time;
              old_cell = k.old_cell;
              old_io = k.old_io;
              timed = λ w. same k.io.timer ∙ k.timed w;
            };
        once = s.are_held.once;
        leads = λ p g e. s.are_held.leads p g (sym (same p) ∙ e);
      };
    }

update_timer-nil :
    (b c : BanoBase) (err : ℕ) (left : Timeval)
    → b.timers ≡ []
    → err ≢ 0
    → b ≡ c
    → update_timer b none err left ≡ some (c, none, err)
unfolding update_timer
update_timer-nil b c err left is_ts w same =
    let ne : (err == 0) ≡ false = ground (arith, w) in
    rw (update_timer, is_ts, ne) (ap (λ d. some (d, none, err)) same)

-- The update of the timer that is due next, with its branch where it has run out
pub update_timer-IsSafeFor :
    (ms k : ℕ) (b : BanoBase) (err : ℕ) (left : Timeval)
    → IsSafeFor ms (k + 4) b
    → Waited b.timers err left
    → (d : BanoBase) × (r : ℕ) × (update_timer b none err left ≡ some (d, none, r))
      × IsSafeFor ms k d
unfolding update_timer timer_update
update_timer-IsSafeFor ms k b err left h waited = by_timers b.timers refl waited
  where
    at_same : (t : Timer) → (timer_update t left).at ≡ t.at
    at_same t = refl

    target_same : (t : Timer) → (timer_update t left).target ≡ t.target
    target_same t = refl

    linked_same : (t : Timer) → (timer_update t left).linked ≡ t.linked
    linked_same t = refl

    by_timers :
        (ts : List Timer)
        → b.timers ≡ ts
        → Waited ts err left
        → (d : BanoBase) × (r : ℕ) × (update_timer b none err left ≡ some (d, none, r))
          × IsSafeFor ms k d
    by_timers [] is_ts w =
        (b, err, update_timer-nil b b err left is_ts w refl, (h.0, omega (arith, h.1), h.2))
    by_timers (t ∷ ts) is_ts w =
        let u = timer_update t left in
        let c = record b { timers = u ∷ ts } in
        let safe : IsSafe ms c =
          retimed ms b.mem.fresh b.nodes t u ts b.ios (rw is_ts at h.0) (at_same t) (target_same t)
            (linked_same t) w in
        elim (Bool-cases ((u.rel_ms == 0) || (err == 0))) [
          | inr pending ↦
              (c, err, rw (update_timer, is_ts, pending) refl, (safe, omega (arith, h.1), h.2))
          | inl due ↦
              let (d, run, ready) = expire-IsSafeFor ms k c u ts (safe, h.1, h.2) refl in
              (d, 0, rw (update_timer, is_ts, due, run) refl, ready)
        ]
