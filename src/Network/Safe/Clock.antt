-- ===== src/Network/Safe/Clock.antt =====
-- The timers of src/base/bano_timer.c, of which each is found by its address.
use bano.Base.{
  ℕ, ◌+◌, ◌≤◌, ◌<◌, ◌^◌, ◌≡◌, refl, Bool, true, false, Option, none, some, List, [], ◌∷◌, ◌==◌,
  ==_refl, ==_iff, ltb, arith, Bool-cases, inl, inr, sub32,
}
use bano.Items.{Ptr}
use bano.Timers.{Timer, Target, Mem, insert_at, timer_add, relink, delete_at, set_target}
use bano.Timers.Dues.{AreLinked, last_due, last_due-le, add32-add, sub32-sub, granted, malloc-runs}
use bano.Network.Safe.{target_at, TimersApart, AreTimers}

-- The timers `us` are `ts` without the one at `p`.
pub record Deleted (s : ℕ) (ts us : List Timer) (p : Ptr) : Type 0 where
  pub linked : AreLinked us
  pub apart : TimersApart us
  pub gone : target_at us p ≡ none
  pub same : (q : Ptr) → (q == p) ≡ false → target_at us q ≡ target_at ts q
  pub soon : last_due s us ≤ last_due s ts

pub last_due_mono : (r s : ℕ) (ts : List Timer) → r ≤ s → last_due r ts ≤ last_due s ts
last_due_mono r s [] h = h
last_due_mono r s (x ∷ xs) h = last_due_mono (r + x.rel_ms) (s + x.rel_ms) xs (omega arith)

relink-AreLinked : (ts : List Timer) → AreLinked ts → AreLinked (relink ts)
relink-AreLinked [] l = tt
relink-AreLinked (x ∷ xs) l = (refl, l.1)

relink-TimersApart : (ts : List Timer) → TimersApart ts → TimersApart (relink ts)
relink-TimersApart [] a = tt
relink-TimersApart (x ∷ xs) a = a

target_at-relink : (ts : List Timer) (p : Ptr) → target_at (relink ts) p ≡ target_at ts p
target_at-relink [] p = refl
target_at-relink (x ∷ xs) p = refl

last_due-relink : (s : ℕ) (ts : List Timer) → last_due s (relink ts) ≡ last_due s ts
last_due-relink s [] = refl
last_due-relink s (x ∷ xs) = refl

pub delete_at-Deleted :
    (f : Bool) (s : ℕ) (ts : List Timer) (p : Ptr) (g : Option Target)
    → AreLinked ts
    → TimersApart ts
    → target_at ts p ≡ some g
    → (us : List Timer) × (delete_at f ts p ≡ some us) × Deleted s ts us p
unfolding delete_at
delete_at-Deleted f s [] p g l a e = cc
delete_at-Deleted f s (x ∷ xs) p g l a e = elim (Bool-cases (x.at == p)) [
  | inl here ↦
      let is_p : x.at ≡ p = (==_iff x.at p).0 here in
      (
        relink xs,
        ground (arith, here, l.0),
        record {
          linked = relink-AreLinked xs l.1;
          apart = relink-TimersApart xs a.1;
          gone = rw (target_at-relink xs p, ← is_p) a.0;
          same = λ q ne.
              let other : (x.at == q) ≡ false = ground (arith, ne, is_p) in
              rw (target_at-relink xs q, other) refl;
          soon = rw (last_due-relink s xs) (last_due_mono s (s + x.rel_ms) xs (omega arith));
        },
      )
  | inr behind ↦
      let (us, run, d) = delete_at-Deleted false (s + x.rel_ms) xs p g l.1 a.1 (rw behind at e) in
      (
        x ∷ us,
        rw (behind, run) refl,
        record {
          linked = (l.0, d.linked);
          apart = (rw (d.same x.at behind) a.0, d.apart);
          gone = rw (behind) d.gone;
          same = λ q ne. rw (d.same q ne) refl;
          soon = d.soon;
        },
      )
]

-- The timers `us` are `ts` with one more at `p`, due after `ms`.
pub record Appended (s ms : ℕ) (ts us : List Timer) (p : Ptr) (g : Option Target) : Type 0 where
  pub linked : AreLinked us
  pub apart : TimersApart us
  pub new : target_at us p ≡ some g
  pub same : (q : Ptr) → (q == p) ≡ false → target_at us q ≡ target_at ts q
  pub soon : last_due s us ≡ ms

insert_at-Appended :
    (f : Bool) (t : Timer) (s : ℕ) (ts : List Timer)
    → AreLinked ts
    → TimersApart ts
    → target_at ts t.at ≡ none
    → last_due s ts ≤ t.rel_ms
    → t.rel_ms < 2 ^ 32
    → (us : List Timer) × (insert_at f t s ts ≡ some us) × Appended s t.rel_ms ts us t.at t.target
unfolding insert_at
insert_at-Appended f t s [] l a out le lt = (
  record t { rel_ms = sub32 t.rel_ms s; linked = true } ∷ [],
  refl,
  record {
    linked = (refl, tt);
    apart = (refl, tt);
    new = rw (==_refl t.at) refl;
    same = λ q ne. ground (arith, ne);
    soon = rw (sub32-sub t.rel_ms s le lt) (omega arith);
  },
)
insert_at-Appended f t s (x ∷ xs) l a out le lt =
    let sum = add32-add s x.rel_ms (omega (arith, last_due-le (s + x.rel_ms) xs)) in
    let behind : ltb t.rel_ms (s + x.rel_ms) ≡ false =
      ground (arith, last_due-le (s + x.rel_ms) xs) in
    elim (Bool-cases (x.at == t.at)) [
      | inl here ↦ cc (rw here at out)
      | inr other ↦
          let (us, run, d) =
            insert_at-Appended false t (s + x.rel_ms) xs l.1 a.1 (rw other at out) le lt in
          (
            x ∷ us,
            rw (sum, behind, run) refl,
            record {
              linked = (l.0, d.linked);
              apart = (rw (d.same x.at other) a.0, d.apart);
              new = rw other d.new;
              same = λ q ne. rw (d.same q ne) refl;
              soon = d.soon;
            },
          )
    ]

set_target-Appended :
    (s ms : ℕ) (ts us : List Timer) (p : Ptr) (g : Option Target) (d : Target)
    → Appended s ms ts us p g
    → Appended s ms ts (set_target us p d) p (some d)
unfolding set_target
set_target-Appended s ms ts us p g d h = record {
  linked = links us h.linked;
  apart = aparts us h.apart;
  new = there us h.new;
  same = λ q ne. rw (others us q ne) (h.same q ne);
  soon = rw (times s us) h.soon;
}
  where
    others :
        (us : List Timer) (q : Ptr)
        → (q == p) ≡ false
        → target_at (set_target us p d) q ≡ target_at us q
    others [] q ne = refl
    others (x ∷ xs) q ne = ground (arith, others xs q ne)

    nones :
        (us : List Timer) (q : Ptr) → target_at us q ≡ none → target_at (set_target us p d) q ≡ none
    nones [] q e = refl
    nones (x ∷ xs) q e = ground (arith, nones xs q)

    there :
        (us : List Timer)
        → target_at us p ≡ some g
        → target_at (set_target us p d) p ≡ some (some d)
    there [] e = cc
    there (x ∷ xs) e = ground (arith, there xs)

    links : (us : List Timer) → AreLinked us → AreLinked (set_target us p d)
    links [] l = tt
    links (x ∷ xs) l = elim (Bool-cases (x.at == p)) [
      | inl e ↦ rw e l
      | inr e ↦ rw e (l.0, links xs l.1)
    ]

    aparts : (us : List Timer) → TimersApart us → TimersApart (set_target us p d)
    aparts [] a = tt
    aparts (x ∷ xs) a = elim (Bool-cases (x.at == p)) [
      | inl e ↦ rw e a
      | inr e ↦ rw e (nones xs x.at a.0, aparts xs a.1)
    ]

    times : (s : ℕ) (us : List Timer) → last_due s (set_target us p d) ≡ last_due s us
    times s [] = refl
    times s (x ∷ xs) = elim (Bool-cases (x.at == p)) [
      | inl e ↦ rw e refl
      | inr e ↦ rw e (times (s + x.rel_ms) xs)
    ]

-- With memory for two requests, `bano_timer_add` for the time that all others are due within puts
-- the new timer behind them.
pub timer_add-Appended :
    (m : Mem) (ts : List Timer) (ms : ℕ)
    → 2 ≤ m.left
    → AreTimers ms ts
    → target_at ts m.fresh ≡ none
    → (us : List Timer) × (timer_add m ts ms ≡ some (granted (granted m), us, some m.fresh))
      × ((d : Target) → Appended 0 ms ts (set_target us m.fresh d) m.fresh (some d))
unfolding timer_add
timer_add-Appended m ts ms two h out =
    let t : Timer = record { at = m.fresh; rel_ms = ms; target = none; linked = true } in
    let (us, run, a) = insert_at-Appended true t 0 ts h.linked h.apart out h.soon h.fits in
    (
      us,
      rw (timer_add, malloc-runs m (omega arith), malloc-runs (granted m) (omega arith), run) refl,
      λ d. set_target-Appended 0 ms ts us m.fresh none d a,
    )
