-- ===== src/Timers/Dues.antt =====
-- The times at which the timers of src/base/bano_timer.c are due.
use bano.Base.{
  ℕ, ◌+◌, ◌-◌, ◌*◌, ◌/◌, ◌%◌, ◌≤◌, ◌<◌, ◌^◌, ◌≡◌, refl, ap, Bool, true, false, Option, none, some,
  List, [], ◌∷◌, ◌++◌, ◌==◌, ==_refl, if◌then◌else◌, ltb, arith, Bool-cases, inl, inr, add32, sub32,
}
use bano.Items.{Ptr}
use bano.Dict.{take_mem}
use bano.Timers.{
  Timer, Mem, malloc, insert_before, insert_at, timer_add, relink, delete_at, timer_del, Timeval,
  get_next, timer_update,
}

-- Each timer with the time from `sum` on until it is due.
abbrev pub dues : ℕ → List Timer → List (Ptr × ℕ)
dues sum [] = []
dues sum (x ∷ xs) = (x.at, sum + x.rel_ms) ∷ dues (sum + x.rel_ms) xs

-- The time of the last one.
abbrev pub last_due : ℕ → List Timer → ℕ
last_due sum [] = sum
last_due sum (x ∷ xs) = last_due (sum + x.rel_ms) xs

-- A time goes before the first that is later.
abbrev pub insert_due : Ptr × ℕ → List (Ptr × ℕ) → List (Ptr × ℕ)
insert_due t [] = t ∷ []
insert_due t (x ∷ xs) = let rest = insert_due t xs in if ltb t.1 x.1 then t ∷ x ∷ xs else x ∷ rest

abbrev pub AreLinked : List Timer → Type 0
AreLinked [] = Unit {0}
AreLinked (x ∷ xs) = (x.linked ≡ true) × AreLinked xs

pub last_due-le : (s : ℕ) (ts : List Timer) → s ≤ last_due s ts
last_due-le s [] = omega arith
last_due-le s (x ∷ xs) = omega (arith, last_due-le (s + x.rel_ms) xs)

-- An insertion into `ts` from the time `s` on.
record Placed (t : Timer) (s : ℕ) (ts : List Timer) (o : Option (List Timer)) : Type 0 where
  after : List Timer
  returns : o ≡ some after
  gives : dues s after ≡ insert_due (t.at, t.rel_ms) (dues s ts)

pub sub32-sub : (a b : ℕ) → b ≤ a → a < 2 ^ 32 → sub32 a b ≡ a - b
unfolding sub32
sub32-sub a b h k = omega arith

pub add32-add : (a b : ℕ) → a + b < 2 ^ 32 → add32 a b ≡ a + b
unfolding add32
add32-add a b h = omega arith

-- What an insertion before `x` makes of both and those behind.
abbrev put_before : Timer → Timer → ℕ → Bool → List Timer → List Timer
put_before t x s l xs =
    record t { rel_ms = sub32 t.rel_ms s; linked = l }
    ∷ record x { rel_ms = sub32 (add32 s x.rel_ms) t.rel_ms; linked = true }
    ∷ xs

put_before-dues :
    (t x : Timer) (s : ℕ) (l : Bool) (xs : List Timer)
    → s ≤ t.rel_ms
    → t.rel_ms < s + x.rel_ms
    → s + x.rel_ms < 2 ^ 32
    → dues s (put_before t x s l xs) ≡ (t.at, t.rel_ms) ∷ dues s (x ∷ xs)
put_before-dues t x s l xs le lt h =
    let now : s + sub32 t.rel_ms s ≡ t.rel_ms = omega (arith, sub32-sub t.rel_ms s) in
    let next : t.rel_ms + sub32 (add32 s x.rel_ms) t.rel_ms ≡ s + x.rel_ms =
      omega (arith, add32-add s x.rel_ms, sub32-sub (add32 s x.rel_ms) t.rel_ms) in
    rw (now, next) refl

insert_before-runs :
    (f : Bool) (t x : Timer) (s : ℕ) (xs : List Timer)
    → x.linked ≡ true
    → (l : Bool) × (insert_before f t x s xs ≡ some (put_before t x s l xs))
unfolding insert_before
insert_before-runs true t x s xs h = (true, refl)
insert_before-runs false t x s xs h = (false, rw h refl)

insert_at-Placed :
    (f : Bool) (t : Timer) (s : ℕ) (ts : List Timer)
    → AreLinked ts
    → last_due s ts < 2 ^ 32
    → s ≤ t.rel_ms
    → t.rel_ms < 2 ^ 32
    → Placed t s ts (insert_at f t s ts)
unfolding insert_at
insert_at-Placed f t s [] l h le lt = record {
  after = record t { rel_ms = sub32 t.rel_ms s; linked = true } ∷ [];
  returns = refl;
  gives = rw (sub32-sub t.rel_ms s le lt) (ap (λ z. (t.at, z) ∷ []) (omega arith));
}
insert_at-Placed f t s (x ∷ xs) l h le lt =
    let small : s + x.rel_ms < 2 ^ 32 = omega (arith, last_due-le (s + x.rel_ms) xs) in
    let sum = add32-add s x.rel_ms small in
    elim (Bool-cases (ltb t.rel_ms (s + x.rel_ms))) [
      | inl here ↦
          let (k, run) = insert_before-runs f t x s xs l.0 in
          record {
            after = put_before t x s k xs;
            returns = rw (sum, here) (rw sum at run);
            gives = rw here (put_before-dues t x s k xs le (ground (arith, here)) small);
          }
      | inr behind ↦
          let p = insert_at-Placed false t (s + x.rel_ms) xs l.1 h (ground (arith, behind)) lt in
          record {
            after = x ∷ p.after;
            returns = rw (sum, behind, p.returns) refl;
            gives = rw (behind, p.gives) refl;
          }
    ]

-- What is left when a request is granted.
abbrev pub granted : Mem → Mem
granted m = record { left = m.left - 1; fresh = m.fresh + 1 }

pub malloc-runs : (m : Mem) → 1 ≤ m.left → malloc m ≡ some (m.fresh, granted m)
unfolding malloc take_mem
malloc-runs m h = ground arith

-- With memory for two requests, all links set, and the times of all timers below 2 ^ 32,
-- `bano_timer_add` returns 0; the new timer is due after the time given, the others stay due when
-- they were, and the order is that of the times, the new one behind its equals.
pub timer_add-dues :
    (m : Mem) (ts : List Timer) (ms : ℕ)
    → 2 ≤ m.left
    → AreLinked ts
    → last_due 0 ts < 2 ^ 32
    → ms < 2 ^ 32
    → (k : Mem) × (us : List Timer) × (timer_add m ts ms ≡ some (k, us, some m.fresh))
      × (dues 0 us ≡ insert_due (m.fresh, ms) (dues 0 ts))
unfolding timer_add
timer_add-dues m ts ms two l h lt =
    let t : Timer = record { at = m.fresh; rel_ms = ms; target = none; linked = true } in
    let p = insert_at-Placed true t 0 ts l h (omega arith) lt in
    let one = malloc-runs m (omega arith) in
    let other = malloc-runs (granted m) (omega arith) in
    (granted (granted m), p.after, rw (timer_add, one, other, p.returns) refl, p.gives)

-- The timers behind a deleted one are due earlier by what it still had to wait.
abbrev pub earlier : ℕ → List (Ptr × ℕ) → List (Ptr × ℕ)
earlier ms [] = []
earlier ms (x ∷ xs) = (x.0, x.1 - ms) ∷ earlier ms xs

abbrev pub has_at : Ptr → List Timer → Bool
has_at p [] = false
has_at p (x ∷ xs) = let rest = has_at p xs in if x.at == p then true else rest

dues-earlier : (s ms : ℕ) (ts : List Timer) → earlier ms (dues (s + ms) ts) ≡ dues s ts
dues-earlier s ms [] = refl
dues-earlier s ms (x ∷ xs) =
    let same : s + ms + x.rel_ms ≡ s + x.rel_ms + ms = omega arith in
    let less : s + x.rel_ms + ms - ms ≡ s + x.rel_ms = omega arith in
    rw (same, less, dues-earlier (s + x.rel_ms) ms xs) refl

relink-dues : (s : ℕ) (ts : List Timer) → dues s (relink ts) ≡ dues s ts
relink-dues s [] = refl
relink-dues s (x ∷ xs) = refl

pub delete_at-runs :
    (f : Bool) (xs ys : List Timer) (t : Timer)
    → AreLinked (xs ++ t ∷ ys)
    → has_at t.at xs ≡ false
    → delete_at f (xs ++ t ∷ ys) t.at ≡ some (xs ++ relink ys)
unfolding delete_at
delete_at-runs true [] ys t l out = rw (==_refl t.at) refl
delete_at-runs false [] ys t l out = rw (==_refl t.at, l.0) refl
delete_at-runs f (x ∷ xs) ys t l out = elim (Bool-cases (x.at == t.at)) [
  | inl e ↦ cc (rw e at out)
  | inr e ↦ rw (e, delete_at-runs false xs ys t l.1 (rw e at out)) refl
]

-- `bano_timer_del`, all links set, on a timer that stands behind the timers `xs` and before `ys`
-- returns, leaves the ones in front due when they were, and makes all behind due earlier, by the
-- relative time of the deleted one.
pub timer_del-dues :
    (xs ys : List Timer) (t : Timer)
    → AreLinked (xs ++ t ∷ ys)
    → has_at t.at xs ≡ false
    → (us : List Timer) × (timer_del (xs ++ t ∷ ys) t.at ≡ some us)
      × (dues 0 us ≡ dues 0 xs ++ earlier t.rel_ms (dues (last_due 0 xs + t.rel_ms) ys))
unfolding timer_del
timer_del-dues xs ys t l out = (xs ++ relink ys, delete_at-runs true xs ys t l out, parts 0 xs)
  where
    parts :
        (s : ℕ) (zs : List Timer)
        → dues s (zs ++ relink ys)
          ≡ dues s zs ++ earlier t.rel_ms (dues (last_due s zs + t.rel_ms) ys)
    parts s [] = rw (relink-dues s ys, dues-earlier s t.rel_ms ys) refl
    parts s (z ∷ zs) = ap (◌∷◌ (z.at, s + z.rel_ms)) (parts (s + z.rel_ms) zs)

-- A timer that `bano_timer_update` sets to the time that `bano_timer_get_next` gave for it has the
-- relative time it had.
timer_update-get_next :
    (t : Timer) (ts : List Timer)
    → t.rel_ms < 2 ^ 32
    → (tv : Timeval) × (get_next (t ∷ ts) ≡ some (t, tv))
      × (tv.tv_usec < 1000000)
      × (timer_update t tv ≡ t)
unfolding get_next timer_update
timer_update-get_next t ts h = (
  record { tv_sec = t.rel_ms / 1000; tv_usec = t.rel_ms % 1000 * 1000 },
  refl,
  omega arith,
  ap (λ n. record t { rel_ms = n }) (round t.rel_ms h),
)
  where
    round :
        (n : ℕ)
        → n < 2 ^ 32
        → add32 (n / 1000 * 1000 % 2 ^ 32) (n % 1000 * 1000 / 1000 % 2 ^ 32) ≡ n
    round n h = omega (arith, add32-add)
