-- ===== src/Timers.antt =====
-- src/base/bano_timer.c: the pending timers, each with the time from the one before it. A list of
-- src/base/bano_list.c is the sequence of its items. Since `bano_list_add_before` leaves the `prev`
-- of a new item NULL, an item says whether its `prev` leads to the one in front. Where the source
-- follows a `prev` that does not, and where it names a timer that is gone, the outcome is `none`.
pub mod Dues
use bano.Base.{
  ℕ, ◌+◌, ◌*◌, ◌/◌, ◌%◌, ◌^◌, Bool, true, false, Option, none, some, List, [], ◌∷◌, ◌==◌,
  if◌then◌else◌, ltb, add32, sub32,
}
use bano.Items.{Ptr}
use bano.Dict.{take_mem}

-- What `data` of a timer points to: the list of requests, which is that of the node `node`, and
-- the item in it.
pub record Target : Type 0 where
  pub node : Ptr
  pub cell : Option Ptr

-- `bano_timer_t` and its list item, `it`; `at` is the address of both. `target` is its `data`, `none` until it
-- is set.
pub record Timer : Type 0 where
  pub at : Ptr
  pub rel_ms : ℕ
  pub target : Option Target
  pub linked : Bool

-- What is left of `malloc`: the number of requests that it grants, and the next address.
pub record Mem : Type 0 where
  pub left : ℕ
  pub fresh : Ptr

-- A granted request gives its address.
unfoldable pub malloc : Mem → Option (Ptr × Mem)
malloc m = elim (take_mem m.left) [
  | none ↦ none
  | some n ↦ some (m.fresh, record { left = n; fresh = m.fresh + 1 })
]

-- `bano_timer_init`
abbrev pub timer_init : List Timer
timer_init = []

-- The timer `t` before `x`, which is the first or not: the branch of `bano_timer_add` for an item
-- that is not NULL.
unfoldable pub insert_before :
    (is_first : Bool) → Timer → Timer → ℕ → List Timer → Option (List Timer)
insert_before is_first t x ms_sum xs =
    let ms = t.rel_ms in
    let rel = sub32 ms ms_sum in
    let next = record x { rel_ms = sub32 (add32 ms_sum x.rel_ms) ms; linked = true } in
    let front : Option (List Timer) = some (record t { rel_ms = rel; linked = true } ∷ next ∷ xs) in
    let inner : Option (List Timer) =
      some (record t { rel_ms = rel; linked = false } ∷ next ∷ xs) in
    let lost : Option (List Timer) = none in
    if is_first then front else if x.linked then inner else lost

-- The loop of `bano_timer_add` from an item on, with the insertion where it ends. `rel_ms` of the
-- timer `t` holds the whole time still.
unfoldable pub insert_at : (is_first : Bool) → Timer → ℕ → List Timer → Option (List Timer)
insert_at is_first t ms_sum [] =
    some (record t { rel_ms = sub32 t.rel_ms ms_sum; linked = true } ∷ [])
insert_at is_first t ms_sum (x ∷ xs) =
    let sum = add32 ms_sum x.rel_ms in
    let here = insert_before is_first t x ms_sum xs in
    let rest : Option (List Timer) = elim (insert_at false t sum xs) [
      | none ↦ none
      | some ys ↦ some (x ∷ ys)
    ] in
    if ltb t.rel_ms sum then here else rest

-- `bano_timer_add`: the new list with the address of the timer, or `none` in it for an error.
unfoldable pub timer_add : Mem → List Timer → ℕ → Option (Mem × List Timer × Option Ptr)
timer_add m ts ms = elim (malloc m) [
  | none ↦ some (m, ts, none)
  | some (p, n) ↦ elim (malloc n) [
    | none ↦ some (n, ts, none)
    | some (q, k) ↦
        elim (insert_at true (record { at = p; rel_ms = ms; target = none; linked = true }) 0 ts) [
          | none ↦ none
          | some us ↦ some (k, us, some p)
        ]
  ]
]

-- The item behind a deleted one.
abbrev pub relink : List Timer → List Timer
relink [] = []
relink (x ∷ xs) = record x { linked = true } ∷ xs

-- `bano_list_del` from an item on.
unfoldable pub delete_at : (is_first : Bool) → List Timer → Ptr → Option (List Timer)
delete_at is_first [] p = none
delete_at is_first (x ∷ xs) p =
    let here : Option (List Timer) = some (relink xs) in
    let lost : Option (List Timer) = none in
    let found = if is_first then here else if x.linked then here else lost in
    let rest : Option (List Timer) = elim (delete_at false xs p) [
      | none ↦ none
      | some ys ↦ some (x ∷ ys)
    ] in
    if x.at == p then found else rest

-- `bano_timer_del`
unfoldable pub timer_del : List Timer → Ptr → Option (List Timer)
timer_del ts p = delete_at true ts p

-- `struct timeval`
pub record Timeval : Type 0 where
  pub tv_sec : ℕ
  pub tv_usec : ℕ

-- `bano_timer_get_next`
unfoldable pub get_next : List Timer → Option (Timer × Timeval)
get_next [] = none
get_next (t ∷ ts) =
    some (t, record { tv_sec = t.rel_ms / 1000; tv_usec = (t.rel_ms % 1000) * 1000 })

-- `bano_timer_update`
unfoldable pub timer_update : Timer → Timeval → Timer
timer_update t tv = record t {
  rel_ms = add32 (tv.tv_sec * 1000 % 2 ^ 32) (tv.tv_usec / 1000 % 2 ^ 32);
}

-- What `bano_start_loop` does to a timer through the pointer that `bano_timer_get_next` gave.
unfoldable pub set_target : List Timer → Ptr → Target → List Timer
set_target [] p d = []
set_target (x ∷ xs) p d =
    let rest = set_target xs p d in
    if x.at == p then record x { target = some d } ∷ xs else x ∷ rest
