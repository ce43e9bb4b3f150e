-- ===== src/Network/Balance/Timeouts.antt =====
-- A timer of src/base/bano_base.c that runs out, counted.
use bano.Base.{
  ◌≤◌, ◌≡◌, ap, ◌∙◌, Bool, false, Option, none, some, ◌==◌, arith, Bool-cases, Option-cases, inl,
  inr,
}
use bano.Items.{Ptr}
use bano.Timers.{Timer, Target, timer_del}
use bano.Network.{timer_called, BanoBase, add_event, node_at}
use bano.Network.Expire.{find_cell, expire_io, del_timer, expire}
use bano.Network.Lookup.{node_at-at, node_at-node_at}
use bano.Network.Balance.{AllHaveFn, IsBalanced}
use bano.Network.Balance.Steps.{find_cell-at, expire_io-IsBalanced}

-- `expire_io` for any target
target-IsBalanced :
    (b d : BanoBase) (g : Target)
    → 1 ≤ b.mem.left
    → AllHaveFn b.ios
    → expire_io b g ≡ some d
    → IsBalanced 0 b d
unfolding expire_io
target-IsBalanced b d g one have e = elim (Option-cases g.cell) [
  | inl null_cell ↦ cc (rw (expire_io, null_cell) at e)
  | inr (p, is_p) ↦ elim (Option-cases (node_at b.nodes g.node)) [
    | inl gone ↦ cc (rw (expire_io, is_p, gone) at e)
    | inr (n, at_n) ↦ elim (Option-cases (find_cell n.pending_ios p)) [
      | inl freed ↦ cc (rw (expire_io, is_p, at_n, freed) at e)
      | inr (c, in_n) ↦
          let is_c = find_cell-at n.pending_ios p c in_n in
          let is_q = node_at-at b.nodes g.node n at_n in
          let same : g ≡ record { node = n.at; cell = some c.at } =
            ground (arith, is_c, is_q, is_p) in
          expire_io-IsBalanced b d n c (node_at-node_at b.nodes g.node n at_n)
            (ap (find_cell n.pending_ios) is_c ∙ in_n) one have (rw same at e)
    ]
  ]
]

-- A timer that is deleted
del_timer-IsBalanced :
    (b c d : BanoBase) (p : Ptr) → IsBalanced 0 b c → del_timer c p ≡ some d → IsBalanced 0 b d
unfolding del_timer
del_timer-IsBalanced b c d p h e = elim (Option-cases (timer_del c.timers p)) [
  | inl lost ↦ cc (rw (del_timer, lost) at e)
  | inr (ts, deleted) ↦
      let done : record c { timers = ts } ≡ d = cc (rw (del_timer, deleted) at e) in
      rw (← done) (record { sum = h.sum; have_fn = h.have_fn })
]

-- `expire`
pub expire-IsBalanced :
    (b d : BanoBase) (lt lt2 : Option Ptr) (t : Timer)
    → 1 ≤ b.mem.left
    → AllHaveFn b.ios
    → expire b lt t ≡ some (d, lt2)
    → IsBalanced 0 b d
unfolding expire
expire-IsBalanced b d lt lt2 t one have e =
    elim (Bool-cases (elim lt as (λ _. Bool) [ none ↦ false | some p ↦ p == t.at ])) [
      | inl of_loop ↦ elim (Option-cases (del_timer (add_event timer_called b) t.at)) [
        | inl lost ↦ cc (rw (expire, of_loop, lost) at e)
        | inr (c, deleted) ↦
            let same : c ≡ d = cc (rw (expire, of_loop, deleted) at e) in
            del_timer-IsBalanced b (add_event timer_called b) d t.at
              (record { sum = omega arith; have_fn = have }) (rw same at deleted)
      ]
      | inr of_io ↦ elim (Option-cases t.target) [
        | inl unset ↦ cc (rw (expire, of_io, unset) at e)
        | inr (g, is_g) ↦ elim (Option-cases (expire_io b g)) [
          | inl stuck ↦ cc (rw (expire, of_io, is_g, stuck) at e)
          | inr (c, done) ↦ elim (Option-cases (del_timer c t.at)) [
            | inl lost ↦ cc (rw (expire, of_io, is_g, done, lost) at e)
            | inr (f, deleted) ↦
                let same : f ≡ d = cc (rw (expire, of_io, is_g, done, deleted) at e) in
                del_timer-IsBalanced b c d t.at (target-IsBalanced b c g one have done)
                  (rw same at deleted)
          ]
        ]
      ]
    ]
