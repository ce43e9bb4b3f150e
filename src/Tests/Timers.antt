-- ===== src/Tests/Timers.antt =====
-- src/base/bano_timer.c on a few timers.
use bano.Base.{ℕ, ◌≡◌, refl, true, none, some, List, [], ◌∷◌, arith}
use bano.Items.{Ptr}
use bano.Timers.{Timer, Mem, timer_add, timer_del}
use bano.Timers.Dues.{dues, insert_due, earlier, timer_add-dues, timer_del-dues}

abbrev timer : Ptr → ℕ → Timer
timer p ms = record { at = p; rel_ms = ms; target = none; linked = true }

abbrev mem : Mem
mem = record { left = 5; fresh = 9 }

timer_add-dues_example :
    (k : Mem) × (us : List Timer) × (timer_add mem (timer 1 1000 ∷ timer 2 700 ∷ []) 1500
      ≡ some (k, us, some 9))
    × (dues 0 us ≡ insert_due (9, 1500) ((1, 1000) ∷ (2, 1700) ∷ []))
timer_add-dues_example =
    timer_add-dues mem (timer 1 1000 ∷ timer 2 700 ∷ []) 1500 (omega arith) (refl, (refl, tt))
      (omega arith) (omega arith)

timer_del-dues_example :
    (us : List Timer) × (timer_del (timer 1 1000 ∷ timer 2 700 ∷ []) 1 ≡ some us)
    × (dues 0 us ≡ earlier 1000 (dues 1000 (timer 2 700 ∷ [])))
timer_del-dues_example = timer_del-dues [] (timer 2 700 ∷ []) (timer 1 1000) (refl, (refl, tt)) refl
