-- ===== src/Tests/Items.antt =====
-- src/base/bano_list.c on a list of two items.
use bano.Base.{ℕ, ◌≢◌, refl, none, some, List, [], ◌∷◌, ◌==◌, if◌then◌else◌}
use bano.Items.{Ptr, BanoList, Heap}
use bano.Items.Seg.{Seg}
use bano.Items.Refine.{IsList, Deleted, del-IsList}
use bano.Items.Before.{LosesFront, del-add_before}

abbrev heap : Heap ℕ
heap a =
    if a == 1
    then some (record { data_at = 10; next = 2; prev = 0 })
    else if a == 2
    then some (record { data_at = 20; next = 0; prev = 1 })
    else none

abbrev two : BanoList
two = record { head = 1; tail = 2 }

abbrev items : List (Ptr × ℕ)
items = (1, 10) ∷ (2, 20) ∷ []

two-IsList : IsList heap two items
two-IsList = Seg.cons refl (λ e. cc) refl (Seg.cons refl (λ e. cc) refl Seg.nil)

del-IsList_example : Deleted heap two ((1, 10) ∷ []) [] 2 20
del-IsList_example = del-IsList heap two ((1, 10) ∷ []) [] 2 20 two-IsList

abbrev third : Ptr
third = 3

not_null : third ≢ 0
not_null e = cc

del-add_before_example : LosesFront heap two 2 3 30
del-add_before_example = del-add_before heap two (1, 10) [] [] 2 3 30 20 two-IsList refl
