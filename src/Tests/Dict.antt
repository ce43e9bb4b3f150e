-- ===== src/Tests/Dict.antt =====
-- src/base/bano_dict.c on a few keys.
use bano.Base.{ℕ, zero, suc, ◌≡◌, refl, some, [], ◌∷◌, arith, add32, sub32}
use bano.Dict.{
  Dict, hash_32_to_n, take_mem, find_pair_item, set_val, get_hash, list_at, set_list,
  dict_find_pair, dict_add, dict_set, dict_set_or_add,
}
use bano.Dict.Buckets.{AreDistinct}
use bano.Dict.Wf.{IsDict}
use bano.Dict.Laws.{Wrote, dict_set_or_add-Wrote}

abbrev empty : Dict ℕ
empty = record { lists = [] ∷ [] ∷ []; log2_nlist = 1 }

empty-distinct : (h : ℕ) → AreDistinct (list_at empty h)
unfolding list_at
empty-distinct zero = tt
empty-distinct (suc zero) = tt
empty-distinct (suc (suc h)) = tt

empty-IsDict : IsDict empty
empty-IsDict = record { few = omega arith; all_lists = refl; distinct = empty-distinct }

abbrev one : Dict ℕ
one = record { lists = (record { key = 7; val = 1 } ∷ []) ∷ [] ∷ []; log2_nlist = 1 }

set_run : dict_set_or_add 5 empty 7 1 ≡ some (3, one)
unfolding dict_set_or_add dict_set dict_add dict_find_pair get_hash hash_32_to_n list_at set_list
    take_mem find_pair_item set_val add32 sub32
set_run = refl

dict_set_or_add-Wrote_example : Wrote empty 7 (some 1) one
dict_set_or_add-Wrote_example = dict_set_or_add-Wrote 5 3 empty one 7 1 empty-IsDict set_run
