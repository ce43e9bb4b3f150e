-- ===== src/Dict/Wf.antt =====
-- When a dictionary of src/base/bano_dict.c is well formed, and reads and writes of its lists.
use bano.Base.{
  ℕ, zero, suc, ◌^◌, ◌<◌, ◌≤◌, ◌≡◌, refl, ◌∙◌, List, [], ◌∷◌, ◌==◌, if◌then◌else◌, length, get_or,
  set, length-set, arith, Bool-cases, inl, inr,
}
use bano.Dict.{DictPair, Dict, get_hash, list_at, set_list}
use bano.Dict.Buckets.{AreDistinct}
use bano.Dict.Hash.{hash_32_to_n-lt}

get_or-set :
    {A : Type 0} (xs : List A) (h j : ℕ) (y d : A)
    → h < length xs
    → get_or (set xs h y) j d ≡ (if j == h then y else get_or xs j d)
get_or-set [] h j y d lt = absurd (omega arith)
get_or-set (x ∷ xs) zero zero y d lt = refl
get_or-set (x ∷ xs) zero (suc j) y d lt = ground arith
get_or-set (x ∷ xs) (suc h) zero y d lt = ground arith
get_or-set (x ∷ xs) (suc h) (suc j) y d lt = ground (arith, get_or-set xs h j y d (omega arith))

module _ {V : Type 0} where
  -- There are `2 ^ log2_nlist` lists, and no list has two pairs with the same key.
  pub record IsDict (d : Dict V) : Type 0 where
    pub few : d.log2_nlist ≤ 32
    pub all_lists : length d.lists ≡ 2 ^ d.log2_nlist
    pub distinct : (h : ℕ) → AreDistinct (list_at d h)

  pub get_hash-lt : (d : Dict V) (k : ℕ) → IsDict d → get_hash d k < length d.lists
  unfolding get_hash
  get_hash-lt d k h = rw (h.all_lists) (hash_32_to_n-lt k d.log2_nlist h.few)

  pub list_at-set_list :
      (d : Dict V) (h j : ℕ) (li : List (DictPair V))
      → h < length d.lists
      → list_at (set_list d h li) j ≡ (if j == h then li else list_at d j)
  unfolding list_at set_list
  list_at-set_list d h j li lt = get_or-set d.lists h j li [] lt

  pub IsDict-set_list :
      (d : Dict V) (h : ℕ) (li : List (DictPair V))
      → IsDict d
      → h < length d.lists
      → AreDistinct li
      → IsDict (set_list d h li)
  unfolding set_list
  IsDict-set_list d h li w lt a = record {
    few = w.few;
    all_lists = length-set d.lists h li ∙ w.all_lists;
    distinct = λ j. elim (Bool-cases (j == h)) [
      | inl e ↦ rw (list_at-set_list d h j li lt, e) a
      | inr e ↦ rw (list_at-set_list d h j li lt, e) (w.distinct j)
    ];
  }
