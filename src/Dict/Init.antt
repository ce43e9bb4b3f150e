-- ===== src/Dict/Init.antt =====
-- A new dictionary of src/base/bano_dict.c.
use bano.Base.{ℕ, zero, suc, ◌^◌, ◌≤◌, ◌≡◌, refl, ap, none, some, [], length, get_or}
use bano.Dict.{DictPair, Dict, take_mem, init_lists, init_with_nlist, get_hash, list_at, dict_get}
use bano.Dict.Laws.{dict_get-find_val}
use bano.Dict.Wf.{IsDict}

length-init_lists : (A : Type 0) (n : ℕ) → length (init_lists {A = A} n) ≡ n
unfolding init_lists
length-init_lists A zero = refl
length-init_lists A (suc n) = ap suc (length-init_lists A n)

module _ {V : Type 0} where
  get_or-init_lists : (n h : ℕ) → get_or (init_lists {A = DictPair V} n) h [] ≡ []
  unfolding init_lists
  get_or-init_lists zero h = refl
  get_or-init_lists (suc n) zero = refl
  get_or-init_lists (suc n) (suc h) = get_or-init_lists n h

  -- `bano_dict_init_with_nlist` with memory for its lists, at most 2 ^ 32, returns 0, and leaves a
  -- well formed dictionary in which no key has a value.
  pub init_with_nlist-IsDict :
      (mem n : ℕ)
      → n ≤ 32
      → (d : Dict V) × (init_with_nlist (suc mem) n ≡ some (mem, d))
        × IsDict d
        × ((k : ℕ) → dict_get d k ≡ none)
  unfolding init_with_nlist take_mem list_at
  init_with_nlist-IsDict mem n small =
      let d : Dict V = record { lists = init_lists (2 ^ n); log2_nlist = n } in
      let empty = λ (h : ℕ). get_or-init_lists (2 ^ n) h in
      (
        d,
        refl,
        record {
          few = small;
          all_lists = length-init_lists (DictPair V) (2 ^ n);
          distinct = λ h. rw (empty h) tt;
        },
        λ k. rw (dict_get-find_val d k, empty (get_hash d k)) refl,
      )
