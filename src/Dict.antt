-- ===== src/Dict.antt =====
-- src/base/bano_dict.c: a table of lists of pairs, indexed by a hash of the key. A list of
-- src/base/bano_list.c is the sequence of what its items hold, an item is its index. `malloc`
-- grants a number of requests, `none` is the result -1, and values of `val_size` bytes are of a
-- type V.
pub mod Hash
pub mod Buckets
pub mod Laws
pub mod Init
pub mod Wf
use bano.Base.{
  ℕ, zero, suc, ◌+◌, ◌-◌, ◌*◌, ◌/◌, ◌%◌, ◌^◌, Bool, true, false, not, Option, none, some, List, [],
  ◌∷◌, ◌++◌, ◌==◌, if◌then◌else◌, get_or, get_elem?, set, bit_xor, add32, sub32,
}

-- `hash_32_to_n`
unfoldable pub hash_32_to_n : ℕ → ℕ → ℕ
hash_32_to_n k n =
    let k1 = add32 (add32 k 0x479ab41d) (k * 2 ^ 8 % 2 ^ 32) in
    let k2 = bit_xor (bit_xor k1 0xe4aa10ce) (k1 / 2 ^ 5) in
    let k3 = sub32 (add32 k2 0x9942f0a6) (k2 * 2 ^ 14 % 2 ^ 32) in
    let k4 = bit_xor (bit_xor k3 0x5aedd67d) (k3 / 2 ^ 3) in
    let k5 = add32 (add32 k4 0x17bea992) (k4 * 2 ^ 7 % 2 ^ 32) in k5 / 2 ^ (32 - n)

module _ (V : Type 0) where
  -- `bano_dict_pair_t`
  pub record DictPair : Type 0 where
    pub key : ℕ
    pub val : V

  -- `bano_dict_t`; `val_size` is the type V.
  pub record Dict : Type 0 where
    pub lists : List (List DictPair)
    pub log2_nlist : ℕ

-- `nlist` empty lists
unfoldable pub init_lists : {A : Type 0} → ℕ → List (List A)
init_lists zero = []
init_lists (suc n) = [] ∷ init_lists n

-- `mem` requests are left behind a request.
unfoldable pub take_mem : ℕ → Option ℕ
take_mem zero = none
take_mem (suc mem) = some mem

-- `find_pair_item` under `bano_list_foreach`
unfoldable pub find_pair_item : {V : Type 0} → List (DictPair V) → ℕ → Option ℕ
find_pair_item [] k = none
find_pair_item (x ∷ xs) k =
    let rest : Option ℕ = elim (find_pair_item xs k) [ none ↦ none | some i ↦ some (suc i) ] in
    if not (k == x.key) then rest else some 0

-- The item's value is replaced.
unfoldable pub set_val : {V : Type 0} → List (DictPair V) → ℕ → V → List (DictPair V)
set_val [] i v = []
set_val (x ∷ xs) zero v = record x { val = v } ∷ xs
set_val (x ∷ xs) (suc i) v = x ∷ set_val xs i v

-- `bano_list_del`
unfoldable pub list_del : {A : Type 0} → List A → ℕ → List A
list_del [] i = []
list_del (x ∷ xs) zero = xs
list_del (x ∷ xs) (suc i) = x ∷ list_del xs i

-- `bano_dict_init_with_nlist`
unfoldable pub init_with_nlist : {V : Type 0} → ℕ → ℕ → Option (ℕ × Dict V)
init_with_nlist mem n = elim (take_mem mem) [
  | none ↦ none
  | some left ↦ some (left, record { lists = init_lists (2 ^ n); log2_nlist = n })
]

-- `bano_dict_init`
unfoldable pub dict_init : {V : Type 0} → ℕ → Option (ℕ × Dict V)
dict_init mem = init_with_nlist mem 3

module _ {V : Type 0} where
  unfoldable pub get_hash : Dict V → ℕ → ℕ
  get_hash d k = hash_32_to_n k d.log2_nlist

  -- `d->lists[h]`
  unfoldable pub list_at : Dict V → ℕ → List (DictPair V)
  list_at d h = get_or d.lists h []

  unfoldable pub set_list : Dict V → ℕ → List (DictPair V) → Dict V
  set_list d h li = record d { lists = set d.lists h li }

  -- `find_pair`: the list's index and the item's
  unfoldable pub dict_find_pair : Dict V → ℕ → Option (ℕ × ℕ)
  dict_find_pair d k =
      let h = get_hash d k in
      elim (find_pair_item (list_at d h) k) [ none ↦ none | some i ↦ some (h, i) ]

  -- `bano_dict_add`, and the value that the caller writes at `*v`. A pair whose list item is refused
  -- is freed again.
  unfoldable pub dict_add : ℕ → Dict V → ℕ → V → Option (ℕ × Dict V)
  dict_add mem d k v =
      let h = get_hash d k in
      elim (take_mem mem) [
        | none ↦ none
        | some left ↦ elim (take_mem left) [
          | none ↦ none
          | some last ↦ some (last, set_list d h (list_at d h ++ record { key = k; val = v } ∷ []))
        ]
      ]

  -- `bano_dict_set`
  unfoldable pub dict_set : Dict V → ℕ → V → Option (Dict V)
  dict_set d k v = elim (dict_find_pair d k) [
    | none ↦ none
    | some (h, i) ↦ some (set_list d h (set_val (list_at d h) i v))
  ]

  -- `bano_dict_set_or_add`
  unfoldable pub dict_set_or_add : ℕ → Dict V → ℕ → V → Option (ℕ × Dict V)
  dict_set_or_add mem d k v = elim (dict_set d k v) [
    | some e ↦ some (mem, e)
    | none ↦ dict_add mem d k v
  ]

  -- `bano_dict_get`, and what is at the pointer that it returns
  unfoldable pub dict_get : Dict V → ℕ → Option V
  dict_get d k = elim (dict_find_pair d k) [
    | none ↦ none
    | some (h, i) ↦ elim (get_elem? (list_at d h) i) [ none ↦ none | some x ↦ some x.val ]
  ]

  -- `bano_dict_del`, whose callback gets the pair: the pair, and the dictionary without it
  unfoldable pub dict_del : Dict V → ℕ → Option (Option (DictPair V) × Dict V)
  dict_del d k = elim (dict_find_pair d k) [
    | none ↦ none
    | some (h, i) ↦ some (get_elem? (list_at d h) i, set_list d h (list_del (list_at d h) i))
  ]
