-- ===== src/Dict/Laws.antt =====
-- The operations of src/base/bano_dict.c, as those of a map from keys to values.
use bano.Base.{
  ℕ, zero, suc, ◌<◌, ◌≡◌, ◌↔◌, ◌≢◌, ◌⊎◌, refl, sym, ◌∙◌, false, Option, none, some, List, [], ◌∷◌,
  ◌++◌, ◌==◌, ==_iff, if◌then◌else◌, arith, Bool-cases, Option-cases, inl, inr,
}
use bano.Dict.{
  DictPair, Dict, take_mem, find_pair_item, set_val, list_del, get_hash, list_at, set_list,
  dict_find_pair, dict_add, dict_set, dict_set_or_add, dict_get, dict_del,
}
use bano.Dict.Buckets.{
  find_val, val_at-find_pair_item, none-IsFresh, find_pair_item_at, find_val-append,
  find_val-set_val, find_val-list_del, AreDistinct-append, AreDistinct-set_val,
  AreDistinct-list_del,
}
use bano.Dict.Wf.{IsDict, get_hash-lt, list_at-set_list, IsDict-set_list}

module _ {V : Type 0} where
  -- Reading a key is reading it in the list of its hash.
  pub dict_get-find_val :
      (d : Dict V) (k : ℕ) → dict_get d k ≡ find_val (list_at d (get_hash d k)) k
  unfolding dict_get dict_find_pair
  dict_get-find_val d k =
      let li = list_at d (get_hash d k) in
      elim (Option-cases (find_pair_item li k)) [
        | inl n ↦ rw (n, dict_get, dict_find_pair) (rw n at (val_at-find_pair_item li k))
        | inr (i, n) ↦ rw (n, dict_get, dict_find_pair) (rw n at (val_at-find_pair_item li k))
      ]

  get_hash-set_list :
      (d : Dict V) (h j : ℕ) (li : List (DictPair V)) → get_hash (set_list d h li) j ≡ get_hash d j
  unfolding get_hash set_list
  get_hash-set_list d h j li = refl

  -- A write to the list of `k` that changes what it gives for `k` alone does so for the dictionary.
  dict_get-set_list :
      (d : Dict V) (k j : ℕ) (li : List (DictPair V)) (o : Option V)
      → IsDict d
      → ((i : ℕ) → find_val li i ≡ (if i == k then o else find_val (list_at d (get_hash d k)) i))
      → dict_get (set_list d (get_hash d k) li) j ≡ (if j == k then o else dict_get d j)
  dict_get-set_list d k j li o w e =
      let h = get_hash d k in
      let lt = get_hash-lt d k w in
      rw
        (
          dict_get-find_val (set_list d h li) j,
          dict_get-find_val d j,
          get_hash-set_list d h j li,
          list_at-set_list d h (get_hash d j) li lt,
        )
        (elim (Bool-cases (get_hash d j == h)) [
          | inl same ↦ rw (same, e j, (==_iff (get_hash d j) h).0 same) refl
          | inr other ↦ elim (Bool-cases (j == k)) [
            | inl key ↦ absurd (hash_differs other ((==_iff j k).0 key))
            | inr apart ↦ rw (other, apart) refl
          ]
        ])
    where
      hash_differs : (get_hash d j == get_hash d k) ≡ false → j ≢ k
      hash_differs other same = ground (arith, rw same at other)

  -- What `find_pair` finds.
  dict_find_pair-some :
      (d : Dict V) (k h i : ℕ)
      → dict_find_pair d k ≡ some (h, i)
      → (h ≡ get_hash d k) × (find_pair_item (list_at d (get_hash d k)) k ≡ some i)
  unfolding dict_find_pair
  dict_find_pair-some d k h i e =
      elim (Option-cases (find_pair_item (list_at d (get_hash d k)) k)) [
        | inl n ↦ cc (rw (n, dict_find_pair) at e)
        | inr (m, n) ↦ let found = rw (n, dict_find_pair) at e in (cc, cc)
      ]

  dict_find_pair-none :
      (d : Dict V) (k : ℕ)
      → dict_find_pair d k ≡ none
      → find_pair_item (list_at d (get_hash d k)) k ≡ none
  unfolding dict_find_pair
  dict_find_pair-none d k e = elim (Option-cases (find_pair_item (list_at d (get_hash d k)) k)) [
    | inl n ↦ n
    | inr (m, n) ↦ cc (rw (n, dict_find_pair) at e)
  ]

  find_val-none :
      (li : List (DictPair V)) (k : ℕ) → find_val li k ≡ none → find_pair_item li k ≡ none
  unfolding find_pair_item
  find_val-none [] k e = refl
  find_val-none (x ∷ xs) k e = ground (arith, find_val-none xs k)

  -- `e` is a well formed dictionary that gives `o` for `k`, and what `d` gives for all other keys.
  pub record Wrote (d : Dict V) (k : ℕ) (o : Option V) (e : Dict V) : Type 0 where
    pub well_formed : IsDict e
    pub gives : (j : ℕ) → dict_get e j ≡ (if j == k then o else dict_get d j)

  dict_set-Wrote :
      (d e : Dict V) (k : ℕ) (v : V) → IsDict d → dict_set d k v ≡ some e → Wrote d k (some v) e
  unfolding dict_set
  dict_set-Wrote d e k v w h = elim (Option-cases (dict_find_pair d k)) [
    | inl n ↦ cc (rw (n, dict_set) at h)
    | inr ((a, i), n) ↦
        let (same, found) = dict_find_pair-some d k a i n in
        let li = list_at d (get_hash d k) in
        let is_e : set_list d (get_hash d k) (set_val li i v) ≡ e =
          cc (rw (n, dict_set) at h, same) in
        rw (← is_e) (record {
          well_formed =
              IsDict-set_list d (get_hash d k) (set_val li i v) w (get_hash-lt d k w)
                (AreDistinct-set_val li i v (w.distinct (get_hash d k)));
          gives = λ j.
              dict_get-set_list d k j (set_val li i v) (some v) w
                (λ m. find_val-set_val li k m i v found);
        })
  ]

  dict_add-Wrote :
      (mem left : ℕ) (d e : Dict V) (k : ℕ) (v : V)
      → IsDict d
      → dict_find_pair d k ≡ none
      → dict_add mem d k v ≡ some (left, e)
      → Wrote d k (some v) e
  unfolding dict_add take_mem
  dict_add-Wrote (suc (suc mem)) left d e k v w n h =
      let li = list_at d (get_hash d k) in
      let fresh = none-IsFresh k li (dict_find_pair-none d k n) in
      let more = li ++ record { key = k; val = v } ∷ [] in
      let is_e : set_list d (get_hash d k) more ≡ e = cc h in
      rw (← is_e) (record {
        well_formed =
            IsDict-set_list d (get_hash d k) more w (get_hash-lt d k w)
              (AreDistinct-append li k v fresh (w.distinct (get_hash d k)));
        gives = λ j. dict_get-set_list d k j more (some v) w (λ m. find_val-append li k m v fresh);
      })
  dict_add-Wrote (suc zero) left d e k v w n h = cc
  dict_add-Wrote zero left d e k v w n h = cc

  dict_set-none : (d : Dict V) (k : ℕ) (v : V) → dict_set d k v ≡ none → dict_find_pair d k ≡ none
  unfolding dict_set
  dict_set-none d k v h = elim (Option-cases (dict_find_pair d k)) [
    | inl n ↦ n
    | inr (x, n) ↦ cc (rw (n, dict_set) at h)
  ]

  -- Where `bano_dict_set_or_add` returns 0 on a well formed dictionary, it leaves a well formed
  -- one that holds the value for the key, and for every other key what it held before.
  pub dict_set_or_add-Wrote :
      (mem left : ℕ) (d e : Dict V) (k : ℕ) (v : V)
      → IsDict d
      → dict_set_or_add mem d k v ≡ some (left, e)
      → Wrote d k (some v) e
  unfolding dict_set_or_add
  dict_set_or_add-Wrote mem left d e k v w h = elim (Option-cases (dict_set d k v)) [
    | inl n ↦
        dict_add-Wrote mem left d e k v w (dict_set-none d k v n) (rw (n, dict_set_or_add) at h)
    | inr (f, n) ↦
        let is_e : f ≡ e = cc (rw (n, dict_set_or_add) at h) in
        rw (← is_e) (dict_set-Wrote d f k v w n)
  ]

  dict_get-none : (d : Dict V) (k : ℕ) → dict_get d k ≡ none → dict_find_pair d k ≡ none
  unfolding dict_find_pair
  dict_get-none d k e =
      rw
        (
          find_val-none (list_at d (get_hash d k)) k (sym (dict_get-find_val d k) ∙ e),
          dict_find_pair,
        )
        refl

  dict_get-find_none : (d : Dict V) (k : ℕ) → dict_find_pair d k ≡ none → dict_get d k ≡ none
  unfolding dict_get
  dict_get-find_none d k n = rw (n, dict_get) refl

  dict_add_fails : (mem : ℕ) (d : Dict V) (k : ℕ) (v : V) → (dict_add mem d k v ≡ none) ↔ (mem < 2)
  unfolding dict_add take_mem
  dict_add_fails zero d k v = ((λ e. omega arith), (λ lt. refl))
  dict_add_fails (suc zero) d k v = ((λ e. omega arith), (λ lt. refl))
  dict_add_fails (suc (suc mem)) d k v = ((λ e. cc), (λ lt. absurd (omega arith)))

  -- `bano_dict_set_or_add` fails exactly where the key has no value yet and less than two requests
  -- of memory are left.
  pub dict_set_or_add_fails :
      (mem : ℕ) (d : Dict V) (k : ℕ) (v : V)
      → (dict_set_or_add mem d k v ≡ none) ↔ ((dict_get d k ≡ none) × (mem < 2))
  unfolding dict_set_or_add dict_set
  dict_set_or_add_fails mem d k v = elim (Option-cases (dict_find_pair d k)) [
    | inl n ↦
        let no_value = dict_get-find_none d k n in
        let (to, from) = dict_add_fails mem d k v in
        rw (n, dict_set_or_add, dict_set) ((λ e. (no_value, to e)), (λ (u, lt). from lt))
    | inr (x, n) ↦
        let found = λ (e : dict_get d k ≡ none). dict_get-none d k e in
        rw (n, dict_set_or_add, dict_set) ((λ e. cc), (λ (u, lt). cc (found u, n)))
  ]

  -- `bano_dict_del` on a well formed dictionary fails exactly where the key has no value; else its
  -- callback gets the pair, and what is left is well formed, without a value for the key and with
  -- the same for all others.
  pub dict_del-Wrote :
      (d : Dict V) (k : ℕ)
      → IsDict d
      → ((dict_del d k ≡ none) × (dict_get d k ≡ none))
        ⊎ ((x : DictPair V) × (e : Dict V) × (dict_del d k ≡ some (some x, e))
            × (dict_get d k ≡ some x.val)
            × Wrote d k none e)
  unfolding dict_del dict_get
  dict_del-Wrote d k w = elim (Option-cases (dict_find_pair d k)) [
    | inl n ↦ inl (rw (n, dict_del) refl, dict_get-find_none d k n)
    | inr ((a, i), n) ↦
        let (same, found) = dict_find_pair-some d k a i n in
        let h = get_hash d k in
        let li = list_at d h in
        let (x, is_x, has_k) = find_pair_item_at li k i found in
        let e = set_list d h (list_del li i) in
        inr (
          x,
          e,
          rw (n, same, dict_del, is_x) refl,
          rw (n, same, dict_get, is_x) refl,
          record {
            well_formed =
                IsDict-set_list d h (list_del li i) w (get_hash-lt d k w)
                  (AreDistinct-list_del li i (w.distinct h));
            gives = λ j.
                dict_get-set_list d k j (list_del li i) none w
                  (λ m. find_val-list_del li k m i (w.distinct h) found);
          },
        )
  ]
