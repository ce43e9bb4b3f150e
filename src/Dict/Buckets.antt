-- ===== src/Dict/Buckets.antt =====
-- One list of a dictionary of src/base/bano_dict.c, as a map from keys to values.
use bano.Base.{
  ℕ, zero, suc, ◌≡◌, ◌⊎◌, refl, true, false, Option, none, some, List, [], ◌∷◌, ◌++◌, ◌==◌,
  if◌then◌else◌, get_elem?, arith, Bool-cases, Option-cases, inl, inr,
}
use bano.Dict.{DictPair, find_pair_item, set_val, list_del}

module _ {V : Type 0} where
  -- The value of the first pair with the key.
  abbrev pub find_val : List (DictPair V) → ℕ → Option V
  find_val [] k = none
  find_val (x ∷ xs) k = let rest = find_val xs k in if k == x.key then some x.val else rest

  -- No pair has the key.
  abbrev pub IsFresh : ℕ → List (DictPair V) → Type 0
  IsFresh k [] = Unit {0}
  IsFresh k (x ∷ xs) = ((k == x.key) ≡ false) × IsFresh k xs

  -- No two pairs have the same key.
  abbrev pub AreDistinct : List (DictPair V) → Type 0
  AreDistinct [] = Unit {0}
  AreDistinct (x ∷ xs) = IsFresh x.key xs × AreDistinct xs

  -- The value at the index that `find_pair_item` finds.
  abbrev pub val_at : List (DictPair V) → Option ℕ → Option V
  val_at li none = none
  val_at li (some i) = elim (get_elem? li i) [ none ↦ none | some x ↦ some x.val ]

  pub val_at-find_pair_item :
      (li : List (DictPair V)) (k : ℕ) → val_at li (find_pair_item li k) ≡ find_val li k
  unfolding find_pair_item
  val_at-find_pair_item [] k = refl
  val_at-find_pair_item (x ∷ xs) k =
      let ih = val_at-find_pair_item xs k in
      elim (Bool-cases (k == x.key)) [
        | inl e ↦ rw e
        | inr e ↦ elim (Option-cases (find_pair_item xs k)) [
          | inl n ↦ rw (e, n) (rw n at ih)
          | inr (i, n) ↦ rw (e, n) (rw n at ih)
        ]
      ]

  pub IsFresh-find_val : (k : ℕ) (li : List (DictPair V)) → IsFresh k li → find_val li k ≡ none
  IsFresh-find_val k [] h = refl
  IsFresh-find_val k (x ∷ xs) h = rw (h.0) (IsFresh-find_val k xs h.1)

  pub none-IsFresh : (k : ℕ) (li : List (DictPair V)) → find_pair_item li k ≡ none → IsFresh k li
  unfolding find_pair_item
  none-IsFresh k [] h = tt
  none-IsFresh k (x ∷ xs) h = elim (Bool-cases (k == x.key)) [
    | inl e ↦ cc (rw e at h)
    | inr e ↦ elim (Option-cases (find_pair_item xs k)) [
      | inl n ↦ (e, none-IsFresh k xs n)
      | inr (i, n) ↦ cc (rw (e, n) at h)
    ]
  ]

  IsFresh-append :
      (li : List (DictPair V)) (j k : ℕ) (v : V)
      → (j == k) ≡ false
      → IsFresh j li
      → IsFresh j (li ++ record { key = k; val = v } ∷ [])
  IsFresh-append [] j k v e h = (e, tt)
  IsFresh-append (x ∷ xs) j k v e h = (h.0, IsFresh-append xs j k v e h.1)

  pub AreDistinct-append :
      (li : List (DictPair V)) (k : ℕ) (v : V)
      → IsFresh k li
      → AreDistinct li
      → AreDistinct (li ++ record { key = k; val = v } ∷ [])
  AreDistinct-append [] k v h d = (tt, tt)
  AreDistinct-append (x ∷ xs) k v h d =
      let e : (x.key == k) ≡ false = ground (arith, h.0) in
      (IsFresh-append xs x.key k v e d.0, AreDistinct-append xs k v h.1 d.1)

  IsFresh-set_val :
      (li : List (DictPair V)) (j i : ℕ) (v : V) → IsFresh j li → IsFresh j (set_val li i v)
  unfolding set_val
  IsFresh-set_val [] j i v h = tt
  IsFresh-set_val (x ∷ xs) j zero v h = h
  IsFresh-set_val (x ∷ xs) j (suc i) v h = (h.0, IsFresh-set_val xs j i v h.1)

  pub AreDistinct-set_val :
      (li : List (DictPair V)) (i : ℕ) (v : V) → AreDistinct li → AreDistinct (set_val li i v)
  unfolding set_val
  AreDistinct-set_val [] i v d = tt
  AreDistinct-set_val (x ∷ xs) zero v d = d
  AreDistinct-set_val (x ∷ xs) (suc i) v d =
      (IsFresh-set_val xs x.key i v d.0, AreDistinct-set_val xs i v d.1)

  IsFresh-list_del : (li : List (DictPair V)) (j i : ℕ) → IsFresh j li → IsFresh j (list_del li i)
  unfolding list_del
  IsFresh-list_del [] j i h = tt
  IsFresh-list_del (x ∷ xs) j zero h = h.1
  IsFresh-list_del (x ∷ xs) j (suc i) h = (h.0, IsFresh-list_del xs j i h.1)

  pub AreDistinct-list_del :
      (li : List (DictPair V)) (i : ℕ) → AreDistinct li → AreDistinct (list_del li i)
  unfolding list_del
  AreDistinct-list_del [] i d = tt
  AreDistinct-list_del (x ∷ xs) zero d = d.1
  AreDistinct-list_del (x ∷ xs) (suc i) d =
      (IsFresh-list_del xs x.key i d.0, AreDistinct-list_del xs i d.1)

  -- What `dict_add` makes of the list.
  pub find_val-append :
      (li : List (DictPair V)) (k j : ℕ) (v : V)
      → IsFresh k li
      → find_val (li ++ record { key = k; val = v } ∷ []) j
        ≡ (if j == k then some v else find_val li j)
  find_val-append [] k j v h = refl
  find_val-append (x ∷ xs) k j v h = ground (arith, find_val-append xs k j v h.1, h.0)

  found_cons :
      (x : DictPair V) (xs : List (DictPair V)) (k i : ℕ)
      → find_pair_item (x ∷ xs) k ≡ some i
      → (((k == x.key) ≡ true) × (i ≡ 0))
        ⊎ (((k == x.key) ≡ false) × ((n : ℕ) × (find_pair_item xs k ≡ some n) × (i ≡ suc n)))
  unfolding find_pair_item
  found_cons x xs k i h = elim (Bool-cases (k == x.key)) [
    | inl e ↦ inl (e, ground (arith, rw e at h))
    | inr e ↦ elim (Option-cases (find_pair_item xs k)) [
      | inl n ↦ cc (rw (e, n) at h)
      | inr (m, n) ↦ inr (e, (m, n, ground (arith, rw (e, n) at h)))
    ]
  ]

  -- The index that `find_pair_item` finds is that of a pair with the key.
  pub find_pair_item_at :
      (li : List (DictPair V)) (k i : ℕ)
      → find_pair_item li k ≡ some i
      → (x : DictPair V) × (get_elem? li i ≡ some x) × (x.key ≡ k)
  unfolding find_pair_item
  find_pair_item_at [] k i h = cc
  find_pair_item_at (x ∷ xs) k i h = elim (found_cons x xs k i h) [
    | inl (e, z) ↦ rw z (x, refl, ground arith)
    | inr (e, (n, f, z)) ↦ rw z (find_pair_item_at xs k n f)
  ]

  -- What `dict_set` makes of the list.
  pub find_val-set_val :
      (li : List (DictPair V)) (k j i : ℕ) (v : V)
      → find_pair_item li k ≡ some i
      → find_val (set_val li i v) j ≡ (if j == k then some v else find_val li j)
  unfolding find_pair_item set_val
  find_val-set_val [] k j i v h = cc
  find_val-set_val (x ∷ xs) k j i v h = elim (found_cons x xs k i h) [
    | inl (e, z) ↦ rw z (ground arith)
    | inr (e, (n, f, z)) ↦ rw z (ground (arith, find_val-set_val xs k j n v f))
  ]

  -- What `dict_del` makes of the list.
  pub find_val-list_del :
      (li : List (DictPair V)) (k j i : ℕ)
      → AreDistinct li
      → find_pair_item li k ≡ some i
      → find_val (list_del li i) j ≡ (if j == k then none else find_val li j)
  unfolding find_pair_item list_del
  find_val-list_del [] k j i d h = cc
  find_val-list_del (x ∷ xs) k j i d h = elim (found_cons x xs k i h) [
    | inl (e, z) ↦ rw z (deleted e)
    | inr (e, (n, f, z)) ↦ rw z (ground (arith, find_val-list_del xs k j n d.1 f))
  ]
    where
      j_is_key : (k == x.key) ≡ true → (j == k) ≡ true → j ≡ x.key
      j_is_key e same = ground arith

      deleted :
          (k == x.key) ≡ true
          → find_val xs j
            ≡ (if j == k then none else if j == x.key then some x.val else find_val xs j)
      deleted e = elim (Bool-cases (j == k)) [
        | inl same ↦ rw same (IsFresh-find_val j xs (rw (← j_is_key e same) at d.0))
        | inr other ↦ ground arith
      ]
