-- ===== src/Nodl/Agree.antt =====
-- The search of src/base/bano_nodl.c over all lists, beside the lookup by hash.
use bano.Base.{
  ℕ, zero, suc, ◌≡◌, refl, sym, ap, ◌∙◌, false, none, List, [], ◌∷◌, ◌==◌, ==_iff, get_or, arith,
  Bool-cases, Option-cases, inl, inr,
}
use bano.Dict.{DictPair, get_hash, list_at, dict_get}
use bano.Dict.Buckets.{find_val, IsFresh, IsFresh-find_val}
use bano.Dict.Laws.{dict_get-find_val}
use bano.Nodl.{Keyval, Nodl, find_keyval_item, find_in_lists, nodl_find_key}

-- Each pair is in the list of its hash `h`, under the key of its description.
abbrev pub ArePlaced : Nodl → ℕ → List (DictPair Keyval) → Type 0
ArePlaced d h [] = Unit {0}
ArePlaced d h (x ∷ xs) = (get_hash d x.key ≡ h) × (x.val.key ≡ x.key) × ArePlaced d h xs

-- What `bano_dict_add` and `apply_nodl_struct` see to.
abbrev pub IsPlaced : Nodl → Type 0
IsPlaced d = (h : ℕ) → ArePlaced d h (list_at d h)

find_keyval_item-find_val :
    (d : Nodl) (h : ℕ) (li : List (DictPair Keyval)) (k : ℕ)
    → ArePlaced d h li
    → find_keyval_item li k ≡ find_val li k
unfolding find_keyval_item
find_keyval_item-find_val d h [] k p = refl
find_keyval_item-find_val d h (x ∷ xs) k p =
    rw (p.1) (ground (arith, find_keyval_item-find_val d h xs k p.2))

-- A key with another hash is not in the list.
ArePlaced-IsFresh :
    (d : Nodl) (h : ℕ) (li : List (DictPair Keyval)) (k : ℕ)
    → (h == get_hash d k) ≡ false
    → ArePlaced d h li
    → IsFresh k li
ArePlaced-IsFresh d h [] k ne p = tt
ArePlaced-IsFresh d h (x ∷ xs) k ne p = (
  elim (Bool-cases (k == x.key)) [
    | inl same ↦
        let e : h ≡ get_hash d k = sym p.0 ∙ ap (get_hash d) (sym ((==_iff k x.key).0 same)) in
        cc ((==_iff h (get_hash d k)).1 e, ne)
    | inr other ↦ other
  ],
  ArePlaced-IsFresh d h xs k ne p.2,
)

-- Lists that do not have the key are passed over.
find_in_lists-none :
    (ls : List (List (DictPair Keyval))) (k : ℕ)
    → ((i : ℕ) → find_keyval_item (get_or ls i []) k ≡ none)
    → find_in_lists ls k ≡ none
unfolding find_in_lists
find_in_lists-none [] k h = refl
find_in_lists-none (l ∷ ls) k h =
    rw (find_in_lists, h zero) (find_in_lists-none ls k (λ i. h (suc i)))

find_in_lists-at :
    (ls : List (List (DictPair Keyval))) (k h : ℕ)
    → ((i : ℕ) → (i == h) ≡ false → find_keyval_item (get_or ls i []) k ≡ none)
    → find_in_lists ls k ≡ find_keyval_item (get_or ls h []) k
unfolding find_in_lists find_keyval_item
find_in_lists-at [] k h others = refl
find_in_lists-at (l ∷ ls) k zero others = elim (Option-cases (find_keyval_item l k)) [
  | inl n ↦ rw (find_in_lists, n) (find_in_lists-none ls k (λ i. others (suc i) (ground arith)))
  | inr (kv, n) ↦ rw (find_in_lists, n) refl
]
find_in_lists-at (l ∷ ls) k (suc h) others =
    rw (find_in_lists, others zero (ground arith))
      (find_in_lists-at ls k h (λ i ne. others (suc i) (ground (arith, ne))))

-- `bano_nodl_find_key`, which searches all lists, finds what the dictionary holds for the key by
-- hash, or none where it holds none, if each pair is in the list of its hash under the key of its
-- description.
pub nodl_find_key-dict_get : (d : Nodl) (k : ℕ) → IsPlaced d → nodl_find_key d k ≡ dict_get d k
unfolding nodl_find_key list_at
nodl_find_key-dict_get d k p =
    let h = get_hash d k in
    let other = λ (i : ℕ). λ (ne : (i == h) ≡ false).
      find_keyval_item-find_val d i (list_at d i) k (p i)
      ∙ IsFresh-find_val k (list_at d i) (ArePlaced-IsFresh d i (list_at d i) k ne (p i)) in
    find_in_lists-at d.lists k h other
    ∙ find_keyval_item-find_val d h (list_at d h) k (p h)
    ∙ sym (dict_get-find_val d k)
