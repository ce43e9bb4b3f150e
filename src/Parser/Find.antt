-- ===== src/Parser/Find.antt =====
-- `bano_parser_find_struct` and `bano_parser_find_pair` of src/base/bano_parser.c. A list item is
-- its index in the list; `*itp` is NULL or the item behind which the search starts.
use bano.Base.{
  ℕ, ◌+◌, ◌-◌, ◌≤◌, ◌<◌, ◌≡◌, refl, ap, ◌∙◌, ◌==◌, ==_iff, drop-add, get_elem?-add, inl, inr, true,
  false, Option, none, some, List, [], ◌∷◌, Bytes, arith, drop, get_elem?, if◌then◌else◌,
  Bool-cases,
}
use bano.Strings.{BanoString, cmp_cstr}
use bano.Parser.Structs.{Pair, Struct}

-- `bano_list_foreach_at` with `find_item`, at an item with the index `i`
pub find_item : List BanoString → Bytes → ℕ → Option ℕ
find_item [] name i = none
find_item (x ∷ xs) name i =
    let rest = find_item xs name (i + 1) in if cmp_cstr x name then some i else rest

-- The index of the item at which the search starts.
abbrev pub start : Option ℕ → ℕ
start none = 0
start (some i) = i + 1

abbrev pub names : List Struct → List BanoString
names [] = []
names (x ∷ xs) = x.name ∷ names xs

abbrev pub keys : List Pair → List BanoString
keys [] = []
keys (x ∷ xs) = x.key ∷ keys xs

pub find_struct : List Struct → Option ℕ → Bytes → Option ℕ
unfolding find_item
find_struct structs it name = find_item (drop (start it) (names structs)) name (start it)

pub find_pair : List Pair → Option ℕ → Bytes → Option ℕ
unfolding find_item
find_pair pairs it key = find_item (drop (start it) (keys pairs)) key (start it)

-- `k` is the first index from `i` on whose string matches the C string.
pub record IsFirst (xs : List BanoString) (name : Bytes) (i k : ℕ) : Type 0 where
  pub from : i ≤ k
  pub hit : (x : BanoString) × (get_elem? xs k ≡ some x) × (cmp_cstr x name ≡ true)
  pub first :
      (j : ℕ) (x : BanoString) → i ≤ j → j < k → get_elem? xs j ≡ some x → cmp_cstr x name ≡ false

abbrev pub Found : List BanoString → Bytes → ℕ → Option ℕ → Type 0
Found xs name i none =
    (j : ℕ) (x : BanoString) → i ≤ j → get_elem? xs j ≡ some x → cmp_cstr x name ≡ false
Found xs name i (some k) = IsFirst xs name i k

sub_self : (i : ℕ) → i - i ≡ 0
sub_self i = omega arith

get_elem?-drop_at :
    (xs ys : List BanoString) (i j : ℕ)
    → drop i xs ≡ ys
    → i ≤ j
    → get_elem? xs j ≡ get_elem? ys (j - i)
get_elem?-drop_at xs ys i j e le =
    let n : j ≡ i + (j - i) = omega arith in
    ap (get_elem? xs) n
    ∙ get_elem?-add i (j - i) xs
    ∙ ap (λ (l : List BanoString). get_elem? l (j - i)) e

-- A string at `i` that does not match may be passed over.
Found-pred :
    (xs : List BanoString) (name : Bytes) (i : ℕ) (o : Option ℕ)
    → ((x : BanoString) → get_elem? xs i ≡ some x → cmp_cstr x name ≡ false)
    → Found xs name (i + 1) o
    → Found xs name i o
Found-pred xs name i none miss f = λ j x le at. elim (Bool-cases (i == j)) [
  | inl same ↦ miss x (rw (← (==_iff i j).0 same) at at)
  | inr other ↦ f j x (ground arith) at
]
Found-pred xs name i (some k) miss f = record {
  from = omega (arith, f.from);
  hit = f.hit;
  first = λ j x le lt at. elim (Bool-cases (i == j)) [
    | inl same ↦ miss x (rw (← (==_iff i j).0 same) at at)
    | inr other ↦ f.first j x (ground arith) lt at
  ];
}

-- The list from its index `i` on is `ys`.
find_item-Found :
    (xs ys : List BanoString) (name : Bytes) (i : ℕ)
    → drop i xs ≡ ys
    → Found xs name i (find_item ys name i)
unfolding find_item
find_item-Found xs [] name i e = λ j x le found. cc (get_elem?-drop_at xs [] i j e le, found)
find_item-Found xs (y ∷ ys) name i e =
    let here : get_elem? xs i ≡ some y =
      get_elem?-drop_at xs (y ∷ ys) i i e (omega arith) ∙ rw (sub_self i) in
    elim (Bool-cases (cmp_cstr y name)) [
      | inl hit ↦ rw hit (record {
        from = omega arith;
        hit = (y, here, hit);
        first = λ j x a b. absurd (omega arith);
      })
      | inr miss ↦ rw miss (
          Found-pred xs name i (find_item ys name (i + 1)) (λ x found. cc (here, found, miss))
            (find_item-Found xs ys name (i + 1) (drop-add i 1 xs ∙ ap (drop 1) e)))
    ]

-- `bano_parser_find_struct` returns the first structure behind the given item, or the first of
-- all, whose name matches, and fails only where none does.
pub find_struct-Found :
    (structs : List Struct) (it : Option ℕ) (name : Bytes)
    → Found (names structs) name (start it) (find_struct structs it name)
unfolding find_struct
find_struct-Found structs it name =
    find_item-Found (names structs) (drop (start it) (names structs)) name (start it) refl

-- `bano_parser_find_pair` returns the first pair behind the given item, or the first of all, whose
-- key matches, and fails only where none does.
find_pair-Found :
    (pairs : List Pair) (it : Option ℕ) (key : Bytes)
    → Found (keys pairs) key (start it) (find_pair pairs it key)
unfolding find_pair
find_pair-Found pairs it key =
    find_item-Found (keys pairs) (drop (start it) (keys pairs)) key (start it) refl
