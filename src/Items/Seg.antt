-- ===== src/Items/Seg.antt =====
-- Chains of linked items, and what writes to the heap do to them.
use bano.Base.{
  ◌≡◌, ◌≢◌, refl, sym, ap, ◌∙◌, Bool, true, false, Option, none, some, List, [], ◌∷◌, ◌++◌, ◌==◌,
  ==_refl, ==_iff, Bool-cases, inl, inr, if◌then◌else◌, arith,
}
use bano.Items.{Ptr, null, Item, Heap, write}

module _ {V : Type 0} where
  abbrev pub has : Ptr → List (Ptr × V) → Bool
  has a [] = false
  has a (x ∷ xs) = let rest = has a xs in if a == x.0 then true else rest

  -- From `p` on, whose item has the predecessor `prev`, the links lead through the items `xs`, both
  -- ways and at distinct addresses, to `last`, which is followed by `stop`.
  pub data Seg (h : Heap V) (stop : Ptr)
      : (prev p : Ptr) → List (Ptr × V) → (last : Ptr) → Type 0 where
    nil : {prev : Ptr} → Seg h stop prev stop [] prev
    cons :
        {prev p q last : Ptr} {v : V} {xs : List (Ptr × V)}
        → h p ≡ some (record { data_at = v; next = q; prev = prev })
        → p ≢ null
        → has p xs ≡ false
        → Seg h stop p q xs last
        → Seg h stop prev p ((p, v) ∷ xs) last

  -- A chain does not change where the heap does not.
  pub frame :
      {h g : Heap V} {stop prev p last : Ptr} {xs : List (Ptr × V)}
      → Seg h stop prev p xs last
      → ((a : Ptr) → has a xs ≡ true → g a ≡ h a)
      → Seg g stop prev p xs last
  frame nil same = nil
  frame (cons {p = p} e nz out s) same =
      cons (ground (arith, same p)) nz out (frame s (λ a m. same a (ground arith)))

  -- An address that holds no item is in no chain.
  pub absent :
      {h : Heap V} {stop prev p last : Ptr} {xs : List (Ptr × V)} (i : Ptr)
      → Seg h stop prev p xs last
      → h i ≡ none
      → has i xs ≡ false
  absent i nil e = refl
  absent i (cons {p = p} {xs = xs} d nz out s) e = elim (Bool-cases (i == p)) [
    | inl same ↦ cc (d, e, (==_iff i p).0 same)
    | inr other ↦ rw other (absent i s e)
  ]

  pub write_same : (h : Heap V) (p : Ptr) (c : Option (Item V)) → write h p c p ≡ c
  unfolding write
  write_same h p c = rw (==_refl p) refl

  pub write_other :
      (h : Heap V) (p a : Ptr) (c : Option (Item V)) → (a == p) ≡ false → write h p c a ≡ h a
  unfolding write
  write_other h p a c e = rw e refl

  -- The last item is one of the items.
  pub last_in :
      {h : Heap V} {stop prev p last : Ptr} (x : Ptr × V) (xs : List (Ptr × V))
      → Seg h stop prev p (x ∷ xs) last
      → has last (x ∷ xs) ≡ true
  last_in x [] (cons {p = p} d nz out nil) = rw (==_refl p) refl
  last_in x (y ∷ ys) (cons {p = p} {last = last} d nz out s) = ground (arith, last_in y ys s)

  -- No item is at NULL.
  pub null_out :
      {h : Heap V} {stop prev p last : Ptr} {xs : List (Ptr × V)}
      → Seg h stop prev p xs last
      → has null xs ≡ false
  null_out nil = refl
  null_out (cons {p = p} d nz out s) = ground (arith, null_out s)

  -- An address of an item is not one outside.
  pub has_differs :
      (i a : Ptr) (xs : List (Ptr × V)) → has i xs ≡ false → has a xs ≡ true → (a == i) ≡ false
  has_differs i a xs out m = elim (Bool-cases (a == i)) [
    | inl same ↦ cc (ap (λ b. has b xs) ((==_iff a i).0 same), m, out)
    | inr other ↦ other
  ]

  -- The ends are not NULL.
  pub last_nz :
      {h : Heap V} {stop prev p last : Ptr} (x : Ptr × V) (xs : List (Ptr × V))
      → Seg h stop prev p (x ∷ xs) last
      → (last == null) ≡ false
  last_nz {last = last} x xs s = elim (Bool-cases (last == null)) [
    | inl same ↦
        let e = ap (λ a. has a (x ∷ xs)) ((==_iff last null).0 same) in
        cc (sym e ∙ last_in x xs s, null_out s)
    | inr other ↦ other
  ]

  pub first_nz :
      {h : Heap V} {stop prev p last : Ptr} (x : Ptr × V) (xs : List (Ptr × V))
      → Seg h stop prev p (x ∷ xs) last
      → (p == null) ≡ false
  first_nz x xs (cons {p = p} d nz out s) = ground (arith, nz)

  -- A chain is cut where its items are.
  pub record Cut (h : Heap V) (stop prev p last : Ptr) (xs ys : List (Ptr × V)) : Type 0 where
    pub mid_last : Ptr
    pub mid : Ptr
    pub front : Seg h mid prev p xs mid_last
    pub rear : Seg h stop mid_last mid ys last
    pub apart : (a : Ptr) → has a xs ≡ true → has a ys ≡ false

  -- An address outside `xs ++ ys` is outside both.
  pub has-append_false :
      (a : Ptr) (xs ys : List (Ptr × V))
      → has a (xs ++ ys) ≡ false
      → (has a xs ≡ false) × (has a ys ≡ false)
  has-append_false a [] ys e = (refl, e)
  has-append_false a (x ∷ xs) ys e = ground (arith, has-append_false a xs ys)

  has-append_of_false :
      (a : Ptr) (xs ys : List (Ptr × V))
      → has a xs ≡ false
      → has a ys ≡ false
      → has a (xs ++ ys) ≡ false
  has-append_of_false a [] ys e f = f
  has-append_of_false a (x ∷ xs) ys e f = ground (arith, has-append_of_false a xs ys)

  pub cut :
      {h : Heap V} {stop prev p last : Ptr} (xs ys : List (Ptr × V))
      → Seg h stop prev p (xs ++ ys) last
      → Cut h stop prev p last xs ys
  cut {prev = prev} {p = p} [] ys s = record {
    mid_last = prev;
    mid = p;
    front = nil;
    rear = s;
    apart = λ a m. cc;
  }
  cut (x ∷ xs) ys (cons {p = p} {v = v} d nz out s) =
      let c = cut xs ys s in
      let (out_xs, out_ys) = has-append_false p xs ys out in
      record {
        mid_last = c.mid_last;
        mid = c.mid;
        front = cons d nz out_xs c.front;
        rear = c.rear;
        apart = λ a m. elim (Bool-cases (a == p)) [
          | inl same ↦ rw ((==_iff a p).0 same) out_ys
          | inr other ↦ c.apart a (ground arith)
        ];
      }

  pub join :
      {h : Heap V} {stop mid prev p mid_last last : Ptr} (xs ys : List (Ptr × V))
      → Seg h mid prev p xs mid_last
      → Seg h stop mid_last mid ys last
      → ((a : Ptr) → has a xs ≡ true → has a ys ≡ false)
      → Seg h stop prev p (xs ++ ys) last
  join [] ys nil t apart = t
  join (x ∷ xs) ys (cons {p = p} d nz out s) t apart =
      cons d nz (has-append_of_false p xs ys out (apart p (ground arith)))
        (join xs ys s t (λ a m. apart a (ground arith)))
