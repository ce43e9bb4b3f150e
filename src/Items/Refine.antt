-- ===== src/Items/Refine.antt =====
-- `bano_list_del` of src/base/bano_list.c on a well formed list, beside the sequence of its items.
use bano.Base.{◌≡◌, refl, ◌∙◌, Bool, true, false, none, some, List, [], ◌∷◌, ◌++◌, ◌==◌, arith}
use bano.Items.{Ptr, null, BanoList, Heap, write, unlink_next, unlink_prev, del}
use bano.Items.Seg.{
  has, Seg, nil, cons, frame, write_same, write_other, last_nz, first_nz, has-append_false, cut,
  join,
}
use bano.Items.Update.{relink_last, relink_first}

module _ {V : Type 0} where
  -- The list holds the items `xs`, at these addresses and in this order.
  abbrev pub IsList : Heap V → BanoList → List (Ptr × V) → Type 0
  IsList h l xs = Seg h null null l.head xs l.tail

  -- The heap `g` differs from `h` at most at the addresses of `xs`.
  abbrev pub SameOutside : List (Ptr × V) → Heap V → Heap V → Type 0
  SameOutside xs h g = (a : Ptr) → has a xs ≡ false → g a ≡ h a

  unlink_next-Seg :
      {h : Heap V} {i q r : Ptr} (l : BanoList) (xs : List (Ptr × V))
      → Seg h i null l.head xs r
      → (g : Heap V) × (k : BanoList) × (unlink_next h l q r ≡ some (g, k))
        × Seg g q null k.head xs r
        × (k.tail ≡ l.tail)
        × SameOutside xs h g
  unfolding unlink_next
  unlink_next-Seg {h} {q = q} l [] nil = (h, record l { head = q }, refl, nil, refl, λ a m. refl)
  unlink_next-Seg {h} {q = q} {r = r} l (x ∷ xs) s =
      let (g, run, chain, rest, other) = relink_last x xs q s in
      (g, l, rw (last_nz x xs s, unlink_next, run) refl, chain, refl, rest)

  unlink_prev-Seg :
      {h : Heap V} {i q r : Ptr} (l : BanoList) (ys : List (Ptr × V))
      → Seg h null i q ys l.tail
      → (g : Heap V) × (k : BanoList) × (unlink_prev h l q r ≡ some (g, k))
        × Seg g null r q ys k.tail
        × (k.head ≡ l.head)
        × SameOutside ys h g
  unfolding unlink_prev
  unlink_prev-Seg {h} {r = r} l [] nil = (h, record l { tail = r }, refl, nil, refl, λ a m. refl)
  unlink_prev-Seg {h} {q = q} {r = r} l (y ∷ ys) s =
      let (g, run, chain, rest) = relink_first y ys r s in
      (g, l, rw (first_nz y ys s, unlink_prev, run) refl, chain, refl, rest)

  -- What a call of `bano_list_del` must do.
  abbrev pub Deleted : Heap V → BanoList → (xs ys : List (Ptr × V)) → Ptr → V → Type 0
  Deleted h l xs ys i v =
      (g : Heap V) × (k : BanoList) × (del h l i ≡ some (g, k))
      × IsList g k (xs ++ ys)
      × (g i ≡ none)
      × SameOutside (xs ++ (i, v) ∷ ys) h g

  pub has_other :
      (a : Ptr) (xs : List (Ptr × V)) (b : Bool)
      → (has a xs ≡ true → b ≡ false)
      → b ≡ true
      → has a xs ≡ false
  has_other a xs b f t = ground (arith, f)

  del_between :
      (h : Heap V) (l : BanoList) (xs ys : List (Ptr × V)) (i : Ptr) (v : V) {r p : Ptr}
      → Seg h p null l.head xs r
      → Seg h null r p ((i, v) ∷ ys) l.tail
      → ((a : Ptr) → has a xs ≡ true → has a ((i, v) ∷ ys) ≡ false)
      → Deleted h l xs ys i v
  unfolding del
  del_between h l xs ys i v {r} front (cons {q = q} d nz out rest) apart =
      let i_out : has i xs ≡ false =
        has_other i xs (has i ((i, v) ∷ ys)) (apart i) (ground arith) in
      let (g, k, run1, front2, tails, same1) = unlink_next-Seg {q = q} l xs front in
      let rest2 : Seg g null i q ys k.tail = rw tails (
        frame rest
          λ a m. same1 a (has_other a xs (has a ((i, v) ∷ ys)) (apart a) (ground arith))) in
      let (e, j, run2, rear2, heads, same2) = unlink_prev-Seg {r = r} k ys rest2 in
      let front3 : Seg e q null j.head xs r =
        rw heads (frame front2 λ a m. same2 a (ground (arith, apart a m))) in
      let same = λ (a : Ptr). λ (m : (a == i) ≡ false). write_other e i a none m in
      (
        write e i none,
        j,
        rw (d, del, run1, same1 i i_out ∙ d, run2) refl,
        join xs ys (frame front3 λ a m. same a (ground (arith, apart a m)))
            (frame rear2 λ a m. same a (ground (arith, out))) (λ a m. ground (arith, apart a m)),
        write_same e i none,
        λ a m.
            let (not_xs, not_ys) = has-append_false a xs ((i, v) ∷ ys) m in
            same a (ground arith) ∙ same2 a (ground arith) ∙ same1 a not_xs,
      )

  -- `bano_list_del` on the item at `i` of a well formed list returns, takes it out of the
  -- sequence, gives its memory back, and leaves all memory outside the list alone.
  pub del-IsList :
      (h : Heap V) (l : BanoList) (xs ys : List (Ptr × V)) (i : Ptr) (v : V)
      → IsList h l (xs ++ (i, v) ∷ ys)
      → Deleted h l xs ys i v
  del-IsList h l xs ys i v s =
      let c = cut xs ((i, v) ∷ ys) s in del_between h l xs ys i v c.front c.rear c.apart
