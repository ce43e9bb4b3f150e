-- ===== src/Items/Before.antt =====
-- `bano_list_add_before` of src/base/bano_list.c on a well formed list.
use bano.Base.{
  ◌≡◌, ◌≢◌, refl, ap, ◌∙◌, true, false, Option, none, some, List, ◌∷◌, ◌++◌, ◌==◌, ==_refl, ==_iff,
  Bool-cases, inl, inr, arith,
}
use bano.Items.{
  Ptr, null, BanoList, Item, Heap, write, set_next, set_prev, link_before, add_before, unlink_next,
  unlink_prev, del,
}
use bano.Items.Seg.{has, Seg, cons, frame, absent, write_same, write_other, has_differs, cut}
use bano.Items.Update.{relink_last}
use bano.Items.Refine.{IsList, has_other}
use bano.Items.Insert.{fresh, Inserted}

module _ {V : Type 0} where
  -- The links of an item that was inserted before the one at `n`.
  link_before_run :
      (g : Heap V) (l : BanoList) (n i q r s t : Ptr) (v w : V)
      → g i ≡ some (record { data_at = v; next = s; prev = t })
      → g n ≡ some (record { data_at = w; next = q; prev = r })
      → (n == i) ≡ false
      → (f : Heap V) × (link_before g l n i ≡ some (record { heap = f; list = l; ok = true }))
        × (f i ≡ some (record { data_at = v; next = n; prev = t }))
        × (f n ≡ some (record { data_at = w; next = q; prev = i }))
        × ((a : Ptr) → (a == i) ≡ false → (a == n) ≡ false → f a ≡ g a)
  unfolding link_before set_next set_prev
  link_before_run g l n i q r s t v w at_i at_n ne =
      let c : Option (Item V) = some (record { data_at = v; next = n; prev = t }) in
      let d : Option (Item V) = some (record { data_at = w; next = q; prev = i }) in
      let e = write g i c in
      let n_stays : e n ≡ some (record { data_at = w; next = q; prev = r }) =
        write_other g i n c ne ∙ at_n in
      (
        write e n d,
        rw (link_before, set_next, at_i, set_prev, n_stays) refl,
        write_other e n i d (ground (arith, ne)) ∙ write_same g i c,
        write_same e n d,
        (λ a not_i not_n. write_other e n a d not_n ∙ write_other g i a c not_i),
      )

  first_in :
      {h : Heap V} {stop prev p last : Ptr} (x : Ptr × V) (xs : List (Ptr × V))
      → Seg h stop prev p (x ∷ xs) last
      → has p (x ∷ xs) ≡ true
  first_in x xs (cons {p = p} d nz out s) = rw (==_refl p) refl

  old_differs : (h : Heap V) (n i : Ptr) (x : Item V) → h n ≡ some x → h i ≡ none → (n == i) ≡ false
  old_differs h n i x d e = elim (Bool-cases (n == i)) [
    | inl same ↦ cc (d, e, ap h ((==_iff n i).0 same))
    | inr other ↦ other
  ]

  -- What an insertion behind the head and a deletion of the new item come to.
  abbrev pub LosesFront : Heap V → BanoList → (n i : Ptr) → V → Type 0
  LosesFront h l n i v =
      (g f : Heap V) × (k : BanoList) × (add_before h l n v (some i)
        ≡ some (record { heap = g; list = l; ok = true }))
      × (del g l i ≡ some (f, k))
      × (k.head ≡ n)

  del_new :
      (f : Heap V) (l : BanoList) (n i q : Ptr) (v w : V)
      → f i ≡ some (record { data_at = v; next = n; prev = null })
      → f n ≡ some (record { data_at = w; next = q; prev = i })
      → (n == null) ≡ false
      → (e : Heap V) × (k : BanoList) × (del f l i ≡ some (e, k)) × (k.head ≡ n)
  unfolding del unlink_next unlink_prev set_prev
  del_new f l n i q v w at_i at_n nz =
      let d : Option (Item V) = some (record { data_at = w; next = q; prev = null }) in
      (
        write (write f n d) i none,
        record l { head = n },
        rw (del, at_i, unlink_next, at_i, unlink_prev, nz, set_prev, at_n) refl,
        refl,
      )

  inner :
      (h : Heap V) (l : BanoList) (x : Ptr × V) (xs ys : List (Ptr × V)) (n i : Ptr) (v w : V)
      {r p : Ptr}
      → Seg h p null l.head (x ∷ xs) r
      → Seg h null r p ((n, w) ∷ ys) l.tail
      → ((a : Ptr) → has a (x ∷ xs) ≡ true → has a ((n, w) ∷ ys) ≡ false)
      → h i ≡ none
      → LosesFront h l n i v
  unfolding add_before
  inner h l x xs ys n i v w {r} front (cons {q = q} d nz out rest) apart e =
      let c : Option (Item V) = some (record { data_at = v; next = null; prev = null }) in
      let n_out : has n (x ∷ xs) ≡ false =
        has_other n (x ∷ xs) (has n ((n, w) ∷ ys)) (apart n) (ground arith) in
      let behind : (n == l.head) ≡ false =
        ground (arith, has_differs n l.head (x ∷ xs) n_out (first_in x xs front)) in
      let n_old : (n == i) ≡ false = old_differs h n i _ d e in
      let at_n = write_other h i n c n_old ∙ d in
      let (g, run, links, same, other) = relink_last x xs i (fresh i c front e) in
      let i_stays = same i (absent i front e) ∙ write_same h i c in
      let (f, linked, f_i, f_n, _) =
        link_before_run g l n i q r null null v w i_stays (same n n_out ∙ at_n) n_old in
      let (z, k, deleted, k_head) = del_new f l n i q v w f_i f_n (ground (arith, nz)) in
      (f, z, k, rw (behind, at_n, run, linked) refl, deleted, k_head)

  -- After `bano_list_add_before` at an item of a well formed list that is not the first, deleting
  -- the new item makes the one behind it the head, so that all items in front are lost.
  pub del-add_before :
      (h : Heap V) (l : BanoList) (x : Ptr × V) (xs ys : List (Ptr × V)) (n i : Ptr) (v w : V)
      → IsList h l ((x ∷ xs) ++ (n, w) ∷ ys)
      → h i ≡ none
      → LosesFront h l n i v
  del-add_before h l x xs ys n i v w s e =
      let c = cut (x ∷ xs) ((n, w) ∷ ys) s in inner h l x xs ys n i v w c.front c.rear c.apart e

  -- `bano_list_add_before` at the head of a well formed list, with a new item at an address that
  -- is free, returns 0, puts the item before all others, and leaves all other memory alone.
  pub add_before-Inserted :
      (h : Heap V) (l : BanoList) (x : Ptr × V) (xs : List (Ptr × V)) (i : Ptr) (v : V)
      → IsList h l (x ∷ xs)
      → h i ≡ none
      → i ≢ null
      → Inserted h ((i, v) ∷ x ∷ xs) (add_before h l l.head v (some i))
  unfolding add_before
  add_before-Inserted h l x xs i v s e nz = at_ends l.head l.tail s
    where
      at_ends :
          (hd tl : Ptr)
          → Seg h null null hd (x ∷ xs) tl
          → Inserted h
              ((i, v) ∷ x ∷ xs)
              (add_before h (record { head = hd; tail = tl }) hd v (some i))
      at_ends hd tl (cons {q = q} {v = w} d nzn out rest) =
          let c : Option (Item V) = some (record { data_at = v; next = null; prev = null }) in
          let differs = old_differs h hd i _ d e in
          let i_out = absent i rest e in
          let (f, linked, f_i, f_n, others) =
            link_before_run (write h i c) (record { head = i; tail = tl }) hd i q null null null v w
              (write_same h i c) (write_other h i hd c differs ∙ d) differs in
          let stays = λ (a : Ptr). λ (not_i : (a == i) ≡ false).
            λ (not_n : (a == hd) ≡ false). others a not_i not_n ∙ write_other h i a c not_i in
          record {
            after = record { heap = f; list = record { head = i; tail = tl }; ok = true };
            returns = rw (==_refl hd, linked) refl;
            is_ok = refl;
            chain = cons f_i nz (ground (arith, differs, i_out)) (
                cons f_n nzn out (
                  frame rest
                    λ a m. stays a (has_differs i a xs i_out m) (has_differs hd a xs out m)));
            same = λ a m. stays a (ground arith) (ground arith);
          }
