-- ===== src/Items/Insert.antt =====
-- The insertions of src/base/bano_list.c on a well formed list.
use bano.Base.{◌≡◌, ◌≢◌, refl, ◌∙◌, true, Option, none, some, List, [], ◌∷◌, ◌++◌, arith}
use bano.Items.{Ptr, null, BanoList, Item, Heap, After, write, add_tail, add_head}
use bano.Items.Seg.{
  Seg, nil, cons, frame, absent, write_same, write_other, last_nz, first_nz, has-append_false,
  has_differs, join,
}
use bano.Items.Update.{relink_last, relink_first}
use bano.Items.Refine.{IsList, SameOutside}

module _ {V : Type 0} where
  -- An insertion of the item at `i` returns 0, makes the sequence `xs`, and changes no item but
  -- those of the sequence.
  pub record Inserted (h : Heap V) (xs : List (Ptr × V)) (o : Option (After V)) : Type 0 where
    pub after : After V
    pub returns : o ≡ some after
    pub is_ok : after.ok ≡ true
    pub chain : IsList after.heap after.list xs
    pub same : SameOutside xs h after.heap

  -- A new item leaves the chains of the old heap as they are.
  pub fresh :
      {h : Heap V} {stop prev p last : Ptr} {xs : List (Ptr × V)} (i : Ptr) (c : Option (Item V))
      → Seg h stop prev p xs last
      → h i ≡ none
      → Seg (write h i c) stop prev p xs last
  fresh {h} {xs = xs} i c s e =
      frame s (λ a m. write_other h i a c (has_differs i a xs (absent i s e) m))

  -- `bano_list_add_tail` on a well formed list, with a new item at an address that is free,
  -- returns 0, puts the item behind all others, and leaves all other memory alone.
  pub add_tail-Inserted :
      (h : Heap V) (l : BanoList) (xs : List (Ptr × V)) (v : V) (i : Ptr)
      → IsList h l xs
      → h i ≡ none
      → i ≢ null
      → Inserted h (xs ++ (i, v) ∷ []) (add_tail h l v (some i))
  unfolding add_tail
  add_tail-Inserted h l xs v i s e nz = at_ends xs l.head l.tail s
    where
      at_ends :
          (ys : List (Ptr × V)) (hd tl : Ptr)
          → Seg h null null hd ys tl
          → Inserted h (ys ++ (i, v) ∷ []) (add_tail h (record { head = hd; tail = tl }) v (some i))
      at_ends [] hd tl nil =
          let c : Option (Item V) = some (record { data_at = v; next = null; prev = null }) in
          record {
            after = record { heap = write h i c; list = record { head = i; tail = i }; ok = true };
            returns = refl;
            is_ok = refl;
            chain = cons (write_same h i c) nz refl nil;
            same = λ a m. write_other h i a c (ground arith);
          }
      at_ends (y ∷ ys) hd tl t =
          let c : Option (Item V) = some (record { data_at = v; next = null; prev = tl }) in
          let out = absent i t e in
          let (g, run, links, rest, other) = relink_last y ys i (fresh i c t e) in
          let at_i : g i ≡ c = rest i out ∙ write_same h i c in
          record {
            after = record { heap = g; list = record { head = hd; tail = i }; ok = true };
            returns = rw (last_nz y ys t, run) refl;
            is_ok = refl;
            chain =
                join (y ∷ ys) ((i, v) ∷ []) links (cons at_i nz refl nil)
                  (λ a m. rw (has_differs i a (y ∷ ys) out m) refl);
            same = λ a m.
                let (not_xs, not_i) = has-append_false a (y ∷ ys) ((i, v) ∷ []) m in
                rest a not_xs ∙ write_other h i a c (ground arith);
          }

  -- `bano_list_add_head` on a well formed list, with a new item at an address that is free,
  -- returns 0, puts the item before all others, and leaves all other memory alone.
  pub add_head-Inserted :
      (h : Heap V) (l : BanoList) (xs : List (Ptr × V)) (v : V) (i : Ptr)
      → IsList h l xs
      → h i ≡ none
      → i ≢ null
      → Inserted h ((i, v) ∷ xs) (add_head h l v (some i))
  unfolding add_head
  add_head-Inserted h l xs v i s e nz = at_ends xs l.head l.tail s
    where
      at_ends :
          (ys : List (Ptr × V)) (hd tl : Ptr)
          → Seg h null null hd ys tl
          → Inserted h ((i, v) ∷ ys) (add_head h (record { head = hd; tail = tl }) v (some i))
      at_ends [] hd tl nil =
          let c : Option (Item V) = some (record { data_at = v; next = null; prev = null }) in
          record {
            after = record { heap = write h i c; list = record { head = i; tail = i }; ok = true };
            returns = refl;
            is_ok = refl;
            chain = cons (write_same h i c) nz refl nil;
            same = λ a m. write_other h i a c (ground arith);
          }
      at_ends (y ∷ ys) hd tl t =
          let c : Option (Item V) = some (record { data_at = v; next = hd; prev = null }) in
          let out = absent i t e in
          let (g, run, links, rest) = relink_first y ys i (fresh i c t e) in
          record {
            after = record { heap = g; list = record { head = i; tail = tl }; ok = true };
            returns = rw (first_nz y ys t, run) refl;
            is_ok = refl;
            chain = cons (rest i out ∙ write_same h i c) nz out links;
            same = λ a m. rest a (ground arith) ∙ write_other h i a c (ground arith);
          }
