-- ===== src/Items/Visit.antt =====
-- The loops of src/base/bano_list.c on a well formed list.
use bano.Base.{
  ℕ, zero, suc, ◌<◌, ◌≡◌, refl, ◌∙◌, Bool, true, false, Option, none, some, List, [], ◌∷◌, ◌==◌,
  ==_iff, Bool-cases, inl, inr, if◌then◌else◌, length, arith,
}
use bano.Items.{Ptr, null, BanoList, Heap, write, list_init}
use bano.Items.Seg.{has, Seg, nil, cons, frame, write_same, write_other, first_nz, has_differs}
use bano.Items.Refine.{IsList, SameOutside}
use bano.Items.Loops.{finished, find, foreach_at, fini_loop, fini}

module _ {V : Type 0} where
  -- The address of the first item whose data passes the test.
  abbrev pub first : (V → Bool) → List (Ptr × V) → Option Ptr
  first f [] = none
  first f (x ∷ xs) = let rest = first f xs in if f x.1 then some x.0 else rest

  -- The data up to the first that stops the loop, and whether one does.
  abbrev pub visited : (V → Bool) → List (Ptr × V) → List V × Bool
  visited stops [] = ([], false)
  visited stops (x ∷ xs) =
      let rest : List V × Bool = (x.1 ∷ (visited stops xs).0, (visited stops xs).1) in
      if stops x.1 then (x.1 ∷ [], true) else rest

  find-Seg :
      {h : Heap V} {prev p last : Ptr} (f : V → Bool) (fuel : ℕ) (xs : List (Ptr × V))
      → Seg h null prev p xs last
      → length xs < fuel
      → find f fuel h p ≡ finished (first f xs)
  unfolding find
  find-Seg f zero xs s lt = absurd (omega arith)
  find-Seg f (suc fuel) [] nil lt = refl
  find-Seg f (suc fuel) (x ∷ xs) (cons {p = p} d nz out s) lt =
      rw (first_nz x xs (cons d nz out s), d, find-Seg f fuel xs s (omega arith)) (ground arith)

  -- `bano_list_find` ends on a well formed list, with the first item that passes the test or with
  -- none; fuel of one more than the length is enough.
  pub find-first :
      (h : Heap V) (l : BanoList) (xs : List (Ptr × V)) (f : V → Bool)
      → IsList h l xs
      → find f (suc (length xs)) h l.head ≡ finished (first f xs)
  find-first h l xs f s = find-Seg f (suc (length xs)) xs s (omega arith)

  foreach_at-Seg :
      {h : Heap V} {prev p last : Ptr} (stops : V → Bool) (fuel : ℕ) (xs : List (Ptr × V))
      → Seg h null prev p xs last
      → length xs < fuel
      → foreach_at stops fuel h p ≡ finished (visited stops xs)
  unfolding foreach_at
  foreach_at-Seg stops zero xs s lt = absurd (omega arith)
  foreach_at-Seg stops (suc fuel) [] nil lt = refl
  foreach_at-Seg stops (suc fuel) (x ∷ xs) (cons {p = p} d nz out s) lt =
      rw (first_nz x xs (cons d nz out s), d, foreach_at-Seg stops fuel xs s (omega arith))
        (ground arith)

  -- `bano_list_foreach` ends on a well formed list, and calls its callback on the data in order up
  -- to the first for which it does not return 0; fuel of one more than the length is enough.
  pub foreach_at-visited :
      (h : Heap V) (l : BanoList) (xs : List (Ptr × V)) (stops : V → Bool)
      → IsList h l xs
      → foreach_at stops (suc (length xs)) h l.head ≡ finished (visited stops xs)
  foreach_at-visited h l xs stops s = foreach_at-Seg stops (suc (length xs)) xs s (omega arith)

  -- The memory of `xs` is given back, and all other memory stays.
  pub record Freed (xs : List (Ptr × V)) (h g : Heap V) : Type 0 where
    pub gone : (a : Ptr) → has a xs ≡ true → g a ≡ none
    pub same : SameOutside xs h g

  fini_loop-Freed :
      (fuel : ℕ) (xs : List (Ptr × V)) {h : Heap V} {prev p last : Ptr}
      → Seg h null prev p xs last
      → length xs < fuel
      → (g : Heap V) × (fini_loop fuel h p ≡ finished g) × Freed xs h g
  unfolding fini_loop
  fini_loop-Freed zero xs s lt = absurd (omega arith)
  fini_loop-Freed (suc fuel) [] {h} nil lt =
      (h, refl, record { gone = λ a m. cc; same = λ a m. refl })
  fini_loop-Freed (suc fuel) (x ∷ xs) {h} (cons {p = p} d nz out s) lt =
      let rest : Seg (write h p none) null p _ xs _ =
        frame s (λ a m. write_other h p a none (has_differs p a xs out m)) in
      let (g, run, freed) = fini_loop-Freed fuel xs rest (omega arith) in
      (
        g,
        rw (first_nz x xs (cons d nz out s), d, run) refl,
        record {
          gone = λ a m. elim (Bool-cases (a == p)) [
            | inl same ↦ rw ((==_iff a p).0 same) (freed.same p out ∙ write_same h p none)
            | inr other ↦ freed.gone a (ground arith)
          ];
          same = λ a m. freed.same a (ground arith) ∙ write_other h p a none (ground arith);
        },
      )

  -- `bano_list_fini` ends on a well formed list, gives back the memory of its items and no other,
  -- and leaves an empty list; fuel of one more than the length is enough.
  pub fini-Freed :
      (h : Heap V) (l : BanoList) (xs : List (Ptr × V))
      → IsList h l xs
      → (g : Heap V) × (fini (suc (length xs)) h l ≡ finished (g, list_init)) × Freed xs h g
  unfolding fini
  fini-Freed h l xs s =
      let (g, run, freed) = fini_loop-Freed (suc (length xs)) xs s (omega arith) in
      (g, rw (fini, run) refl, freed)
