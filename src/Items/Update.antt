-- ===== src/Items/Update.antt =====
-- Writes to the links at the ends of a chain.
use bano.Base.{◌≡◌, refl, ◌∙◌, false, Option, some, List, [], ◌∷◌, ◌==◌, arith}
use bano.Items.{Ptr, Item, Heap, write, set_next, set_prev}
use bano.Items.Seg.{has, Seg, nil, cons, frame, write_same, write_other, last_in}

module _ {V : Type 0} where
  -- The last item of a chain is given another successor.
  pub relink_last :
      {h : Heap V} {stop prev p last : Ptr} (x : Ptr × V) (xs : List (Ptr × V)) (s : Ptr)
      → Seg h stop prev p (x ∷ xs) last
      → (g : Heap V) × (set_next h last s ≡ some g)
        × Seg g s prev p (x ∷ xs) last
        × ((a : Ptr) → has a (x ∷ xs) ≡ false → g a ≡ h a)
        × ((a : Ptr) → (a == last) ≡ false → g a ≡ h a)
  unfolding set_next
  relink_last {h} {prev = prev} x [] s (cons {p = p} {v = v} d nz out nil) =
      let c : Option (Item V) = some (record { data_at = v; next = s; prev = prev }) in
      (
        write h p c,
        rw (d, set_next) refl,
        cons (write_same h p c) nz refl nil,
        (λ a m. write_other h p a c (ground arith)),
        (λ a m. write_other h p a c m),
      )
  relink_last x (y ∷ ys) s (cons {p = p} d nz out t) =
      let (g, run, chain, rest, other) = relink_last y ys s t in
      let m = last_in y ys t in
      (g, run, cons (rest p out ∙ d) nz out chain, (λ a k. rest a (ground arith)), other)

  -- The first item of a chain is given another predecessor.
  pub relink_first :
      {h : Heap V} {stop prev p last : Ptr} (x : Ptr × V) (xs : List (Ptr × V)) (r : Ptr)
      → Seg h stop prev p (x ∷ xs) last
      → (g : Heap V) × (set_prev h p r ≡ some g)
        × Seg g stop r p (x ∷ xs) last
        × ((a : Ptr) → has a (x ∷ xs) ≡ false → g a ≡ h a)
  unfolding set_prev
  relink_first {h} x xs r (cons {p = p} {q = q} {v = v} d nz out t) =
      let c : Option (Item V) = some (record { data_at = v; next = q; prev = r }) in
      (
        write h p c,
        rw (d, set_prev) refl,
        cons (write_same h p c) nz out (frame t (λ a m. write_other h p a c (ground (arith, out)))),
        (λ a m. write_other h p a c (ground arith)),
      )
