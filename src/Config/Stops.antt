-- ===== src/Config/Stops.antt =====
-- The loops of src/base/bano_base.c over pairs and structures.
use bano.Base.{◌≡◌, refl, Bool, List, [], ◌∷◌, ◌++◌, if◌then◌else◌, Bool-cases, inl, inr}
use bano.Config.{apply_each}

module _ {S A : Type 0} (f : S → A → S × Bool) where
  -- Over two lists one after the other, the second is applied to what the first leaves, and not at
  -- all where the first ends with an error.
  apply_each-append :
      (s : S) (xs ys : List A)
      → apply_each f s (xs ++ ys) ≡ (
          if (apply_each f s xs).1
          then apply_each f s xs
          else apply_each f (apply_each f s xs).0 ys)
  unfolding apply_each
  apply_each-append s [] ys = refl
  apply_each-append s (x ∷ xs) ys = elim (Bool-cases (f s x).1) [
    | inl e ↦ rw e refl
    | inr e ↦ rw e (apply_each-append (f s x).0 xs ys)
  ]

  -- What every call of the callback keeps, the loop keeps.
  pub apply_each-keeps :
      (P : S → Type 0)
      → ((s : S) (x : A) → P s → P (f s x).0)
      → (s : S) (xs : List A) → P s
      → P (apply_each f s xs).0
  unfolding apply_each
  apply_each-keeps P step s [] h = h
  apply_each-keeps P step s (x ∷ xs) h = elim (Bool-cases (f s x).1) [
    | inl e ↦ rw e (step s x h)
    | inr e ↦ rw e (apply_each-keeps P step (f s x).0 xs (step s x h))
  ]
