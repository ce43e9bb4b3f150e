-- ===== src/Items/Loops.antt =====
-- The loops of src/base/bano_list.c over a heap. Links may lead round in a circle, so they run on
-- fuel.
use bano.Base.{
  ℕ, zero, suc, Bool, true, false, Option, none, some, List, [], ◌∷◌, ◌==◌, if◌then◌else◌,
}
use bano.Items.{Ptr, null, BanoList, Item, Heap, write, list_init}

-- A loop ends with a value, at a dereference that is a fault, or not within the fuel.
pub data Loop (A : Type 0) : Type 0 where
  finished : A → Loop A
  faulted : Loop A
  no_fuel : Loop A

module _ {V : Type 0} where
  -- `bano_list_find`, from the item at `p` on; `f` tells where the callback returns 0.
  unfoldable pub find : (V → Bool) → ℕ → Heap V → Ptr → Loop (Option Ptr)
  find f zero h p = no_fuel
  find f (suc fuel) h p =
      let here = λ (n : Item V).
        let rest = find f fuel h n.next in if f n.data_at then finished (some p) else rest in
      let item : Loop (Option Ptr) = elim (h p) [ none ↦ faulted | some n ↦ here n ] in
      if p == null then finished none else item

  -- `bano_list_foreach_at` with a callback that does not change the list: what it is called on, in
  -- order, and whether it ever returned another value than 0, which ends the loop.
  unfoldable pub foreach_at : (V → Bool) → ℕ → Heap V → Ptr → Loop (List V × Bool)
  foreach_at stops zero h p = no_fuel
  foreach_at stops (suc fuel) h p =
      let here = λ (n : Item V).
        let rest : Loop (List V × Bool) = elim (foreach_at stops fuel h n.next) [
          | finished (vs, b) ↦ finished (n.data_at ∷ vs, b)
          | faulted ↦ faulted
          | no_fuel ↦ no_fuel
        ] in
        if stops n.data_at then finished (n.data_at ∷ [], true) else rest in
      let item : Loop (List V × Bool) = elim (h p) [ none ↦ faulted | some n ↦ here n ] in
      if p == null then finished ([], false) else item

  -- The loop of `bano_list_fini`
  unfoldable pub fini_loop : ℕ → Heap V → Ptr → Loop (Heap V)
  fini_loop zero h p = no_fuel
  fini_loop (suc fuel) h p =
      let item : Loop (Heap V) = elim (h p) [
        | none ↦ faulted
        | some n ↦ fini_loop fuel (write h p none) n.next
      ] in
      if p == null then finished h else item

  -- `bano_list_fini`, without the callback
  unfoldable pub fini : ℕ → Heap V → BanoList → Loop (Heap V × BanoList)
  fini fuel h l = elim (fini_loop fuel h l.head) [
    | finished g ↦ finished (g, list_init)
    | faulted ↦ faulted
    | no_fuel ↦ no_fuel
  ]
