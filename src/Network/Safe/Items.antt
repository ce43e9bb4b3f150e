-- ===== src/Network/Safe/Items.antt =====
-- A list of requests of src/base/bano_base.c, of which an item is found by its address.
use bano.Base.{
  ◌≡◌, refl, false, Option, none, some, List, [], ◌∷◌, ◌++◌, ◌==◌, ==_iff, arith, Bool-cases, inl,
  inr,
}
use bano.Items.{Ptr}
use bano.Network.{Cell}
use bano.Network.Send.{del_cell}
use bano.Network.Expire.{find_cell}
use bano.Network.Safe.{CellsApart}

pub find_cell-del_other :
    (cs : List Cell) (p q : Ptr) → (p == q) ≡ false → find_cell (del_cell cs p) q ≡ find_cell cs q
unfolding find_cell del_cell
find_cell-del_other [] p q ne = refl
find_cell-del_other (c ∷ cs) p q ne = ground (arith, find_cell-del_other cs p q)

pub find_cell-del_none :
    (cs : List Cell) (p q : Ptr) → find_cell cs q ≡ none → find_cell (del_cell cs p) q ≡ none
unfolding find_cell del_cell
find_cell-del_none [] p q e = refl
find_cell-del_none (c ∷ cs) p q e = ground (arith, find_cell-del_none cs p q)

pub find_cell-del_same :
    (cs : List Cell) (p : Ptr) → CellsApart cs → find_cell (del_cell cs p) p ≡ none
unfolding find_cell del_cell
find_cell-del_same [] p a = refl
find_cell-del_same (c ∷ cs) p a = elim (Bool-cases (c.at == p)) [
  | inl here ↦ let is_p : c.at ≡ p = (==_iff c.at p).0 here in rw (here, ← is_p) a.0
  | inr behind ↦ rw (behind, behind) (find_cell-del_same cs p a.1)
]

pub del_cell-CellsApart : (cs : List Cell) (p : Ptr) → CellsApart cs → CellsApart (del_cell cs p)
unfolding find_cell del_cell
del_cell-CellsApart [] p a = tt
del_cell-CellsApart (c ∷ cs) p a = elim (Bool-cases (c.at == p)) [
  | inl here ↦ rw here a.1
  | inr behind ↦ rw behind (find_cell-del_none cs p c.at a.0, del_cell-CellsApart cs p a.1)
]

pub find_cell-append :
    (cs ds : List Cell) (p : Ptr)
    → find_cell (cs ++ ds) p
      ≡ (elim (find_cell cs p) as (λ _. Option Cell) [ none ↦ find_cell ds p | some c ↦ some c ])
unfolding find_cell
find_cell-append [] ds p = refl
find_cell-append (c ∷ cs) ds p = elim (Bool-cases (c.at == p)) [
  | inl here ↦ rw here refl
  | inr behind ↦ rw behind (find_cell-append cs ds p)
]

pub append-CellsApart :
    (cs : List Cell) (c : Cell)
    → CellsApart cs
    → find_cell cs c.at ≡ none
    → CellsApart (cs ++ c ∷ [])
unfolding find_cell
append-CellsApart [] c a out = (refl, tt)
append-CellsApart (d ∷ cs) c a out = elim (Bool-cases (d.at == c.at)) [
  | inl here ↦ cc (rw here at out)
  | inr behind ↦
      let other : (c.at == d.at) ≡ false = ground (arith, behind) in
      (
        rw (find_cell-append cs (c ∷ []) d.at, a.0, other) refl,
        append-CellsApart cs c a.1 (rw behind at out),
      )
]
