-- ===== src/Network/Safe/Cells.antt =====
-- The items of the lists of nodes in src/base/bano_base.c: one taken away, and one added.
use bano.Base.{
  ◌≡◌, ◌⊎◌, refl, ap, sym, ◌∙◌, Bool, true, false, none, some, List, [], ◌∷◌, ◌++◌, ◌==◌, ==_refl,
  ==_iff, if◌then◌else◌, Bool-cases, Option-cases, inl, inr,
}
use bano.Items.{Ptr}
use bano.Network.{Cell, Node, put_node, node_at}
use bano.Network.Send.{del_cell}
use bano.Network.Expire.{find_cell}
use bano.Network.Lookup.{node_at-put_node, node_at-put_other}
use bano.Network.Safe.{Place, list_of, cell_at, CellsApart}
use bano.Network.Safe.Items.{find_cell-del_other, find_cell-del_same, find_cell-append}

-- A node with another list
abbrev pub with_list : Bool → Node → List Cell → Node
with_list w n cs = if w then record n { pending_ios = cs } else record n { posted_ios = cs }

-- What is in a place where the node `n` gets the list `cs` in `w`.
cell_at-put_same :
    (ns : List Node) (n : Node) (w : Bool) (cs : List Cell) (a : Ptr)
    → node_at ns n.at ≡ some n
    → cell_at (put_node ns (with_list w n cs)) (record { waits = w; node = n.at; cell = a })
      ≡ find_cell cs a
cell_at-put_same ns n true cs a e =
    rw (cell_at, node_at-put_node ns (record n { pending_ios = cs }) n e) refl
cell_at-put_same ns n false cs a e =
    rw (cell_at, node_at-put_node ns (record n { posted_ios = cs }) n e) refl

cell_at-same :
    (ns : List Node) (n : Node) (w : Bool) (a : Ptr)
    → node_at ns n.at ≡ some n
    → cell_at ns (record { waits = w; node = n.at; cell = a }) ≡ find_cell (list_of w n) a
cell_at-same ns n w a e = rw (cell_at, e) refl

cell_at-put_other :
    (ns : List Node) (n : Node) (w v : Bool) (q a : Ptr) (cs : List Cell)
    → node_at ns n.at ≡ some n
    → ((v ≡ w) × (q ≡ n.at))
      ⊎ (cell_at (put_node ns (with_list w n cs)) (record { waits = v; node = q; cell = a })
          ≡ cell_at ns (record { waits = v; node = q; cell = a }))
cell_at-put_other ns n w v q a cs e = elim (Bool-cases (n.at == q)) [
  | inr other ↦ inr (elsewhere w other)
  | inl same ↦ let is_q : n.at ≡ q = (==_iff n.at q).0 same in here w v is_q
]
  where
    elsewhere :
        (w : Bool)
        → (n.at == q) ≡ false
        → cell_at (put_node ns (with_list w n cs)) (record { waits = v; node = q; cell = a })
          ≡ cell_at ns (record { waits = v; node = q; cell = a })
    elsewhere true ne = rw (cell_at, node_at-put_other ns (record n { pending_ios = cs }) q ne) refl
    elsewhere false ne = rw (cell_at, node_at-put_other ns (record n { posted_ios = cs }) q ne) refl

    here :
        (w v : Bool)
        → n.at ≡ q
        → ((v ≡ w) × (q ≡ n.at))
          ⊎ (cell_at (put_node ns (with_list w n cs)) (record { waits = v; node = q; cell = a })
              ≡ cell_at ns (record { waits = v; node = q; cell = a }))
    here true true is_q = inl (refl, sym is_q)
    here false false is_q = inl (refl, sym is_q)
    here true false is_q = inr (
        rw (← is_q) (rw (cell_at, node_at-put_node ns (record n { pending_ios = cs }) n e, e) refl))
    here false true is_q =
        inr (
          rw (← is_q)
            (rw (cell_at, node_at-put_node ns (record n { posted_ios = cs }) n e, e) refl))

-- Without the item in the place `x`
pub record Removed (ns us : List Node) (x : Place) : Type 0 where
  pub gone : cell_at us x ≡ none
  pub keeps : (y : Place) (d : Cell) → cell_at us y ≡ some d → cell_at ns y ≡ some d
  pub others : (y : Place) (d : Cell) → cell_at ns y ≡ some d → (y ≡ x) ⊎ (cell_at us y ≡ some d)

-- With the item `c` in the place `x`
pub record Added (ns us : List Node) (x : Place) (c : Cell) : Type 0 where
  pub there : cell_at us x ≡ some c
  pub new :
      (y : Place) (d : Cell) → cell_at us y ≡ some d → (cell_at ns y ≡ some d) ⊎ ((y ≡ x) × (d ≡ c))
  pub keeps : (y : Place) (d : Cell) → cell_at ns y ≡ some d → cell_at us y ≡ some d

place_eq :
    (x : Place) (v : Bool) (q a : Ptr)
    → x.waits ≡ v
    → x.node ≡ q
    → x.cell ≡ a
    → x ≡ record { waits = v; node = q; cell = a }
place_eq x v q a e f g = cc (e, f, g)

module _ (ns : List Node) (n : Node) (w : Bool) (at_n : node_at ns n.at ≡ some n)
    (apart : CellsApart (list_of w n)) where
  abbrev without : Ptr → List Node
  without a = put_node ns (with_list w n (del_cell (list_of w n) a))

  -- What stands in the place `y` where the item `a` is gone.
  without_split :
      (a : Ptr) (y : Place)
      → ((y ≡ record { waits = w; node = n.at; cell = a }) × (cell_at (without a) y ≡ none))
        ⊎ (cell_at (without a) y ≡ cell_at ns y)
  without_split a y =
      elim (cell_at-put_other ns n w y.waits y.node y.cell (del_cell (list_of w n) a) at_n) [
        | inr same ↦ inr same
        | inl (is_w, is_n) ↦
            let here = place_eq y w n.at y.cell is_w is_n refl in
            let now = cell_at-put_same ns n w (del_cell (list_of w n) a) y.cell at_n in
            elim (Bool-cases (a == y.cell)) [
              | inl is_a ↦
                  let e : y.cell ≡ a = sym ((==_iff a y.cell).0 is_a) in
                  let there = place_eq y w n.at a is_w is_n e in
                  let gone = cell_at-put_same ns n w (del_cell (list_of w n) a) a at_n in
                  inl (
                    there,
                    ap (cell_at (without a)) there
                        ∙ gone
                        ∙ find_cell-del_same (list_of w n) a apart,
                  )
              | inr other ↦ inr (
                  ap (cell_at (without a)) here
                  ∙ now
                  ∙ find_cell-del_other (list_of w n) a y.cell other
                  ∙ sym (cell_at-same ns n w y.cell at_n)
                  ∙ sym (ap (cell_at ns) here))
            ]
      ]

  pub del_cell-Removed :
      (a : Ptr) → Removed ns (without a) (record { waits = w; node = n.at; cell = a })
  del_cell-Removed a = record {
    gone =
        cell_at-put_same ns n w (del_cell (list_of w n) a) a at_n
        ∙ find_cell-del_same (list_of w n) a apart;
    keeps = λ y d e. elim (without_split a y) [
      | inl (is_x, none_at) ↦ cc (none_at, e)
      | inr same ↦ sym same ∙ e
    ];
    others = λ y d e. elim (without_split a y) [
      | inl (is_x, none_at) ↦ inl is_x
      | inr same ↦ inr (same ∙ e)
    ];
  }

  -- The item `c` at the end of the list is added.
  abbrev along : Cell → List Node
  along c = put_node ns (with_list w n (list_of w n ++ c ∷ []))

  along_split :
      (c : Cell) (y : Place)
      → find_cell (list_of w n) c.at ≡ none
      → ((y ≡ record { waits = w; node = n.at; cell = c.at })
          × (cell_at (along c) y ≡ some c)
          × (cell_at ns y ≡ none))
        ⊎ (cell_at (along c) y ≡ cell_at ns y)
  unfolding find_cell
  along_split c y out =
      elim (cell_at-put_other ns n w y.waits y.node y.cell (list_of w n ++ c ∷ []) at_n) [
        | inr same ↦ inr same
        | inl (is_w, is_n) ↦
            let here = place_eq y w n.at y.cell is_w is_n refl in
            let now =
              ap (cell_at (along c)) here
              ∙ cell_at-put_same ns n w (list_of w n ++ c ∷ []) y.cell at_n
              ∙ find_cell-append (list_of w n) (c ∷ []) y.cell in
            let old = ap (cell_at ns) here ∙ cell_at-same ns n w y.cell at_n in
            elim (Bool-cases (c.at == y.cell)) [
              | inl is_c ↦
                  let e : y.cell ≡ c.at = sym ((==_iff c.at y.cell).0 is_c) in
                  let gone : find_cell (list_of w n) y.cell ≡ none =
                    ap (find_cell (list_of w n)) e ∙ out in
                  inl (place_eq y w n.at c.at is_w is_n e, rw (gone, is_c) at now, old ∙ gone)
              | inr other ↦ elim (Option-cases (find_cell (list_of w n) y.cell)) [
                | inl gone ↦ inr ((rw (gone, other) at now) ∙ sym (old ∙ gone))
                | inr (d, found) ↦ inr ((rw (found) at now) ∙ sym (old ∙ found))
              ]
            ]
      ]

  pub append-Added :
      (c : Cell)
      → find_cell (list_of w n) c.at ≡ none
      → Added ns (along c) (record { waits = w; node = n.at; cell = c.at }) c
  unfolding find_cell
  append-Added c out = record {
    there =
        cell_at-put_same ns n w (list_of w n ++ c ∷ []) c.at at_n
        ∙ rw (find_cell-append (list_of w n) (c ∷ []) c.at, out, ==_refl c.at) refl;
    new = λ y d e. elim (along_split c y out) [
      | inl (is_x, is_c, gone) ↦ inr (is_x, cc (is_c, e))
      | inr same ↦ inl (sym same ∙ e)
    ];
    keeps = λ y d e. elim (along_split c y out) [
      | inl (is_x, is_c, gone) ↦ cc (gone, e)
      | inr same ↦ same ∙ e
    ];
  }
