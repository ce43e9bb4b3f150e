-- ===== src/Network/Safe/Nodes.antt =====
-- The nodes of src/base/bano_base.c, of which each is found by its address.
use bano.Base.{
  ℕ, ◌≤◌, ◌≡◌, refl, ap, sym, ◌∙◌, false, Option, none, some, List, [], ◌∷◌, ◌++◌, ◌==◌, ==_refl,
  ==_iff, arith, Bool-cases, Option-cases, inl, inr,
}
use bano.Items.{Ptr}
use bano.Network.{Node, put_node, node_at, find_node_by_addr}
use bano.Network.Lookup.{node_at-put_node, node_at-put_other, node_at-at}
use bano.Network.Safe.{NodesApart, IsNode, AreNodes}

node_at-put_none :
    (ns : List Node) (n : Node) (p : Ptr) → node_at ns p ≡ none → node_at (put_node ns n) p ≡ none
unfolding node_at put_node
node_at-put_none [] n p e = refl
node_at-put_none (x ∷ xs) n p e = ground (arith, node_at-put_none xs n p)

put_node-NodesApart : (ns : List Node) (n : Node) → NodesApart ns → NodesApart (put_node ns n)
unfolding put_node
put_node-NodesApart [] n a = tt
put_node-NodesApart (x ∷ xs) n a = elim (Bool-cases (x.at == n.at)) [
  | inl same ↦
      let is_n : x.at ≡ n.at = (==_iff x.at n.at).0 same in
      rw same (ap (node_at xs) (sym is_n) ∙ a.0, a.1)
  | inr other ↦ rw other (node_at-put_none xs n x.at a.0, put_node-NodesApart xs n a.1)
]

-- A write to a node
pub put_node-AreNodes :
    (fresh : ℕ) (ns : List Node) (n k : Node)
    → AreNodes fresh ns
    → node_at ns n.at ≡ some k
    → IsNode fresh n
    → AreNodes fresh (put_node ns n)
put_node-AreNodes fresh ns n k h at_k is_node = record {
  apart = put_node-NodesApart ns n h.apart;
  each = λ p m e. elim (Bool-cases (n.at == p)) [
    | inl same ↦
        let is_p : n.at ≡ p = (==_iff n.at p).0 same in
        let there : node_at (put_node ns n) p ≡ some n =
          ap (node_at (put_node ns n)) (sym is_p) ∙ node_at-put_node ns n k at_k in
        let is_n : n ≡ m = cc (there, e) in rw (← is_n) is_node
    | inr other ↦ h.each p m (sym (node_at-put_other ns n p other) ∙ e)
  ];
}

IsNode-le : (f g : ℕ) (n : Node) → f ≤ g → IsNode f n → IsNode g n
IsNode-le f g n le h = record {
  old = omega (arith, h.old);
  pairs = h.pairs;
  posted_apart = h.posted_apart;
  pending_apart = h.pending_apart;
}

pub AreNodes-le : (f g : ℕ) (ns : List Node) → f ≤ g → AreNodes f ns → AreNodes g ns
AreNodes-le f g ns le h = record {
  apart = h.apart;
  each = λ p n e. IsNode-le f g n le (h.each p n e);
}

pub node_at-append :
    (ns : List Node) (n : Node) (p : Ptr)
    → node_at (ns ++ n ∷ []) p
      ≡ (elim (node_at ns p) as (λ _. Option Node) [ none ↦ node_at (n ∷ []) p | some m ↦ some m ])
unfolding node_at
node_at-append [] n p = refl
node_at-append (x ∷ xs) n p = elim (Bool-cases (x.at == p)) [
  | inl here ↦ rw here refl
  | inr behind ↦ rw behind (node_at-append xs n p)
]

pub append-NodesApart :
    (ns : List Node) (n : Node) → NodesApart ns → node_at ns n.at ≡ none → NodesApart (ns ++ n ∷ [])
unfolding node_at
append-NodesApart [] n a out = (refl, tt)
append-NodesApart (x ∷ xs) n a out = elim (Bool-cases (x.at == n.at)) [
  | inl here ↦ cc (rw here at out)
  | inr behind ↦
      let other : (n.at == x.at) ≡ false = ground (arith, behind) in
      (
        rw (node_at-append xs n x.at, a.0, other) refl,
        append-NodesApart xs n a.1 (rw behind at out),
      )
]

-- A new node
pub append-AreNodes :
    (f g : ℕ) (ns : List Node) (n : Node)
    → AreNodes f ns
    → f ≤ g
    → f ≤ n.at
    → IsNode g n
    → AreNodes g (ns ++ n ∷ []) × (node_at (ns ++ n ∷ []) n.at ≡ some n) × (node_at ns n.at ≡ none)
unfolding node_at
append-AreNodes f g ns n h le new is_node =
    let out : node_at ns n.at ≡ none = elim (Option-cases (node_at ns n.at)) [
      | inl e ↦ e
      | inr (m, e) ↦
          let is_at = node_at-at ns n.at m e in
          let old = (h.each n.at m e).old in absurd (omega (arith, is_at, old))
    ] in
    (
      record {
        apart = append-NodesApart ns n h.apart out;
        each = λ p m e. elim (Option-cases (node_at ns p)) [
          | inl gone ↦
              let last = rw (node_at-append ns n p, gone) at e in
              elim (Bool-cases (n.at == p)) [
                | inl same ↦ let is_n : n ≡ m = cc (rw same at last) in rw (← is_n) is_node
                | inr other ↦ cc (rw other at last)
              ]
          | inr (k, found) ↦
              let is_k : k ≡ m = cc (rw (node_at-append ns n p, found) at e) in
              IsNode-le f g m le (h.each p m (rw is_k at found))
        ];
      },
      rw (node_at-append ns n n.at, out, ==_refl n.at) refl,
      out,
    )

-- The node of an address is in its place.
pub find_node_by_addr-node_at :
    (ns : List Node) (addr : ℕ) (n : Node)
    → NodesApart ns
    → find_node_by_addr ns addr ≡ some n
    → node_at ns n.at ≡ some n
unfolding node_at find_node_by_addr
find_node_by_addr-node_at [] addr n a e = cc
find_node_by_addr-node_at (x ∷ xs) addr n a e = elim (Bool-cases (x.addr == addr)) [
  | inl here ↦ let is_n : x ≡ n = cc (rw here at e) in rw (← is_n, ==_refl x.at) refl
  | inr behind ↦
      let found = find_node_by_addr-node_at xs addr n a.1 (rw behind at e) in
      elim (Bool-cases (x.at == n.at)) [
        | inr other ↦ rw other found
        | inl same ↦
            let is_at : x.at ≡ n.at = (==_iff x.at n.at).0 same in
            let gone : node_at xs n.at ≡ none = ap (node_at xs) (sym is_at) ∙ a.0 in
            cc (gone, found)
      ]
]
