-- ===== src/Network/Safe/Kept.antt =====
-- Nodes of src/base/bano_base.c that change and keep their requests, and how many are posted.
use bano.Base.{
  ℕ, ◌+◌, ◌≤◌, ◌≡◌, refl, ap, sym, ◌∙◌, true, Option, some, List, [], ◌∷◌, ◌++◌, ◌==◌, ==_iff, Bool,
  length, arith, Bool-cases, Option-cases, inl, inr,
}
use bano.Items.{Ptr}
use bano.Timers.{Timer}
use bano.Network.{Node, Io, put_node, node_at}
use bano.Network.Expire.{find_cell}
use bano.Network.Lookup.{node_at-put_node, node_at-put_other}
use bano.Network.Safe.{Place, list_of, cell_at, CanNotify, Notifies, AreHeld, posted_total}
use bano.Network.Safe.Nodes.{node_at-append}

-- A new node without requests changes no place.
pub cell_at-append :
    (ns : List Node) (n : Node) (x : Place)
    → n.posted_ios ≡ []
    → n.pending_ios ≡ []
    → cell_at (ns ++ n ∷ []) x ≡ cell_at ns x
unfolding node_at find_cell
cell_at-append ns n x no_posted no_pending = elim (Option-cases (node_at ns x.node)) [
  | inr (k, found) ↦ rw (cell_at, node_at-append ns n x.node, found) refl
  | inl gone ↦ elim (Bool-cases (n.at == x.node)) [
    | inr other ↦ rw (cell_at, node_at-append ns n x.node, gone, other) refl
    | inl same ↦
        let nil : list_of x.waits n ≡ [] = elim (Bool-cases x.waits) [
          | inl w ↦ rw w no_pending
          | inr w ↦ rw w no_posted
        ] in
        rw (cell_at, node_at-append ns n x.node, gone, same, nil) refl
  ]
]

-- A write to a node that leaves its requests changes no place.
pub cell_at-put_kept :
    (ns : List Node) (n k : Node) (x : Place)
    → node_at ns n.at ≡ some k
    → n.posted_ios ≡ k.posted_ios
    → n.pending_ios ≡ k.pending_ios
    → cell_at (put_node ns n) x ≡ cell_at ns x
cell_at-put_kept ns n k x at_k same_posted same_pending = elim (Bool-cases (n.at == x.node)) [
  | inr other ↦ rw (cell_at, node_at-put_other ns n x.node other) refl
  | inl same ↦
      let is_n : n.at ≡ x.node = (==_iff n.at x.node).0 same in
      let equal : list_of x.waits n ≡ list_of x.waits k = elim (Bool-cases x.waits) [
        | inl w ↦ rw w same_pending
        | inr w ↦ rw w same_posted
      ] in
      let old : node_at ns x.node ≡ some k = ap (node_at ns) (sym is_n) ∙ at_k in
      let new : node_at (put_node ns n) x.node ≡ some n =
        ap (node_at (put_node ns n)) (sym is_n) ∙ node_at-put_node ns n k at_k in
      rw (cell_at, old, new, equal) refl
]

pub AreHeld-kept :
    (ms f g : ℕ) (ns us : List Node) (ts : List Timer) (ios : Ptr → Option Io)
    → AreHeld ms ns ts ios f
    → f ≤ g
    → ((x : Place) → cell_at us x ≡ cell_at ns x)
    → AreHeld ms us ts ios g
AreHeld-kept ms f g ns us ts ios h le same = record {
  held = λ x c e.
      let k = h.held x c (sym (same x) ∙ e) in
      record {
        io = k.io;
        live = k.live;
        mine = k.mine;
        time = k.time;
        old_cell = omega (arith, k.old_cell);
        old_io = omega (arith, k.old_io);
        timed = k.timed;
      };
  once = λ x y c d in_x in_y. h.once x y c d (sym (same x) ∙ in_x) (sym (same y) ∙ in_y);
  leads = λ t i e.
      let k = h.leads t i e in
      record {
        q = k.q;
        a = k.a;
        c = k.c;
        io = k.io;
        there = same (record { waits = true; node = k.q; cell = k.a }) ∙ k.there;
        is_g = k.is_g;
        live = k.live;
        has_it = k.has_it;
        old = omega (arith, k.old);
      };
}

pub put_node-Notifies :
    (ready : Bool) (ns : List Node) (m n : Node)
    → Notifies ready ns
    → node_at ns m.at ≡ some n
    → m.nodl ≡ n.nodl
    → Notifies ready (put_node ns m)
put_node-Notifies ready ns m n h at_n same p k e d key kv is_d = elim (Bool-cases (m.at == p)) [
  | inr other ↦ h p k (sym (node_at-put_other ns m p other) ∙ e) d key kv is_d
  | inl equal ↦
      let is_p : m.at ≡ p = (==_iff m.at p).0 equal in
      let here : node_at (put_node ns m) p ≡ some m =
        ap (node_at (put_node ns m)) (sym is_p) ∙ node_at-put_node ns m n at_n in
      let is_k : m ≡ k = cc (here, e) in
      h m.at n at_n d key kv (sym same ∙ ap (λ x. x.nodl) is_k ∙ is_d)
]

pub append-Notifies :
    (ready : Bool) (ns : List Node) (n : Node)
    → Notifies ready ns
    → CanNotify ready n.nodl
    → Notifies ready (ns ++ n ∷ [])
unfolding node_at
append-Notifies ready ns n h can p k e = elim (Option-cases (node_at ns p)) [
  | inr (j, found) ↦
      let is_k : j ≡ k = cc (rw (node_at-append ns n p, found) at e) in h p k (found ∙ ap some is_k)
  | inl gone ↦ elim (Bool-cases (n.at == p)) [
    | inr other ↦ cc (rw (node_at-append ns n p, gone, other) at e)
    | inl same ↦
        let is_k : n ≡ k = cc (rw (node_at-append ns n p, gone, same) at e) in rw (← is_k) can
  ]
]

pub posted_total-put_node :
    (ns : List Node) (n k : Node)
    → node_at ns n.at ≡ some k
    → posted_total (put_node ns n) + length k.posted_ios ≡ posted_total ns + length n.posted_ios
unfolding node_at put_node
posted_total-put_node [] n k e = cc
posted_total-put_node (x ∷ xs) n k e = elim (Bool-cases (x.at == n.at)) [
  | inl same ↦ let is_k : x ≡ k = cc (rw same at e) in rw same (rw (← is_k) (omega arith))
  | inr other ↦ rw other (omega (arith, posted_total-put_node xs n k (rw other at e)))
]

pub posted_total-append :
    (ns : List Node) (n : Node)
    → posted_total (ns ++ n ∷ []) ≡ posted_total ns + length n.posted_ios
posted_total-append [] n = omega arith
posted_total-append (x ∷ xs) n = omega (arith, posted_total-append xs n)
