-- ===== src/Network/Safe/Posts.antt =====
-- `write_msg` of src/base/bano_base.c for all nodes and all their posted requests, on a base whose
-- requests are in order.
use bano.Base.{
  ℕ, ◌≡◌, refl, ap, sym, ◌∙◌, Bool, true, false, none, some, List, [], ◌∷◌, ◌==◌, ==_refl, Bytes,
  arith, Bool-cases, inl, inr,
}
use bano.Items.{Ptr}
use bano.Network.{Cell, Node, BanoBase, node_at}
use bano.Network.Send.{post_io, post_all, write_msg, write_all}
use bano.Network.Expire.{find_cell}
use bano.Network.Lookup.{node_at-at, node_at-node_at}
use bano.Network.Safe.{CellsApart, IsSafeFor}
use bano.Network.Safe.Items.{find_cell-del_other}
use bano.Network.Safe.Writes.{Kept, post_io-Written}

-- The items of `cs` are in the list `ps`.
abbrev Listed : List Cell → List Cell → Type 0
Listed ps [] = Unit {0}
Listed ps (c ∷ cs) = (find_cell ps c.at ≡ some c) × Listed ps cs

-- A change of a list that leaves what it has away from `a`
Listed-change :
    (ps qs : List Cell) (a : Ptr) (cs : List Cell)
    → ((p : Ptr) → (a == p) ≡ false → find_cell qs p ≡ find_cell ps p)
    → find_cell cs a ≡ none
    → Listed ps cs
    → Listed qs cs
unfolding find_cell
Listed-change ps qs a [] same out l = tt
Listed-change ps qs a (c ∷ cs) same out l = elim (Bool-cases (c.at == a)) [
  | inl here ↦ cc (rw here at out)
  | inr behind ↦
      let other : (a == c.at) ≡ false = ground (arith, behind) in
      (same c.at other ∙ l.0, Listed-change ps qs a cs same (rw behind at out) l.1)
]

Listed-self : (cs : List Cell) → CellsApart cs → Listed cs cs
unfolding find_cell
Listed-self [] a = tt
Listed-self (c ∷ cs) a = (
  rw (==_refl c.at) refl,
  Listed-change cs (c ∷ cs) c.at cs (λ p ne. rw ne refl) a.0 (Listed-self cs a.1),
)

-- The nodes of the second list are in the first.
abbrev AllThere : List Node → List Node → Type 0
AllThere us [] = Unit {0}
AllThere us (n ∷ ns) = ((k : Node) × (node_at us n.at ≡ some k)) × AllThere us ns

AllThere-Kept : (us vs ns : List Node) → Kept us vs → AllThere us ns → AllThere vs ns
AllThere-Kept us vs [] kept a = tt
AllThere-Kept us vs (n ∷ ns) kept ((k, e), a) = (kept n.at k e, AllThere-Kept us vs ns kept a)

AllThere-self : (ns : List Node) → AllThere ns ns
unfolding node_at
AllThere-self [] = tt
AllThere-self (n ∷ ns) = (
  (n, rw (==_refl n.at) refl),
  AllThere-Kept ns (n ∷ ns) ns
      (λ p m e. elim (Bool-cases (n.at == p)) [
        | inl same ↦ (n, rw same refl)
        | inr other ↦ (m, rw other e)
      ])
      (AllThere-self ns),
)

module _ (write : Ptr → ℕ → Bytes → Bool)
    (writes : (p : Ptr) (addr : ℕ) (bytes : Bytes) → write p addr bytes ≡ true) (ms k : ℕ) where
  post_all-runs :
      (b : BanoBase) (n : Node) (q : Ptr) (cs : List Cell)
      → IsSafeFor ms k b
      → node_at b.nodes q ≡ some n
      → n.at ≡ q
      → CellsApart cs
      → Listed n.posted_ios cs
      → (d : BanoBase) × (post_all write b q cs ≡ some d) × IsSafeFor ms k d × Kept b.nodes d.nodes
  unfolding post_all
  post_all-runs b n q [] h at_n is_q apart l = (b, refl, h, λ p m e. (m, e))
  post_all-runs b n q (c ∷ cs) h at_n is_q apart l =
      let (d, run, w) =
        post_io-Written write writes ms k b n c h (node_at-node_at b.nodes q n at_n) l.0 in
      let there : node_at d.nodes q ≡ some w.node = ap (node_at d.nodes) (sym is_q) ∙ w.there in
      let still =
        Listed-change n.posted_ios w.node.posted_ios c.at cs
          (λ p ne. rw w.fewer (find_cell-del_other n.posted_ios c.at p ne)) apart.0 l.1 in
      let (e, runs, ready, kept) =
        post_all-runs d w.node q cs w.ready there (node_at-at d.nodes q w.node there) apart.1
          still in
      let run_q : post_io write b q c ≡ some d = rw is_q at run in
      (e, rw (post_all, run_q) runs, ready, λ p m f. let (j, g) = w.kept p m f in kept p j g)

  write_msg-runs :
      (ready : Ptr → Bool) (b : BanoBase) (n : Node) (q : Ptr)
      → IsSafeFor ms k b
      → node_at b.nodes q ≡ some n
      → (d : BanoBase) × (write_msg write ready b q ≡ some d)
        × IsSafeFor ms k d
        × Kept b.nodes d.nodes
  unfolding write_msg
  write_msg-runs ready b n q h at_n = elim (Bool-cases (ready n.socket)) [
    | inr busy ↦ (b, rw (write_msg, at_n, busy) refl, h, λ p m e. (m, e))
    | inl free ↦
        let apart = (h.0.are_nodes.each q n at_n).posted_apart in
        let (d, run, after, kept) =
          post_all-runs b n q n.posted_ios h at_n (node_at-at b.nodes q n at_n) apart
            (Listed-self n.posted_ios apart) in
        (d, rw (write_msg, at_n, free) run, after, kept)
  ]

  write_all-runs :
      (ready : Ptr → Bool) (b : BanoBase) (ns : List Node)
      → IsSafeFor ms k b
      → AllThere b.nodes ns
      → (d : BanoBase) × (write_all write ready b ns ≡ some d) × IsSafeFor ms k d
  unfolding write_all
  write_all-runs ready b [] h a = (b, refl, h)
  write_all-runs ready b (n ∷ ns) h ((m, at_m), a) =
      let (d, run, after, kept) = write_msg-runs ready b m n.at h at_m in
      let (e, runs, last) =
        write_all-runs ready d ns after (AllThere-Kept b.nodes d.nodes ns kept a) in
      (e, rw (write_all, run) runs, last)

  -- `write_msg` under `bano_list_foreach`, over the nodes of the base
  pub write_all-IsSafeFor :
      (ready : Ptr → Bool) (b : BanoBase)
      → IsSafeFor ms k b
      → (d : BanoBase) × (write_all write ready b b.nodes ≡ some d) × IsSafeFor ms k d
  write_all-IsSafeFor ready b h = write_all-runs ready b b.nodes h (AllThere-self b.nodes)
