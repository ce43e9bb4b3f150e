-- ===== src/Network/Lookup.antt =====
-- Reads behind writes: the nodes and the requests of a base, and its text messages.
use bano.Base.{
  ℕ, ◌≡◌, ap, true, ◌∙◌, refl, false, Option, none, some, List, [], ◌∷◌, ◌==◌, ==_refl, Bool-cases,
  inl, inr, arith,
}
use bano.Items.{Ptr}
use bano.Network.{Node, Io, BanoBase, notified, add_event, put_io, put_node, node_at}
use bano.Network.Receive.{notify}

pub node_at-put_node :
    (ns : List Node) (n k : Node) → node_at ns n.at ≡ some k → node_at (put_node ns n) n.at ≡ some n
unfolding node_at put_node
node_at-put_node [] n k e = cc
node_at-put_node (x ∷ xs) n k e = elim (Bool-cases (x.at == n.at)) [
  | inl same ↦ rw (same, node_at, ==_refl n.at) refl
  | inr other ↦ rw (other, node_at, other) (node_at-put_node xs n k (rw (other) at e))
]

pub node_at-put_other :
    (ns : List Node) (n : Node) (p : Ptr)
    → (n.at == p) ≡ false
    → node_at (put_node ns n) p ≡ node_at ns p
unfolding node_at put_node
node_at-put_other [] n p ne = refl
node_at-put_other (x ∷ xs) n p ne = ground (arith, node_at-put_other xs n p ne)

-- The node found has the address looked for.
pub node_at-at : (ns : List Node) (p : Ptr) (n : Node) → node_at ns p ≡ some n → n.at ≡ p
unfolding node_at
node_at-at [] p n e = cc
node_at-at (x ∷ xs) p n e = ground (arith, node_at-at xs p n)

pub node_at-node_at :
    (ns : List Node) (p : Ptr) (n : Node) → node_at ns p ≡ some n → node_at ns n.at ≡ some n
node_at-node_at ns p n e = ap (node_at ns) (node_at-at ns p n e) ∙ e

pub put_io-same : (ios : Ptr → Option Io) (p : Ptr) (c : Option Io) → put_io ios p c p ≡ c
unfolding put_io
put_io-same ios p c = rw (==_refl p) refl

pub put_io-other :
    (ios : Ptr → Option Io) (p a : Ptr) (c : Option Io)
    → (a == p) ≡ false
    → put_io ios p c a ≡ ios a
unfolding put_io
put_io-other ios p a c e = rw e refl

pub notify-runs :
    (b : BanoBase) (v : ℕ) → b.sms_ready ≡ true → notify b v ≡ some (add_event (notified v) b)
unfolding notify
notify-runs b v ready = rw ready refl

pub notify-unset : (b : BanoBase) (v : ℕ) → b.sms_ready ≡ false → notify b v ≡ none
unfolding notify
notify-unset b v unset = rw unset refl
