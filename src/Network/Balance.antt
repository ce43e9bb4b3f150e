-- ===== src/Network/Balance.antt =====
-- The requests of src/base/bano_base.c, counted: those in the lists of the nodes, and those whose
-- function has been called.
pub mod Steps
pub mod Answers
pub mod Messages
pub mod Timeouts
pub mod Runs
use bano.Base.{
  ℕ, ◌+◌, ◌-◌, ◌≤◌, ◌≡◌, refl, sym, ap, ◌∙◌, Bool, true, false, not, Option, none, some, List, [],
  ◌∷◌, ◌++◌, ◌==◌, ==_refl, has_bit, if◌then◌else◌, Bytes, arith, length, length-append, Bool-cases,
  Option-cases, inl, inr,
}
use bano.Items.{Ptr}
use bano.Network.{
  Cell, Node, Io, Event, completed, set_called, get_called, node_called, timer_called, notified,
  sent, web_answered, BanoBase, put_io, put_node, node_at,
}
use bano.Network.Send.{del_cell}
use bano.Network.Expire.{find_cell}

-- The requests of a node, and of all nodes
abbrev pub of_node : Node → ℕ
of_node n = length n.posted_ios + length n.pending_ios

abbrev pub outstanding : List Node → ℕ
outstanding [] = 0
outstanding (n ∷ ns) = of_node n + outstanding ns

-- The calls of a function of a request
abbrev pub told : List Event → ℕ
told [] = 0
told (completed f err val ∷ es) = 1 + told es
told (set_called n k v ∷ es) = told es
told (get_called n k ∷ es) = told es
told (node_called n ∷ es) = told es
told (timer_called ∷ es) = told es
told (notified v ∷ es) = told es
told (sent s a bytes ∷ es) = told es
told (web_answered err v ∷ es) = told es

pub length-del_cell :
    (cs : List Cell) (p : Ptr) (c : Cell)
    → find_cell cs p ≡ some c
    → length (del_cell cs p) + 1 ≡ length cs
unfolding find_cell del_cell
length-del_cell [] p c e = cc
length-del_cell (d ∷ cs) p c e = ground (arith, length-del_cell cs p c)

pub outstanding-put_node :
    (ns : List Node) (n k : Node)
    → node_at ns n.at ≡ some k
    → outstanding (put_node ns n) + of_node k ≡ outstanding ns + of_node n
unfolding node_at put_node
outstanding-put_node [] n k e = cc
outstanding-put_node (x ∷ xs) n k e = elim (Bool-cases (x.at == n.at)) [
  | inl same ↦ let is_k : x ≡ k = cc (rw same at e) in rw same (rw (← is_k) (omega arith))
  | inr other ↦ rw other (omega (arith, outstanding-put_node xs n k (rw other at e)))
]

-- Every request in memory has a function.
abbrev pub AllHaveFn : (Ptr → Option Io) → Type 0
AllHaveFn ios = (p : Ptr) (io : Io) → ios p ≡ some io → (f : ℕ) × (io.compl_fn ≡ some f)

pub put_io-AllHaveFn :
    (ios : Ptr → Option Io) (p : Ptr) (io : Io) (f : ℕ)
    → AllHaveFn ios
    → io.compl_fn ≡ some f
    → (a : Ptr) (jo : Io) → put_io ios p (some io) a ≡ some jo
    → (g : ℕ) × (jo.compl_fn ≡ some g)
unfolding put_io
put_io-AllHaveFn ios p io f all has a jo e = elim (Bool-cases (a == p)) [
  | inl same ↦ let is_io : io ≡ jo = cc (rw same at e) in (f, rw (← is_io) has)
  | inr other ↦ all a jo (rw other at e)
]

pub put_io-none-AllHaveFn :
    (ios : Ptr → Option Io) (p : Ptr)
    → AllHaveFn ios
    → (a : Ptr) (jo : Io) → put_io ios p none a ≡ some jo
    → (g : ℕ) × (jo.compl_fn ≡ some g)
unfolding put_io
put_io-none-AllHaveFn ios p all a jo e = elim (Bool-cases (a == p)) [
  | inl same ↦ cc (rw same at e)
  | inr other ↦ all a jo (rw other at e)
]

-- From `b` to `d`, `k` requests come in, and each one that leaves has its function called.
pub record IsBalanced (k : ℕ) (b d : BanoBase) : Type 0 where
  pub sum : outstanding d.nodes + told d.events ≡ outstanding b.nodes + told b.events + k
  pub have_fn : AllHaveFn d.ios

-- What holds of a result holds of the same result.
pub of_result :
    {A : Type 0} {o : Option A} {x y : A} (P : A → Type 0) → o ≡ some x → o ≡ some y → P x → P y
of_result {x = x} {y} P e f p = let same : x ≡ y = cc (e, f) in rw (← same) p
