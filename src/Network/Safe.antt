-- ===== src/Network/Safe.antt =====
-- What keeps src/base/bano_base.c from a step that the C language leaves undefined: which request
-- stands where in the lists of the nodes, and which timer is whose.
pub mod Clock
pub mod Items
pub mod Cells
pub mod Moves
pub mod Nodes
pub mod Kept
pub mod Idle
pub mod Places
pub mod Writes
pub mod Posts
pub mod Messages
pub mod Answered
pub mod Handlers
pub mod Requests
pub mod Expiry
pub mod Update
pub mod Rounds
use bano.Base.{
  ℕ, ◌+◌, ◌*◌, length, has_bit, ◌≤◌, ◌<◌, ◌^◌, ◌≡◌, Bool, true, Option, none, some, List, [], ◌∷◌,
  ◌==◌, if◌then◌else◌,
}
use bano.Items.{Ptr}
use bano.Dict.{Dict}
use bano.Nodl.{Nodl, Keyval, flag_notif, nodl_find_key}
use bano.Timers.{Timer, Target}
use bano.Timers.Dues.{AreLinked, last_due}
use bano.Network.{NodeVal, Cell, Node, Io, io_reply, BanoBase, node_at}
use bano.Network.Expire.{find_cell}

-- A place for a request: the list of a node, of pending requests or of posted ones, and an item.
pub record Place : Type 0 where
  pub waits : Bool
  pub node : Ptr
  pub cell : Ptr

abbrev pub list_of : Bool → Node → List Cell
list_of w n = if w then n.pending_ios else n.posted_ios

abbrev pub cell_at : List Node → Place → Option Cell
cell_at ns x = elim (node_at ns x.node) [
  | none ↦ none
  | some n ↦ find_cell (list_of x.waits n) x.cell
]

-- The `data` of the timer at an address
abbrev pub target_at : List Timer → Ptr → Option (Option Target)
target_at [] p = none
target_at (x ∷ xs) p = let rest = target_at xs p in if x.at == p then some x.target else rest

-- No address twice
abbrev pub CellsApart : List Cell → Type 0
CellsApart [] = Unit {0}
CellsApart (c ∷ cs) = (find_cell cs c.at ≡ none) × CellsApart cs

abbrev pub NodesApart : List Node → Type 0
NodesApart [] = Unit {0}
NodesApart (n ∷ ns) = (node_at ns n.at ≡ none) × NodesApart ns

abbrev pub TimersApart : List Timer → Type 0
TimersApart [] = Unit {0}
TimersApart (t ∷ ts) = (target_at ts t.at ≡ none) × TimersApart ts

-- A node with pairs, and lists without an address twice
pub record IsNode (fresh : ℕ) (n : Node) : Type 0 where
  pub old : n.at < fresh
  pub pairs : (d : Dict NodeVal) × (n.keyval_pairs ≡ some d)
  pub posted_apart : CellsApart n.posted_ios
  pub pending_apart : CellsApart n.pending_ios

pub record AreNodes (fresh : ℕ) (ns : List Node) : Type 0 where
  pub apart : NodesApart ns
  pub each : (p : Ptr) (n : Node) → node_at ns p ≡ some n → IsNode fresh n

-- The timers, all of which are due within `ms`
pub record AreTimers (ms : ℕ) (ts : List Timer) : Type 0 where
  pub linked : AreLinked ts
  pub apart : TimersApart ts
  pub soon : last_due 0 ts ≤ ms
  pub fits : ms < 2 ^ 32

-- The item `c` in the place `x` has a request in memory, which is of the node, gets `ms` for each
-- try, and, where it is pending, has a timer that leads back to the place.
pub record IsHeld (ms : ℕ) (ts : List Timer) (ios : Ptr → Option Io) (fresh : ℕ) (x : Place)
    (c : Cell) : Type 0 where
  pub io : Io
  pub live : ios c.io ≡ some io
  pub mine : io.node ≡ x.node
  pub time : has_bit io_reply io.flags ≡ true → io.retry_ms ≡ ms
  pub old_cell : x.cell < fresh
  pub old_io : c.io < fresh
  pub timed :
      x.waits ≡ true
      → target_at ts io.timer ≡ some (some (record { node = x.node; cell = some x.cell }))

-- The timer at `t` leads to a place, where a request has that timer.
pub record Leads (ns : List Node) (ios : Ptr → Option Io) (fresh : ℕ) (t : Ptr) (g : Option Target)
    : Type 0 where
  pub q : Ptr
  pub a : Ptr
  pub c : Cell
  pub io : Io
  pub there : cell_at ns (record { waits = true; node = q; cell = a }) ≡ some c
  pub is_g : g ≡ some (record { node = q; cell = some a })
  pub live : ios c.io ≡ some io
  pub has_it : io.timer ≡ t
  pub old : t < fresh

pub record AreHeld (ms : ℕ) (ns : List Node) (ts : List Timer) (ios : Ptr → Option Io) (fresh : ℕ)
    : Type 0 where
  pub held : (x : Place) (c : Cell) → cell_at ns x ≡ some c → IsHeld ms ts ios fresh x c
  pub once :
      (x y : Place) (c d : Cell)
      → cell_at ns x ≡ some c
      → cell_at ns y ≡ some d
      → c.io ≡ d.io
      → x ≡ y
  pub leads : (t : Ptr) (g : Option Target) → target_at ts t ≡ some g → Leads ns ios fresh t g

pub record AreSafe (ms : ℕ) (ns : List Node) (ts : List Timer) (ios : Ptr → Option Io) (fresh : ℕ)
    : Type 0 where
  pub are_nodes : AreNodes fresh ns
  pub are_timers : AreTimers ms ts
  pub are_held : AreHeld ms ns ts ios fresh

-- What keeps a base from a step that is not defined
abbrev pub IsSafe : ℕ → BanoBase → Type 0
IsSafe ms b = AreSafe ms b.nodes b.timers b.ios b.mem.fresh

abbrev pub posted_total : List Node → ℕ
posted_total [] = 0
posted_total (n ∷ ns) = length n.posted_ios + posted_total ns

-- A description that asks for text messages only where the handle for them is `ready`
abbrev pub CanNotify : (ready : Bool) → Option Nodl → Type 0
CanNotify ready x =
    (d : Nodl) (key : ℕ) (kv : Keyval)
    → x ≡ some d
    → nodl_find_key d key ≡ some kv
    → has_bit flag_notif kv.flags ≡ true
    → ready ≡ true

abbrev pub Notifies : (ready : Bool) → List Node → Type 0
Notifies ready ns = (p : Ptr) (n : Node) → node_at ns p ≡ some n → CanNotify ready n.nodl

-- ... with memory for all posted requests, and `k` more requests of memory
abbrev pub IsSafeFor : ℕ → ℕ → BanoBase → Type 0
IsSafeFor ms k b =
    IsSafe ms b × (k + 3 * posted_total b.nodes ≤ b.mem.left) × Notifies b.sms_ready b.nodes
