-- ===== src/Network/Safe/Idle.antt =====
-- A base of src/base/bano_base.c before its first request.
use bano.Base.{ℕ, ◌<◌, ◌^◌, ◌≡◌, refl, none, some, [], arith, Bool-cases, Option-cases, inl, inr}
use bano.Items.{Ptr}
use bano.Network.{Cell, Node, BanoBase, node_at}
use bano.Network.Expire.{find_cell}
use bano.Network.Safe.{Place, list_of, cell_at, AreNodes, AreTimers, IsSafe}

-- A base whose nodes have no request, and in which no timer runs, as `bano_open` leaves it
pub idle-IsSafe :
    (ms : ℕ) (b : BanoBase)
    → ms < 2 ^ 32
    → AreNodes b.mem.fresh b.nodes
    → ((p : Ptr) (n : Node)
        → node_at b.nodes p ≡ some n
        → (n.posted_ios ≡ []) × (n.pending_ios ≡ []))
    → b.timers ≡ []
    → IsSafe ms b
unfolding find_cell
idle-IsSafe ms b lt nodes idle no_timers =
    let nowhere : (x : Place) (c : Cell) → cell_at b.nodes x ≡ some c → ⊥ = λ x c e.
      elim (Option-cases (node_at b.nodes x.node)) [
        | inl gone ↦ cc (rw (cell_at, gone) at e)
        | inr (n, found) ↦
            let (posted, pending) = idle x.node n found in
            let nil : list_of x.waits n ≡ [] = elim (Bool-cases x.waits) [
              | inl w ↦ rw w pending
              | inr w ↦ rw w posted
            ] in
            let none_in : find_cell (list_of x.waits n) x.cell ≡ none = rw nil refl in
            let at_x : cell_at b.nodes x ≡ find_cell (list_of x.waits n) x.cell =
              rw (cell_at, found) refl in
            cc (at_x, none_in, e)
      ] in
    record {
      are_nodes = nodes;
      are_timers = rw no_timers (no_AreTimers lt);
      are_held = record {
        held = λ x c e. absurd (nowhere x c e);
        once = λ x y c d in_x in_y same. absurd (nowhere x c in_x);
        leads = λ t g e. cc (rw no_timers at e);
      };
    }
  where
    no_AreTimers : ms < 2 ^ 32 → AreTimers ms []
    no_AreTimers lt = record { linked = tt; apart = tt; soon = omega arith; fits = lt }
