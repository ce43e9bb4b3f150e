-- ===== src/Program.antt =====
-- The command line of src/base/main.c, and what the program does with a node. `strtoul` is a
-- parameter; what is printed is left out, and so are the calls of `bano_open` and the loop, which
-- Setup and Network.Loop have.
pub mod Posted
use bano.Base.{
  ℕ, zero, suc, ◌+◌, ◌%◌, ◌^◌, Bool, true, false, ◌&&◌, Option, none, some, List, [], ◌∷◌, ◌==◌,
  if◌then◌else◌, ltb, Bytes, codes, get_or, length, has_bit, set_bit,
}
use bano.Items.{Ptr}
use bano.Config.Nodls.{same_text}
use bano.Timers.{Mem}
use bano.Network.{
  Node, Io, BanoBase, node_at, put_io, alloc_get_io, alloc_set_io, bano_post_io, LoopInfo,
}

-- `cmdline_info_t`, with `CMDLINE_FLAG_OP_ACK` of its flags; those for a key, a value and an address
-- are never read, and that for a name says whether it is NULL.
pub record CmdlineInfo : Type 0 where
  pub op_ack : Bool
  pub op_name : Option Bytes
  pub op_key : ℕ
  pub op_val : ℕ
  pub node_addr : ℕ

-- What `main` asks the loop for, by the name of the operation
pub data Job : Type 0 where
  list_nodes listen : Job
  set_node : (naddr key val : ℕ) → (is_ack : Bool) → Job
  get_node : (naddr key : ℕ) → Job

abbrev pub no_options : CmdlineInfo
no_options = record { op_ack = false; op_name = none; op_key = 0; op_val = 0; node_addr = 0 }

module _ (strtoul : Bytes → ℕ → ℕ) where
  -- `str_to_uint32`
  unfoldable pub str_to_uint32 : Bytes → ℕ
  str_to_uint32 s =
      let base : ℕ =
        if ltb 2 (length s) && (get_or s 0 0 == b'0') && (get_or s 1 0 == b'x') then 16 else 10 in
      strtoul s base % 2 ^ 32

  -- The body of the loop of `get_cmdline_info`
  unfoldable pub cmdline_pair : CmdlineInfo → (k v : Bytes) → CmdlineInfo
  cmdline_pair ci k v =
      if same_text k (codes "-op_name")
      then record ci { op_name = some v }
      else if same_text k (codes "-op_key")
      then record ci { op_key = str_to_uint32 v }
      else if same_text k (codes "-op_val")
      then record ci { op_val = str_to_uint32 v }
      else if same_text k (codes "-op_ack")
      then (if same_text v (codes "1") then record ci { op_ack = true } else ci)
      else if same_text k (codes "-node_addr")
      then record ci { node_addr = str_to_uint32 v }
      else ci

  -- `get_cmdline_info` on what stands behind the name of the program; `none` for an error.
  unfoldable pub cmdline_pairs : CmdlineInfo → List Bytes → Option CmdlineInfo
  cmdline_pairs ci [] = some ci
  cmdline_pairs ci (k ∷ []) = none
  cmdline_pairs ci (k ∷ v ∷ args) = cmdline_pairs (cmdline_pair ci k v) args

  unfoldable pub get_cmdline_info : List Bytes → Option CmdlineInfo
  get_cmdline_info args = cmdline_pairs no_options args

-- The choice that `main` makes; a key is one of 16 bits from there on.
unfoldable pub main_job : CmdlineInfo → Option Job
main_job ci = elim ci.op_name as (λ _. Option Job) [
  | none ↦ some listen
  | some name ↦
      if same_text name (codes "list")
      then some list_nodes
      else if same_text name (codes "set")
      then some (set_node ci.node_addr (ci.op_key % 2 ^ 16) ci.op_val ci.op_ack)
      else if same_text name (codes "get")
      then some (get_node ci.node_addr (ci.op_key % 2 ^ 16))
      else if same_text name (codes "listen")
      then some listen
      else none
]

-- What `main` does with its arguments; `none` for an error.
unfoldable pub args_job : (strtoul : Bytes → ℕ → ℕ) → List Bytes → Option Job
args_job strtoul args = elim (get_cmdline_info strtoul args) as (λ _. Option Job) [
  | none ↦ none
  | some ci ↦ main_job ci
]

-- What `main` puts into `bano_loop_info_t`; without a `timer_fn` no `timer_ms` is read.
unfoldable pub job_loop : Job → LoopInfo
job_loop list_nodes = record {
  set_fn = false;
  get_fn = false;
  node_fn = true;
  timer_fn = false;
  timer_ms = 0;
}
job_loop listen = record {
  set_fn = true;
  get_fn = true;
  node_fn = true;
  timer_fn = false;
  timer_ms = 0;
}
job_loop (set_node naddr key val is_ack) = record {
  set_fn = false;
  get_fn = false;
  node_fn = true;
  timer_fn = false;
  timer_ms = 0;
}
job_loop (get_node naddr key) = record {
  set_fn = false;
  get_fn = false;
  node_fn = true;
  timer_fn = true;
  timer_ms = 1000;
}

-- A request that has got its memory, or not, for the node at `q`; `frees` says whether it is given
-- back where it cannot be posted.
unfoldable pub post_new :
    (frees : Bool) → BanoBase → Ptr → Option (Mem × Ptr × Io) → Option (BanoBase × Bool)
post_new frees b q none = some (b, false)
post_new frees b q (some (m, p, io)) =
    elim (bano_post_io (record b { mem = m; ios = put_io b.ios p (some io) }) q p) [
      | none ↦ none
      | some (c, posted) ↦
          let freed : BanoBase = record c { ios = put_io c.ios p none } in
          let kept : Option (BanoBase × Bool) = some (c, posted) in
          let refused : Option (BanoBase × Bool) = some ((if frees then freed else c), false) in
          if posted then kept else refused
    ]

-- `on_node_print`, `on_node_set` and `on_node_get`, called for a new node at `q`: `false` for an error,
-- `none` where C leaves it undefined. `raw` is what the memory of a request held, `info` the address
-- of the data of its function.
unfoldable pub on_node : (raw : Io) → (info : ℕ) → Job → BanoBase → Ptr → Option (BanoBase × Bool)
on_node raw info list_nodes b q = some (b, true)
on_node raw info listen b q = some (b, true)
on_node raw info (set_node naddr key val is_ack) b q = elim (node_at b.nodes q) [
  | none ↦ none
  | some n ↦
      let other : Option (BanoBase × Bool) = some (b, true) in
      let asked = post_new true b q (alloc_set_io raw b.mem key val is_ack (some info)) in
      if n.addr == naddr then asked else other
]
on_node raw info (get_node naddr key) b q = elim (node_at b.nodes q) [
  | none ↦ none
  | some n ↦
      let other : Option (BanoBase × Bool) = some (b, true) in
      let asked = post_new false b q (alloc_get_io raw b.mem key (some info)) in
      if n.addr == naddr then asked else other
]
