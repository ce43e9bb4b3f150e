-- ===== src/Network.antt =====
-- The nodes of a base and the requests to them: src/base/bano_node.c, and what bano_base.h and
-- bano_base.c of src/base say of requests. A node and a request have an address; a list of nodes or of
-- requests is the sequence of its items. What the code calls in the program around it is an event.
-- `none` stands for a step that the C language leaves undefined.
pub mod Receive
pub mod Send
pub mod Expire
pub mod Web
pub mod Loop
pub mod Lookup
pub mod Stored
pub mod Answers
pub mod Steps
pub mod Retry
pub mod Balance
pub mod Noted
pub mod Exchange
pub mod Safe
use bano.Base.{
  ℕ, ◌+◌, Bool, true, false, Option, none, some, List, [], ◌∷◌, ◌++◌, ◌==◌, if◌then◌else◌, Bytes,
  has_bit, set_bit,
}
use bano.Items.{Ptr, null}
use bano.Dict.{Dict, dict_init, dict_get}
use bano.Cipher.{Cipher}
use bano.Nodl.{Nodl}
use bano.Message.{Msg, op_set, op_get}
use bano.Config.Pairs.{NodeInfo, node_addr, node_nodl_id, node_cipher, node_socket, node_name}
use bano.Timers.{Mem, malloc, Timer}

-- `bano_node_val_t`
pub record NodeVal : Type 0 where
  pub val : ℕ
  pub mtime : ℕ

-- An item of a list of requests.
pub record Cell : Type 0 where
  pub at : Ptr
  pub io : Ptr

-- `bano_node_t`; `keyval_pairs` is `none` where `bano_dict_init` has failed and left it as it was.
pub record Node : Type 0 where
  pub at : Ptr
  pub flags : ℕ
  pub addr : ℕ
  pub name : Bytes
  pub socket : Ptr
  pub nodl : Option Nodl
  pub posted_ios : List Cell
  pub pending_ios : List Cell
  pub keyval_pairs : Option (Dict NodeVal)

-- `bano_io_t`; `compl_fn` is the `compl_data` of a function that is not NULL.
pub record Io : Type 0 where
  pub node : Ptr
  pub flags : ℕ
  pub timer : Ptr
  pub retry_ms : ℕ
  pub retry_count : ℕ
  pub compl_err : ℕ
  pub compl_val : ℕ
  pub compl_fn : Option ℕ
  pub msg : Msg

-- `BANO_IO_FLAG_REPLY`, as the number of its bit
abbrev pub io_reply : ℕ
io_reply = 0

abbrev pub err_success : ℕ
err_success = 0

abbrev pub err_failure : ℕ
err_failure = 1

abbrev pub err_timeout : ℕ
err_timeout = 2

-- `BANO_RETRY_MS`
abbrev pub default_retry_ms : ℕ
default_retry_ms = 1700

-- `BANO_RETRY_COUNT`
abbrev pub default_retry_count : ℕ
default_retry_count = 3

-- What the base does to the program around it: the calls of `compl_fn`, `set_fn`, `get_fn`,
-- `node_fn` and `timer_fn`, messages of text, what `bano_socket_write` sends, and the answers to the
-- web server.
pub data Event : Type 0 where
  completed : (data_of err val : ℕ) → Event
  set_called : (node : Ptr) (key val : ℕ) → Event
  get_called : (node : Ptr) (key : ℕ) → Event
  node_called : (node : Ptr) → Event
  timer_called : Event
  notified : (val : ℕ) → Event
  sent : (socket : Ptr) (addr : ℕ) (bytes : Bytes) → Event
  web_answered : (err val : ℕ) → Event

-- `bano_loop_info_t`: which functions are not NULL, and `timer_ms`.
pub record LoopInfo : Type 0 where
  pub set_fn : Bool
  pub get_fn : Bool
  pub node_fn : Bool
  pub timer_fn : Bool
  pub timer_ms : ℕ

-- `bano_base_t` without its servers; a socket is its address. Then the memory, with the requests in it, and the
-- events so far, the last one first. `sms_ready` says whether `sms` has been opened with the
-- address of a server; its memory is not set before.
pub record BanoBase : Type 0 where
  pub flags : ℕ
  pub nodes : List Node
  pub sockets : List Ptr
  pub timers : List Timer
  pub nodls : Dict Nodl
  pub cipher : Cipher
  pub addr : ℕ
  pub sms_ready : Bool
  pub mem : Mem
  pub ios : Ptr → Option Io
  pub events : List Event

abbrev pub add_event : Event → BanoBase → BanoBase
add_event e b = record b { events = e ∷ b.events }

-- A write to the memory of requests, `free` with `none`.
unfoldable pub put_io : (Ptr → Option Io) → Ptr → Option Io → Ptr → Option Io
put_io ios p c a = if a == p then c else ios a

-- A write to a node.
unfoldable pub put_node : List Node → Node → List Node
put_node [] n = []
put_node (x ∷ xs) n = let rest = put_node xs n in if x.at == n.at then n ∷ xs else x ∷ rest

-- What a pointer to a node leads to.
unfoldable pub node_at : List Node → Ptr → Option Node
node_at [] p = none
node_at (x ∷ xs) p = let rest = node_at xs p in if x.at == p then some x else rest

-- `bano_node_alloc`, with the address and the socket that both callers set at once.
unfoldable pub node_alloc : Mem → (addr : ℕ) (socket : Ptr) → Option (Mem × Node)
node_alloc m addr socket = elim (malloc m) [
  | none ↦ none
  | some (p, k) ↦
      let new : Option (Dict NodeVal) → Node = λ d. record {
        at = p;
        flags = 0;
        addr = addr;
        name = [];
        socket = socket;
        nodl = none;
        posted_ios = [];
        pending_ios = [];
        keyval_pairs = d;
      } in
      elim (dict_init {V = NodeVal} k.left) as (λ _. Option (Mem × Node)) [
        | none ↦ some (k, new none)
        | some (left, d) ↦ some (record k { left = left }, new (some d))
      ]
]

-- `bano_list_add_tail` to the nodes
unfoldable pub add_tail_node : BanoBase → Node → Option BanoBase
add_tail_node b n = elim (malloc b.mem) [
  | none ↦ none
  | some (p, m) ↦ some (record b { mem = m; nodes = b.nodes ++ n ∷ [] })
]

-- `bano_add_node`
unfoldable pub add_node : BanoBase → NodeInfo → Ptr → BanoBase × Bool
add_node b info socket =
    let refused : BanoBase × Bool = (b, false) in
    let allocated : BanoBase × Bool = elim (node_alloc b.mem info.addr socket) [
      | none ↦ refused
      | some (m, new) ↦
          let c = record b { mem = m } in
          let n1 =
            if has_bit node_cipher info.flags
            then record new { flags = set_bit node_cipher new.flags }
            else new in
          let n2 =
            if has_bit node_name info.flags
            then record n1 { flags = set_bit node_name n1.flags; name = info.name }
            else n1 in
          elim (dict_get b.nodls info.nodl_id) as (λ _. BanoBase × Bool) [
            | none ↦ (c, false)
            | some d ↦ elim (add_tail_node c (record n2 { nodl = some d })) [
              | none ↦ (c, false)
              | some e ↦ (e, true)
            ]
          ]
    ] in
    if has_bit node_socket info.flags
    then if has_bit node_addr info.flags
      then if has_bit node_nodl_id info.flags then allocated else refused
      else refused
    else refused

-- `find_node_by_addr`, with `cmp_node_addr` under `bano_list_foreach`
unfoldable pub find_node_by_addr : List Node → ℕ → Option Node
find_node_by_addr [] addr = none
find_node_by_addr (x ∷ xs) addr =
    let rest = find_node_by_addr xs addr in if x.addr == addr then some x else rest

-- `bano_init_common_io` on the memory `raw`
unfoldable pub init_common_io : Io → Option ℕ → Io
init_common_io raw fn = record raw { flags = 0; compl_val = 0; compl_fn = fn }

-- `bano_alloc_get_io`; `raw` is what the memory held.
unfoldable pub alloc_get_io : Io → Mem → ℕ → Option ℕ → Option (Mem × Ptr × Io)
alloc_get_io raw m key fn = elim (malloc m) [
  | none ↦ none
  | some (p, k) ↦
      let io = init_common_io raw fn in
      some (
        k,
        p,
        record io {
          flags = set_bit io_reply io.flags;
          retry_ms = default_retry_ms;
          retry_count = default_retry_count;
          msg = record io.msg { op = op_get; flags = 0; saddr = 0; key = key };
        },
      )
]

-- `bano_alloc_set_io`
unfoldable pub alloc_set_io : Io → Mem → (key val : ℕ) → Bool → Option ℕ → Option (Mem × Ptr × Io)
alloc_set_io raw m key val is_ack fn = elim (malloc m) [
  | none ↦ none
  | some (p, k) ↦
      let io = init_common_io raw fn in
      let acked = record io {
        flags = set_bit io_reply io.flags;
        retry_ms = default_retry_ms;
        retry_count = default_retry_count;
      } in
      let r = if is_ack then acked else io in
      some (
        k,
        p,
        record r { msg = record r.msg { op = op_set; flags = 0; saddr = 0; key = key; val = val } },
      )
]

-- `bano_post_io` of the request at `p` to the node at `q`: `false` for an error.
unfoldable pub bano_post_io : BanoBase → Ptr → Ptr → Option (BanoBase × Bool)
bano_post_io b q p = elim (node_at b.nodes q) [
  | none ↦ none
  | some n ↦ elim (malloc b.mem) [
    | none ↦ some (b, false)
    | some (c, m) ↦ elim (b.ios p) [
      | none ↦ none
      | some io ↦
          let posted = n.posted_ios ++ record { at = c; io = p } ∷ [] in
          some (
            record b {
              mem = m;
              nodes = put_node b.nodes (record n { posted_ios = posted });
              ios = put_io b.ios p (some (record io { node = q }));
            },
            true,
          )
    ]
  ]
]
