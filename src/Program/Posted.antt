-- ===== src/Program/Posted.antt =====
-- What the operations `set` and `get` of src/base/main.c post to a node.
use bano.Base.{
  ℕ, ◌%◌, ◌^◌, ◌≡◌, refl, sym, ap, ◌∙◌, Bool, true, false, Option, some, List, [], ◌∷◌, ◌++◌, ◌==◌,
  if◌then◌else◌, Bytes, codes, has_bit, set_bit, Bool-cases, inl, inr, arith,
}
use bano.Items.{Ptr}
use bano.Config.Nodls.{same_text}
use bano.Message.{op_set, op_get}
use bano.Timers.{Mem, malloc}
use bano.Network.{
  Node, Io, BanoBase, node_at, put_io, put_node, io_reply, alloc_get_io, alloc_set_io, bano_post_io,
  default_retry_ms, default_retry_count, init_common_io,
}
use bano.Network.Lookup.{node_at-put_node, node_at-at, node_at-node_at, put_io-same}
use bano.Program.{
  Job, set_node, get_node, str_to_uint32, cmdline_pair, cmdline_pairs, get_cmdline_info, main_job,
  args_job, post_new, on_node,
}

-- The arguments for a value to set, and for one to get
abbrev pub set_args : (a x v w : Bytes) → List Bytes
set_args a x v w =
    codes "-op_name"
    ∷ codes "set"
    ∷ codes "-node_addr"
    ∷ a
    ∷ codes "-op_key"
    ∷ x
    ∷ codes "-op_val"
    ∷ v
    ∷ codes "-op_ack"
    ∷ w
    ∷ []

abbrev pub get_args : (a x : Bytes) → List Bytes
get_args a x = codes "-op_name" ∷ codes "get" ∷ codes "-node_addr" ∷ a ∷ codes "-op_key" ∷ x ∷ []

-- The request at `p` for the node at `q`: its message, and whether it waits for a reply.
pub record Asks (q : Ptr) (op key val info : ℕ) (reply : Bool) (io : Io) : Type 0 where
  pub to_node : io.node ≡ q
  pub same_op : io.msg.op ≡ op
  pub same_key : io.msg.key ≡ key
  pub same_val : io.msg.val ≡ val
  pub waits : has_bit io_reply io.flags ≡ reply
  pub completes : io.compl_fn ≡ some info

module _ (raw : Io) (info : ℕ) (b : BanoBase) (q p c : Ptr) (n : Node) (m k : Mem)
    (known : node_at b.nodes q ≡ some n) (for_io : malloc b.mem ≡ some (p, m))
    (for_cell : malloc m ≡ some (c, k)) where
  -- The node with the request behind those it had
  abbrev asked : Node
  asked = record n { posted_ios = n.posted_ios ++ record { at = c; io = p } ∷ [] }

  post_new-posted :
      (frees : Bool) (io : Io)
      → (d : BanoBase) × (post_new frees b q (some (m, p, io)) ≡ some (d, true))
        × (node_at d.nodes q ≡ some asked)
        × (d.ios p ≡ some (record io { node = q }))
  unfolding post_new bano_post_io
  post_new-posted frees io =
      let there = put_io-same b.ios p (some io) in
      let d : BanoBase = record b {
        mem = k;
        nodes = put_node b.nodes asked;
        ios = put_io (put_io b.ios p (some io)) p (some (record io { node = q }));
      } in
      let is_at : n.at ≡ q = node_at-at b.nodes q n known in
      let written : node_at d.nodes q ≡ some asked =
        ap (node_at d.nodes) (sym is_at)
        ∙ node_at-put_node b.nodes asked n (node_at-node_at b.nodes q n known) in
      (
        d,
        rw (post_new, bano_post_io, known, for_cell, there) refl,
        written,
        put_io-same _ p (some (record io { node = q })),
      )

  -- The node has a request that asks so, and all is well.
  abbrev pub Posts : (op key val : ℕ) → (reply : Bool) → Option (BanoBase × Bool) → Type 0
  Posts op key val reply run =
      (d : BanoBase) × (io : Io) × (run ≡ some (d, true))
      × (node_at d.nodes q ≡ some asked)
      × (d.ios p ≡ some io)
      × Asks q op key val info reply io

  get-Posts :
      (naddr key : ℕ)
      → n.addr ≡ naddr
      → Posts op_get key raw.msg.val true (on_node raw info (get_node naddr key) b q)
  unfolding on_node alloc_get_io init_common_io
  get-Posts naddr key e =
      let io : Io = record raw {
        flags = set_bit io_reply 0;
        compl_val = 0;
        compl_fn = some info;
        retry_ms = default_retry_ms;
        retry_count = default_retry_count;
        msg = record raw.msg { op = op_get; flags = 0; saddr = 0; key = key };
      } in
      let (d, run, at_node, at_io) = post_new-posted false io in
      let asks : Asks q op_get key raw.msg.val info true (record io { node = q }) = record {
        to_node = refl;
        same_op = refl;
        same_key = refl;
        same_val = refl;
        waits = refl;
        completes = refl;
      } in
      let is_it : (n.addr == naddr) ≡ true = ground (arith, e) in
      let alloc : alloc_get_io raw b.mem key (some info) ≡ some (m, p, io) =
        rw (alloc_get_io, for_io) refl in
      (d, record io { node = q }, rw (on_node, known, is_it, alloc) run, at_node, at_io, asks)

  set_io : (key val : ℕ) (is_ack : Bool) → Io
  set_io key val is_ack = record raw {
    flags = if is_ack then set_bit io_reply 0 else 0;
    compl_val = 0;
    compl_fn = some info;
    retry_ms = if is_ack then default_retry_ms else raw.retry_ms;
    retry_count = if is_ack then default_retry_count else raw.retry_count;
    msg = record raw.msg { op = op_set; flags = 0; saddr = 0; key = key; val = val };
  }

  set_alloc :
      (key val : ℕ) (is_ack : Bool)
      → alloc_set_io raw b.mem key val is_ack (some info) ≡ some (m, p, set_io key val is_ack)
  unfolding alloc_set_io init_common_io set_io
  set_alloc key val true = rw (alloc_set_io, for_io) refl
  set_alloc key val false = rw (alloc_set_io, for_io) refl

  set-Asks :
      (key val : ℕ) (is_ack : Bool)
      → Asks q op_set key val info is_ack (record (set_io key val is_ack) { node = q })
  unfolding set_io
  set-Asks key val true = record {
    to_node = refl;
    same_op = refl;
    same_key = refl;
    same_val = refl;
    waits = refl;
    completes = refl;
  }
  set-Asks key val false = record {
    to_node = refl;
    same_op = refl;
    same_key = refl;
    same_val = refl;
    waits = refl;
    completes = refl;
  }

  set-Posts :
      (naddr key val : ℕ) (is_ack : Bool)
      → n.addr ≡ naddr
      → Posts op_set key val is_ack (on_node raw info (set_node naddr key val is_ack) b q)
  unfolding on_node
  set-Posts naddr key val is_ack e =
      let io : Io = set_io key val is_ack in
      let (d, run, at_node, at_io) = post_new-posted true io in
      let is_it : (n.addr == naddr) ≡ true = ground (arith, e) in
      let alloc = set_alloc key val is_ack in
      (
        d,
        record io { node = q },
        rw (on_node, known, is_it, alloc) run,
        at_node,
        at_io,
        set-Asks key val is_ack,
      )

  module _ (strtoul : Bytes → ℕ → ℕ) where
    set_job :
        (a x v w : Bytes)
        → args_job strtoul (set_args a x v w)
          ≡ some (
              set_node
                (str_to_uint32 strtoul a)
                (str_to_uint32 strtoul x % 2 ^ 16)
                (str_to_uint32 strtoul v)
                (same_text w (codes "1")))
    unfolding args_job get_cmdline_info cmdline_pairs cmdline_pair main_job same_text
    set_job a x v w = elim (Bool-cases (same_text w (codes "1"))) [
      | inl e ↦ rw e refl
      | inr e ↦ rw e refl
    ]

    -- Called with the operation set, an address, a key, a value and a flag for the reply, `main`
    -- chooses an operation that, for a node with that address and with memory for two requests,
    -- posts to the node, behind the requests it has, one that sets the lowest 16 bits of the key
    -- to the value, waits for a reply exactly if the flag is "1", and completes by the function
    -- given.
    pub set_args-Posts :
        (a x v w : Bytes)
        → n.addr ≡ str_to_uint32 strtoul a
        → (job : Job) × (args_job strtoul (set_args a x v w) ≡ some job)
          × Posts op_set
              (str_to_uint32 strtoul x % 2 ^ 16)
              (str_to_uint32 strtoul v)
              (same_text w (codes "1"))
              (on_node raw info job b q)
    set_args-Posts a x v w e = (_, set_job a x v w, set-Posts _ _ _ _ e)

    get_job :
        (a x : Bytes)
        → args_job strtoul (get_args a x)
          ≡ some (get_node (str_to_uint32 strtoul a) (str_to_uint32 strtoul x % 2 ^ 16))
    unfolding args_job get_cmdline_info cmdline_pairs cmdline_pair main_job same_text
    get_job a x = refl

    pub get_args-Posts :
        (a x : Bytes)
        → n.addr ≡ str_to_uint32 strtoul a
        → (job : Job) × (args_job strtoul (get_args a x) ≡ some job)
          × Posts op_get
              (str_to_uint32 strtoul x % 2 ^ 16)
              raw.msg.val
              true
              (on_node raw info job b q)
    get_args-Posts a x e = (_, get_job a x, get-Posts _ _ e)
