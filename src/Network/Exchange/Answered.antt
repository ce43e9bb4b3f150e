-- ===== src/Network/Exchange/Answered.antt =====
-- Requests of src/base/bano_base.c that src/node/bano_node.c answers.
use bano.Base.{
  ℕ, ◌%◌, ◌^◌, ◌≤◌, ◌<◌, ◌≡◌, refl, ◌∙◌, Bool, true, false, some, [], ◌∷◌, ◌==◌, has_bit, set_bit,
  Bytes, arith,
}
use bano.Items.{Ptr}
use bano.Dict.{Dict}
use bano.Message.{Msg, op_set, op_get, flag_reply, flag_err, flag_enc, bytes_msg, unseal}
use bano.Message.Wire.{IsMsg}
use bano.Network.{NodeVal, Cell, Node, Io, LoopInfo, BanoBase, node_at, find_node_by_addr}
use bano.Network.Receive.{cmp_pending_io, handle_set_msg, dispatch, handle_bano_msg}
use bano.Network.Stored.{Knows}
use bano.Network.Steps.{wire}
use bano.Network.Exchange.{
  IsOldest, IsDone, handle_set_msg-IsDone, SameCipher, send_msg-IsRead, receive-IsRead,
}
use bano.Firmware.{receive, send_msg, on_msg, make_set_msg}

-- The node is in the base, ready for a value of the key.
pub record IsReady (b : BanoBase) (n : Node) (key node_addr : ℕ) : Type 0 where
  pub by_addr : find_node_by_addr b.nodes node_addr ≡ some n
  pub at_n : node_at b.nodes n.at ≡ some n
  pub is_addr : n.addr ≡ node_addr
  pub addr_fits : node_addr < 2 ^ 32
  pub pairs : Dict NodeVal
  pub has_pairs : n.keyval_pairs ≡ some pairs
  pub has_mem : 2 ≤ b.mem.left
  pub knows : Knows b.sms_ready n key

-- A message for a node of the base that sets a value
handle_bano_msg-set :
    (info : LoopInfo) (b : BanoBase) (now : ℕ) (socket : Ptr) (p : Bytes) (m : Msg) (n : Node)
    → bytes_msg (unseal b.cipher p) ≡ m
    → find_node_by_addr b.nodes m.saddr ≡ some n
    → m.op ≡ op_set
    → handle_bano_msg info b now socket p ≡ handle_set_msg info b now m n
unfolding handle_bano_msg dispatch
handle_bano_msg-set info b now socket p m n is_m by_addr is_set =
    let op : (m.op == op_set) ≡ true = ground (arith, is_set) in
    rw (handle_bano_msg, is_m, by_addr) (rw is_m (rw (dispatch, op) refl))

-- The firmware of a node, with its address, its cipher and its handlers
pub record Board : Type 0 where
  pub node_addr : ℕ
  pub has_cipher : Bool
  pub enc : Bytes → Bytes
  pub dec : Bytes → Bytes
  pub set_handler : ℕ → ℕ → ℕ
  pub get_handler : ℕ → ℕ × ℕ

-- The firmware `fw` sends one message for what the base has written for the request, and the base
-- completes the request with it.
abbrev pub Exchanged : Board → LoopInfo → BanoBase → ℕ → Ptr → Node → Cell → Io → ℕ → ℕ → Type 0
Exchanged fw info b now socket n c io f val =
    (p : Bytes) × (d : BanoBase) × (on_msg fw.node_addr fw.has_cipher fw.enc fw.dec fw.set_handler
        fw.get_handler (bytes_msg (receive fw.node_addr fw.has_cipher fw.enc fw.dec (wire b n io)))
      ≡ p ∷ [])
    × (handle_bano_msg info b now socket p ≡ some d)
    × IsDone c f val d

module _ (fw : Board) (info : LoopInfo) (b : BanoBase) (now : ℕ) (socket : Ptr) (n : Node)
    (c : Cell) (io : Io) (f : ℕ) (ready : IsReady b n io.msg.key fw.node_addr)
    (same : SameCipher fw.node_addr fw.has_cipher fw.enc fw.dec b.cipher n.flags)
    (oldest : IsOldest b n c io) (fn : io.compl_fn ≡ some f) where
  -- The answer `a`, sent by the firmware, at the base
  heard :
      (a : Msg)
      → IsMsg (record a { saddr = fw.node_addr })
      → a.op ≡ op_set
      → a.key ≡ io.msg.key
      → has_bit flag_reply a.flags ≡ true
      → has_bit flag_err a.flags ≡ false
      → has_bit flag_enc a.flags ≡ false
      → ((m : Msg)
          → m.saddr ≡ fw.node_addr
          → m.key ≡ a.key
          → m.val ≡ a.val
          → cmp_pending_io n m io ≡ true)
      → (d : BanoBase) × (handle_bano_msg info b now socket
            (send_msg fw.node_addr fw.has_cipher fw.enc fw.dec a)
          ≡ some d)
        × IsDone c f a.val d
  heard a fits is_set is_key reply good plain matches =
      let r =
        send_msg-IsRead fw.node_addr fw.has_cipher fw.enc fw.dec b.cipher n.flags a same fits
          plain in
      let m : Msg = record a { saddr = fw.node_addr; flags = r.flags } in
      let (d, run, done) =
        handle_set_msg-IsDone info b now m n ready.pairs c io f ready.at_n ready.has_pairs
          ready.has_mem (rw is_key ready.knows) (r.same_err ∙ good) (r.same_reply ∙ reply) oldest
          (matches m refl refl refl) fn in
      (
        d,
        handle_bano_msg-set info b now socket (send_msg fw.node_addr fw.has_cipher fw.enc fw.dec a)
              m n r.is_m ready.by_addr is_set
            ∙ run,
        done,
      )

  -- The sender, key and value of the answer are those that the request waits for.
  matches_set :
      (m : Msg)
      → m.saddr ≡ fw.node_addr
      → m.key ≡ io.msg.key
      → m.val ≡ io.msg.val
      → cmp_pending_io n m io ≡ true
  unfolding cmp_pending_io
  matches_set m s k v = ground (arith, ready.is_addr)

  matches_get :
      (m : Msg)
      → io.msg.op ≡ op_get
      → m.saddr ≡ fw.node_addr
      → m.key ≡ io.msg.key
      → cmp_pending_io n m io ≡ true
  unfolding cmp_pending_io
  matches_get m g s k = ground (arith, ready.is_addr)

  module _ (fits : IsMsg io.msg) where
    -- A request to set a value, which is the oldest that waits at a ready node (which has its
    -- dictionary, knows the key, and asks for no text message for it unless the handle for them
    -- has been opened with an address; the base has memory for two requests), with its timer in
    -- the list, all links set: the firmware with that address, whose handler asks for a reply
    -- without an error and without the flag for encryption, sends one message for what the base
    -- has written, and the base completes the request with it, with success and the value. The
    -- cipher is none on both sides, or the same on 16 bytes, and all fields fit.
    pub exchange_set :
        io.msg.op ≡ op_set
        → has_bit flag_reply (fw.set_handler io.msg.key io.msg.val) ≡ true
        → has_bit flag_err (fw.set_handler io.msg.key io.msg.val) ≡ false
        → has_bit flag_enc (fw.set_handler io.msg.key io.msg.val) ≡ false
        → Exchanged fw info b now socket n c io f io.msg.val
    unfolding on_msg
    exchange_set is_set reply good plain =
        let r = receive-IsRead fw.node_addr fw.has_cipher fw.enc fw.dec b n io same fits in
        let fl = fw.set_handler io.msg.key io.msg.val in
        let a : Msg = record io.msg { flags = fl % 64 } in
        let a_fits : IsMsg (record a { saddr = fw.node_addr }) = record {
          op_fits = fits.op_fits;
          flags_fits = omega arith;
          saddr_fits = ready.addr_fits;
          csum_fits = fits.csum_fits;
          token_fits = fits.token_fits;
          key_fits = fits.key_fits;
          val_fits = fits.val_fits;
        } in
        let (d, run, done) =
          heard a a_fits is_set refl (ground (arith, reply)) (ground (arith, good))
            (ground (arith, plain)) matches_set in
        let op : (io.msg.op == op_set) ≡ true = ground (arith, is_set) in
        (
          send_msg fw.node_addr fw.has_cipher fw.enc fw.dec a,
          d,
          rw (r.is_m, op, reply) refl,
          run,
          done,
        )

    -- A request for a value, which is the oldest that waits at a ready node (which has its
    -- dictionary, knows the key, and asks for no text message for it unless the handle for them
    -- has been opened with an address; the base has memory for two requests), with its timer in
    -- the list, all links set: the firmware with that address, whose handler gives a value that
    -- fits without an error and without the flag for encryption, sends one message for what the
    -- base has written, and the base completes the request with it, with success and that value.
    -- The cipher is none on both sides, or the same on 16 bytes, and all fields fit.
    pub exchange_get :
        io.msg.op ≡ op_get
        → (fw.get_handler io.msg.key).1 < 2 ^ 32
        → has_bit flag_err (fw.get_handler io.msg.key).0 ≡ false
        → has_bit flag_enc (fw.get_handler io.msg.key).0 ≡ false
        → Exchanged fw info b now socket n c io f (fw.get_handler io.msg.key).1
    unfolding on_msg make_set_msg
    exchange_get is_get small good plain =
        let r = receive-IsRead fw.node_addr fw.has_cipher fw.enc fw.dec b n io same fits in
        let got = fw.get_handler io.msg.key in
        let fl = set_bit flag_reply got.0 % 64 in
        let a : Msg = record io.msg { op = op_set; flags = fl; val = got.1 } in
        let a_fits : IsMsg (record a { saddr = fw.node_addr }) = record {
          op_fits = omega arith;
          flags_fits = omega arith;
          saddr_fits = ready.addr_fits;
          csum_fits = fits.csum_fits;
          token_fits = fits.token_fits;
          key_fits = fits.key_fits;
          val_fits = small;
        } in
        let (d, run, done) =
          heard a a_fits refl refl (reply_set got.0) (kept got.0 good plain).0
            (kept got.0 good plain).1 (λ m s k v. matches_get m is_get s k) in
        let not_set : (io.msg.op == op_set) ≡ false = ground (arith, is_get) in
        let op : (io.msg.op == op_get) ≡ true = ground (arith, is_get) in
        (
          send_msg fw.node_addr fw.has_cipher fw.enc fw.dec a,
          d,
          rw (r.is_m, not_set, op) refl,
          run,
          done,
        )
      where
        reply_set : (x : ℕ) → has_bit flag_reply (set_bit flag_reply x % 64) ≡ true
        reply_set x = ground arith

        kept :
            (x : ℕ)
            → has_bit flag_err x ≡ false
            → has_bit flag_enc x ≡ false
            → (has_bit flag_err (set_bit flag_reply x % 64) ≡ false)
              × (has_bit flag_enc (set_bit flag_reply x % 64) ≡ false)
        kept x e p = (ground (arith, e), ground (arith, p))
