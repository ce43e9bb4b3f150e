-- ===== src/Network/Safe/Requests.antt =====
-- `handle_httpd_msg` of src/base/bano_base.c, on a base whose requests are in order.
use bano.Base.{
  ℕ, ◌+◌, ◌≤◌, ◌≡◌, refl, Bool, true, false, some, [], ◌∷◌, ◌++◌, ◌==◌, has_bit, set_bit,
  length-append, arith, Bool-cases, Option-cases, inl, inr,
}
use bano.Items.{Ptr}
use bano.Dict.{dict_set_or_add}
use bano.Message.{op_set, op_get}
use bano.Timers.{Mem}
use bano.Timers.Dues.{granted, malloc-runs}
use bano.Network.{
  NodeVal, Node, Io, io_reply, default_retry_ms, default_retry_count, init_common_io, err_success,
  err_failure, web_answered, BanoBase, add_event, put_io, put_node, node_at, alloc_get_io,
  alloc_set_io, bano_post_io, find_node_by_addr,
}
use bano.Network.Web.{
  HttpdOp, HttpdMsg, httpd_invalid, httpd_get, httpd_set, httpd_rst, httpd_cam, alloc_io,
  request_io, reset_val, handle_httpd_msg,
}
use bano.Network.Lookup.{put_io-same}
use bano.Network.Safe.{IsSafeFor}
use bano.Network.Safe.Moves.{Unheld}
use bano.Network.Safe.Nodes.{find_node_by_addr-node_at}
use bano.Network.Safe.Kept.{put_node-Notifies, posted_total-put_node}
use bano.Network.Safe.Places.{posted_added}
use bano.Network.Safe.Writes.{put_io-twice}
use bano.Network.Safe.Messages.{put_kept-IsSafeFor, dict_set_or_add-left}

-- A request for the web server gets the time that every request gets.
alloc_io-runs :
    (raw : Io) (m : Mem) (msg : HttpdMsg) (is_set : Bool) (hod : Ptr)
    → 1 ≤ m.left
    → (io : Io) × (alloc_io raw m msg is_set hod ≡ some (granted m, m.fresh, io))
      × (has_bit io_reply io.flags ≡ true → io.retry_ms ≡ default_retry_ms)
unfolding alloc_io alloc_get_io alloc_set_io init_common_io
alloc_io-runs raw m msg false hod one = (
  record (init_common_io raw (some hod)) {
    flags = set_bit io_reply 0;
    retry_ms = default_retry_ms;
    retry_count = default_retry_count;
    msg = record raw.msg { op = op_get; flags = 0; saddr = 0; key = msg.key };
  },
  rw (alloc_get_io, malloc-runs m one) refl,
  λ r. refl,
)
alloc_io-runs raw m msg true hod one =
    let io = init_common_io raw (some hod) in
    let set = record raw.msg { op = op_set; flags = 0; saddr = 0; key = msg.key; val = msg.val } in
    elim (Bool-cases (msg.is_ack == 0)) [
      | inl plain ↦
          (record io { msg = set }, rw (alloc_set_io, malloc-runs m one, plain) refl, λ r. cc r)
      | inr acked ↦ (
        record io {
          flags = set_bit io_reply 0;
          retry_ms = default_retry_ms;
          retry_count = default_retry_count;
          msg = set;
        },
        rw (alloc_set_io, malloc-runs m one, acked) refl,
        λ r. refl,
      )
    ]

-- `bano_post_io` of a request that no list has
bano_post_io-IsSafeFor :
    (ms k : ℕ) (b : BanoBase) (n : Node) (p : Ptr) (io : Io)
    → IsSafeFor ms (k + 4) b
    → node_at b.nodes n.at ≡ some n
    → Unheld b.nodes p
    → (f : ℕ) → b.mem.fresh ≤ f
    → p + 1 ≤ f
    → (has_bit io_reply io.flags ≡ true → io.retry_ms ≡ ms)
    → let c = record b { mem = record b.mem { fresh = f }; ios = put_io b.ios p (some io) } in
      (d : BanoBase) × (bano_post_io c n.at p ≡ some (d, true)) × IsSafeFor ms k d
unfolding bano_post_io
bano_post_io-IsSafeFor ms k b n p io h at_n free f le lt time =
    let more = record n { posted_ios = n.posted_ios ++ record { at = f; io = p } ∷ [] } in
    let jo = record io { node = n.at } in
    let safe =
      posted_added ms b.mem.fresh b.nodes b.timers b.ios n h.0 at_n f p (f + 1) jo le (omega arith)
        (omega (arith, lt)) free refl time in
    let total = posted_total-put_node b.nodes more n at_n in
    let one_more = length-append n.posted_ios (record { at = f; io = p } ∷ []) in
    let mem = record b.mem { fresh = f } in
    (
      record b {
        mem = granted mem;
        nodes = put_node b.nodes more;
        ios = put_io (put_io b.ios p (some io)) p (some jo);
      },
      rw (bano_post_io, at_n, malloc-runs mem (omega (arith, h.1)), put_io-same b.ios p (some io))
          refl,
      (
        rw (put_io-twice b.ios p (some io) (some jo)) safe,
        omega (arith, h.1, total, one_more),
        put_node-Notifies b.sms_ready b.nodes more n h.2 at_n refl,
      ),
    )

module _ (k : ℕ) where
  -- The branch for `get` and `set`, with memory for what it asks for
  request_io-IsSafeFor :
      (raw : Io) (b : BanoBase) (msg : HttpdMsg) (is_set : Bool)
      → IsSafeFor default_retry_ms (k + 6) b
      → (d : BanoBase) × (request_io raw b msg is_set ≡ some d) × IsSafeFor default_retry_ms k d
  unfolding request_io
  request_io-IsSafeFor raw b msg is_set h =
      elim (Option-cases (find_node_by_addr b.nodes msg.naddr)) [
        | inl unknown ↦ (
          add_event (web_answered err_failure 0) b,
          rw (request_io, unknown) refl,
          (h.0, omega (arith, h.1), h.2),
        )
        | inr (n, found) ↦
            let at_n = find_node_by_addr-node_at b.nodes msg.naddr n h.0.are_nodes.apart found in
            let m = granted b.mem in
            let (io, made, time) =
              alloc_io-runs raw m msg is_set b.mem.fresh (omega (arith, h.1)) in
            let c = record b { mem = record (granted m) { fresh = b.mem.fresh } } in
            let (d, run, ready) =
              bano_post_io-IsSafeFor default_retry_ms k c n m.fresh io
                (h.0, omega (arith, h.1), h.2) at_n
                (λ y e in_y. let old = (h.0.are_held.held y e in_y).old_io in ground (arith, old))
                (b.mem.fresh + 1 + 1) (omega arith) (omega arith) time in
            (
              d,
              rw (request_io, found, malloc-runs b.mem (omega (arith, h.1)), made, run) refl,
              ready,
            )
      ]

  -- The branch for `rst`
  reset_val-IsSafeFor :
      (ms : ℕ) (b : BanoBase) (now : ℕ) (msg : HttpdMsg)
      → IsSafeFor ms (k + 6) b
      → (d : BanoBase) × (reset_val b now msg ≡ some d) × IsSafeFor ms k d
  unfolding reset_val
  reset_val-IsSafeFor ms b now msg h = elim (Option-cases (find_node_by_addr b.nodes msg.naddr)) [
    | inl unknown ↦ (
      add_event (web_answered err_failure 0) b,
      rw (reset_val, unknown) refl,
      (h.0, omega (arith, h.1), h.2),
    )
    | inr (n, found) ↦
        let at_n = find_node_by_addr-node_at b.nodes msg.naddr n h.0.are_nodes.apart found in
        let (d, has) = (h.0.are_nodes.each n.at n at_n).pairs in
        let v : NodeVal = record { val = 0; mtime = now } in
        elim (Option-cases (dict_set_or_add b.mem.left d msg.key v)) [
          | inl full ↦ (
            add_event (web_answered err_failure 0) b,
            rw (reset_val, found, has, full) refl,
            (h.0, omega (arith, h.1), h.2),
          )
          | inr ((left, e), set) ↦
              let m = record n { keyval_pairs = some e } in
              let c = record b { mem = record b.mem { left = left }; nodes = put_node b.nodes m } in
              let le = dict_set_or_add-left b.mem.left left d e msg.key v set in
              (
                add_event (web_answered err_success 0) c,
                rw (reset_val, found, has, set) refl,
                put_kept-IsSafeFor ms (k + 6) k b c n m h at_n refl refl refl refl (e, refl) refl
                    refl refl refl (omega (arith, le)),
              )
        ]
  ]

  -- A message from the web server
  pub handle_httpd_msg-IsSafeFor :
      (raw : Io) (capture : ℕ) (b : BanoBase) (now : ℕ) (msg : HttpdMsg)
      → IsSafeFor default_retry_ms (k + 6) b
      → (d : BanoBase) × (handle_httpd_msg raw capture b now msg ≡ some d)
        × IsSafeFor default_retry_ms k d
  unfolding handle_httpd_msg
  handle_httpd_msg-IsSafeFor raw capture b now msg h = by_op msg.op refl
    where
      same : IsSafeFor default_retry_ms k b
      same = (h.0, omega (arith, h.1), h.2)

      by_op :
          (o : HttpdOp)
          → msg.op ≡ o
          → (d : BanoBase) × (handle_httpd_msg raw capture b now msg ≡ some d)
            × IsSafeFor default_retry_ms k d
      by_op httpd_get e = rw (handle_httpd_msg, e) (request_io-IsSafeFor raw b msg false h)
      by_op httpd_set e = rw (handle_httpd_msg, e) (request_io-IsSafeFor raw b msg true h)
      by_op httpd_rst e =
          rw (handle_httpd_msg, e) (reset_val-IsSafeFor default_retry_ms b now msg h)
      by_op httpd_cam e =
          (add_event (web_answered capture 0) b, rw (handle_httpd_msg, e) refl, same)
      by_op httpd_invalid e =
          (add_event (web_answered err_success 0) b, rw (handle_httpd_msg, e) refl, same)
