-- ===== src/Network/Web.antt =====
-- The handler of src/base/bano_base.c for the requests of the web server. The reply that it makes is
-- in Pages: here an answer is its error and its value. `bano_cam_capture` is a parameter.
use bano.Base.{ℕ, Bool, true, false, Option, none, some, if◌then◌else◌, ◌==◌}
use bano.Items.{Ptr}
use bano.Timers.{Mem, malloc}
use bano.Network.{
  Io, err_success, err_failure, web_answered, BanoBase, add_event, put_io, find_node_by_addr,
  alloc_get_io, alloc_set_io, bano_post_io, put_node,
}
use bano.Dict.{dict_set_or_add}

-- `bano_httpd_msg_op_t`
pub data HttpdOp : Type 0 where
  httpd_invalid : HttpdOp
  httpd_get : HttpdOp
  httpd_set : HttpdOp
  httpd_rst : HttpdOp
  httpd_cam : HttpdOp

-- `bano_httpd_msg_t`, without what only the server reads
pub record HttpdMsg : Type 0 where
  pub op : HttpdOp
  pub naddr : ℕ
  pub key : ℕ
  pub val : ℕ
  pub is_ack : ℕ

-- `complete_httpd_msg` with the value 0
abbrev complete_httpd_msg : BanoBase → ℕ → Option BanoBase
complete_httpd_msg b err = some (add_event (web_answered err 0) b)

-- A request for a node, whose answer is the work of `on_httpd_io_compl`: the request for the
-- operation, in memory that held `raw`, with the address of `hod`.
unfoldable pub alloc_io : Io → Mem → HttpdMsg → (is_set : Bool) → Ptr → Option (Mem × Ptr × Io)
alloc_io raw m msg is_set hod =
    if is_set
    then alloc_set_io raw m msg.key msg.val (if msg.is_ack == 0 then false else true) (some hod)
    else alloc_get_io raw m msg.key (some hod)

-- The branch of `handle_httpd_msg` for `get` and `set`
unfoldable pub request_io : Io → BanoBase → HttpdMsg → (is_set : Bool) → Option BanoBase
request_io raw b msg is_set = elim (find_node_by_addr b.nodes msg.naddr) [
  | none ↦ complete_httpd_msg b err_failure
  | some n ↦ elim (malloc b.mem) [
    | none ↦ complete_httpd_msg b err_failure
    | some (hod, m) ↦ elim (alloc_io raw m msg is_set hod) [
      | none ↦ complete_httpd_msg (record b { mem = m }) err_failure
      | some (k, p, io) ↦
          let c = record b { mem = k; ios = put_io b.ios p (some io) } in
          elim (bano_post_io c n.at p) [
            | none ↦ none
            | some (d, posted) ↦
                let freed =
                  complete_httpd_msg (record d { ios = put_io d.ios p none }) err_failure in
                let sent_later : Option BanoBase = some d in if posted then sent_later else freed
          ]
    ]
  ]
]

-- The branch for `rst`, at the time `now`
unfoldable pub reset_val : BanoBase → ℕ → HttpdMsg → Option BanoBase
reset_val b now msg = elim (find_node_by_addr b.nodes msg.naddr) [
  | none ↦ complete_httpd_msg b err_failure
  | some n ↦ elim n.keyval_pairs [
    | none ↦ none
    | some d ↦ elim (dict_set_or_add b.mem.left d msg.key (record { val = 0; mtime = now })) [
      | none ↦ complete_httpd_msg b err_failure
      | some (left, e) ↦
          complete_httpd_msg
            (record b {
              mem = record b.mem { left = left };
              nodes = put_node b.nodes (record n { keyval_pairs = some e });
            })
            err_success
    ]
  ]
]

-- `handle_httpd_msg`, where `capture` is the result of `bano_cam_capture`, or -1 for no camera
unfoldable pub handle_httpd_msg : Io → (capture : ℕ) → BanoBase → ℕ → HttpdMsg → Option BanoBase
handle_httpd_msg raw capture b now msg = elim msg.op [
  | httpd_get ↦ request_io raw b msg false
  | httpd_set ↦ request_io raw b msg true
  | httpd_rst ↦ reset_val b now msg
  | httpd_cam ↦ complete_httpd_msg b capture
  | httpd_invalid ↦ complete_httpd_msg b err_success
]
