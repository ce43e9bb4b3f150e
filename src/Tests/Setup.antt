-- ===== src/Tests/Setup.antt =====
-- A base that is opened with a small configuration.
use bano.Base.{
  Step, returns, out_of_fuel, undefined, ℕ, ◌^◌, ◌<◌, ◌≡◌, refl, Bool, true, false, Option, none,
  some, List, [], ◌∷◌, ◌==◌, if◌then◌else◌, Bytes, codes, arith, has_bit, Bool-cases, inl, inr, ap,
  ◌∙◌,
}
use bano.Timers.{Mem}
use bano.Dict.{Dict, dict_init}
use bano.Nodl.{Keyval, Nodl, flag_notif, find_keyval_item, find_in_lists, nodl_find_key}
use bano.Setup.{
  Setup, Raw, apply_structs, apply_conf, initial, bano_open, node_struct, httpd_struct,
}
use bano.Setup.Pairs.{CamInfo, yuyv_320_240}
use bano.Setup.Attached.{nil-AreDistinct}
use bano.Setup.Opened.{IsSetup}
use bano.Network.Loop.{LoopState, with_new_nodes, start_loop}
use bano.Network.Safe.{Notifies, IsSafeFor}
use bano.Tests.Network.{request, info}
use bano.Tests.Safe.{always, always_writes, rounds, rounds-Behaves}
use bano.Setup.Started.{HavePairs, start_loop-bano_open}
use bano.Setup.Structs.{open_with, bano_open-IsSetup}
use bano.Setup.Ports.{Unreachable, node_struct-unreachable}
use bano.Parser.Structs.{Struct, Pair, at}
use bano.Config.Nodes.{IsNodeInfo}
use bano.Base.{add32, sub32}
use bano.Config.Nodls.{
  apply_nodl_struct, default_name, fill_nodl, fresh_nodl, hex_prefix, is_hex, load_nodl_dir,
  load_nodl_entries, load_nodl_entry, load_nodl_file, same_text, set_added, set_last,
}
use bano.Config.Pairs.{
  apply_node_pair, apply_nodl_keyval_pair, flag_by, keyval_base, keyval_flag, keyval_fmt,
  keyval_name, node_name_pair,
}
use bano.Config.Station.{apply_base_pair, apply_base_pairs, nodl_dir_pair}
use bano.Config.{apply_each}
use bano.Dict.{
  dict_add, dict_del, dict_find_pair, dict_get, dict_set, find_pair_item, get_hash, hash_32_to_n,
  init_lists, init_with_nlist, list_at, list_del, set_list, take_mem,
}
use bano.Network.{node_at, Node, default_retry_ms, add_node, add_tail_node, node_alloc}
use bano.Nodl.{nodl_init}
use bano.Parser.Files.{get_dirname, load_file}
use bano.Setup.Pairs.{apply_socket_pair}
use bano.Setup.{httpd_init, add_socket, apply_struct, base_struct, socket_struct}
use bano.Sms.{SmsLib}
use bano.Sockets.{httpd_open, set_keyvals, snrf_open, socket_alloc}
use bano.Strings.{cmp_cstr, to_uint32, to_uint16}
use bano.Timers.{malloc}
use bano.Tests.Strings.{hexadecimal}
use bano.Tests.Sockets.{Handle, radio_lib, usb}

abbrev conf : Bytes
conf = codes "base { nodl_dir = d } socket { type = snrf } node { addr = 0x2a nodl_id = 0x0 }"

-- "c/a" and the description of a node.
abbrev files : Bytes → Option Bytes
files (c ∷ path) = if c == b'c' then some conf else some (codes "keyval { key = 0x1 }")
files [] = none

abbrev listing : Bytes → Option (List Bytes)
listing path = some (codes "00000000.nodl" ∷ [])

abbrev serves : Bytes → Bool
serves port = true

abbrev no_cam : CamInfo → Bool
no_cam i = false

abbrev no_sms : SmsLib Bytes
no_sms = record {
  encrypt_block = λ k x. x;
  decrypt_block = λ k x. x;
  opened = false;
  key = none;
  init_key = λ k. none;
  atoi = λ x. 0;
}

abbrev zeros : Struct → Raw
zeros s = record {
  snrf = usb;
  node = record { flags = 0; addr = 0; name = []; seed = 0; nodl_id = 0 };
  httpd = record { flags = 0; port = 0 };
  cam = record { flags = 0; id = 0; fmt = yuyv_320_240 };
  creds = [];
}

zeros-fit : (s : Struct) → IsNodeInfo (zeros s).node
zeros-fit s = record {
  name_fits = omega arith;
  addr_fits = omega arith;
  seed_fits = omega arith;
  nodl_id_fits = omega arith;
}

abbrev memory : Mem
memory = record { left = 60; fresh = 1 }

abbrev run : Step (Setup Handle × Bool)
run =
    open_with radio_lib serves no_cam no_sms hexadecimal files listing 99 60 zeros zeros-fit memory
      0 none (some (codes "c/a")) []

abbrev start : Setup Handle
start = initial radio_lib memory 0 none (record { lists = []; log2_nlist = 3 }) []

-- What is left of a run.
abbrev left_by : Step (Setup Handle × Bool) → Setup Handle
left_by (returns r) = r.0
left_by out_of_fuel = start
left_by undefined = start

abbrev result : Setup Handle
result = left_by run

abbrev addrs : List Node → List ℕ
addrs [] = []
addrs (n ∷ ns) = n.addr ∷ addrs ns

run-returns : (run ≡ returns (result, true)) × (addrs result.base.nodes ≡ 42 ∷ [])
unfolding bano_open add32 add_node add_socket add_tail_node apply_base_pair apply_base_pairs
    apply_conf apply_each apply_node_pair apply_nodl_keyval_pair apply_nodl_struct apply_socket_pair
    apply_struct apply_structs base_struct cmp_cstr default_name dict_add dict_del dict_find_pair
    dict_get dict_init dict_set fill_nodl find_pair_item flag_by fresh_nodl get_dirname get_hash
    hash_32_to_n hex_prefix init_lists init_with_nlist is_hex keyval_base keyval_flag keyval_fmt
    keyval_name list_at list_del load_file load_nodl_dir load_nodl_entries load_nodl_entry
    load_nodl_file malloc node_alloc node_name_pair node_struct nodl_dir_pair nodl_init same_text
    set_added set_keyvals set_last set_list snrf_open socket_alloc socket_struct sub32 take_mem
    to_uint32 to_uint16
run-returns = (refl, refl)

abbrev run_left : ℕ
run_left = 47

run_keeps : HavePairs result.base.nodes × (result.base.mem.left ≡ run_left)
unfolding bano_open add32 add_node add_socket add_tail_node apply_base_pair apply_base_pairs
    apply_conf apply_each apply_node_pair apply_nodl_keyval_pair apply_nodl_struct apply_socket_pair
    apply_struct apply_structs base_struct cmp_cstr default_name dict_add dict_del dict_find_pair
    dict_get dict_init dict_set fill_nodl find_pair_item flag_by fresh_nodl get_dirname get_hash
    hash_32_to_n hex_prefix init_lists init_with_nlist is_hex keyval_base keyval_flag keyval_fmt
    keyval_name list_at list_del load_file load_nodl_dir load_nodl_entries load_nodl_entry
    load_nodl_file malloc node_alloc node_name_pair node_struct nodl_dir_pair nodl_init same_text
    set_added set_keyvals set_last set_list snrf_open socket_alloc socket_struct sub32 take_mem
    to_uint32 to_uint16
run_keeps = (((_, refl), tt), refl)

abbrev one : Keyval
one = record { flags = 0; name = codes "0x00000001"; key = 1 }

abbrev described : Nodl
described = record {
  lists = [] ∷ [] ∷ [] ∷ [] ∷ [] ∷ [] ∷ [] ∷ (record { key = 1; val = one } ∷ []) ∷ [];
  log2_nlist = 3;
}

described-silent :
    (key : ℕ) (kv : Keyval)
    → nodl_find_key described key ≡ some kv
    → has_bit flag_notif kv.flags ≡ false
unfolding nodl_find_key find_in_lists find_keyval_item
described-silent key kv e = elim (Bool-cases (1 == key)) [
  | inl same ↦
      let here : nodl_find_key described key ≡ some one =
        rw (nodl_find_key, find_in_lists, find_keyval_item, same) refl in
      let is_kv : one ≡ kv = cc (here, e) in rw (← is_kv) refl
  | inr other ↦
      let gone : nodl_find_key described key ≡ none =
        rw (nodl_find_key, find_in_lists, find_keyval_item, other) refl in
      cc (gone, e)
]

abbrev run_node : Node
run_node = record {
  at = 2;
  flags = 0;
  addr = 42;
  name = [];
  socket = 1;
  nodl = some described;
  posted_ios = [];
  pending_ios = [];
  keyval_pairs =
      some (record { lists = [] ∷ [] ∷ [] ∷ [] ∷ [] ∷ [] ∷ [] ∷ [] ∷ []; log2_nlist = 3 });
}

run_nodes : result.base.nodes ≡ run_node ∷ []
unfolding bano_open add32 add_node add_socket add_tail_node apply_base_pair apply_base_pairs
    apply_conf apply_each apply_node_pair apply_nodl_keyval_pair apply_nodl_struct apply_socket_pair
    apply_struct apply_structs base_struct cmp_cstr default_name dict_add dict_del dict_find_pair
    dict_get dict_init dict_set fill_nodl find_pair_item flag_by fresh_nodl get_dirname get_hash
    hash_32_to_n hex_prefix init_lists init_with_nlist is_hex keyval_base keyval_flag keyval_fmt
    keyval_name list_at list_del load_file load_nodl_dir load_nodl_entries load_nodl_entry
    load_nodl_file malloc node_alloc node_name_pair node_struct nodl_dir_pair nodl_init same_text
    set_added set_keyvals set_last set_list snrf_open socket_alloc socket_struct sub32 take_mem
    to_uint32 to_uint16
run_nodes = refl

run-Notifies : Notifies result.base.sms_ready result.base.nodes
unfolding node_at
run-Notifies = rw run_nodes (λ p n e d key kv is_d found notif. elim (Bool-cases (2 == p)) [
  | inr other ↦ cc (rw other at e)
  | inl same ↦
      let is_n : run_node ≡ n = cc (rw same at e) in
      let of_n : some described ≡ n.nodl = ap (λ m. m.nodl) is_n in
      let is_described : described ≡ d = cc (of_n, is_d) in
      let silent = described-silent key kv (ap (λ x. nodl_find_key x key) is_described ∙ found) in
      cc (silent, notif)
])

none_given : (a : ℕ) → none ≡ some a → a < 2 ^ 32
none_given a e = cc e

bano_open-IsSetup_example : IsSetup radio_lib result
bano_open-IsSetup_example =
    bano_open-IsSetup radio_lib serves no_cam no_sms hexadecimal files listing 99 60 zeros zeros-fit
      memory 0 none (some (codes "c/a")) [] result none_given run-returns.0

start_loop-bano_open_example :
    (s : LoopState) × (start_loop always request 0 info result.base rounds ≡ some s)
    × IsSafeFor default_retry_ms 20 s.base
start_loop-bano_open_example =
    start_loop-bano_open radio_lib serves no_cam no_sms hexadecimal files listing 99 60 zeros
      zeros-fit always request 0 info always_writes refl memory 0 none (some (codes "c/a")) []
      result 20 rounds none_given run-returns.0 run_keeps.0 (omega (arith, run_keeps.1))
      run-Notifies (rounds-Behaves (with_new_nodes info result.base))

abbrev one_nodl : Dict Nodl
one_nodl = record {
  lists = (record { key = 0; val = record { lists = [] ∷ []; log2_nlist = 0 } } ∷ []) ∷ [];
  log2_nlist = 0;
}

-- A base with a description, but without sockets and nodes.
abbrev bare : Setup Handle
bare = initial radio_lib memory 0 none one_nodl []

bare-IsSetup : IsSetup radio_lib bare
bare-IsSetup = record {
  station = record { handled = λ e. cc; addr_fits = omega arith };
  open_sockets = tt;
  attached = tt;
  no_timers = refl;
  distinct = nil-AreDistinct 1;
}

abbrev server_struct : Struct
server_struct = record { name = at (codes "http_server") 11; pairs = [] }

abbrev node_pairs : List Pair
node_pairs =
    record { key = at (codes "addr") 4; val = at (codes "0x2a") 4 }
    ∷ record { key = at (codes "nodl_id") 7; val = at (codes "0x0") 3 }
    ∷ []

abbrev led_struct : Struct
led_struct = record { name = at (codes "node") 4; pairs = node_pairs }

abbrev served : Step (Setup Handle × Bool)
served =
    httpd_struct radio_lib serves no_cam no_sms hexadecimal files listing 99 60 zeros bare
      server_struct

abbrev with_led : Step (Setup Handle × Bool)
with_led =
    node_struct radio_lib serves no_cam no_sms hexadecimal files listing 99 60 zeros
      (left_by served) led_struct

served-runs :
    (served ≡ returns (left_by served, false))
    × (with_led ≡ returns (left_by with_led, false))
    × (addrs (left_by with_led).base.nodes ≡ 42 ∷ [])
unfolding add_node add_socket add_tail_node add32 sub32 apply_each apply_node_pair cmp_cstr dict_get
    dict_find_pair find_pair_item get_hash hash_32_to_n list_at dict_init init_lists init_with_nlist
    malloc node_alloc node_name_pair node_struct httpd_struct httpd_init httpd_open socket_alloc
    take_mem to_uint32 flag_by
served-runs = (refl, refl, refl)

node_struct-unreachable_example : Unreachable radio_lib (left_by served) (left_by with_led)
node_struct-unreachable_example =
    node_struct-unreachable radio_lib serves no_cam no_sms hexadecimal files listing 99 60 zeros
      zeros-fit bare (left_by served) (left_by with_led) server_struct led_struct false bare-IsSetup
      refl served-runs.0 served-runs.1
