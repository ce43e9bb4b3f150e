-- ===== src/Config/Pairs.antt =====
-- The callbacks of src/base/bano_base.c on the pairs of structures.
use bano.Base.{
  ℕ, Bool, true, false, not, none, some, ◌==◌, if◌then◌else◌, Bytes, codes, take, ltb, set_bit,
  clear_bit,
}
use bano.Strings.{BanoString, cmp_cstr, to_bool, to_uint16, to_uint32}
use bano.Parser.Structs.{Pair}
use bano.Nodl.{
  Keyval, fmt_bool, fmt_uint8, fmt_uint16, fmt_uint32, base_bin, base_dec, flag_mtime, flag_get,
  flag_set, flag_rst, flag_ack, flag_notif,
}

-- A bit of a flag word, set or cleared by a truth value.
unfoldable pub flag_by : ℕ → BanoString → ℕ → ℕ × Bool
flag_by k s flags = elim (to_bool s) [
  | none ↦ (flags, true)
  | some x ↦ ((if x == 0 then clear_bit k flags else set_bit k flags), false)
]

unfoldable pub keyval_flag : ℕ → Keyval → BanoString → Keyval × Bool
keyval_flag k kv s = let r = flag_by k s kv.flags in (record kv { flags = r.0 }, r.1)

-- The branch for "name": `name` has 32 bytes.
unfoldable pub keyval_name : Keyval → BanoString → Keyval × Bool
keyval_name kv s =
    let size = if not (ltb s.size 32) then 31 else s.size in
    (record kv { name = take size s.bytes }, false)

-- The branch for "fmt": the third and the fourth test are made in any case, and only the last has
-- the error for its other branch.
unfoldable pub keyval_fmt : Keyval → BanoString → Keyval × Bool
keyval_fmt kv s =
    let f1 =
      if cmp_cstr s (codes "bool")
      then set_bit fmt_bool kv.flags
      else if cmp_cstr s (codes "uint8")
      then set_bit fmt_uint8 kv.flags
      else kv.flags in
    let f2 = if cmp_cstr s (codes "uint16") then set_bit fmt_uint16 f1 else f1 in
    let known : Keyval × Bool = (record kv { flags = set_bit fmt_uint32 f2 }, false) in
    let unknown : Keyval × Bool = (record kv { flags = f2 }, true) in
    if cmp_cstr s (codes "uint32") then known else unknown

-- The branch for "base"
unfoldable pub keyval_base : Keyval → BanoString → Keyval × Bool
keyval_base kv s =
    let dec : Keyval × Bool = (record kv { flags = set_bit base_dec kv.flags }, false) in
    let bin : Keyval × Bool = (record kv { flags = set_bit base_bin kv.flags }, false) in
    let unknown : Keyval × Bool = (kv, true) in
    if cmp_cstr s (codes "dec") then dec else if cmp_cstr s (codes "bin") then bin else unknown

-- `bano_node_info_t`, without the socket
pub record NodeInfo : Type 0 where
  pub flags : ℕ
  pub addr : ℕ
  pub name : Bytes
  pub seed : ℕ
  pub nodl_id : ℕ

-- `BANO_NODE_FLAG_ADDR` to `BANO_NODE_FLAG_NAME`, as the numbers of their bits
abbrev pub node_addr : ℕ
node_addr = 0

abbrev pub node_seed : ℕ
node_seed = 1

abbrev pub node_nodl_id : ℕ
node_nodl_id = 2

abbrev pub node_cipher : ℕ
node_cipher = 3

abbrev pub node_socket : ℕ
node_socket = 4

abbrev pub node_name : ℕ
node_name = 5

unfoldable pub node_name_pair : NodeInfo → BanoString → NodeInfo × Bool
node_name_pair n s =
    let long : NodeInfo × Bool = (n, true) in
    let fits : NodeInfo × Bool =
      (record n { name = take s.size s.bytes; flags = set_bit node_name n.flags }, false) in
    if not (ltb s.size 32) then long else fits

module _ (strtoul : Bytes → ℕ → ℕ) where
  -- `apply_nodl_keyval_pair`
  unfoldable pub apply_nodl_keyval_pair : Keyval → Pair → Keyval × Bool
  apply_nodl_keyval_pair kv p =
      let key : Keyval × Bool = elim (to_uint16 strtoul p.val) [
        | none ↦ (kv, true)
        | some x ↦ (record kv { key = x }, false)
      ] in
      let unknown : Keyval × Bool = (kv, true) in
      if cmp_cstr p.key (codes "name")
      then keyval_name kv p.val
      else if cmp_cstr p.key (codes "key")
      then key
      else if cmp_cstr p.key (codes "fmt")
      then keyval_fmt kv p.val
      else if cmp_cstr p.key (codes "base")
      then keyval_base kv p.val
      else if cmp_cstr p.key (codes "mtime")
      then keyval_flag flag_mtime kv p.val
      else if cmp_cstr p.key (codes "get")
      then keyval_flag flag_get kv p.val
      else if cmp_cstr p.key (codes "set")
      then keyval_flag flag_set kv p.val
      else if cmp_cstr p.key (codes "ack")
      then keyval_flag flag_ack kv p.val
      else if cmp_cstr p.key (codes "rst")
      then keyval_flag flag_rst kv p.val
      else if cmp_cstr p.key (codes "notif")
      then keyval_flag flag_notif kv p.val
      else unknown

  -- `apply_node_pair`; a flag is set before its value is read.
  unfoldable pub apply_node_pair : NodeInfo → Pair → NodeInfo × Bool
  apply_node_pair n p =
      let with_flag = λ (k : ℕ). record n { flags = set_bit k n.flags } in
      let word = λ (k : ℕ). λ (put : ℕ → NodeInfo).
        elim (to_uint32 strtoul p.val) as (λ _. NodeInfo × Bool) [
          | none ↦ (with_flag k, true)
          | some x ↦ (put x, false)
        ] in
      let cipher : NodeInfo × Bool =
        let r = flag_by node_cipher p.val n.flags in (record n { flags = r.0 }, r.1) in
      let unknown : NodeInfo × Bool = (n, true) in
      if cmp_cstr p.key (codes "addr")
      then word node_addr (λ x. record (with_flag node_addr) { addr = x })
      else if cmp_cstr p.key (codes "name")
      then node_name_pair n p.val
      else if cmp_cstr p.key (codes "seed")
      then word node_seed (λ x. record (with_flag node_seed) { seed = x })
      else if cmp_cstr p.key (codes "nodl_id")
      then word node_nodl_id (λ x. record (with_flag node_nodl_id) { nodl_id = x })
      else if cmp_cstr p.key (codes "cipher")
      then cipher
      else unknown
